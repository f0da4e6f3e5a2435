-- ===== src/Ble/Told.antt =====
-- What a connection callback has been told, among the calls that a driver has made.
use jenlib.Common.{◌≡◌, refl, ap, Bool, List, [], ◌∷◌, ◌++◌}
use jenlib.Ble.Native.{CallbackRun, connection, start_broadcast, reading, receipt, message}

abbrev pub told : List CallbackRun → List Bool
told [] = []
told (connection connected ∷ calls) = connected ∷ told calls
told (call ∷ calls) = told calls

-- The last of the changes, or the state before them.
abbrev pub last_or : Bool → List Bool → Bool
last_or state [] = state
last_or state (change ∷ changes) = last_or change changes

pub told-append : (xs ys : List CallbackRun) → told (xs ++ ys) ≡ told xs ++ told ys
told-append [] ys = refl
told-append (connection c ∷ xs) ys = ap (λ l. c ∷ l) (told-append xs ys)
told-append (start_broadcast a b ∷ xs) ys = told-append xs ys
told-append (reading a b ∷ xs) ys = told-append xs ys
told-append (receipt a b ∷ xs) ys = told-append xs ys
told-append (message a b ∷ xs) ys = told-append xs ys

pub last_or-append :
    (state : Bool) (xs ys : List Bool) → last_or state (xs ++ ys) ≡ last_or (last_or state xs) ys
last_or-append state [] ys = refl
last_or-append state (x ∷ xs) ys = last_or-append x xs ys
