-- ===== src/Ble/Arduino/Edges.antt =====
-- What the Arduino driver tells of its connection while it is polled.
use jenlib.Common.{
  ℕ, ◌+◌, length, inl, inr, Bool-cases, ◌≡◌, ◌≢◌, refl, sym, ap, subst, ◌∙◌, Bool, true, false,
  List, [], ◌∷◌, ◌++◌, if◌then◌else◌, arith,
}
use mathlib.Core.List.{append_assoc, append-nil}
use jenlib.Ble.Native.{CallbackRun, connection}
use jenlib.Ble.Told.{told, told-append, last_or}
use jenlib.Ble.Arduino.{ArduinoBleDriver, process_ble_events, poll, differs}

-- The driver is polled once for each state of the link.
pub poll_all : List Bool → ArduinoBleDriver → ArduinoBleDriver
poll_all [] d = d
poll_all (connected ∷ states) d = poll_all states (poll connected d)

-- Each differs from the one before.
abbrev pub Alternates : Bool → List Bool → Type 0
Alternates state [] = Unit {0}
Alternates state (x ∷ xs) = (x ≢ state) × Alternates x xs

-- How often a sequence of states changes.
abbrev pub count_changes : Bool → List Bool → ℕ
count_changes state [] = 0
count_changes state (x ∷ xs) = (if differs x state then 1 else 0) + count_changes x xs

pub record IsPolled (d : ArduinoBleDriver) : Type 0 where
  pub ready : d.initialized ≡ true
  pub heard : d.connection_callback ≡ true

-- One poll.
abbrev call_for : Bool → Bool → List CallbackRun
call_for connected last = if differs connected last then connection connected ∷ [] else []

poll_effect :
    (connected : Bool) (d : ArduinoBleDriver)
    → IsPolled d
    → let d' = poll connected d in
      (d'.initialized ≡ true)
      × (d'.connection_callback ≡ true)
      × (d'.last_connected_state ≡ connected)
      × (d'.calls ≡ d.calls ++ call_for connected d.last_connected_state)
unfolding poll process_ble_events
poll_effect true d l = ground (arith, append-nil d.calls)
poll_effect false d l = ground (arith, append-nil d.calls)

-- The states without those that repeat the one before.
abbrev changes_of : Bool → List Bool → List Bool
changes_of state [] = []
changes_of state (x ∷ xs) = (if differs x state then x ∷ [] else []) ++ changes_of x xs

told-call_for :
    (connected last : Bool)
    → told (call_for connected last) ≡ (if differs connected last then connected ∷ [] else [])
told-call_for true true = refl
told-call_for true false = refl
told-call_for false true = refl
told-call_for false false = refl

poll_all-told :
    (states : List Bool) (d : ArduinoBleDriver)
    → IsPolled d
    → let d' = poll_all states d in
      (told d'.calls ≡ told d.calls ++ changes_of d.last_connected_state states)
      × (d'.last_connected_state ≡ last_or d.last_connected_state states)
unfolding poll_all
poll_all-told [] d l = (sym (append-nil _), refl)
poll_all-told (x ∷ xs) d l =
    let (ready, heard, now, made) = poll_effect x d l in
    let d1 = poll x d in
    let (t, s) = poll_all-told xs d1 (record { ready = ready; heard = heard }) in
    let head = if differs x d.last_connected_state then x ∷ [] else [] in
    let first : told d1.calls ≡ told d.calls ++ head =
      ap told made
      ∙ told-append d.calls (call_for x d.last_connected_state)
      ∙ ap (λ r. told d.calls ++ r) (told-call_for x d.last_connected_state) in
    (
      t
          ∙ ap (λ r. told d1.calls ++ changes_of r xs) now
          ∙ ap (λ r. r ++ changes_of x xs) first
          ∙ append_assoc (told d.calls) head (changes_of x xs),
      s ∙ ap (λ r. last_or r xs) now,
    )

differs-ne : (x y : Bool) → differs x y ≡ true → x ≢ y
differs-ne true true h = cc
differs-ne true false h = λ e. cc
differs-ne false true h = λ e. cc
differs-ne false false h = cc

-- A state that changes nothing is the one before.
same_of_differs : (x y : Bool) → differs x y ≡ false → x ≡ y
same_of_differs true true h = refl
same_of_differs true false h = cc
same_of_differs false true h = cc
same_of_differs false false h = refl

changes_of-Alternates :
    (state : Bool) (xs : List Bool)
    → Alternates state (changes_of state xs)
      × (last_or state (changes_of state xs) ≡ last_or state xs)
      × (length (changes_of state xs) ≡ count_changes state xs)
changes_of-Alternates state [] = (tt, refl, refl)
changes_of-Alternates state (x ∷ xs) =
    let (alt, last, count) = changes_of-Alternates x xs in
    elim (Bool-cases (differs x state)) [
      | inl new ↦ rw new ((differs-ne x state new, alt), last, omega (arith, count))
      | inr same ↦
          let e = same_of_differs x state same in
          rw same (
            subst (λ s. Alternates s (changes_of x xs)) e alt,
            ap (λ s. last_or s (changes_of x xs)) (sym e) ∙ last,
            omega (arith, count),
          )
    ]

-- An initialized Arduino driver with a connection callback that is polled, once for each of a
-- sequence of states of the link, tells the callback of each change and of nothing else: what it is
-- told alternates, from the state kept before, is as long as there are changes and ends, like the
-- state that the driver then keeps, in the last state of the link.
pub polls_tell_changes :
    (states : List Bool) (d : ArduinoBleDriver)
    → IsPolled d
    → let d' = poll_all states d in
      let last = d.last_connected_state in
      (changes : List Bool) × (told d'.calls ≡ told d.calls ++ changes)
      × Alternates last changes
      × (length changes ≡ count_changes last states)
      × (last_or last changes ≡ last_or last states)
      × (d'.last_connected_state ≡ last_or last states)
polls_tell_changes states d l =
    let (t, s) = poll_all-told states d l in
    let (alt, last, count) = changes_of-Alternates d.last_connected_state states in
    (changes_of d.last_connected_state states, t, alt, count, last, s)
