-- ===== src/State/Machine/Trace.antt =====
-- What the callbacks of a machine are told.
use jenlib.Common.{
  ℕ, Bool, true, false, List, [], ◌∷◌, ◌++◌, ◌==◌, ◌≡◌, refl, ap, ◌∙◌, ◌⊎◌, arith, if◌then◌else◌,
}
use mathlib.Core.List.{append-nil}
use jenlib.State.Machine.{
  StateAction, CallbackCall, action, error, Machine, set_state_action_callback, set_error_callback,
  report_error, transition_to,
}

-- What a call has to do with the callbacks.
pub data Effect : Type 0 where
  sets_state sets_error : Bool → Effect
  reports : List ℕ → Effect
  works : Effect

-- The state callback is not set where there was none and not emptied where there was one.
abbrev pub Keeps : Bool → List Effect → Type 0
Keeps told [] = Unit
Keeps told (sets_state callback ∷ effects) = (callback ≡ told) × Keeps told effects
Keeps told (e ∷ effects) = Keeps told effects

-- The messages that are reported while there is an error callback; first, whether there is one.
abbrev pub reported : Bool → List Effect → List (List ℕ)
reported on [] = []
reported on (sets_error callback ∷ effects) = reported callback effects
reported on (reports message ∷ effects) = (if on then message ∷ [] else []) ++ reported on effects
reported on (e ∷ effects) = reported on effects

module _ {S : Type 0} where
  abbrev pub errors_of : List (CallbackCall S) → List (List ℕ)
  errors_of [] = []
  errors_of (error message ∷ calls) = message ∷ errors_of calls
  errors_of (action a s ∷ calls) = errors_of calls

  pub errors_of-append :
      (xs ys : List (CallbackCall S)) → errors_of (xs ++ ys) ≡ errors_of xs ++ errors_of ys
  errors_of-append [] ys = refl
  errors_of-append (error message ∷ xs) ys = ap (λ l. message ∷ l) (errors_of-append xs ys)
  errors_of-append (action a s ∷ xs) ys = errors_of-append xs ys

  -- What a transition adds to the calls.
  abbrev pub with_move : Bool → S → S → List (CallbackCall S) → List (CallbackCall S)
  with_move false b c calls = calls
  with_move true b c calls =
      (calls ++ (action StateAction.exit b ∷ [])) ++ (action StateAction.entry c ∷ [])

  pub errors_of-with_move :
      (told : Bool) (b c : S) (calls : List (CallbackCall S))
      → errors_of (with_move told b c calls) ≡ errors_of calls
  errors_of-with_move false b c calls = refl
  errors_of-with_move true b c calls =
      let left = calls ++ (action StateAction.exit b ∷ []) in
      errors_of-append left (action StateAction.entry c ∷ [])
      ∙ append-nil (errors_of left)
      ∙ errors_of-append calls (action StateAction.exit b ∷ [])
      ∙ append-nil (errors_of calls)

  pub told_twice :
      (told : Bool) (b c : S) (calls : List (CallbackCall S))
      → (let left = if told then calls ++ (action StateAction.exit b ∷ []) else calls in
          if told then left ++ (action StateAction.entry c ∷ []) else left)
        ≡ with_move told b c calls
  told_twice false b c calls = refl
  told_twice true b c calls = refl

module _ {S : Type 0} (code : S → ℕ) (valid : S → S → Bool) where
  unfoldable pub Allowed : S → S → Type 0
  Allowed b c = ((code c == code b) ≡ true) ⊎ (valid b c ≡ true)

  -- What a call does to the machine.
  abbrev pub Moved : Machine S → Machine S → Type 0
  Moved m m' = (m' ≡ m) ⊎ ((c : S) × Allowed m.current_state c × (m' ≡ (transition_to code m c).1))

  abbrev pub Follows : Effect → Machine S → Machine S → Type 0
  Follows (sets_state callback) m m' = m' ≡ set_state_action_callback m callback
  Follows (sets_error callback) m m' = m' ≡ set_error_callback m callback
  Follows (reports message) m m' = Moved (report_error m message) m'
  Follows works m m' = Moved m m'

  pub data Runs : List Effect → Machine S → Machine S → Type 0 where
    done : {m : Machine S} → Runs [] m m
    next :
        {e : Effect} {effects : List Effect} {m m1 m2 : Machine S}
        → Follows e m m1
        → Runs effects m1 m2
        → Runs (e ∷ effects) m m2

module _ {S : Type 0} (code : S → ℕ) (valid : S → S → Bool) (told : Bool) (a : S)
    (before : List (CallbackCall S)) where
  -- An unbroken path of valid transitions from the state `a`, and the calls behind those `before`:
  -- the exit and the entry of each transition, if they are told, and error reports.
  pub data Route : List (CallbackCall S) → S → Type 0 where
    stay : Route before a
    move :
        {calls : List (CallbackCall S)} {b : S} (c : S)
        → Route calls b
        → valid b c ≡ true
        → Route (with_move told b c calls) c
    report :
        {calls : List (CallbackCall S)} {b : S} (message : List ℕ)
        → Route calls b
        → Route (calls ++ (error message ∷ [])) b

module _ {S : Type 0} (code : S → ℕ) (valid : S → S → Bool) where
  -- What the callbacks are told in a run of calls that keep the state callback set or unset.
  abbrev pub Tells : List Effect → Machine S → Machine S → Type 0
  Tells effects m m' =
      Route code valid m.state_callback m.current_state m.calls m'.calls m'.current_state
      × (errors_of m'.calls ≡ errors_of m.calls ++ reported m.error_callback effects)

  pub transition_to-current_state :
      (m : Machine S) (c : S) → code (transition_to code m c).1.current_state ≡ code c
  unfolding transition_to
  transition_to-current_state m c = ground arith

  pub transition_to-true : (m : Machine S) (c : S) → (transition_to code m c).0 ≡ true
  unfolding transition_to
  transition_to-true m c = ground arith
