-- ===== src/State/Machine.antt =====
-- include/jenlib/state/StateMachine.h: the base class of the state machines. The calls of the two
-- callbacks are collected, oldest first, in `calls`; a callback that is not set is not called.
pub mod Told
pub mod Trace
use jenlib.Common.{ℕ, Bool, true, false, List, [], ◌∷◌, ◌++◌, ◌==◌, if◌then◌else◌}

-- `exit`, `entry` and `during` are `kExit`, `kEntry` and `kDo`.
pub data StateAction : Type 0 where
  entry exit during : StateAction

pub data CallbackCall (S : Type 0) : Type 0 where
  action : StateAction → S → CallbackCall S
  error : List ℕ → CallbackCall S

-- The callbacks are recorded as being set or not: a std::function that is given may be empty.
pub record Machine (S : Type 0) : Type 0 where
  pub current_state : S
  pub previous_state : S
  pub state_callback : Bool
  pub error_callback : Bool
  pub calls : List (CallbackCall S)

module _ {S : Type 0} where
  abbrev pub new_machine : S → Machine S
  new_machine initial_state = record {
    current_state = initial_state;
    previous_state = initial_state;
    state_callback = false;
    error_callback = false;
    calls = [];
  }

  abbrev pub set_state_action_callback : Machine S → Bool → Machine S
  set_state_action_callback m callback = record m { state_callback = callback }

  abbrev pub set_error_callback : Machine S → Bool → Machine S
  set_error_callback m callback = record m { error_callback = callback }

  abbrev tell_state : StateAction → S → Machine S → Machine S
  tell_state a s m = record m {
    calls = if m.state_callback then m.calls ++ (action a s ∷ []) else m.calls;
  }

  -- The base class's `handle_error`.
  abbrev pub report_error : Machine S → List ℕ → Machine S
  report_error m error_message = record m {
    calls = if m.error_callback then m.calls ++ (error error_message ∷ []) else m.calls;
  }

  -- States are compared by the values of their enumerators.
  module _ (code : S → ℕ) where
    abbrev pub is_in_state : Machine S → S → Bool
    is_in_state m state = code m.current_state == code state

    unfoldable pub transition_to : Machine S → S → Bool × Machine S
    transition_to m new_state =
        if code new_state == code m.current_state
        then (true, m)
        else let left = tell_state StateAction.exit m.current_state m in
          let moved : Machine S = record left {
            previous_state = left.current_state;
            current_state = new_state;
          } in
          (true, tell_state StateAction.entry new_state moved)
