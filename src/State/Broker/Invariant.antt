-- ===== src/State/Broker/Invariant.antt =====
-- What every run of a broker's operations keeps.
use jenlib.Common.{ℕ, ◌<◌, ◌^◌, Bool, true, List, [], ◌∷◌, ◌≡◌, refl, arith, map}
use jenlib.Ble.Ids.{DeviceId, SessionId}
use jenlib.Ble.Messages.{ReadingMsg}
use jenlib.Events.{Event}
use jenlib.State.Machine.{set_state_action_callback, set_error_callback}
use jenlib.State.Machine.Trace.{
  Effect, sets_state, sets_error, reports, works, Keeps, Follows, Runs, done, next, Tells,
}
use jenlib.State.Machine.Told.{Runs-Tells}
use jenlib.State.Broker.{
  code, Broker, new_broker, is_session_active, handle_event, handle_start_command, handle_reading,
  handle_session_end, handle_backend_timeout, handle_error, handle_recovery, is_valid_transition,
}
use jenlib.State.Broker.Outcomes.{
  unchanged, handle_start_command-Outcome, handle_reading-Outcome, handle_session_end-Outcome,
  handle_backend_timeout-Outcome, handle_error-Outcome, handle_recovery-Outcome, Outcome-Moved,
  IsBroker, Outcome-IsBroker,
}

-- The public operations that change a broker; a callback is given as set or empty.
pub data BrokerCall : Type 0 where
  start_command : DeviceId → SessionId → ℕ → BrokerCall
  reading : DeviceId → ReadingMsg → BrokerCall
  session_end backend_timeout recovery : BrokerCall
  event : Event → BrokerCall
  error : List ℕ → BrokerCall
  state_action_callback error_callback : Bool → BrokerCall

unfoldable pub step : BrokerCall → Broker → Broker
step (BrokerCall.start_command sensor session now) s = (handle_start_command s sensor session now).1
step (BrokerCall.reading sender msg) s = (handle_reading s sender msg).1
step BrokerCall.session_end s = (handle_session_end s).1
step BrokerCall.backend_timeout s = (handle_backend_timeout s).1
step BrokerCall.recovery s = handle_recovery s
step (BrokerCall.event e) s = (handle_event s e).1
step (BrokerCall.error message) s = handle_error s message
step (BrokerCall.state_action_callback callback) s = record s {
  machine = set_state_action_callback s.machine callback;
}
step (BrokerCall.error_callback callback) s = record s {
  machine = set_error_callback s.machine callback;
}

unfoldable pub run : List BrokerCall → Broker → Broker
run [] s = s
run (c ∷ calls) s = run calls (step c s)

-- What a call has to do with the callbacks.
abbrev pub effect : BrokerCall → Effect
effect (BrokerCall.state_action_callback callback) = sets_state callback
effect (BrokerCall.error_callback callback) = sets_error callback
effect (BrokerCall.error message) = reports message
effect c = works

step-Follows :
    (c : BrokerCall) (s : Broker)
    → Follows code is_valid_transition (effect c) s.machine (step c s).machine
unfolding step
step-Follows (BrokerCall.start_command sensor session now) s =
    Outcome-Moved (handle_start_command-Outcome s sensor session now)
step-Follows (BrokerCall.reading sender msg) s = Outcome-Moved (handle_reading-Outcome s sender msg)
step-Follows BrokerCall.session_end s = Outcome-Moved (handle_session_end-Outcome s)
step-Follows BrokerCall.backend_timeout s = Outcome-Moved (handle_backend_timeout-Outcome s)
step-Follows BrokerCall.recovery s = Outcome-Moved (handle_recovery-Outcome s)
step-Follows (BrokerCall.event e) s = Outcome-Moved (unchanged s)
step-Follows (BrokerCall.error message) s = Outcome-Moved (handle_error-Outcome s message)
step-Follows (BrokerCall.state_action_callback callback) s = refl
step-Follows (BrokerCall.error_callback callback) s = refl

run-Runs :
    (calls : List BrokerCall) (s : Broker)
    → Runs code is_valid_transition (map effect calls) s.machine (run calls s).machine
unfolding run
run-Runs [] s = done
run-Runs (c ∷ calls) s = next (step-Follows c s) (run-Runs calls (step c s))

-- Whatever calls are made on a broker, in whatever state it is, as long as the state callback stays
-- set, be it replaced, or stays unset, there is an unbroken path from its state to the new one,
-- each step of which is_valid_transition allows. A state callback that is set is told the exit and
-- the entry of each step of that path, in order, and nothing else; one that is not is told nothing.
-- The error callback is told the messages that handle_error is given while that callback is set,
-- and these only, in order.
pub broker_takes_valid_routes :
    (calls : List BrokerCall) (s : Broker)
    → Keeps s.machine.state_callback (map effect calls)
    → Tells code is_valid_transition (map effect calls) s.machine (run calls s).machine
broker_takes_valid_routes calls s k = Runs-Tells code is_valid_transition (run-Runs calls s) k

step-IsBroker : (c : BrokerCall) (s : Broker) → IsBroker s → IsBroker (step c s)
unfolding step
step-IsBroker (BrokerCall.start_command sensor session now) s v =
    Outcome-IsBroker (handle_start_command-Outcome s sensor session now) v
step-IsBroker (BrokerCall.reading sender msg) s v =
    Outcome-IsBroker (handle_reading-Outcome s sender msg) v
step-IsBroker BrokerCall.session_end s v = Outcome-IsBroker (handle_session_end-Outcome s) v
step-IsBroker BrokerCall.backend_timeout s v = Outcome-IsBroker (handle_backend_timeout-Outcome s) v
step-IsBroker BrokerCall.recovery s v = Outcome-IsBroker (handle_recovery-Outcome s) v
step-IsBroker (BrokerCall.event e) s v = v
step-IsBroker (BrokerCall.error message) s v =
    Outcome-IsBroker (handle_error-Outcome s message)
      (record { active = v.active; counted = v.counted })
step-IsBroker (BrokerCall.state_action_callback callback) s v = record {
  active = v.active;
  counted = v.counted;
}
step-IsBroker (BrokerCall.error_callback callback) s v = record {
  active = v.active;
  counted = v.counted;
}

run-IsBroker : (calls : List BrokerCall) (s : Broker) → IsBroker s → IsBroker (run calls s)
unfolding run
run-IsBroker [] s v = v
run-IsBroker (c ∷ calls) s v = run-IsBroker calls (step c s) (step-IsBroker c s v)

new_broker-IsBroker : IsBroker new_broker
new_broker-IsBroker = record { active = λ h. absurd (ground arith); counted = omega arith }

-- Whatever is called on a new broker, a broker in a session has its session flag set, and its count
-- of readings is below 2 ^ 32.
pub broker_in_session_is_active :
    (calls : List BrokerCall)
    → let s = run calls new_broker in
      is_session_active s ≡ true → (s.session_active ≡ true) × (s.reading_count < 2 ^ 32)
broker_in_session_is_active calls h =
    let v = run-IsBroker calls new_broker new_broker-IsBroker in (v.active h, v.counted)
