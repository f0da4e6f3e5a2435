-- ===== src/State/Sensor/Invariant.antt =====
-- What every run of a sensor's operations keeps.
use jenlib.Common.{ℕ, Bool, true, List, [], ◌∷◌, ◌≡◌, refl, inl, arith, map}
use jenlib.Ble.Ids.{DeviceId}
use jenlib.Ble.Messages.{StartBroadcastMsg, ReceiptMsg}
use jenlib.Events.{Event}
use jenlib.State.Machine.{set_state_action_callback, set_error_callback}
use jenlib.State.Machine.Trace.{
  Effect, sets_state, sets_error, reports, works, Keeps, Follows, Runs, done, next, Tells,
}
use jenlib.State.Machine.Told.{Runs-Tells}
use jenlib.State.Sensor.{
  code, Sensor, new_sensor, is_session_active, set_measurement_interval_ms,
  handle_connection_change, handle_start_broadcast, handle_receipt, handle_session_end,
  handle_measurement_timer, handle_event, handle_error, handle_recovery, is_valid_transition,
}
use jenlib.State.Sensor.Outcomes.{
  handle_connection_change-Outcome, handle_start_broadcast-Outcome, handle_receipt-same,
  handle_session_end-Outcome, handle_measurement_timer-same, handle_event-Outcome,
  handle_error-Outcome, handle_recovery-Outcome, same-Outcome, Outcome-Moved, IsActive,
  Outcome-IsActive,
}

-- The public operations that change a sensor; a callback is given as set or empty.
pub data SensorCall : Type 0 where
  connection_change : Bool → SensorCall
  start_broadcast : DeviceId → StartBroadcastMsg → ℕ → SensorCall
  receipt : DeviceId → ReceiptMsg → SensorCall
  session_end measurement_timer recovery : SensorCall
  event : Event → SensorCall
  error : List ℕ → SensorCall
  measurement_interval : ℕ → SensorCall
  state_action_callback error_callback : Bool → SensorCall

unfoldable pub step : SensorCall → Sensor → Sensor
step (SensorCall.connection_change connected) s = (handle_connection_change s connected).1
step (SensorCall.start_broadcast sender msg now) s = (handle_start_broadcast s sender msg now).1
step (SensorCall.receipt sender msg) s = (handle_receipt s sender msg).1
step SensorCall.session_end s = (handle_session_end s).1
step SensorCall.measurement_timer s = (handle_measurement_timer s).1
step SensorCall.recovery s = handle_recovery s
step (SensorCall.event e) s = (handle_event s e).1
step (SensorCall.error message) s = handle_error s message
step (SensorCall.measurement_interval ms) s = set_measurement_interval_ms s ms
step (SensorCall.state_action_callback callback) s = record s {
  machine = set_state_action_callback s.machine callback;
}
step (SensorCall.error_callback callback) s = record s {
  machine = set_error_callback s.machine callback;
}

unfoldable pub run : List SensorCall → Sensor → Sensor
run [] s = s
run (c ∷ calls) s = run calls (step c s)

-- What a call has to do with the callbacks.
abbrev pub effect : SensorCall → Effect
effect (SensorCall.state_action_callback callback) = sets_state callback
effect (SensorCall.error_callback callback) = sets_error callback
effect (SensorCall.error message) = reports message
effect c = works

step-Follows :
    (c : SensorCall) (s : Sensor)
    → Follows code is_valid_transition (effect c) s.machine (step c s).machine
unfolding step
step-Follows (SensorCall.connection_change b) s =
    Outcome-Moved (handle_connection_change-Outcome s b)
step-Follows (SensorCall.start_broadcast sender msg now) s =
    Outcome-Moved (handle_start_broadcast-Outcome s sender msg now)
step-Follows (SensorCall.receipt sender msg) s =
    Outcome-Moved (same-Outcome s _ (handle_receipt-same s sender msg))
step-Follows SensorCall.session_end s = Outcome-Moved (handle_session_end-Outcome s)
step-Follows SensorCall.measurement_timer s =
    Outcome-Moved (same-Outcome s _ (handle_measurement_timer-same s))
step-Follows SensorCall.recovery s = Outcome-Moved (handle_recovery-Outcome s)
step-Follows (SensorCall.event e) s = Outcome-Moved (handle_event-Outcome s e)
step-Follows (SensorCall.error message) s = Outcome-Moved (handle_error-Outcome s message)
step-Follows (SensorCall.measurement_interval ms) s = inl refl
step-Follows (SensorCall.state_action_callback callback) s = refl
step-Follows (SensorCall.error_callback callback) s = refl

run-Runs :
    (calls : List SensorCall) (s : Sensor)
    → Runs code is_valid_transition (map effect calls) s.machine (run calls s).machine
unfolding run
run-Runs [] s = done
run-Runs (c ∷ calls) s = next (step-Follows c s) (run-Runs calls (step c s))

-- Whatever calls are made on a sensor, in whatever state it is, as long as the state callback stays
-- set, be it replaced, or stays unset, there is an unbroken path from its state to the new one,
-- each step of which is_valid_transition allows. A state callback that is set is told the exit and
-- the entry of each step of that path, in order, and nothing else; one that is not is told nothing.
-- The error callback is told the messages that handle_error is given while that callback is set,
-- and these only, in order.
pub sensor_takes_valid_routes :
    (calls : List SensorCall) (s : Sensor)
    → Keeps s.machine.state_callback (map effect calls)
    → Tells code is_valid_transition (map effect calls) s.machine (run calls s).machine
sensor_takes_valid_routes calls s k = Runs-Tells code is_valid_transition (run-Runs calls s) k

step-IsActive : (c : SensorCall) (s : Sensor) → IsActive s → IsActive (step c s)
unfolding step
step-IsActive (SensorCall.connection_change b) s v =
    Outcome-IsActive (handle_connection_change-Outcome s b) v
step-IsActive (SensorCall.start_broadcast sender msg now) s v =
    Outcome-IsActive (handle_start_broadcast-Outcome s sender msg now) v
step-IsActive (SensorCall.receipt sender msg) s v = rw (handle_receipt-same s sender msg) v
step-IsActive SensorCall.session_end s v = Outcome-IsActive (handle_session_end-Outcome s) v
step-IsActive SensorCall.measurement_timer s v = rw (handle_measurement_timer-same s) v
step-IsActive SensorCall.recovery s v = Outcome-IsActive (handle_recovery-Outcome s) v
step-IsActive (SensorCall.event e) s v = Outcome-IsActive (handle_event-Outcome s e) v
step-IsActive (SensorCall.error message) s v = Outcome-IsActive (handle_error-Outcome s message) v
step-IsActive (SensorCall.measurement_interval ms) s v = v
step-IsActive (SensorCall.state_action_callback callback) s v = v
step-IsActive (SensorCall.error_callback callback) s v = v

run-IsActive : (calls : List SensorCall) (s : Sensor) → IsActive s → IsActive (run calls s)
unfolding run
run-IsActive [] s v = v
run-IsActive (c ∷ calls) s v = run-IsActive calls (step c s) (step-IsActive c s v)

-- Whatever is called on a new sensor, a running sensor has its session flag set.
pub sensor_running_is_active :
    (calls : List SensorCall)
    → let s = run calls new_sensor in is_session_active s ≡ true → s.session_active ≡ true
sensor_running_is_active calls h = run-IsActive calls new_sensor (λ r. absurd (ground arith)) h
