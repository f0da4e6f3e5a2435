-- ===== src/State/Sensor.antt =====
-- include/jenlib/state/SensorStateMachine.h and src/state/SensorStateMachine.cpp. An operation takes
-- the value that `Time::now()` has during it as `now`.
pub mod Invariant
pub mod Outcomes
pub mod Sessions
mod Tests
use jenlib.Common.{ℕ, Bool, true, false, List, [], ◌∷◌, ◌==◌, ◌&&◌, ◌||◌, not, if◌then◌else◌}
use jenlib.Ble.Ids.{SessionId, DeviceId, session_eq}
use jenlib.Ble.Messages.{StartBroadcastMsg, ReceiptMsg}
use jenlib.Events.{Event, connection_state_change, time_tick}
use jenlib.State.Machine.{Machine, new_machine, report_error, is_in_state, transition_to}

pub data SensorState : Type 0 where
  disconnected waiting running error_state : SensorState

abbrev pub code : SensorState → ℕ
code SensorState.disconnected = 0x01
code SensorState.waiting = 0x02
code SensorState.running = 0x03
code SensorState.error_state = 0x04

-- The base class is the field `machine`.
pub record Sensor : Type 0 where
  pub machine : Machine SensorState
  pub current_session_id : SessionId
  pub broker_id : DeviceId
  pub measurement_interval_ms : ℕ
  pub session_start_time_ms : ℕ
  pub session_active : Bool

abbrev pub new_sensor : Sensor
new_sensor = record {
  machine = new_machine SensorState.disconnected;
  current_session_id = record { value = 0 };
  broker_id = record { value = 0 };
  measurement_interval_ms = 1000;
  session_start_time_ms = 0;
  session_active = false;
}

abbrev pub in_state : Sensor → SensorState → Bool
in_state s state = is_in_state code s.machine state

-- The public `is_session_active`.
abbrev pub is_session_active : Sensor → Bool
is_session_active s = in_state s SensorState.running

abbrev pub set_measurement_interval_ms : Sensor → ℕ → Sensor
set_measurement_interval_ms s interval_ms = record s { measurement_interval_ms = interval_ms }

abbrev pub go_to : Sensor → SensorState → Bool × Sensor
go_to s new_state =
    let (done, m) = transition_to code s.machine new_state in (done, record s { machine = m })

abbrev pub start_measurement_session : Sensor → StartBroadcastMsg → ℕ → Sensor
start_measurement_session s msg now = record s {
  current_session_id = msg.session_id;
  broker_id = msg.device_id;
  session_start_time_ms = now;
  session_active = true;
}

abbrev pub stop_measurement_session : Sensor → Sensor
stop_measurement_session s = record s {
  session_active = false;
  current_session_id = record { value = 0 };
  broker_id = record { value = 0 };
}

-- The application is to fill it in.
abbrev pub take_measurement : Sensor → Sensor
take_measurement s = s

unfoldable pub handle_connection_change : Sensor → Bool → Bool × Sensor
handle_connection_change s connected =
    if connected && in_state s SensorState.disconnected
    then go_to s SensorState.waiting
    else if not connected && not (in_state s SensorState.disconnected)
    then go_to s SensorState.disconnected
    else (false, s)

unfoldable pub handle_start_broadcast : Sensor → DeviceId → StartBroadcastMsg → ℕ → Bool × Sensor
handle_start_broadcast s sender_id msg now =
    if not (in_state s SensorState.waiting)
    then (false, s)
    else go_to (start_measurement_session s msg now) SensorState.running

unfoldable pub handle_receipt : Sensor → DeviceId → ReceiptMsg → Bool × Sensor
handle_receipt s sender_id msg =
    if not (in_state s SensorState.running) || not (session_eq msg.session_id s.current_session_id)
    then (false, s)
    else (true, s)

unfoldable pub handle_session_end : Sensor → Bool × Sensor
handle_session_end s =
    if not (in_state s SensorState.running)
    then (false, s)
    else go_to (stop_measurement_session s) SensorState.waiting

unfoldable pub handle_measurement_timer : Sensor → Bool × Sensor
handle_measurement_timer s =
    if not (in_state s SensorState.running) then (false, s) else (true, take_measurement s)

unfoldable pub handle_event : Sensor → Event → Bool × Sensor
handle_event s event =
    if event.type == connection_state_change
    then handle_connection_change s (not (event.event_data == 0))
    else if event.type == time_tick && in_state s SensorState.running
    then handle_measurement_timer s
    else (false, s)

unfoldable pub handle_error : Sensor → List ℕ → Sensor
handle_error s error_message =
    (go_to (record s { machine = report_error s.machine error_message }) SensorState.error_state).1

-- The base class's `handle_recovery` does nothing.
unfoldable pub handle_recovery : Sensor → Sensor
handle_recovery s = (go_to s SensorState.disconnected).1

unfoldable pub is_valid_transition : SensorState → SensorState → Bool
is_valid_transition SensorState.disconnected to_state =
    code to_state == code SensorState.waiting || code to_state == code SensorState.error_state
is_valid_transition SensorState.waiting to_state =
    code to_state == code SensorState.running
    || code to_state == code SensorState.disconnected
    || code to_state == code SensorState.error_state
is_valid_transition SensorState.running to_state =
    code to_state == code SensorState.waiting
    || code to_state == code SensorState.disconnected
    || code to_state == code SensorState.error_state
is_valid_transition SensorState.error_state to_state =
    code to_state == code SensorState.disconnected

-- The entry and exit actions, which nothing in the class calls.
unfoldable pub on_state_entry : Sensor → SensorState → Sensor
on_state_entry s SensorState.waiting = s
on_state_entry s SensorState.running = record s { session_active = true }
on_state_entry s SensorState.disconnected =
    if s.session_active then stop_measurement_session s else s
on_state_entry s SensorState.error_state =
    if s.session_active then stop_measurement_session s else s

unfoldable pub on_state_exit : Sensor → SensorState → Sensor
on_state_exit s SensorState.running = record s { session_active = false }
on_state_exit s state = s
