-- ===== src/State/Broker.antt =====
-- include/jenlib/state/BrokerStateMachine.h and src/state/BrokerStateMachine.cpp. An operation takes
-- the value that `Time::now()` has during it as `now`.
pub mod Invariant
pub mod Outcomes
pub mod Sessions
mod Tests
use jenlib.Common.{
  ℕ, ◌+◌, ◌%◌, ◌^◌, Bool, true, false, List, [], ◌∷◌, ◌==◌, ◌||◌, not, if◌then◌else◌,
}
use jenlib.Ble.Ids.{SessionId, DeviceId, session_eq, device_eq}
use jenlib.Ble.Messages.{ReadingMsg}
use jenlib.Events.{Event}
use jenlib.State.Machine.{Machine, new_machine, report_error, is_in_state, transition_to}

pub data BrokerState : Type 0 where
  no_session session_started error_state : BrokerState

abbrev pub code : BrokerState → ℕ
code BrokerState.no_session = 0x01
code BrokerState.session_started = 0x02
code BrokerState.error_state = 0x03

-- The base class is the field `machine`.
pub record Broker : Type 0 where
  pub machine : Machine BrokerState
  pub current_session_id : SessionId
  pub target_sensor_id : DeviceId
  pub session_start_time_ms : ℕ
  pub reading_count : ℕ
  pub last_receipt_offset_ms : ℕ
  pub session_active : Bool

abbrev pub new_broker : Broker
new_broker = record {
  machine = new_machine BrokerState.no_session;
  current_session_id = record { value = 0 };
  target_sensor_id = record { value = 0 };
  session_start_time_ms = 0;
  reading_count = 0;
  last_receipt_offset_ms = 0;
  session_active = false;
}

abbrev pub in_state : Broker → BrokerState → Bool
in_state s state = is_in_state code s.machine state

-- The public `is_session_active`.
abbrev pub is_session_active : Broker → Bool
is_session_active s = in_state s BrokerState.session_started

abbrev pub go_to : Broker → BrokerState → Bool × Broker
go_to s new_state =
    let (done, m) = transition_to code s.machine new_state in (done, record s { machine = m })

abbrev pub start_session : Broker → DeviceId → SessionId → ℕ → Broker
start_session s sensor_id session_id now = record s {
  current_session_id = session_id;
  target_sensor_id = sensor_id;
  session_start_time_ms = now;
  reading_count = 0;
  last_receipt_offset_ms = 0;
  session_active = true;
}

abbrev pub end_session : Broker → Broker
end_session s = record s {
  session_active = false;
  current_session_id = record { value = 0 };
  target_sensor_id = record { value = 0 };
  reading_count = 0;
  last_receipt_offset_ms = 0;
}

-- `reading_count_` is a `std::uint32_t`.
abbrev pub process_reading : Broker → ReadingMsg → Broker
process_reading s msg = record s { reading_count = (s.reading_count + 1) % 2 ^ 32 }

-- Every case of the switch leads to the same return.
abbrev pub handle_event : Broker → Event → Bool × Broker
handle_event s event = (false, s)

unfoldable pub handle_start_command : Broker → DeviceId → SessionId → ℕ → Bool × Broker
handle_start_command s sensor_id session_id now =
    if not (in_state s BrokerState.no_session)
    then (false, s)
    else go_to (start_session s sensor_id session_id now) BrokerState.session_started

unfoldable pub handle_reading : Broker → DeviceId → ReadingMsg → Bool × Broker
handle_reading s sender_id msg =
    if not (in_state s BrokerState.session_started)
      || not (device_eq sender_id s.target_sensor_id)
      || not (session_eq msg.session_id s.current_session_id)
    then (false, s)
    else (true, process_reading s msg)

unfoldable pub handle_session_end : Broker → Bool × Broker
handle_session_end s =
    if not (in_state s BrokerState.session_started)
    then (false, s)
    else go_to (end_session s) BrokerState.no_session

unfoldable pub handle_backend_timeout : Broker → Bool × Broker
handle_backend_timeout s =
    if not (in_state s BrokerState.session_started)
    then (false, s)
    else go_to (end_session s) BrokerState.no_session

unfoldable pub handle_error : Broker → List ℕ → Broker
handle_error s error_message =
    (go_to (record s { machine = report_error s.machine error_message }) BrokerState.error_state).1

-- The base class's `handle_recovery` does nothing.
unfoldable pub handle_recovery : Broker → Broker
handle_recovery s = (go_to s BrokerState.no_session).1

unfoldable pub is_valid_transition : BrokerState → BrokerState → Bool
is_valid_transition BrokerState.no_session to_state =
    code to_state == code BrokerState.session_started
    || code to_state == code BrokerState.error_state
is_valid_transition BrokerState.session_started to_state =
    code to_state == code BrokerState.no_session || code to_state == code BrokerState.error_state
is_valid_transition BrokerState.error_state to_state = code to_state == code BrokerState.no_session

-- The entry and exit actions, which nothing in the class calls.
unfoldable pub on_state_entry : Broker → BrokerState → Broker
on_state_entry s BrokerState.session_started = record s { session_active = true }
on_state_entry s BrokerState.no_session = if s.session_active then end_session s else s
on_state_entry s BrokerState.error_state = if s.session_active then end_session s else s

unfoldable pub on_state_exit : Broker → BrokerState → Broker
on_state_exit s BrokerState.session_started = record s { session_active = false }
on_state_exit s state = s

-- Nothing calls it; sending is left to the application.
abbrev pub send_receipt : Broker → DeviceId → ℕ → Broker
send_receipt s sensor_id up_to_offset_ms = record s { last_receipt_offset_ms = up_to_offset_ms }
