-- ===== src/State/Broker/Tests.antt =====
-- The broker's state machine at concrete inputs.
use jenlib.Common.{◌%◌, ◌^◌, ◌≡◌, refl, true, List, [], ◌∷◌, map, false}
use jenlib.Common.Int.{pos}
use jenlib.Ble.Ids.{SessionId, DeviceId}
use jenlib.Ble.Messages.{ReadingMsg}
use jenlib.State.Machine.{set_state_action_callback, transition_to}
use jenlib.State.Machine.Trace.{Tells, reported}
use jenlib.State.Broker.{
  Broker, BrokerState, code, new_broker, is_session_active, handle_start_command, handle_error,
  handle_recovery, is_valid_transition,
}
use jenlib.State.Broker.Invariant.{BrokerCall, step, run, effect, broker_takes_valid_routes}
use jenlib.State.Broker.Sessions.{take_readings, readings_of, broker_counts_readings}

abbrev sensor : DeviceId
sensor = record { value = 7 }

abbrev session : SessionId
session = record { value = 9 }

abbrev reading_msg : ReadingMsg
reading_msg = record {
  sender_id = sensor;
  session_id = session;
  offset_ms = 70000;
  temperature_c_centi = pos 2150;
  humidity_bp = 4500;
}

abbrev start : BrokerCall
start = BrokerCall.start_command sensor session 500

abbrev observed_broker : Broker
observed_broker = record new_broker { machine = set_state_action_callback new_broker.machine true }

-- An error that is reported and one that is not; the state callback is replaced.
abbrev calls : List BrokerCall
calls =
    BrokerCall.error_callback true
    ∷ start
    ∷ BrokerCall.error (7 ∷ [])
    ∷ BrokerCall.recovery
    ∷ BrokerCall.state_action_callback true
    ∷ BrokerCall.error_callback false
    ∷ BrokerCall.error (8 ∷ [])
    ∷ []

calls_reported : reported false (map effect calls) ≡ (7 ∷ []) ∷ []
calls_reported = refl

broker_takes_valid_routes_example :
    Tells code is_valid_transition
      (map effect calls)
      observed_broker.machine
      (run calls observed_broker).machine
broker_takes_valid_routes_example = broker_takes_valid_routes calls observed_broker (refl, tt)

-- A broker that has failed and recovered.
started_broker-active :
    is_session_active (run (BrokerCall.error [] ∷ BrokerCall.recovery ∷ start ∷ []) observed_broker)
    ≡ true
unfolding run step handle_start_command handle_recovery handle_error transition_to
started_broker-active = refl

abbrev running_broker : Broker
running_broker = record new_broker {
  machine = record new_broker.machine { current_state = BrokerState.session_started };
  current_session_id = session;
  target_sensor_id = sensor;
  reading_count = 3;
  session_active = true;
}

-- One reading of the session, and one of another sensor.
abbrev readings : List (DeviceId × ReadingMsg)
readings = (sensor, reading_msg) ∷ (record { value = 8 }, reading_msg) ∷ []

broker_counts_readings_example :
    let (started, s1) = handle_start_command new_broker sensor session 500 in
    (started ≡ true)
    × (is_session_active s1 ≡ true)
    × ((take_readings readings s1).reading_count ≡ readings_of sensor session readings % 2 ^ 32)
broker_counts_readings_example = broker_counts_readings new_broker sensor session 500 readings refl
