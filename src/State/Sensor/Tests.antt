-- ===== src/State/Sensor/Tests.antt =====
-- The sensor's state machine at concrete inputs.
use jenlib.Common.{◌≡◌, refl, true, false, List, [], ◌∷◌, map}
use jenlib.Ble.Ids.{DeviceId, session_eq}
use jenlib.Ble.Messages.{StartBroadcastMsg, ReceiptMsg}
use jenlib.State.Machine.{set_state_action_callback, transition_to}
use jenlib.State.Machine.Trace.{Tells, reported}
use jenlib.State.Sensor.{
  Sensor, SensorState, code, new_sensor, in_state, is_session_active, handle_start_broadcast,
  handle_receipt, handle_session_end, handle_connection_change, is_valid_transition,
}
use jenlib.State.Sensor.Invariant.{SensorCall, step, run, effect, sensor_takes_valid_routes}
use jenlib.State.Sensor.Sessions.{sensor_session}

abbrev start_msg : StartBroadcastMsg
start_msg = record { device_id = record { value = 7 }; session_id = record { value = 9 } }

abbrev broker : DeviceId
broker = record { value = 1 }

abbrev connect : SensorCall
connect = SensorCall.connection_change true

abbrev start : SensorCall
start = SensorCall.start_broadcast broker start_msg 500

abbrev observed_sensor : Sensor
observed_sensor = record new_sensor { machine = set_state_action_callback new_sensor.machine true }

-- A session with an error that is reported and one that is not; the state callback is replaced.
abbrev calls : List SensorCall
calls =
    SensorCall.error_callback true
    ∷ connect
    ∷ start
    ∷ SensorCall.error (7 ∷ [])
    ∷ SensorCall.state_action_callback true
    ∷ SensorCall.recovery
    ∷ SensorCall.error_callback false
    ∷ SensorCall.error (8 ∷ [])
    ∷ []

calls_reported : reported false (map effect calls) ≡ (7 ∷ []) ∷ []
calls_reported = refl

sensor_takes_valid_routes_example :
    Tells code is_valid_transition
      (map effect calls)
      observed_sensor.machine
      (run calls observed_sensor).machine
sensor_takes_valid_routes_example = sensor_takes_valid_routes calls observed_sensor (refl, tt)

started_sensor-active : is_session_active (run (connect ∷ start ∷ []) observed_sensor) ≡ true
unfolding run step handle_connection_change handle_start_broadcast transition_to
started_sensor-active = refl

abbrev waiting_sensor : Sensor
waiting_sensor = record new_sensor {
  machine = record new_sensor.machine { current_state = SensorState.waiting };
}

abbrev running_sensor : Sensor
running_sensor = record new_sensor {
  machine = record new_sensor.machine { current_state = SensorState.running };
  current_session_id = record { value = 9 };
  session_active = true;
}

sensor_session_example :
    let (started, s1) = handle_start_broadcast waiting_sensor broker start_msg 500 in
    let (ended, s2) = handle_session_end s1 in
    (started ≡ true)
    × (is_session_active s1 ≡ true)
    × ((from : DeviceId) (r : ReceiptMsg)
        → (handle_receipt s1 from r).0 ≡ session_eq r.session_id start_msg.session_id)
    × (ended ≡ true)
    × (in_state s2 SensorState.waiting ≡ true)
    × (s2.session_active ≡ false)
    × (s2.current_session_id.value ≡ 0)
    × (s2.broker_id.value ≡ 0)
sensor_session_example = sensor_session waiting_sensor broker start_msg 500 refl
