-- ===== src/State/Sensor/Sessions.antt =====
-- The measurement sessions of a sensor: how one starts and ends, and what is left of one that the
-- loss of the connection ends.
use jenlib.Common.{ℕ, true, false, List, ◌==◌, ◌≡◌, refl, ap, arith}
use jenlib.Ble.Ids.{DeviceId, session_eq}
use jenlib.Ble.Messages.{StartBroadcastMsg, ReceiptMsg}
use jenlib.State.Machine.{report_error}
use jenlib.State.Machine.Trace.{transition_to-current_state, transition_to-true}
use jenlib.State.Sensor.{
  SensorState, code, Sensor, in_state, is_session_active, start_measurement_session,
  stop_measurement_session, go_to, handle_start_broadcast, handle_receipt, handle_session_end,
  handle_connection_change, handle_error, is_valid_transition, on_state_entry,
}

go_to-in_state : (s : Sensor) (b c : SensorState) → in_state (go_to s b).1 c ≡ (code b == code c)
go_to-in_state s b c =
    ap (λ n. n == code c) (transition_to-current_state code is_valid_transition s.machine b)

-- In the waiting state a start message opens its session: receipts of that session and no others
-- are accepted, and the end of the session leads back to the waiting state with no session.
pub sensor_session :
    (s : Sensor) (sender : DeviceId) (msg : StartBroadcastMsg) (now : ℕ)
    → in_state s SensorState.waiting ≡ true
    → let (started, s1) = handle_start_broadcast s sender msg now in
      let (ended, s2) = handle_session_end s1 in
      (started ≡ true)
      × (is_session_active s1 ≡ true)
      × ((from : DeviceId) (r : ReceiptMsg)
          → (handle_receipt s1 from r).0 ≡ session_eq r.session_id msg.session_id)
      × (ended ≡ true)
      × (in_state s2 SensorState.waiting ≡ true)
      × (s2.session_active ≡ false)
      × (s2.current_session_id.value ≡ 0)
      × (s2.broker_id.value ≡ 0)
unfolding handle_start_broadcast handle_receipt handle_session_end
sensor_session s sender msg now ready =
    let opened = start_measurement_session s msg now in
    let s1 = (go_to opened SensorState.running).1 in
    let runs : in_state s1 SensorState.running ≡ true =
      go_to-in_state opened SensorState.running SensorState.running in
    let done = transition_to-true code is_valid_transition opened.machine SensorState.running in
    let closed = stop_measurement_session s1 in
    let done' = transition_to-true code is_valid_transition closed.machine SensorState.waiting in
    let waits = go_to-in_state closed SensorState.waiting SensorState.waiting in
    rw (ready, runs) (done, refl, (λ from r. ground arith), done', waits, refl, refl, refl)

-- A lost connection, or an error, while a session runs leaves the session flag and the session as
-- they were, though the entry action of the state then reached would reset them.
pub sensor_interrupted :
    (s : Sensor) (message : List ℕ)
    → is_session_active s ≡ true
    → s.session_active ≡ true
    → let lost = (handle_connection_change s false).1 in
      let failed = handle_error s message in
      (in_state lost SensorState.disconnected ≡ true)
      × (lost.session_active ≡ true)
      × (lost.current_session_id ≡ s.current_session_id)
      × ((on_state_entry lost SensorState.disconnected).session_active ≡ false)
      × ((on_state_entry lost SensorState.disconnected).current_session_id.value ≡ 0)
      × (in_state failed SensorState.error_state ≡ true)
      × (failed.session_active ≡ true)
      × (failed.current_session_id ≡ s.current_session_id)
      × ((on_state_entry failed SensorState.error_state).session_active ≡ false)
      × ((on_state_entry failed SensorState.error_state).current_session_id.value ≡ 0)
unfolding handle_connection_change handle_error on_state_entry
sensor_interrupted s message runs active =
    let connected : in_state s SensorState.disconnected ≡ false = ground arith in
    let off = go_to-in_state s SensorState.disconnected SensorState.disconnected in
    let reported = record s { machine = report_error s.machine message } in
    let on_error = go_to-in_state reported SensorState.error_state SensorState.error_state in
    rw (connected, active) (off, refl, refl, refl, refl, on_error, refl, refl, refl, refl)
