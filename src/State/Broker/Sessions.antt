-- ===== src/State/Broker/Sessions.antt =====
-- The sessions of a broker: the readings that one counts, and what is left of one that an error ends.
use jenlib.Common.{
  ℕ, ◌+◌, ◌%◌, ◌^◌, Bool, true, false, List, [], ◌∷◌, ◌==◌, ◌&&◌, if◌then◌else◌, ◌≡◌, refl, ap,
  Bool-cases, inl, inr, arith,
}
use native.Mathlib.Nat.{mod-add-mod}
use jenlib.Ble.Ids.{DeviceId, SessionId, session_eq, device_eq}
use jenlib.Ble.Messages.{ReadingMsg}
use jenlib.State.Machine.{report_error}
use jenlib.State.Machine.Trace.{transition_to-current_state, transition_to-true}
use jenlib.State.Broker.{
  BrokerState, code, Broker, in_state, is_session_active, start_session, end_session, go_to,
  handle_start_command, handle_reading, handle_session_end, handle_backend_timeout, handle_error,
  is_valid_transition, on_state_entry,
}

abbrev pub take_readings : List (DeviceId × ReadingMsg) → Broker → Broker
take_readings [] s = s
take_readings (r ∷ readings) s = take_readings readings (handle_reading s r.0 r.1).1

abbrev belongs : DeviceId → SessionId → DeviceId × ReadingMsg → Bool
belongs sensor session (sender, msg) = device_eq sender sensor && session_eq msg.session_id session

-- The readings of a sensor in a session.
abbrev pub readings_of : DeviceId → SessionId → List (DeviceId × ReadingMsg) → ℕ
readings_of sensor session [] = 0
readings_of sensor session (r ∷ readings) =
    (if belongs sensor session r then 1 else 0) + readings_of sensor session readings

go_to-in_state : (s : Broker) (b c : BrokerState) → in_state (go_to s b).1 c ≡ (code b == code c)
go_to-in_state s b c =
    ap (λ n. n == code c) (transition_to-current_state code is_valid_transition s.machine b)

abbrev plus : Broker → ℕ → Broker
plus s n = record s { reading_count = (s.reading_count + n) % 2 ^ 32 }

handle_reading_counts :
    (s : Broker) (r : DeviceId × ReadingMsg)
    → is_session_active s ≡ true
    → (handle_reading s r.0 r.1).1
      ≡ (if belongs s.target_sensor_id s.current_session_id r then plus s 1 else s)
unfolding handle_reading
handle_reading_counts s r active = ground arith

take_readings_counts :
    (readings : List (DeviceId × ReadingMsg)) (s : Broker) (n : ℕ)
    → is_session_active s ≡ true
    → s.reading_count ≡ n % 2 ^ 32
    → (take_readings readings s).reading_count
      ≡ (n + readings_of s.target_sensor_id s.current_session_id readings) % 2 ^ 32
take_readings_counts [] s n active c = omega arith
take_readings_counts (r ∷ readings) s n active c =
    rw (take_readings, handle_reading_counts s r active)
      (elim (Bool-cases (belongs s.target_sensor_id s.current_session_id r)) [
        | inl ours ↦
            let next = (s.reading_count + 1) % 2 ^ 32 in
            let e : next ≡ (n + 1) % 2 ^ 32 = rw c (mod-add-mod n (2 ^ 32) 1) in
            let rest = take_readings_counts readings (plus s 1) (n + 1) active e in
            rw ours (omega arith)
        | inr other ↦
            let rest = take_readings_counts readings s n active c in rw other (omega arith)
      ])

-- Without a session a start command opens one; then the broker counts the readings of that sensor
-- in that session and no others, modulo 2 ^ 32.
pub broker_counts_readings :
    (s : Broker) (sensor : DeviceId) (session : SessionId) (now : ℕ)
    (readings : List (DeviceId × ReadingMsg))
    → in_state s BrokerState.no_session ≡ true
    → let (started, s1) = handle_start_command s sensor session now in
      (started ≡ true)
      × (is_session_active s1 ≡ true)
      × ((take_readings readings s1).reading_count ≡ readings_of sensor session readings % 2 ^ 32)
unfolding handle_start_command
broker_counts_readings s sensor session now readings ready =
    let opened = start_session s sensor session now in
    let s1 = (go_to opened BrokerState.session_started).1 in
    let active : is_session_active s1 ≡ true =
      go_to-in_state opened BrokerState.session_started BrokerState.session_started in
    let done =
      transition_to-true code is_valid_transition opened.machine BrokerState.session_started in
    let counts = take_readings_counts readings s1 0 active (omega arith) in
    rw ready (done, active, (omega (arith, counts)))

-- A backend timeout does what the end of a session does in every state, and both succeed exactly in
-- a session.
pub broker_timeout_ends_session :
    (s : Broker)
    → (handle_backend_timeout s ≡ handle_session_end s)
      × ((handle_session_end s).0 ≡ is_session_active s)
unfolding handle_session_end handle_backend_timeout
broker_timeout_ends_session s =
    let closed = end_session s in
    let done = transition_to-true code is_valid_transition closed.machine BrokerState.no_session in
    elim (Bool-cases (is_session_active s)) [
      | inl on ↦ rw on (refl, done)
      | inr off ↦ rw off (refl, refl)
    ]

-- The end of a session leads back to the state without one, forgets its sensor, its identifier and
-- its count, and a start command then opens a new session.
pub broker_session_ends :
    (s : Broker) (sensor : DeviceId) (session : SessionId) (now : ℕ)
    → is_session_active s ≡ true
    → let s1 = (handle_session_end s).1 in
      (in_state s1 BrokerState.no_session ≡ true)
      × (s1.session_active ≡ false)
      × (s1.reading_count ≡ 0)
      × (s1.current_session_id.value ≡ 0)
      × (s1.target_sensor_id.value ≡ 0)
      × ((handle_start_command s1 sensor session now).0 ≡ true)
unfolding handle_session_end
broker_session_ends s sensor session now h =
    let closed = end_session s in
    let s1 = (go_to closed BrokerState.no_session).1 in
    let off = go_to-in_state closed BrokerState.no_session BrokerState.no_session in
    let (opens, _, _) = broker_counts_readings s1 sensor session now [] off in
    rw h (off, refl, refl, refl, refl, opens)

-- An error in a session leaves its flag, its identifier, its sensor and its count as they were,
-- though the entry action of the error state would reset them.
pub broker_interrupted :
    (s : Broker) (message : List ℕ)
    → is_session_active s ≡ true
    → s.session_active ≡ true
    → let failed = handle_error s message in
      let cleaned = on_state_entry failed BrokerState.error_state in
      (in_state failed BrokerState.error_state ≡ true)
      × (failed.session_active ≡ true)
      × (failed.current_session_id ≡ s.current_session_id)
      × (failed.target_sensor_id ≡ s.target_sensor_id)
      × (failed.reading_count ≡ s.reading_count)
      × (cleaned.session_active ≡ false)
      × (cleaned.current_session_id.value ≡ 0)
      × (cleaned.target_sensor_id.value ≡ 0)
      × (cleaned.reading_count ≡ 0)
unfolding handle_error on_state_entry
broker_interrupted s message runs active =
    let reported = record s { machine = report_error s.machine message } in
    let on_error = go_to-in_state reported BrokerState.error_state BrokerState.error_state in
    rw active (on_error, refl, refl, refl, refl, refl, refl, refl, refl)
