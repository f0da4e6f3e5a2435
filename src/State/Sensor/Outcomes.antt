-- ===== src/State/Sensor/Outcomes.antt =====
-- What each operation of a sensor does to its machine and to its session flag.
use jenlib.Common.{
  ℕ, Bool, true, false, List, ◌==◌, ◌&&◌, not, ◌≡◌, refl, inl, inr, Bool-cases, arith, ◌∙◌,
}
use jenlib.Ble.Ids.{DeviceId}
use jenlib.Ble.Messages.{StartBroadcastMsg, ReceiptMsg}
use jenlib.Events.{Event, connection_state_change, time_tick}
use jenlib.State.Machine.{report_error, transition_to}
use jenlib.State.Machine.Trace.{Allowed, Moved, transition_to-current_state}
use jenlib.State.Sensor.{
  SensorState, code, Sensor, in_state, handle_connection_change, handle_start_broadcast,
  handle_receipt, handle_session_end, handle_measurement_timer, handle_event, handle_error,
  handle_recovery, is_valid_transition,
}

pub Move : SensorState → SensorState → Type 0
unfolding Allowed
Move = Allowed code is_valid_transition

to_waiting : (b : SensorState) → (code b == 1) ≡ true → Move b SensorState.waiting
unfolding Move Allowed is_valid_transition
to_waiting SensorState.disconnected h = inr refl
to_waiting SensorState.waiting h = inl refl
to_waiting SensorState.running h = inr refl
to_waiting SensorState.error_state h = absurd (ground arith)

to_running : (b : SensorState) → (code b == 2) ≡ true → Move b SensorState.running
unfolding Move Allowed is_valid_transition
to_running SensorState.disconnected h = absurd (ground arith)
to_running SensorState.waiting h = inr refl
to_running SensorState.running h = inl refl
to_running SensorState.error_state h = absurd (ground arith)

back_to_waiting : (b : SensorState) → (code b == 3) ≡ true → Move b SensorState.waiting
unfolding Move Allowed is_valid_transition
back_to_waiting SensorState.disconnected h = inr refl
back_to_waiting SensorState.waiting h = inl refl
back_to_waiting SensorState.running h = inr refl
back_to_waiting SensorState.error_state h = absurd (ground arith)

to_disconnected : (b : SensorState) → Move b SensorState.disconnected
unfolding Move Allowed is_valid_transition
to_disconnected SensorState.disconnected = inl refl
to_disconnected SensorState.waiting = inr refl
to_disconnected SensorState.running = inr refl
to_disconnected SensorState.error_state = inr refl

to_error : (b : SensorState) → Move b SensorState.error_state
unfolding Move Allowed is_valid_transition
to_error SensorState.disconnected = inr refl
to_error SensorState.waiting = inr refl
to_error SensorState.running = inr refl
to_error SensorState.error_state = inl refl

-- The machine and the flag stay, or there is an allowed transition, behind which the flag is set if
-- the sensor runs.
pub data Outcome (s s' : Sensor) : Type 0 where
  kept : s'.machine ≡ s.machine → s'.session_active ≡ s.session_active → Outcome s s'
  moved :
      (b : SensorState)
      → Move s.machine.current_state b
      → s'.machine ≡ (transition_to code s.machine b).1
      → ((code b == 3) ≡ true → s'.session_active ≡ true)
      → Outcome s s'

unchanged : (s : Sensor) → Outcome s s
unchanged s = kept refl refl

pub handle_connection_change-Outcome :
    (s : Sensor) (connected : Bool) → Outcome s (handle_connection_change s connected).1
unfolding handle_connection_change
handle_connection_change-Outcome s true = elim (Bool-cases (in_state s SensorState.disconnected)) [
  | inl off ↦ rw off (
      moved SensorState.waiting (to_waiting s.machine.current_state off) refl
        (λ h. absurd (ground arith)))
  | inr on ↦ rw on (unchanged s)
]
handle_connection_change-Outcome s false = elim (Bool-cases (in_state s SensorState.disconnected)) [
  | inl off ↦ rw off (unchanged s)
  | inr on ↦ rw on (
      moved SensorState.disconnected (to_disconnected s.machine.current_state) refl
        (λ h. absurd (ground arith)))
]

pub handle_start_broadcast-Outcome :
    (s : Sensor) (sender : DeviceId) (msg : StartBroadcastMsg) (now : ℕ)
    → Outcome s (handle_start_broadcast s sender msg now).1
unfolding handle_start_broadcast
handle_start_broadcast-Outcome s sender msg now =
    elim (Bool-cases (in_state s SensorState.waiting)) [
      | inl ready ↦
          rw ready
            (moved SensorState.running (to_running s.machine.current_state ready) refl (λ h. refl))
      | inr unready ↦ rw unready (unchanged s)
    ]

pub handle_session_end-Outcome : (s : Sensor) → Outcome s (handle_session_end s).1
unfolding handle_session_end
handle_session_end-Outcome s = elim (Bool-cases (in_state s SensorState.running)) [
  | inl ready ↦ rw ready (
      moved SensorState.waiting (back_to_waiting s.machine.current_state ready) refl
        (λ h. absurd (ground arith)))
  | inr unready ↦ rw unready (unchanged s)
]

pub handle_receipt-same :
    (s : Sensor) (sender : DeviceId) (msg : ReceiptMsg) → (handle_receipt s sender msg).1 ≡ s
unfolding handle_receipt
handle_receipt-same s sender msg = ground arith

pub handle_measurement_timer-same : (s : Sensor) → (handle_measurement_timer s).1 ≡ s
unfolding handle_measurement_timer
handle_measurement_timer-same s = ground arith

pub handle_event-Outcome : (s : Sensor) (e : Event) → Outcome s (handle_event s e).1
unfolding handle_event
handle_event-Outcome s e = elim (Bool-cases (e.type == connection_state_change)) [
  | inl change ↦ rw change (handle_connection_change-Outcome s (not (e.event_data == 0)))
  | inr other ↦ elim (Bool-cases (e.type == time_tick && in_state s SensorState.running)) [
    | inl due ↦ rw (other, due, handle_measurement_timer-same s) (unchanged s)
    | inr nothing ↦ rw (other, nothing) (unchanged s)
  ]
]

pub handle_error-Outcome :
    (s : Sensor) (message : List ℕ)
    → Outcome (record s { machine = report_error s.machine message }) (handle_error s message)
unfolding handle_error
handle_error-Outcome s message =
    moved SensorState.error_state (to_error s.machine.current_state) refl
      (λ h. absurd (ground arith))

pub handle_recovery-Outcome : (s : Sensor) → Outcome s (handle_recovery s)
unfolding handle_recovery
handle_recovery-Outcome s =
    moved SensorState.disconnected (to_disconnected s.machine.current_state) refl
      (λ h. absurd (ground arith))

-- Of a call that does nothing.
pub same-Outcome : (s s' : Sensor) → s' ≡ s → Outcome s s'
same-Outcome s s' e = kept (rw e refl) (rw e refl)

pub Outcome-Moved :
    {s s' : Sensor} → Outcome s s' → Moved code is_valid_transition s.machine s'.machine
unfolding Move
Outcome-Moved (kept same flag) = inl same
Outcome-Moved (moved b allowed e active) = inr (b, allowed, e)

abbrev pub IsActive : Sensor → Type 0
IsActive s = in_state s SensorState.running ≡ true → s.session_active ≡ true

pub Outcome-IsActive : {s s' : Sensor} → Outcome s s' → IsActive s → IsActive s'
Outcome-IsActive (kept same flag) v h = flag ∙ v (rw same at h)
Outcome-IsActive {s} (moved b allowed e active) v h =
    let at = transition_to-current_state code is_valid_transition s.machine b in
    active (rw (e, at) at h)
