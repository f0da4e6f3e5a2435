-- ===== src/State/Broker/Outcomes.antt =====
-- What each operation of a broker does to its machine, its session flag and its count.
use jenlib.Common.{
  ℕ, ◌+◌, ◌<◌, ◌^◌, true, List, ◌==◌, ◌||◌, not, ◌≡◌, refl, ◌∙◌, inl, inr, Bool-cases, arith,
}
use native.Mathlib.Nat.{mod-lt}
use jenlib.Ble.Ids.{DeviceId, SessionId, session_eq, device_eq}
use jenlib.Ble.Messages.{ReadingMsg}
use jenlib.State.Machine.{report_error, transition_to}
use jenlib.State.Machine.Trace.{Allowed, Moved, transition_to-current_state}
use jenlib.State.Broker.{
  BrokerState, code, Broker, in_state, end_session, go_to, handle_start_command, handle_reading,
  handle_session_end, handle_backend_timeout, handle_error, handle_recovery, is_valid_transition,
}

pub Move : BrokerState → BrokerState → Type 0
unfolding Allowed
Move = Allowed code is_valid_transition

to_started : (b : BrokerState) → (code b == 1) ≡ true → Move b BrokerState.session_started
unfolding Move Allowed is_valid_transition
to_started BrokerState.no_session h = inr refl
to_started BrokerState.session_started h = inl refl
to_started BrokerState.error_state h = absurd (ground arith)

to_no_session : (b : BrokerState) → Move b BrokerState.no_session
unfolding Move Allowed is_valid_transition
to_no_session BrokerState.no_session = inl refl
to_no_session BrokerState.session_started = inr refl
to_no_session BrokerState.error_state = inr refl

to_error : (b : BrokerState) → Move b BrokerState.error_state
unfolding Move Allowed is_valid_transition
to_error BrokerState.no_session = inr refl
to_error BrokerState.session_started = inr refl
to_error BrokerState.error_state = inl refl

-- The machine and the flag stay, or there is an allowed transition, behind which the flag is set if
-- the broker is in a session. The count stays in its width.
pub data Outcome (s s' : Broker) : Type 0 where
  kept :
      s'.machine ≡ s.machine
      → s'.session_active ≡ s.session_active
      → (s.reading_count < 2 ^ 32 → s'.reading_count < 2 ^ 32)
      → Outcome s s'
  moved :
      (b : BrokerState)
      → Move s.machine.current_state b
      → s'.machine ≡ (transition_to code s.machine b).1
      → ((code b == 2) ≡ true → s'.session_active ≡ true)
      → (s.reading_count < 2 ^ 32 → s'.reading_count < 2 ^ 32)
      → Outcome s s'

pub unchanged : (s : Broker) → Outcome s s
unchanged s = kept refl refl (λ v. v)

pub handle_start_command-Outcome :
    (s : Broker) (sensor : DeviceId) (session : SessionId) (now : ℕ)
    → Outcome s (handle_start_command s sensor session now).1
unfolding handle_start_command
handle_start_command-Outcome s sensor session now =
    elim (Bool-cases (in_state s BrokerState.no_session)) [
      | inl ready ↦ rw ready (
          moved BrokerState.session_started (to_started s.machine.current_state ready) refl
            (λ h. refl) (λ v. omega arith))
      | inr unready ↦ rw unready (unchanged s)
    ]

pub handle_reading-Outcome :
    (s : Broker) (sender : DeviceId) (msg : ReadingMsg) → Outcome s (handle_reading s sender msg).1
unfolding handle_reading
handle_reading-Outcome s sender msg =
    elim (Bool-cases (
      not (in_state s BrokerState.session_started)
      || not (device_eq sender s.target_sensor_id)
      || not (session_eq msg.session_id s.current_session_id))) [
        | inl refused ↦ rw refused (unchanged s)
        | inr taken ↦ rw taken (kept refl refl (λ v. mod-lt (s.reading_count + 1) (omega arith)))
      ]

end_session-Outcome : (s : Broker) → Outcome s (go_to (end_session s) BrokerState.no_session).1
end_session-Outcome s =
    moved BrokerState.no_session (to_no_session s.machine.current_state) refl
      (λ h. absurd (ground arith)) (λ v. omega arith)

pub handle_session_end-Outcome : (s : Broker) → Outcome s (handle_session_end s).1
unfolding handle_session_end
handle_session_end-Outcome s = elim (Bool-cases (in_state s BrokerState.session_started)) [
  | inl ready ↦ rw ready (end_session-Outcome s)
  | inr unready ↦ rw unready (unchanged s)
]

pub handle_backend_timeout-Outcome : (s : Broker) → Outcome s (handle_backend_timeout s).1
unfolding handle_backend_timeout
handle_backend_timeout-Outcome s = elim (Bool-cases (in_state s BrokerState.session_started)) [
  | inl ready ↦ rw ready (end_session-Outcome s)
  | inr unready ↦ rw unready (unchanged s)
]

pub handle_error-Outcome :
    (s : Broker) (message : List ℕ)
    → Outcome (record s { machine = report_error s.machine message }) (handle_error s message)
unfolding handle_error
handle_error-Outcome s message =
    moved BrokerState.error_state (to_error s.machine.current_state) refl
      (λ h. absurd (ground arith)) (λ v. v)

pub handle_recovery-Outcome : (s : Broker) → Outcome s (handle_recovery s)
unfolding handle_recovery
handle_recovery-Outcome s =
    moved BrokerState.no_session (to_no_session s.machine.current_state) refl
      (λ h. absurd (ground arith)) (λ v. v)

pub Outcome-Moved :
    {s s' : Broker} → Outcome s s' → Moved code is_valid_transition s.machine s'.machine
unfolding Move
Outcome-Moved (kept same flag count) = inl same
Outcome-Moved (moved b allowed e active count) = inr (b, allowed, e)

-- In a session the flag is set, and the count fits its width.
pub record IsBroker (s : Broker) : Type 0 where
  pub active : in_state s BrokerState.session_started ≡ true → s.session_active ≡ true
  pub counted : s.reading_count < 2 ^ 32

pub Outcome-IsBroker : {s s' : Broker} → Outcome s s' → IsBroker s → IsBroker s'
Outcome-IsBroker (kept same flag count) v = record {
  active = λ h. flag ∙ v.active (rw same at h);
  counted = count v.counted;
}
Outcome-IsBroker {s} (moved b allowed e active count) v =
    let at = transition_to-current_state code is_valid_transition s.machine b in
    record { active = λ h. active (rw (e, at) at h); counted = count v.counted }
