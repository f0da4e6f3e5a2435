-- ===== src/Ble/EspIdf/Receiving.antt =====
-- What the ESP-IDF driver receives over any sequence of calls and events.
use jenlib.Common.{
  ℕ, ◌≡◌, refl, sym, ap, subst, inl, inr, Bool-cases, ◌∙◌, Bool, true, false, List, [], ◌∷◌, not,
  if◌then◌else◌, arith,
}
use jenlib.Ble.Payload.{BlePayload, empty_payload}
use jenlib.Ble.Ids.{DeviceId}
use jenlib.Ble.Buffer.{new_buffer, pop}
use jenlib.Ble.EspIdf.{
  EspIdfBleDriver, StackCall, begin, end, advertise, send_to, receive, poll, get_pending_payload,
  new_driver,
}
use jenlib.Ble.EspIdf.Handlers.{
  GattsEvent, GapEvent, on_char_added, on_write, on_gatts_event, gatts_event_handler,
  gap_event_handler, set_message_callback, clear_message_callback, set_start_broadcast_callback,
  set_reading_callback, set_receipt_callback, clear_type_specific_callbacks,
  set_connection_callback, clear_connection_callback,
}

-- Everything that the program and the stack can call. `begin` comes with the answers of the stack.
pub data Call : Type 0 where
  begins : (StackCall → Bool) → Call
  ends polls : Call
  advertises sends_to receives : DeviceId → BlePayload → Call
  gatts : GattsEvent → Call
  gap : GapEvent → Call
  sets_message clears_message sets_start sets_reading sets_receipt clears_typed : Call
  sets_connection clears_connection : Call

pub step : Call → EspIdfBleDriver → EspIdfBleDriver
step (begins answer) d = (begin answer d).1
step ends d = end d
step polls d = poll d
step (advertises id p) d = advertise d id p
step (sends_to id p) d = send_to d id p
step (receives id out) d = (receive d id out).2
step (gatts event) d = gatts_event_handler event d
step (gap event) d = gap_event_handler event d
step sets_message d = set_message_callback d
step clears_message d = clear_message_callback d
step sets_start d = set_start_broadcast_callback d
step sets_reading d = set_reading_callback d
step sets_receipt d = set_receipt_callback d
step clears_typed d = clear_type_specific_callbacks d
step sets_connection d = set_connection_callback d
step clears_connection d = clear_connection_callback d

pub run : List Call → EspIdfBleDriver → EspIdfBleDriver
run [] d = d
run (call ∷ calls) d = run calls (step call d)

-- Nothing but `receive` touches the buffer.
abbrev Kept : EspIdfBleDriver → EspIdfBleDriver → Type 0
Kept d d' = d'.received_payloads ≡ d.received_payloads

begin-Kept : (answer : StackCall → Bool) (d : EspIdfBleDriver) → Kept d (begin answer d).1
unfolding begin
begin-Kept answer d = ground arith

on_gatts_event-Kept : (event : GattsEvent) (d : EspIdfBleDriver) → Kept d (on_gatts_event event d)
unfolding on_gatts_event on_write on_char_added
on_gatts_event-Kept event d = ground arith

gatts-Kept : (event : GattsEvent) (d : EspIdfBleDriver) → Kept d (gatts_event_handler event d)
unfolding gatts_event_handler
gatts-Kept event d = ground (arith, on_gatts_event-Kept event d)

gap-Kept : (event : GapEvent) (d : EspIdfBleDriver) → Kept d (gap_event_handler event d)
unfolding gap_event_handler
gap-Kept event d = ground arith

sends-Kept :
    (id : DeviceId) (p : BlePayload) (d : EspIdfBleDriver)
    → Kept d (end d) × Kept d (poll d) × Kept d (advertise d id p)
unfolding end poll advertise
sends-Kept id p d = ground arith

-- With an empty buffer, `receive` fails and changes neither the payload nor the buffer.
receive_empty :
    (d : EspIdfBleDriver) (id : DeviceId) (out : BlePayload)
    → d.received_payloads ≡ new_buffer
    → let (done, out', d') = receive d id out in
      (done ≡ false) × (out' ≡ out) × (d'.received_payloads ≡ new_buffer)
unfolding receive pop
receive_empty d id out e =
    let nothing = ap (λ b. pop b out) e in
    elim (Bool-cases d.initialized) [
      | inr off ↦ receive_split d id out false off (refl, refl, e)
      | inl on ↦
          receive_split d id out true on
            (ap (λ r. r.0) nothing, ap (λ r. r.1) nothing, ap (λ r. r.2) nothing)
    ]
  where
    receive_split :
        (d : EspIdfBleDriver) (id : DeviceId) (out : BlePayload) (b : Bool)
        → d.initialized ≡ b
        → let (done, out', d') = if not b then (false, out, d) else get_pending_payload d id out in
          (done ≡ false) × (out' ≡ out) × (d'.received_payloads ≡ new_buffer)
          → let (done, out', d') = receive d id out in
            (done ≡ false) × (out' ≡ out) × (d'.received_payloads ≡ new_buffer)
    receive_split d id out b e h =
        subst
          (λ b.
            let (done, out', d') =
              if not b then (false, out, d) else get_pending_payload d id out in
            (done ≡ false) × (out' ≡ out) × (d'.received_payloads ≡ new_buffer))
          (sym e) h

step_empty :
    (call : Call) (d : EspIdfBleDriver)
    → d.received_payloads ≡ new_buffer
    → (step call d).received_payloads ≡ new_buffer
unfolding step
step_empty (begins answer) d e = begin-Kept answer d ∙ e
step_empty ends d e = (sends-Kept d.local_device_id empty_payload d).0 ∙ e
step_empty polls d e = (sends-Kept d.local_device_id empty_payload d).1 ∙ e
step_empty (advertises id p) d e = (sends-Kept id p d).2 ∙ e
step_empty (sends_to id p) d e = e
step_empty (receives id out) d e = (receive_empty d id out e).2
step_empty (gatts event) d e = gatts-Kept event d ∙ e
step_empty (gap event) d e = gap-Kept event d ∙ e
step_empty sets_message d e = e
step_empty clears_message d e = e
step_empty sets_start d e = e
step_empty sets_reading d e = e
step_empty sets_receipt d e = e
step_empty clears_typed d e = e
step_empty sets_connection d e = e
step_empty clears_connection d e = e

run_empty :
    (calls : List Call) (d : EspIdfBleDriver)
    → d.received_payloads ≡ new_buffer
    → (run calls d).received_payloads ≡ new_buffer
unfolding run
run_empty [] d e = e
run_empty (call ∷ calls) d e = run_empty calls (step call d) (step_empty call d e)

-- Whatever is called on a new ESP-IDF driver and whatever the stack answers and reports, values
-- that are written by a peer included, receive then fails and leaves its payload as it was.
pub receive_nothing :
    (gatt_if_none : ℕ) (self : DeviceId) (calls : List Call) (id : DeviceId) (out : BlePayload)
    → let (done, out', _) = receive (run calls (new_driver gatt_if_none self)) id out in
      (done ≡ false) × (out' ≡ out)
receive_nothing gatt_if_none self calls id out =
    let d = run calls (new_driver gatt_if_none self) in
    let (done, same, _) =
      receive_empty d id out (run_empty calls (new_driver gatt_if_none self) refl) in
    (done, same)
