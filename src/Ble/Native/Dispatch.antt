-- ===== src/Ble/Native/Dispatch.antt =====
-- What becomes of a payload that is advertised, and of a message that is sent.
use jenlib.Common.{
  some, none, ℕ, suc, ◌^◌, ◌<◌, ◌≡◌, ◌≢◌, refl, sym, ap, subst, ◌∙◌, true, false, List, [], ◌∷◌,
  ◌++◌, arith, not, leb, if◌then◌else◌, length, get_or,
}
use jenlib.Ble.Payload.{BlePayload}
use jenlib.Ble.Payload.Content.{IsValid, content, length-content}
use jenlib.Ble.Ids.{DeviceId}
use jenlib.Ble.Messages.{ReadingMsg}
use jenlib.Ble.Messages.Reading
use jenlib.Ble.Native.{
  NativeBleDriver, message, reading, run_callback, payload_with_sender, extract_sender_id,
  try_type_specific_callbacks, drop_oldest, set_inbox, enqueue, advertise, send_to,
}
use jenlib.Ble.Typed.{
  Message, start_msg, reading_msg, receipt_msg, encoding, IsMessage, call_of, listens, run_found,
  typed_callback-encoding, typed_callback_other, try_type_specific_callbacks-typed_callback,
}
use jenlib.Ble.Native.Header.{
  header, payload_with_sender-Holds, extract_sender_id-payload_with_sender, extract_sender_id_none,
  byte_of_content,
}

enqueue_untyped :
    (d : NativeBleDriver) (dest sender : DeviceId) (p : BlePayload)
    → extract_sender_id p ≡ sender
    → try_type_specific_callbacks d sender p ≡ (false, d)
    → enqueue d dest p ≡ (
        if d.message_callback
        then run_callback (message sender p) d
        else set_inbox d dest.value (drop_oldest (d.inbox dest.value) ++ (p ∷ [])))
unfolding enqueue
enqueue_untyped d dest sender p e t = rw (e, t) refl

enqueue_typed :
    (d d' : NativeBleDriver) (dest sender : DeviceId) (p : BlePayload)
    → extract_sender_id p ≡ sender
    → try_type_specific_callbacks d sender p ≡ (true, d')
    → enqueue d dest p ≡ d'
unfolding enqueue
enqueue_typed d d' dest sender p e t = rw (e, t) refl

-- No message begins with the marker.
no_message :
    (q : BlePayload)
    → get_or (content q) 0 0 ≡ 255
    → (m : Message) → IsMessage m
    → content q ≢ encoding m
no_message q marker (start_msg m) w e = omega (arith, marker, ap (λ l. get_or l 0 0) e)
no_message q marker (reading_msg m) w e = omega (arith, marker, ap (λ l. get_or l 0 0) e)
no_message q marker (receipt_msg m) w e = omega (arith, marker, ap (λ l. get_or l 0 0) e)

advertise_ready :
    (d : NativeBleDriver) (id : DeviceId) (p : BlePayload)
    → d.initialized ≡ true
    → advertise d id p ≡ enqueue d (record { value = 0 }) (payload_with_sender id p)
unfolding advertise
advertise_ready d id p ready =
    ap (λ b. if not b then d else enqueue d (record { value = 0 }) (payload_with_sender id p)) ready

send_to_ready :
    (d : NativeBleDriver) (dest : DeviceId) (p : BlePayload)
    → d.initialized ≡ true
    → send_to d dest p ≡ enqueue d dest p
unfolding send_to
send_to_ready d dest p ready = ap (λ b. if not b then d else enqueue d dest p) ready

-- A valid payload advertised by an initialized native driver gets the marker and the identifier of
-- its sender in front, and is lost behind them if it has more than 59 bytes. It runs no typed
-- callback, even if it holds a message, but goes to the message callback with its sender or,
-- without that callback, to the inbox of device 0.
pub advertise_keeps_sender :
    (d : NativeBleDriver) (id : DeviceId) (p : BlePayload)
    → IsValid p
    → id.value < 2 ^ 32
    → d.initialized ≡ true
    → let q = payload_with_sender id p in
      (content q ≡ header id.value ++ (if leb p.size 59 then content p else []))
      × (advertise d id p ≡ (
          if d.message_callback
          then run_callback (message id q) d
          else set_inbox d 0 (drop_oldest (d.inbox 0) ++ (q ∷ []))))
advertise_keeps_sender d id p v fits ready =
    let q = payload_with_sender id p in
    let (c, _, u) = payload_with_sender-Holds id p v in
    let marker : get_or (content q) 0 0 ≡ 255 = ap (λ l. get_or l 0 0) c in
    let sender = extract_sender_id-payload_with_sender id p v fits in
    let typed =
      try_type_specific_callbacks-typed_callback d id q
      ∙ ap (run_found d) (
          typed_callback_other d.start_broadcast_callback d.reading_callback d.receipt_callback id q
            u (no_message q marker)) in
    (c, advertise_ready d id p ready ∙ (enqueue_untyped d (record { value = 0 }) id q sender typed))

-- The sender of a message without a header is unknown.
sender_unknown :
    (p : BlePayload) (n : ℕ) (l : List ℕ)
    → IsValid p
    → content p ≡ n ∷ l
    → n ≢ 255
    → extract_sender_id p ≡ record { value = 0 }
sender_unknown p n l v c other =
    let long : p.size ≡ suc (length l) = sym (length-content v) ∙ ap length c in
    let first = byte_of_content p (n ∷ l) 0 c (omega (arith, long)) in
    extract_sender_id_none p (rw first other)

-- A payload that holds a message runs the callback of its type, if that is set.
pub message_dispatched :
    (d : NativeBleDriver) (dest : DeviceId) (m : Message) (q : BlePayload)
    → IsValid q
    → IsMessage m
    → content q ≡ encoding m
    → d.initialized ≡ true
    → listens d.start_broadcast_callback d.reading_callback d.receipt_callback m ≡ true
    → send_to d dest q ≡ run_callback (call_of (record { value = 0 }) m) d
message_dispatched d dest m q u w c ready listening =
    let unknown : DeviceId = record { value = 0 } in
    let typed =
      try_type_specific_callbacks-typed_callback d unknown q
      ∙ ap (run_found d) (
          typed_callback-encoding d.start_broadcast_callback d.reading_callback d.receipt_callback
            unknown q u m w c
          ∙ ap (λ b. if b then some (call_of unknown m) else none) listening) in
    send_to_ready d dest q ready ∙ enqueue_typed d _ dest unknown q (sender m c) typed
  where
    sender : (m : Message) → content q ≡ encoding m → extract_sender_id q ≡ record { value = 0 }
    sender (start_msg m) c = sender_unknown q 1 _ u c (omega arith)
    sender (reading_msg m) c = sender_unknown q 2 _ u c (omega arith)
    sender (receipt_msg m) c = sender_unknown q 3 _ u c (omega arith)

-- In an initialized native driver whose reading callback is set, whatever other callbacks are, a
-- serialized reading that is sent runs the reading callback with that reading, once, and no other
-- callback, and enters no inbox; the sender passed is 0.
pub send_to_reading :
    (d : NativeBleDriver) (dest : DeviceId) (m : ReadingMsg) (p : BlePayload)
    → IsValid p
    → Reading.Wire.IsMsg m
    → d.initialized ≡ true
    → d.reading_callback ≡ true
    → send_to d dest (Reading.serialize m p).1 ≡ run_callback (reading (record { value = 0 }) m) d
send_to_reading d dest m p v w ready listening =
    let (q, e, c, u) = Reading.Wire.serialize_lem m p v in
    subst (λ x. send_to d dest x ≡ run_callback (reading (record { value = 0 }) m) d)
      (sym (ap (λ r. r.1) e)) (message_dispatched d dest (reading_msg m) q u w c ready listening)
