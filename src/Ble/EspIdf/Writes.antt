-- ===== src/Ble/EspIdf/Writes.antt =====
-- What becomes of a value that a peer writes, and of the payloads that `receive` waits for.
use jenlib.Common.{
  All-take, ℕ, ◌≡◌, ◌≢◌, ◌≤◌, ◌<◌, refl, sym, ap, subst, ◌∙◌, Bool, true, false, List, [], ◌∷◌,
  ◌==◌, ◌||◌, not, some, none, if◌then◌else◌, arith, All, lt→ltb, ◌+◌, length, take,
}
use jenlib.Ble.Payload.{BlePayload, empty_payload, append_raw, append_loop, max_payload}
use jenlib.Ble.Payload.Content.{
  IsByte, IsValid, content, length-content, append_raw-Appends, Appends-Fits,
}
use jenlib.Ble.Ids.{DeviceId}
use jenlib.Ble.Native.{CallbackRun, message}
use jenlib.Ble.Native.Header.{empty_payload-Holds}
use jenlib.Ble.Messages.StartBroadcast
use jenlib.Ble.Messages.Reading
use jenlib.Ble.Messages.Receipt
use jenlib.Ble.Typed.{
  Message, start_msg, reading_msg, receipt_msg, typed_callback_other, encoding, IsMessage, call_of,
  listens, typed_callback-encoding,
}
use jenlib.Ble.EspIdf.{EspIdfBleDriver, run_callback}
use jenlib.Ble.EspIdf.Handlers.{
  GattsEvent, write, on_write, on_gatts_event, gatts_event_handler, route,
  extract_sender_id_from_connection, typed_or_generic,
}

-- The payload that a written value becomes.
abbrev pub written_payload : List ℕ → BlePayload
written_payload value = (append_raw empty_payload value (length value)).1

take_all : (l : List ℕ) → take (length l) l ≡ l
take_all [] = refl
take_all (x ∷ l) = ap (λ r. x ∷ r) (take_all l)

written_payload_holds :
    (value : List ℕ)
    → All IsByte value
    → length value ≤ max_payload
    → (content (written_payload value) ≡ value) × IsValid (written_payload value)
written_payload_holds value bytes small =
    let appended =
      append_raw-Appends empty_payload value (length value) empty_payload-Holds.2 bytes
        (omega arith) in
    let (q, e, c, _, v) =
      Appends-Fits empty_payload (take (length value) value) _ appended
        (omega (arith, ap length (take_all value))) in
    let same = sym (ap (λ r. r.1) e) in
    (ap content (ap (λ r. r.1) e) ∙ c ∙ take_all value, subst IsValid same v)

written_payload_too_long :
    (value : List ℕ) → max_payload < length value → written_payload value ≡ empty_payload
unfolding append_raw
written_payload_too_long value big =
    let pick : Bool → Bool × BlePayload = λ b.
      if b
      then (false, empty_payload)
      else (true, append_loop empty_payload value (length value)) in
    ap (λ b. (pick b).1) (lt→ltb max_payload (0 + length value) (omega arith))

content-fits :
    (q : BlePayload) (l : List ℕ)
    → IsValid q
    → content q ≡ l
    → All IsByte l × (length l ≤ max_payload)
content-fits q l v c = (
  subst (All IsByte) c (All-take IsByte q.size q.bytes v.all_bytes),
  omega (arith, ap length c, length-content v, v.within),
)

-- The encoding of a message is a value that fits in a payload.
encoding-fits :
    (m : Message) → IsMessage m → All IsByte (encoding m) × (length (encoding m) ≤ max_payload)
encoding-fits (start_msg m) w =
    let (q, _, c, v) = StartBroadcast.Wire.serialize_lem m empty_payload empty_payload-Holds.2 in
    content-fits q (StartBroadcast.Wire.encoding m) v c
encoding-fits (reading_msg m) w =
    let (q, _, c, v) = Reading.Wire.serialize_lem m empty_payload empty_payload-Holds.2 in
    content-fits q (Reading.Wire.encoding m) v c
encoding-fits (receipt_msg m) w =
    let (q, _, c, v) = Receipt.Wire.serialize_lem m empty_payload empty_payload-Holds.2 in
    content-fits q (Receipt.Wire.encoding m) v c

-- A value that is written in one piece.
abbrev pub whole_write : ℕ → List ℕ → GattsEvent
whole_write handle value =
    write (some (record { is_prep = false; handle = handle; value = value; len = length value }))

whole_write_routed :
    (d : EspIdfBleDriver) (handle : ℕ) (value : List ℕ)
    → d.is_instance ≡ true
    → (handle == d.control_char_handle || handle == d.receipt_char_handle) ≡ true
    → gatts_event_handler (whole_write handle value) d
      ≡ route extract_sender_id_from_connection (written_payload value) d
unfolding gatts_event_handler on_gatts_event on_write
whole_write_routed d handle value active hit =
    ap (λ b. if not b then d else on_gatts_event (whole_write handle value) d) active
    ∙ ap (λ b. if b then route extract_sender_id_from_connection (written_payload value) d else d)
        hit

typed_or_generic_if :
    (heard : Bool) (call : CallbackRun) (sender : DeviceId) (p : BlePayload) (d : EspIdfBleDriver)
    → typed_or_generic (if heard then some call else none) sender p d ≡ (
        if heard
        then run_callback call d
        else if d.message_callback
        then run_callback (message sender p) d
        else d)
typed_or_generic_if true call sender p d = refl
typed_or_generic_if false call sender p d = refl

-- A message whose fields fit their widths and whose encoding a peer writes in one piece to the
-- control or the receipt characteristic of the active ESP-IDF driver runs the callback of its type,
-- once, with that message and sender 0; without that callback it goes, as a payload that holds the
-- encoding, to the message callback, and without that one nothing changes.
pub write_message :
    (d : EspIdfBleDriver) (handle : ℕ) (m : Message)
    → IsMessage m
    → d.is_instance ≡ true
    → (handle == d.control_char_handle || handle == d.receipt_char_handle) ≡ true
    → let sender = extract_sender_id_from_connection in
      let p = written_payload (encoding m) in
      (gatts_event_handler (whole_write handle (encoding m)) d ≡ (
        if listens d.start_broadcast_callback d.reading_callback d.receipt_callback m
        then run_callback (call_of sender m) d
        else if d.message_callback
        then run_callback (message sender p) d
        else d))
      × (content p ≡ encoding m)
write_message d handle m w active hit =
    let sender = extract_sender_id_from_connection in
    let (bytes, small) = encoding-fits m w in
    let p = written_payload (encoding m) in
    let (c, v) = written_payload_holds (encoding m) bytes small in
    let found =
      typed_callback-encoding d.start_broadcast_callback d.reading_callback d.receipt_callback
        sender p v m w c in
    (
      whole_write_routed d handle (encoding m) active hit
          ∙ ap (λ call. typed_or_generic call sender p d) found
          ∙ typed_or_generic_if _ (call_of sender m) sender p d,
      c,
    )

-- A value of more than 64 bytes that a peer writes in one piece to the control or the receipt
-- characteristic of the active ESP-IDF driver reaches the message callback as a payload without a
-- byte, if that callback is set, and no typed callback; otherwise nothing changes.
pub write_too_long :
    (d : EspIdfBleDriver) (handle : ℕ) (value : List ℕ)
    → max_payload < length value
    → d.is_instance ≡ true
    → (handle == d.control_char_handle || handle == d.receipt_char_handle) ≡ true
    → gatts_event_handler (whole_write handle value) d ≡ (
        if d.message_callback
        then run_callback (message extract_sender_id_from_connection empty_payload) d
        else d)
write_too_long d handle value big active hit =
    let sender = extract_sender_id_from_connection in
    let lost = written_payload_too_long value big in
    let silent =
      typed_callback_other d.start_broadcast_callback d.reading_callback d.receipt_callback sender
        empty_payload empty_payload-Holds.2 no_message in
    whole_write_routed d handle value active hit
    ∙ ap (λ p. route sender p d) lost
    ∙ ap (λ call. typed_or_generic call sender empty_payload d) silent
  where
    no_message : (m : Message) → IsMessage m → content empty_payload ≢ encoding m
    no_message (start_msg m) w e = cc
    no_message (reading_msg m) w e = cc
    no_message (receipt_msg m) w e = cc
