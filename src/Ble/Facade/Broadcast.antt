-- ===== src/Ble/Facade/Broadcast.antt =====
-- A reading on its way from the sensor to the broker over the native driver.
use jenlib.Common.{
  ◌^◌, ◌<◌, ◌≡◌, sym, ap, ◌∙◌, true, [], ◌∷◌, ◌++◌, some, leb, arith, if◌then◌else◌, length,
}
use jenlib.Ble.Payload.{empty_payload}
use jenlib.Ble.Payload.Content.{content, length-content}
use jenlib.Ble.Ids.{DeviceId}
use jenlib.Ble.Messages.{ReadingMsg}
use jenlib.Ble.Messages.Reading
use jenlib.Ble.Native.{
  NativeBleDriver, payload_with_sender, drop_oldest, set_inbox, advertise, message, run_callback,
}
use jenlib.Ble.Native.Header.{header, empty_payload-Holds}
use jenlib.Ble.Native.Dispatch.{advertise_keeps_sender}
use jenlib.Ble.Native.Inbox.{IsSilent, set_inbox-IsSilent, inbox_of, receive_first}
use jenlib.Ble.Facade.{native_driver, broadcast_reading, receive, if_serialized}

-- Over an initialized native driver without callbacks for payloads whose inbox of device 0 is
-- empty, a reading that is broadcast, with fields and a sender that fit their widths, is received
-- by device 0 as the header of its sender and the encoding of the reading.
pub broadcast_reading-receive :
    (d : NativeBleDriver) (sender : DeviceId) (m : ReadingMsg)
    → IsSilent d
    → d.inbox 0 ≡ []
    → sender.value < 2 ^ 32
    → Reading.Wire.IsMsg m
    → let sent = broadcast_reading native_driver (some d) sender m in
      let (done, q, _) = receive native_driver sent (record { value = 0 }) empty_payload in
      (done ≡ true) × (content q ≡ header sender.value ++ Reading.Wire.encoding m)
unfolding broadcast_reading receive drop_oldest
broadcast_reading-receive d sender m s none_stored fits w =
    let broker : DeviceId = record { value = 0 } in
    let (q, e, c, u) = Reading.Wire.serialize_lem m empty_payload empty_payload-Holds.2 in
    let wrapped = payload_with_sender sender q in
    let d' = set_inbox d 0 (wrapped ∷ []) in
    let (cw, adv) = advertise_keeps_sender d sender q u fits s.ready in
    let called = run_callback (message sender wrapped) d in
    let queued = set_inbox d 0 (drop_oldest (d.inbox 0) ++ (wrapped ∷ [])) in
    let stored : advertise d sender q ≡ d' =
      adv
      ∙ ap (λ b. if b then called else queued) s.no_message
      ∙ ap (λ l. set_inbox d 0 (drop_oldest l ++ (wrapped ∷ []))) none_stored in
    let sent =
      ap (λ r. some (if_serialized native_driver r (advertise d sender) d)) e ∙ ap some stored in
    let silent = set_inbox-IsSilent d 0 (wrapped ∷ []) s in
    let first = receive_first d' broker wrapped [] silent (inbox_of d 0 (wrapped ∷ [])) in
    let got =
      ap (λ x. receive native_driver x broker empty_payload) sent
      ∙ ap (λ r. (r.0, r.1, some r.2)) first in
    let long : q.size ≡ 18 = sym (length-content u) ∙ ap length c in
    let small : leb q.size 59 ≡ true = ground (arith, long) in
    let whole = ap (λ b. header sender.value ++ (if b then content q else [])) small in
    (
      ap (λ r. r.0) got,
      ap (λ r. content r.1) got ∙ cw ∙ whole ∙ ap (λ l. header sender.value ++ l) c,
    )
