-- ===== src/Ble/Arduino/Broadcast.antt =====
-- A reading on its way through the class `BLE` to the radio of an Arduino.
use jenlib.Common.{
  ◌≡◌, refl, sym, ap, ◌∙◌, Bool, true, false, [], ◌∷◌, ◌&&◌, not, some, ltb, lt→ltb, arith,
  if◌then◌else◌, length,
}
use jenlib.Ble.Payload.{BlePayload, empty_payload}
use jenlib.Ble.Payload.Content.{content, length-content}
use jenlib.Ble.Ids.{DeviceId}
use jenlib.Ble.Messages.{ReadingMsg}
use jenlib.Ble.Messages.Reading
use jenlib.Ble.Native.Header.{empty_payload-Holds}
use jenlib.Ble.Facade.{broadcast_reading, if_serialized}
use jenlib.Ble.Arduino.{
  ArduinoBleDriver, write_value, issue, advertise, is_connected, arduino_driver,
}

advertise_payload :
    (connected : Bool) (d : ArduinoBleDriver) (sender : DeviceId) (p : BlePayload)
    → ltb 0 p.size ≡ true
    → advertise connected d sender p
      ≡ (if is_connected connected d then issue (write_value (content p) ∷ []) d else d)
unfolding advertise
advertise_payload connected d sender p some_bytes =
    let written = issue (write_value (content p) ∷ []) d in
    ap
      (λ b.
        if not d.initialized
        then d
        else if is_connected connected d
        then (if b then written else d)
        else d)
      some_bytes
    ∙ cases d.initialized connected d written
  where
    cases :
        (a b : Bool) (x y : ArduinoBleDriver)
        → (if not a then x else if a && b then y else x) ≡ (if a && b then y else x)
    cases true b x y = refl
    cases false b x y = refl

-- Over the Arduino driver, a reading whose fields fit their widths is broadcast as one write of its
-- encoding, without a header, on the reading characteristic if the driver is initialized and the
-- radio is connected, and is lost otherwise.
pub broadcast_reading_writes :
    (answer connected : Bool) (d : ArduinoBleDriver) (sender : DeviceId) (m : ReadingMsg)
    → Reading.Wire.IsMsg m
    → broadcast_reading (arduino_driver answer connected) (some d) sender m
      ≡ some (
          if is_connected connected d
          then issue (write_value (Reading.Wire.encoding m) ∷ []) d
          else d)
unfolding broadcast_reading
broadcast_reading_writes answer connected d sender m w =
    let (q, e, c, v) = Reading.Wire.serialize_lem m empty_payload empty_payload-Holds.2 in
    let long : q.size ≡ 18 = sym (length-content v) ∙ ap length c in
    let sent = advertise_payload connected d sender q (lt→ltb 0 q.size (omega (arith, long))) in
    ap
      (λ r.
        some (if_serialized (arduino_driver answer connected) r (advertise connected d sender) d))
      e
    ∙ ap some
        (sent ∙ ap (λ l. if is_connected connected d then issue (write_value l ∷ []) d else d) c)
