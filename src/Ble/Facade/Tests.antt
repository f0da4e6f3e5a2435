-- ===== src/Ble/Facade/Tests.antt =====
-- The class `BLE` over the native driver at a concrete input.
use jenlib.Common.{◌≡◌, refl, true, ◌++◌, some, arith}
use jenlib.Common.Int.{pos}
use jenlib.Ble.Payload.{empty_payload}
use jenlib.Ble.Payload.Content.{content}
use jenlib.Ble.Ids.{DeviceId}
use jenlib.Ble.Messages.{ReadingMsg}
use jenlib.Ble.Messages.Reading
use jenlib.Ble.Native.{NativeBleDriver, new_driver}
use jenlib.Ble.Native.Header.{header}
use jenlib.Ble.Native.Inbox.{IsSilent}
use jenlib.Ble.Facade.{native_driver, broadcast_reading, receive}
use jenlib.Ble.Facade.Broadcast.{broadcast_reading-receive}

abbrev sensor : DeviceId
sensor = record { value = 7 }

abbrev silent_driver : NativeBleDriver
silent_driver = record (new_driver sensor) { initialized = true }

silent_driver-IsSilent : IsSilent silent_driver
silent_driver-IsSilent = record {
  ready = refl;
  no_message = refl;
  no_start = refl;
  no_reading = refl;
  no_receipt = refl;
}

abbrev reading_msg : ReadingMsg
reading_msg = record {
  sender_id = sensor;
  session_id = record { value = 9 };
  offset_ms = 70000;
  temperature_c_centi = pos 2150;
  humidity_bp = 4500;
}

reading_msg-IsMsg : Reading.Wire.IsMsg reading_msg
reading_msg-IsMsg = record {
  sender_fits = omega arith;
  session_fits = omega arith;
  offset_fits = omega arith;
  temperature_fits = omega arith;
  humidity_fits = omega arith;
}

broadcast_reading-receive_example :
    let sent = broadcast_reading native_driver (some silent_driver) sensor reading_msg in
    let (done, q, _) = receive native_driver sent (record { value = 0 }) empty_payload in
    (done ≡ true) × (content q ≡ header 7 ++ Reading.Wire.encoding reading_msg)
broadcast_reading-receive_example =
    broadcast_reading-receive silent_driver sensor reading_msg silent_driver-IsSilent refl
      (omega arith) reading_msg-IsMsg
