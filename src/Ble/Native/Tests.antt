-- ===== src/Ble/Native/Tests.antt =====
-- The native driver at concrete inputs.
use jenlib.Common.{
  ℕ, ◌-◌, ◌≡◌, refl, true, List, [], ◌∷◌, ◌++◌, arith, leb, if◌then◌else◌, length, drop, replicate,
  All-replicate,
}
use jenlib.Common.Int.{pos}
use jenlib.Ble.Payload.{BlePayload, empty_payload, max_payload}
use jenlib.Ble.Payload.Content.{IsByte, IsValid, content}
use jenlib.Ble.Ids.{DeviceId}
use jenlib.Ble.Messages.{ReadingMsg}
use jenlib.Ble.Messages.Reading
use jenlib.Ble.Native.{
  NativeBleDriver, new_driver, reading, run_callback, payload_with_sender, drop_oldest, set_inbox,
  advertise, send_to,
}
use jenlib.Ble.Native.Header.{header}
use jenlib.Ble.Native.Dispatch.{advertise_keeps_sender, send_to_reading}
use jenlib.Ble.Native.Inbox.{IsSilent, send_all, receive_all, inbox_keeps_latest}

abbrev sensor : DeviceId
sensor = record { value = 7 }

abbrev broker : DeviceId
broker = record { value = 0 }

abbrev silent_driver : NativeBleDriver
silent_driver = record (new_driver sensor) { initialized = true }

abbrev listening_driver : NativeBleDriver
listening_driver = record silent_driver { reading_callback = true }

empty_payload-IsValid : IsValid empty_payload
empty_payload-IsValid = record {
  full_array = refl;
  within = omega arith;
  all_bytes = All-replicate IsByte max_payload 0 (omega arith);
}

abbrev reading_msg : ReadingMsg
reading_msg = record {
  sender_id = sensor;
  session_id = record { value = 9 };
  offset_ms = 70000;
  temperature_c_centi = pos 2150;
  humidity_bp = 4500;
}

reading_msg-IsMsg : Reading.Wire.IsMsg reading_msg
reading_msg-IsMsg = record {
  sender_fits = omega arith;
  session_fits = omega arith;
  offset_fits = omega arith;
  temperature_fits = omega arith;
  humidity_fits = omega arith;
}

-- A payload of one byte.
abbrev one_byte : ℕ → BlePayload
one_byte b = record { bytes = b ∷ replicate 63 0; size = 1 }

one_byte-IsValid : IsValid (one_byte 5)
one_byte-IsValid = record {
  full_array = refl;
  within = omega arith;
  all_bytes = (omega arith, All-replicate IsByte 63 0 (omega arith));
}

advertise_keeps_sender_example :
    let q = payload_with_sender sensor (one_byte 5) in
    (content q ≡ header 7 ++ (if leb 1 59 then content (one_byte 5) else []))
    × (advertise silent_driver sensor (one_byte 5)
        ≡ set_inbox silent_driver 0 (drop_oldest [] ++ (q ∷ [])))
advertise_keeps_sender_example =
    advertise_keeps_sender silent_driver sensor (one_byte 5) one_byte-IsValid (omega arith) refl

send_to_reading_example :
    send_to listening_driver broker (Reading.serialize reading_msg empty_payload).1
    ≡ run_callback (reading (record { value = 0 }) reading_msg) listening_driver
send_to_reading_example =
    send_to_reading listening_driver broker reading_msg empty_payload empty_payload-IsValid
      reading_msg-IsMsg refl refl

silent_driver-IsSilent : IsSilent silent_driver
silent_driver-IsSilent = record {
  ready = refl;
  no_message = refl;
  no_start = refl;
  no_reading = refl;
  no_receipt = refl;
}

abbrev payloads : List BlePayload
payloads = one_byte 1 ∷ one_byte 2 ∷ one_byte 3 ∷ []

inbox_keeps_latest_example :
    receive_all 3 (send_all silent_driver broker payloads) broker
    ≡ drop (length payloads - 100) payloads
inbox_keeps_latest_example =
    inbox_keeps_latest silent_driver broker payloads silent_driver-IsSilent refl
