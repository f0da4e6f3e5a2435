-- ===== src/Ble/Tests.antt =====
-- The messages, the checksum and the payload buffer at concrete inputs.
use jenlib.Common.{
  ℕ, ◌<◌, ◌≡◌, ◌↔◌, refl, true, false, [], ◌∷◌, ◌&&◌, arith, replicate, All, All-replicate,
}
use jenlib.Common.Int.{pos}
use jenlib.Ble.Payload.{BlePayload, empty_payload, max_payload}
use jenlib.Ble.Payload.Content.{IsByte, IsValid, content}
use jenlib.Ble.Crc.{crc8}
use jenlib.Ble.Ids.{SessionId, DeviceId}
use jenlib.Ble.Ids
use jenlib.Ble.Ids.Wire.{encode_id}
use jenlib.Ble.Ids.Integrity.{deserialize_detects}
use jenlib.Ble.Messages.{StartBroadcastMsg, ReadingMsg, ReceiptMsg}
use jenlib.Ble.Messages.StartBroadcast
use jenlib.Ble.Messages.Reading
use jenlib.Ble.Messages.Receipt
use jenlib.Ble.Messages.StartBroadcast.Wire.{start_broadcast_round_trip, start_broadcast_exact}
use jenlib.Ble.Messages.Reading.Wire.{reading_round_trip, reading_exact}
use jenlib.Ble.Messages.Receipt.Wire.{receipt_round_trip, receipt_exact}
use jenlib.Ble.Messages.Disjoint.{messages_disjoint}
use jenlib.Ble.Buffer.{new_buffer}
use jenlib.Ble.Buffer.Fifo.{pushes, pops, run, fifo_run, buffer_refines_fifo}

abbrev start_msg : StartBroadcastMsg
start_msg = record { device_id = record { value = 7 }; session_id = record { value = 9 } }

abbrev reading_msg : ReadingMsg
reading_msg = record {
  sender_id = record { value = 7 };
  session_id = record { value = 9 };
  offset_ms = 70000;
  temperature_c_centi = pos 2150;
  humidity_bp = 4500;
}

abbrev receipt_msg : ReceiptMsg
receipt_msg = record { session_id = record { value = 9 }; up_to_offset_ms = 70000 }

start_msg-IsMsg : StartBroadcast.Wire.IsMsg start_msg
start_msg-IsMsg = record { device_fits = omega arith; session_fits = omega arith }

reading_msg-IsMsg : Reading.Wire.IsMsg reading_msg
reading_msg-IsMsg = record {
  sender_fits = omega arith;
  session_fits = omega arith;
  offset_fits = omega arith;
  temperature_fits = omega arith;
  humidity_fits = omega arith;
}

receipt_msg-IsMsg : Receipt.Wire.IsMsg receipt_msg
receipt_msg-IsMsg = record { session_fits = omega arith; offset_fits = omega arith }

zeros-IsByte : (n : ℕ) → All IsByte (replicate n 0)
zeros-IsByte n = All-replicate IsByte n 0 (omega arith)

empty_payload-IsValid : IsValid empty_payload
empty_payload-IsValid = record {
  full_array = refl;
  within = omega arith;
  all_bytes = zeros-IsByte max_payload;
}

-- The identifier 1 as it is sent, and with its first byte changed.
abbrev id_payload : ℕ → BlePayload
id_payload b = record { bytes = b ∷ 0 ∷ 0 ∷ 0 ∷ 22 ∷ replicate 59 0; size = 5 }

id_payload-IsValid : (b : ℕ) → b < 256 → IsValid (id_payload b)
id_payload-IsValid b h = record {
  full_array = refl;
  within = omega arith;
  all_bytes = (h, (omega arith, (omega arith, (omega arith, (omega arith, zeros-IsByte 59)))));
}

encoded_one : encode_id 1 ≡ 1 ∷ 0 ∷ 0 ∷ 0 ∷ 22 ∷ []
unfolding crc8
encoded_one = refl

reading_round_trip_example :
    (q : BlePayload) × (Reading.serialize reading_msg empty_payload ≡ (true, q))
    × (Reading.deserialize q reading_msg ≡ (true, reading_msg))
reading_round_trip_example =
    reading_round_trip reading_msg reading_msg empty_payload empty_payload-IsValid reading_msg-IsMsg

reading_exact_example : (Reading.deserialize (id_payload 2) reading_msg ≡ (true, reading_msg)) ↔ (
    Reading.Wire.IsMsg reading_msg × (content (id_payload 2) ≡ Reading.Wire.encoding reading_msg))
reading_exact_example =
    reading_exact reading_msg reading_msg (id_payload 2) (id_payload-IsValid 2 (omega arith))

messages_disjoint_example :
    let a = (StartBroadcast.deserialize (id_payload 1) start_msg).0 in
    let b = (Reading.deserialize (id_payload 1) reading_msg).0 in
    let c = (Receipt.deserialize (id_payload 1) receipt_msg).0 in
    (a && b ≡ false) × (a && c ≡ false) × (b && c ≡ false)
messages_disjoint_example =
    messages_disjoint (id_payload 1) (id_payload-IsValid 1 (omega arith)) start_msg reading_msg
      receipt_msg

deserialize_detects_example : (Ids.deserialize (id_payload 2) 0 5 (record { value = 0 })).0 ≡ false
deserialize_detects_example =
    deserialize_detects (id_payload 2) 0 1 1 2 (record { value = 0 }) [] (0 ∷ 0 ∷ 0 ∷ 22 ∷ []) []
      (id_payload-IsValid 2 (omega arith)) (omega arith) encoded_one (omega arith) refl

buffer_refines_fifo_example :
    run new_buffer (pushes (id_payload 1) ∷ pops empty_payload ∷ pops empty_payload ∷ [])
    ≡ fifo_run [] (pushes (id_payload 1) ∷ pops empty_payload ∷ pops empty_payload ∷ [])
buffer_refines_fifo_example =
    buffer_refines_fifo (pushes (id_payload 1) ∷ pops empty_payload ∷ pops empty_payload ∷ [])
