-- ===== src/Ble/Native.antt =====
-- src/ble/drivers/NativeBleDriver.cpp: the driver that delivers payloads within one process, by a
-- callback or through bounded inboxes. A callback is set or not, and its calls are collected, oldest
-- first, in `calls`; the lock is left out.
pub mod Header
pub mod Inbox
pub mod Dispatch
mod Tests
use jenlib.Common.{
  ℕ, zero, suc, ◌+◌, ◌≤◌, Bool, true, false, List, [], ◌∷◌, ◌++◌, ◌==◌, ◌&&◌, leb, not,
  if◌then◌else◌, length, get_or,
}
use jenlib.Common.Int.{pos}
use jenlib.Ble.Payload.{BlePayload, empty_payload, byte_of, join32, append_u8, append_raw}
use jenlib.Ble.Ids.{DeviceId, SessionId}
use jenlib.Ble.Messages.{StartBroadcastMsg, ReadingMsg, ReceiptMsg}
use jenlib.Ble.Messages.StartBroadcast
use jenlib.Ble.Messages.Reading
use jenlib.Ble.Messages.Receipt

abbrev pub sender_id_marker : ℕ
sender_id_marker = 0xFF

abbrev pub max_queue_size : ℕ
max_queue_size = 100

-- The calls of the five callbacks.
pub data CallbackRun : Type 0 where
  connection : Bool → CallbackRun
  start_broadcast : DeviceId → StartBroadcastMsg → CallbackRun
  reading : DeviceId → ReadingMsg → CallbackRun
  receipt : DeviceId → ReceiptMsg → CallbackRun
  message : DeviceId → BlePayload → CallbackRun

-- `inbox_` creates the queue of a device on its first use, empty: it is a function.
pub record NativeBleDriver : Type 0 where
  pub local_device_id : DeviceId
  pub initialized : Bool
  pub message_callback : Bool
  pub start_broadcast_callback : Bool
  pub reading_callback : Bool
  pub receipt_callback : Bool
  pub connection_callback : Bool
  pub inbox : ℕ → List BlePayload
  pub calls : List CallbackRun

abbrev pub new_driver : DeviceId → NativeBleDriver
new_driver local_device_id = record {
  local_device_id = local_device_id;
  initialized = false;
  message_callback = false;
  start_broadcast_callback = false;
  reading_callback = false;
  receipt_callback = false;
  connection_callback = false;
  inbox = λ _. [];
  calls = [];
}

abbrev pub run_callback : CallbackRun → NativeBleDriver → NativeBleDriver
run_callback c d = record d { calls = d.calls ++ (c ∷ []) }

abbrev pub tell_connection : Bool → NativeBleDriver → NativeBleDriver
tell_connection connected d =
    if d.connection_callback then run_callback (connection connected) d else d

unfoldable pub begin : NativeBleDriver → Bool × NativeBleDriver
begin d = (true, tell_connection true (record d { initialized = true }))

unfoldable pub end : NativeBleDriver → NativeBleDriver
end d = tell_connection false (record d { inbox = λ _. []; initialized = false })

abbrev pub is_connected : NativeBleDriver → Bool
is_connected d = d.initialized

abbrev pub get_local_device_id : NativeBleDriver → DeviceId
get_local_device_id d = d.local_device_id

abbrev pub clear_message_callback : NativeBleDriver → NativeBleDriver
clear_message_callback d = record d { message_callback = false }

abbrev pub clear_type_specific_callbacks : NativeBleDriver → NativeBleDriver
clear_type_specific_callbacks d = record d {
  start_broadcast_callback = false;
  reading_callback = false;
  receipt_callback = false;
}

abbrev pub clear_connection_callback : NativeBleDriver → NativeBleDriver
clear_connection_callback d = record d { connection_callback = false }

-- The setters, with a callback that is not empty.
abbrev pub set_message_callback : NativeBleDriver → NativeBleDriver
set_message_callback d = record d { message_callback = true }

abbrev pub set_start_broadcast_callback : NativeBleDriver → NativeBleDriver
set_start_broadcast_callback d = record d { start_broadcast_callback = true }

abbrev pub set_reading_callback : NativeBleDriver → NativeBleDriver
set_reading_callback d = record d { reading_callback = true }

abbrev pub set_receipt_callback : NativeBleDriver → NativeBleDriver
set_receipt_callback d = record d { receipt_callback = true }

abbrev pub set_connection_callback : NativeBleDriver → NativeBleDriver
set_connection_callback d = record d { connection_callback = true }

-- The results of the appends are not looked at.
unfoldable pub payload_with_sender : DeviceId → BlePayload → BlePayload
payload_with_sender sender_id payload =
    let v = sender_id.value in
    let b0 = (append_u8 empty_payload sender_id_marker).1 in
    let b1 = (append_u8 b0 (byte_of 0 v)).1 in
    let b2 = (append_u8 b1 (byte_of 8 v)).1 in
    let b3 = (append_u8 b2 (byte_of 16 v)).1 in
    let b4 = (append_u8 b3 (byte_of 24 v)).1 in (append_raw b4 payload.bytes payload.size).1

unfoldable pub extract_sender_id : BlePayload → DeviceId
extract_sender_id payload =
    let byte = get_or payload.bytes in
    if leb 5 payload.size && byte 0 0 == sender_id_marker
    then record { value = join32 (byte 1 0) (byte 2 0) (byte 3 0) (byte 4 0) }
    else record { value = 0 }

-- The local messages that the deserializers fill; a field that the source leaves without a value is 0
-- here, and is overwritten by every deserializer that succeeds.
abbrev pub blank_start : StartBroadcastMsg
blank_start = record { device_id = record { value = 0 }; session_id = record { value = 0 } }

abbrev pub blank_reading : ReadingMsg
blank_reading = record {
  sender_id = record { value = 0 };
  session_id = record { value = 0 };
  offset_ms = 0;
  temperature_c_centi = pos 0;
  humidity_bp = 0;
}

abbrev pub blank_receipt : ReceiptMsg
blank_receipt = record { session_id = record { value = 0 }; up_to_offset_ms = 0 }

-- One attempt of `try_type_specific_callbacks`, and what follows if it does not succeed.
abbrev pub attempt :
    {M : Type 0}
    → Bool
    → Bool × M
    → (M → CallbackRun)
    → NativeBleDriver
    → Bool × NativeBleDriver
    → Bool × NativeBleDriver
attempt callback (read, msg) call d rest =
    if callback && read then (true, run_callback (call msg) d) else rest

unfoldable pub try_type_specific_callbacks :
    NativeBleDriver → DeviceId → BlePayload → Bool × NativeBleDriver
try_type_specific_callbacks d sender_id payload =
    attempt d.start_broadcast_callback (StartBroadcast.deserialize payload blank_start)
      (start_broadcast sender_id) d
      (attempt d.reading_callback (Reading.deserialize payload blank_reading) (reading sender_id) d
        (attempt d.receipt_callback (Receipt.deserialize payload blank_receipt) (receipt sender_id)
          d (false, d)))

-- The loop that drops the oldest payloads.
unfoldable pub drop_oldest : List BlePayload → List BlePayload
drop_oldest [] = []
drop_oldest (p ∷ queue) =
    if leb max_queue_size (length (p ∷ queue)) then drop_oldest queue else p ∷ queue

abbrev pub set_inbox : NativeBleDriver → ℕ → List BlePayload → NativeBleDriver
set_inbox d device queue = record d {
  inbox = λ other. if other == device then queue else d.inbox other;
}

unfoldable pub enqueue : NativeBleDriver → DeviceId → BlePayload → NativeBleDriver
enqueue d dest payload =
    let sender_id = extract_sender_id payload in
    let (handled, d') = try_type_specific_callbacks d sender_id payload in
    if handled
    then d'
    else if d.message_callback
    then run_callback (message sender_id payload) d
    else set_inbox d dest.value (drop_oldest (d.inbox dest.value) ++ (payload ∷ []))

unfoldable pub advertise : NativeBleDriver → DeviceId → BlePayload → NativeBleDriver
advertise d device_id payload =
    if not d.initialized
    then d
    else enqueue d (record { value = 0 }) (payload_with_sender device_id payload)

unfoldable pub send_to : NativeBleDriver → DeviceId → BlePayload → NativeBleDriver
send_to d device_id payload = if not d.initialized then d else enqueue d device_id payload

unfoldable pub receive :
    NativeBleDriver → DeviceId → BlePayload → Bool × BlePayload × NativeBleDriver
receive d self_id out_payload =
    if not d.initialized then (false, out_payload, d) else elim (d.inbox self_id.value) [
      | [] ↦ (false, out_payload, d)
      | p ∷ queue ↦ (true, p, set_inbox d self_id.value queue)
    ]
