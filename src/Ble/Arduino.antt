-- ===== src/Ble/Arduino.antt =====
-- src/ble/drivers/ArduinoBleDriver.cpp: the driver over the ArduinoBLE library. What `BLE.begin()` and
-- `BLE.connected()` answer are arguments, the calls of the library are collected in `stack` and those of
-- the callbacks in `calls`, each oldest first. The name of the device, which nothing reads, is left out.
pub mod Edges
pub mod Broadcast
pub mod Receiving
mod Tests
use jenlib.Common.{
  ℕ, Bool, true, false, List, [], ◌∷◌, ◌++◌, ◌==◌, ◌&&◌, not, if◌then◌else◌, ltb, length,
}
use jenlib.Ble.Payload.{BlePayload, empty_payload, append_raw}
use jenlib.Ble.Payload.Content.{content}
use jenlib.Ble.Ids.{DeviceId}
use jenlib.Ble.Buffer.{PayloadBuffer, new_buffer, empty, push, pop}
use jenlib.Ble.Native.{CallbackRun, connection}
use jenlib.Ble.Typed.{typed_callback}
use jenlib.Ble.Facade.{BleCallbacks, BleDriver}

pub data Characteristic : Type 0 where
  control reading_chr receipt_chr : Characteristic

-- The calls of the library; `write_value` is one on the reading characteristic.
pub data LibraryCall : Type 0 where
  ble_begin ble_end ble_advertise ble_poll set_advertised_service add_service : LibraryCall
  add_characteristic set_written_handler : Characteristic → LibraryCall
  write_value : List ℕ → LibraryCall

pub record ArduinoBleDriver : Type 0 where
  pub local_device_id : DeviceId
  pub received_payloads : PayloadBuffer
  pub message_callback : Bool
  pub start_broadcast_callback : Bool
  pub reading_callback : Bool
  pub receipt_callback : Bool
  pub connection_callback : Bool
  pub initialized : Bool
  pub last_connected_state : Bool
  pub calls : List CallbackRun
  pub stack : List LibraryCall

abbrev pub new_driver : DeviceId → ArduinoBleDriver
new_driver local_device_id = record {
  local_device_id = local_device_id;
  received_payloads = new_buffer;
  message_callback = false;
  start_broadcast_callback = false;
  reading_callback = false;
  receipt_callback = false;
  connection_callback = false;
  initialized = false;
  last_connected_state = false;
  calls = [];
  stack = [];
}

-- The constructor with callbacks: each setter is called for a callback that is not empty.
abbrev pub new_driver_with : DeviceId → BleCallbacks → ArduinoBleDriver
new_driver_with local_device_id cb = record (new_driver local_device_id) {
  connection_callback = cb.on_connection;
  start_broadcast_callback = cb.on_start;
  reading_callback = cb.on_reading;
  receipt_callback = cb.on_receipt;
  message_callback = cb.on_generic;
}

abbrev pub issue : List LibraryCall → ArduinoBleDriver → ArduinoBleDriver
issue made d = record d { stack = d.stack ++ made }

abbrev pub run_callback : CallbackRun → ArduinoBleDriver → ArduinoBleDriver
run_callback call d = record d { calls = d.calls ++ (call ∷ []) }

abbrev pub setup_gatt_service : ArduinoBleDriver → ArduinoBleDriver
setup_gatt_service d =
    issue
      (add_characteristic control
        ∷ add_characteristic reading_chr
        ∷ add_characteristic receipt_chr
        ∷ set_written_handler control
        ∷ set_written_handler receipt_chr
        ∷ set_advertised_service
        ∷ add_service
        ∷ ble_advertise
        ∷ [])
      d

unfoldable pub begin : Bool → ArduinoBleDriver → Bool × ArduinoBleDriver
begin answer d =
    if d.initialized then (true, d) else if not answer then (false, issue (ble_begin ∷ []) d) else (
      true,
      record (issue (ble_advertise ∷ []) (setup_gatt_service (issue (ble_begin ∷ []) d))) {
        initialized = true;
      },
    )

unfoldable pub end : ArduinoBleDriver → ArduinoBleDriver
end d = if d.initialized then record (issue (ble_end ∷ []) d) { initialized = false } else d

abbrev pub is_connected : Bool → ArduinoBleDriver → Bool
is_connected connected d = d.initialized && connected

unfoldable pub advertise : Bool → ArduinoBleDriver → DeviceId → BlePayload → ArduinoBleDriver
advertise connected d device_id payload =
    if not d.initialized
    then d
    else if is_connected connected d
    then (if ltb 0 payload.size then issue (write_value (content payload) ∷ []) d else d)
    else d

abbrev pub send_to : ArduinoBleDriver → DeviceId → BlePayload → ArduinoBleDriver
send_to d device_id payload = d

abbrev pub tell_connection : Bool → ArduinoBleDriver → ArduinoBleDriver
tell_connection connected d =
    if d.connection_callback then run_callback (connection connected) d else d

-- `now_connected != last_connected_state_`
abbrev pub differs : Bool → Bool → Bool
differs true last = not last
differs false last = last

unfoldable pub process_ble_events : Bool → ArduinoBleDriver → ArduinoBleDriver
process_ble_events now_connected d =
    let polled = issue (ble_poll ∷ []) d in
    if not d.initialized
    then d
    else if differs now_connected d.last_connected_state
    then tell_connection now_connected (record polled { last_connected_state = now_connected })
    else polled

-- `on_control_written` and `on_receipt_written`, which the library calls for a written value: each makes
-- a payload of the value and drops it.
abbrev pub on_control_written : List ℕ → ArduinoBleDriver → ArduinoBleDriver
on_control_written value d = let payload = (append_raw empty_payload value (length value)).1 in d

abbrev pub on_receipt_written : List ℕ → ArduinoBleDriver → ArduinoBleDriver
on_receipt_written value d = let payload = (append_raw empty_payload value (length value)).1 in d

abbrev pub queue_received_payload : ArduinoBleDriver → BlePayload → ArduinoBleDriver
queue_received_payload d payload = record d {
  received_payloads = (push d.received_payloads payload).1;
}

abbrev pub has_pending_payload : ArduinoBleDriver → DeviceId → Bool
has_pending_payload d device_id = not (empty d.received_payloads)

abbrev pub get_pending_payload :
    ArduinoBleDriver → DeviceId → BlePayload → Bool × BlePayload × ArduinoBleDriver
get_pending_payload d device_id out_payload =
    let (done, out, rest) = pop d.received_payloads out_payload in
    (done, out, record d { received_payloads = rest })

unfoldable pub receive :
    Bool → ArduinoBleDriver → DeviceId → BlePayload → Bool × BlePayload × ArduinoBleDriver
receive connected d self_id out_payload =
    if not d.initialized
    then (false, out_payload, d)
    else get_pending_payload (process_ble_events connected d) self_id out_payload

unfoldable pub poll : Bool → ArduinoBleDriver → ArduinoBleDriver
poll connected d = if not d.initialized then d else process_ble_events connected d

abbrev pub get_local_device_id : ArduinoBleDriver → DeviceId
get_local_device_id d = d.local_device_id

-- The setters, with a callback that is not empty, and the functions that clear.
abbrev pub set_message_callback : ArduinoBleDriver → ArduinoBleDriver
set_message_callback d = record d { message_callback = true }

abbrev pub clear_message_callback : ArduinoBleDriver → ArduinoBleDriver
clear_message_callback d = record d { message_callback = false }

abbrev pub set_start_broadcast_callback : ArduinoBleDriver → ArduinoBleDriver
set_start_broadcast_callback d = record d { start_broadcast_callback = true }

abbrev pub set_reading_callback : ArduinoBleDriver → ArduinoBleDriver
set_reading_callback d = record d { reading_callback = true }

abbrev pub set_receipt_callback : ArduinoBleDriver → ArduinoBleDriver
set_receipt_callback d = record d { receipt_callback = true }

abbrev pub clear_type_specific_callbacks : ArduinoBleDriver → ArduinoBleDriver
clear_type_specific_callbacks d = record d {
  start_broadcast_callback = false;
  reading_callback = false;
  receipt_callback = false;
}

abbrev pub set_connection_callback : ArduinoBleDriver → ArduinoBleDriver
set_connection_callback d = record d { connection_callback = true }

abbrev pub clear_connection_callback : ArduinoBleDriver → ArduinoBleDriver
clear_connection_callback d = record d { connection_callback = false }

-- The driver as the interface has it, while the library answers as given.
abbrev pub arduino_driver : Bool → Bool → BleDriver ArduinoBleDriver
arduino_driver answer connected = record {
  begin = begin answer;
  end = end;
  is_connected = is_connected connected;
  get_local_device_id = get_local_device_id;
  advertise = advertise connected;
  send_to = send_to;
  receive = receive connected;
  poll = poll connected;
  set_message_callback = set_message_callback;
  clear_message_callback = clear_message_callback;
  set_start_broadcast_callback = set_start_broadcast_callback;
  set_reading_callback = set_reading_callback;
  set_receipt_callback = set_receipt_callback;
  clear_type_specific_callbacks = clear_type_specific_callbacks;
  set_connection_callback = set_connection_callback;
  clear_connection_callback = clear_connection_callback;
}
