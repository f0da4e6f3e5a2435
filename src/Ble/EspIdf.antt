-- ===== src/Ble/EspIdf.antt =====
-- src/ble/drivers/EspIdfBleDriver.cpp: the driver over the Bluetooth stack of ESP-IDF. The calls of the
-- stack are collected in `stack` and the calls of the callbacks in `calls`, each oldest first; what the
-- stack answers is an argument, and the events of the stack are a data type. The name of the device,
-- which nothing reads, is left out.
pub mod Handlers
pub mod Start
pub mod Writes
pub mod Links
pub mod Receiving
mod Tests
use jenlib.Common.{
  ℕ, ◌≡◌, Bool, true, false, List, [], ◌∷◌, ◌++◌, ◌==◌, ◌&&◌, ◌||◌, not, Option, none, some,
  if◌then◌else◌, take,
}
use jenlib.Common.Text.{codes}
use jenlib.Ble.Payload.{BlePayload, empty_payload, append_raw}
use jenlib.Ble.Payload.Content.{content}
use jenlib.Ble.Ids.{DeviceId}
use jenlib.Ble.Buffer.{PayloadBuffer, new_buffer, empty, push, pop}
use jenlib.Ble.Native.{CallbackRun, connection, message}
use jenlib.Ble.Typed.{typed_callback}
use jenlib.Ble.Facade.{BleCallbacks, BleDriver}

-- include/jenlib/ble/GattProfile.h, as far as the driver reads it: `memcpy` and `memcmp` take the first
-- 16 characters of each text.
abbrev pub uuid_bytes : List ℕ → List ℕ
uuid_bytes text = take 16 text

abbrev pub service_sensor : List ℕ
service_sensor = codes "6e400001-b5a3-f393-e0a9-e50e24dcca9e"

abbrev pub chr_control : List ℕ
chr_control = codes "6e400010-b5a3-f393-e0a9-e50e24dcca9e"

abbrev pub chr_reading : List ℕ
chr_reading = codes "6e400011-b5a3-f393-e0a9-e50e24dcca9e"

abbrev pub chr_receipt : List ℕ
chr_receipt = codes "6e400012-b5a3-f393-e0a9-e50e24dcca9e"

-- The two kinds of characteristics: written with or without a response, and notified or indicated.
pub data CharKind : Type 0 where
  written notified : CharKind

-- The calls of the stack: a service by interface, UUID and number of characteristics, a characteristic
-- by service, UUID and kind, and `esp_ble_gatts_send_indicate` by interface, connection,
-- characteristic, bytes and whether the peer is to confirm, without which it is a notification.
pub data StackCall : Type 0 where
  controller_init controller_enable bluedroid_init bluedroid_enable : StackCall
  register_gatts register_gap config_adv_data start_advertising : StackCall
  stop_advertising bluedroid_disable bluedroid_deinit : StackCall
  controller_disable controller_deinit : StackCall
  create_service : ℕ → List ℕ → ℕ → StackCall
  add_char : ℕ → List ℕ → CharKind → StackCall
  send_indicate : ℕ → ℕ → ℕ → List ℕ → Bool → StackCall

-- `is_instance`: the static member `instance_` points to this driver.
pub record EspIdfBleDriver : Type 0 where
  pub is_instance : Bool
  pub local_device_id : DeviceId
  pub initialized : Bool
  pub last_connected_state : Bool
  pub message_callback : Bool
  pub start_broadcast_callback : Bool
  pub reading_callback : Bool
  pub receipt_callback : Bool
  pub connection_callback : Bool
  pub gatts_if : ℕ
  pub conn_id : ℕ
  pub service_handle : ℕ
  pub control_char_handle : ℕ
  pub reading_char_handle : ℕ
  pub receipt_char_handle : ℕ
  pub received_payloads : PayloadBuffer
  pub calls : List CallbackRun
  pub stack : List StackCall

-- The constructor; `gatt_if_none` is the constant of the stack.
abbrev pub new_driver : ℕ → DeviceId → EspIdfBleDriver
new_driver gatt_if_none local_device_id = record {
  is_instance = false;
  local_device_id = local_device_id;
  initialized = false;
  last_connected_state = false;
  message_callback = false;
  start_broadcast_callback = false;
  reading_callback = false;
  receipt_callback = false;
  connection_callback = false;
  gatts_if = gatt_if_none;
  conn_id = 0;
  service_handle = 0;
  control_char_handle = 0;
  reading_char_handle = 0;
  receipt_char_handle = 0;
  received_payloads = new_buffer;
  calls = [];
  stack = [];
}

-- The constructor with callbacks: each setter is called for a callback that is not empty.
abbrev pub new_driver_with : ℕ → DeviceId → BleCallbacks → EspIdfBleDriver
new_driver_with gatt_if_none local_device_id callbacks =
    record (new_driver gatt_if_none local_device_id) {
      connection_callback = callbacks.on_connection;
      start_broadcast_callback = callbacks.on_start;
      reading_callback = callbacks.on_reading;
      receipt_callback = callbacks.on_receipt;
      message_callback = callbacks.on_generic;
    }

abbrev pub issue : StackCall → EspIdfBleDriver → EspIdfBleDriver
issue call d = record d { stack = d.stack ++ (call ∷ []) }

abbrev pub run_callback : CallbackRun → EspIdfBleDriver → EspIdfBleDriver
run_callback call d = record d { calls = d.calls ++ (call ∷ []) }

abbrev pub setup_gatt_service : EspIdfBleDriver → EspIdfBleDriver
setup_gatt_service d = issue (create_service d.gatts_if (uuid_bytes service_sensor) 3) d

-- A call whose result is tested: the driver gives up unless it is ESP_OK.
abbrev pub checked :
    (StackCall → Bool)
    → StackCall
    → EspIdfBleDriver
    → (EspIdfBleDriver → Bool × EspIdfBleDriver)
    → Bool × EspIdfBleDriver
checked answer call d go_on = if answer call then go_on (issue call d) else (false, issue call d)

-- What follows the calls that can fail.
abbrev pub set_up : EspIdfBleDriver → Bool × EspIdfBleDriver
set_up d = (true, record (issue config_adv_data (setup_gatt_service d)) { initialized = true })

-- The two registrations, behind the choice of the instance.
abbrev pub register_callbacks : (StackCall → Bool) → EspIdfBleDriver → Bool × EspIdfBleDriver
register_callbacks answer d =
    checked answer register_gatts (record d { is_instance = true })
      λ d'. checked answer register_gap d' set_up

abbrev pub start_bluedroid : (StackCall → Bool) → EspIdfBleDriver → Bool × EspIdfBleDriver
start_bluedroid answer d =
    checked answer bluedroid_init d
      λ d'. checked answer bluedroid_enable d' (register_callbacks answer)

unfoldable pub begin : (StackCall → Bool) → EspIdfBleDriver → Bool × EspIdfBleDriver
begin answer d =
    if d.initialized
    then (true, d)
    else checked answer controller_init d
        λ d'. checked answer controller_enable d' (start_bluedroid answer)

unfoldable pub end : EspIdfBleDriver → EspIdfBleDriver
end d =
    if d.initialized
    then record d {
      stack =
          d.stack
          ++ (stop_advertising ∷ bluedroid_disable ∷ bluedroid_deinit ∷ controller_disable
              ∷ controller_deinit ∷ []);
      initialized = false;
    }
    else d

abbrev pub is_connected : EspIdfBleDriver → Bool
is_connected d = d.initialized && not (d.conn_id == 0)

abbrev pub send_via_gatt : ℕ → BlePayload → EspIdfBleDriver → EspIdfBleDriver
send_via_gatt char_handle payload d =
    issue (send_indicate d.gatts_if d.conn_id char_handle (content payload) false) d

unfoldable pub advertise : EspIdfBleDriver → DeviceId → BlePayload → EspIdfBleDriver
advertise d device_id payload =
    if not d.initialized
    then d
    else if is_connected d
    then send_via_gatt d.reading_char_handle payload d
    else d

abbrev pub send_to : EspIdfBleDriver → DeviceId → BlePayload → EspIdfBleDriver
send_to d device_id payload = d

abbrev pub process_ble_events : EspIdfBleDriver → EspIdfBleDriver
process_ble_events d = d

abbrev pub queue_received_payload : EspIdfBleDriver → BlePayload → EspIdfBleDriver
queue_received_payload d payload = record d {
  received_payloads = (push d.received_payloads payload).1;
}

abbrev pub has_pending_payload : EspIdfBleDriver → DeviceId → Bool
has_pending_payload d device_id = not (empty d.received_payloads)

abbrev pub get_pending_payload :
    EspIdfBleDriver → DeviceId → BlePayload → Bool × BlePayload × EspIdfBleDriver
get_pending_payload d device_id out_payload =
    let (done, out, rest) = pop d.received_payloads out_payload in
    (done, out, record d { received_payloads = rest })

unfoldable pub receive :
    EspIdfBleDriver → DeviceId → BlePayload → Bool × BlePayload × EspIdfBleDriver
receive d self_id out_payload =
    if not d.initialized
    then (false, out_payload, d)
    else get_pending_payload (process_ble_events d) self_id out_payload

unfoldable pub poll : EspIdfBleDriver → EspIdfBleDriver
poll d = if not d.initialized then d else process_ble_events d
