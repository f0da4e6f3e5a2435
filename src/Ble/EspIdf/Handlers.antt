-- ===== src/Ble/EspIdf/Handlers.antt =====
-- The event handlers and the setters of src/ble/drivers/EspIdfBleDriver.cpp. A parameter of an event
-- may be null: none.
use jenlib.Common.{
  ℕ, Bool, true, false, List, ◌==◌, ◌||◌, not, Option, none, some, if◌then◌else◌, take,
}
use jenlib.Common.Equality.{list_eq}
use jenlib.Ble.Payload.{BlePayload, empty_payload, append_raw}
use jenlib.Ble.Ids.{DeviceId}
use jenlib.Ble.Native.{CallbackRun, connection, message}
use jenlib.Ble.Typed.{typed_callback}
use jenlib.Ble.EspIdf.{
  EspIdfBleDriver, uuid_bytes, chr_control, chr_reading, chr_receipt, written, notified, add_char,
  start_advertising, issue, run_callback, setup_gatt_service,
}

-- `is_uuid128`: the length of the UUID is ESP_UUID_LEN_128.
pub record AddCharParam : Type 0 where
  pub is_uuid128 : Bool
  pub uuid : List ℕ
  pub attr_handle : ℕ

pub record WriteParam : Type 0 where
  pub is_prep : Bool
  pub handle : ℕ
  pub value : List ℕ
  pub len : ℕ

-- The events of the GATT server, by what the handler reads of them; `other` are those that it ignores.
pub data GattsEvent : Type 0 where
  registered : ℕ → GattsEvent
  created : Option ℕ → GattsEvent
  char_added : Option AddCharParam → GattsEvent
  write : Option WriteParam → GattsEvent
  connect : Option ℕ → GattsEvent
  disconnect : GattsEvent
  other : GattsEvent

pub data GapEvent : Type 0 where
  adv_data_set_complete : GapEvent
  other_gap : GapEvent

abbrev pub extract_sender_id_from_connection : DeviceId
extract_sender_id_from_connection = record { value = 0 }

-- A typed callback takes the payload, or else the message callback, or none does.
abbrev pub typed_or_generic :
    Option CallbackRun → DeviceId → BlePayload → EspIdfBleDriver → EspIdfBleDriver
typed_or_generic (some call) sender_id payload d = run_callback call d
typed_or_generic none sender_id payload d =
    if d.message_callback then run_callback (message sender_id payload) d else d

abbrev pub route : DeviceId → BlePayload → EspIdfBleDriver → EspIdfBleDriver
route sender_id payload d =
    typed_or_generic
      (typed_callback d.start_broadcast_callback d.reading_callback d.receipt_callback sender_id
        payload)
      sender_id payload d

-- ESP_GATTS_CREATE_EVT: the three characteristics are added to the service.
abbrev pub on_created : ℕ → EspIdfBleDriver → EspIdfBleDriver
on_created handle d = issue (add_char handle (uuid_bytes chr_receipt) written) (
    issue (add_char handle (uuid_bytes chr_reading) notified) (
      issue (add_char handle (uuid_bytes chr_control) written)
        (record d { service_handle = handle })))

-- ESP_GATTS_ADD_CHAR_EVT: the handle of a characteristic is kept by its UUID.
unfoldable pub on_char_added : AddCharParam → EspIdfBleDriver → EspIdfBleDriver
on_char_added param d =
    let same = λ (text : List ℕ). list_eq (take 16 param.uuid) (uuid_bytes text) in
    if not param.is_uuid128
    then d
    else if same chr_control
    then record d { control_char_handle = param.attr_handle }
    else if same chr_reading
    then record d { reading_char_handle = param.attr_handle }
    else if same chr_receipt
    then record d { receipt_char_handle = param.attr_handle }
    else d

-- ESP_GATTS_WRITE_EVT; whether the append succeeds is not looked at.
unfoldable pub on_write : WriteParam → EspIdfBleDriver → EspIdfBleDriver
on_write param d =
    if param.is_prep
    then d
    else if param.handle == d.control_char_handle || param.handle == d.receipt_char_handle
    then route extract_sender_id_from_connection (append_raw empty_payload param.value param.len).1
        d
    else d

abbrev pub tell_connection : Bool → EspIdfBleDriver → EspIdfBleDriver
tell_connection connected d =
    if d.connection_callback then run_callback (connection connected) d else d

-- The `switch` of `gatts_event_handler`.
unfoldable pub on_gatts_event : GattsEvent → EspIdfBleDriver → EspIdfBleDriver
on_gatts_event (registered gatts_if) d = setup_gatt_service (record d { gatts_if = gatts_if })
on_gatts_event (created none) d = d
on_gatts_event (created (some handle)) d = on_created handle d
on_gatts_event (char_added none) d = d
on_gatts_event (char_added (some param)) d = on_char_added param d
on_gatts_event (write none) d = d
on_gatts_event (write (some param)) d = on_write param d
on_gatts_event (connect none) d = d
on_gatts_event (connect (some conn_id)) d =
    tell_connection true (record d { conn_id = conn_id; last_connected_state = true })
on_gatts_event disconnect d =
    tell_connection false (record d { last_connected_state = false; conn_id = 0 })
on_gatts_event other d = d

-- The events reach the driver that `instance_` points to.
unfoldable pub gatts_event_handler : GattsEvent → EspIdfBleDriver → EspIdfBleDriver
gatts_event_handler event d = if not d.is_instance then d else on_gatts_event event d

abbrev on_gap_event : GapEvent → EspIdfBleDriver → EspIdfBleDriver
on_gap_event adv_data_set_complete d = issue start_advertising d
on_gap_event other_gap d = d

unfoldable pub gap_event_handler : GapEvent → EspIdfBleDriver → EspIdfBleDriver
gap_event_handler event d = if not d.is_instance then d else on_gap_event event d

-- The setters, with a callback that is not empty, and the functions that clear.
abbrev pub set_message_callback : EspIdfBleDriver → EspIdfBleDriver
set_message_callback d = record d { message_callback = true }

abbrev pub clear_message_callback : EspIdfBleDriver → EspIdfBleDriver
clear_message_callback d = record d { message_callback = false }

abbrev pub set_start_broadcast_callback : EspIdfBleDriver → EspIdfBleDriver
set_start_broadcast_callback d = record d { start_broadcast_callback = true }

abbrev pub set_reading_callback : EspIdfBleDriver → EspIdfBleDriver
set_reading_callback d = record d { reading_callback = true }

abbrev pub set_receipt_callback : EspIdfBleDriver → EspIdfBleDriver
set_receipt_callback d = record d { receipt_callback = true }

abbrev pub clear_type_specific_callbacks : EspIdfBleDriver → EspIdfBleDriver
clear_type_specific_callbacks d = record d {
  start_broadcast_callback = false;
  reading_callback = false;
  receipt_callback = false;
}

abbrev pub set_connection_callback : EspIdfBleDriver → EspIdfBleDriver
set_connection_callback d = record d { connection_callback = true }

abbrev pub clear_connection_callback : EspIdfBleDriver → EspIdfBleDriver
clear_connection_callback d = record d { connection_callback = false }
