-- ===== src/Ble/Facade.antt =====
-- include/jenlib/ble/BleDriver.h and include/jenlib/ble/Ble.h: the interface of the drivers, and the
-- class `BLE`, which serializes messages for the driver that is set and does nothing without one.
pub mod Broadcast
mod Tests
use jenlib.Common.{ℕ, Bool, true, false, Option, none, some, not, if◌then◌else◌}
use jenlib.Ble.Payload.{BlePayload, empty_payload}
use jenlib.Ble.Ids.{DeviceId}
use jenlib.Ble.Messages.{StartBroadcastMsg, ReadingMsg, ReceiptMsg}
use jenlib.Ble.Messages.StartBroadcast
use jenlib.Ble.Messages.Reading
use jenlib.Ble.Messages.Receipt
use jenlib.Ble.Native
use jenlib.Ble.Native.{NativeBleDriver}

-- A set of callbacks: which of them are not empty.
pub record BleCallbacks : Type 0 where
  pub on_connection : Bool
  pub on_start : Bool
  pub on_reading : Bool
  pub on_receipt : Bool
  pub on_generic : Bool

-- The operations of a driver with states `D`. A setter stands for one with a callback that is not empty.
pub record BleDriver (D : Type 0) : Type 0 where
  pub begin : D → Bool × D
  pub end : D → D
  pub is_connected : D → Bool
  pub get_local_device_id : D → DeviceId
  pub advertise : D → DeviceId → BlePayload → D
  pub send_to : D → DeviceId → BlePayload → D
  pub receive : D → DeviceId → BlePayload → Bool × BlePayload × D
  pub poll : D → D
  pub set_message_callback : D → D
  pub clear_message_callback : D → D
  pub set_start_broadcast_callback : D → D
  pub set_reading_callback : D → D
  pub set_receipt_callback : D → D
  pub clear_type_specific_callbacks : D → D
  pub set_connection_callback : D → D
  pub clear_connection_callback : D → D

-- The native driver; its `poll` does nothing.
abbrev pub native_driver : BleDriver NativeBleDriver
native_driver = record {
  begin = Native.begin;
  end = Native.end;
  is_connected = Native.is_connected;
  get_local_device_id = Native.get_local_device_id;
  advertise = Native.advertise;
  send_to = Native.send_to;
  receive = Native.receive;
  poll = λ d. d;
  set_message_callback = Native.set_message_callback;
  clear_message_callback = Native.clear_message_callback;
  set_start_broadcast_callback = Native.set_start_broadcast_callback;
  set_reading_callback = Native.set_reading_callback;
  set_receipt_callback = Native.set_receipt_callback;
  clear_type_specific_callbacks = Native.clear_type_specific_callbacks;
  set_connection_callback = Native.set_connection_callback;
  clear_connection_callback = Native.clear_connection_callback;
}

-- The static member `driver_` is the state: none, or a driver's.
module _ {D : Type 0} (interface : BleDriver D) where
  -- The end of the three senders: nothing is sent if the message was not serialized.
  abbrev pub if_serialized : Bool × BlePayload → (BlePayload → D) → D → D
  if_serialized (done, p) send d = if not done then d else send p

  unfoldable pub send_start : Option D → DeviceId → StartBroadcastMsg → Option D
  send_start none device_id msg = none
  send_start (some d) device_id msg =
      some (
        if_serialized (StartBroadcast.serialize msg empty_payload) (interface.send_to d device_id)
          d)

  unfoldable pub broadcast_reading : Option D → DeviceId → ReadingMsg → Option D
  broadcast_reading none sender_id msg = none
  broadcast_reading (some d) sender_id msg =
      some (if_serialized (Reading.serialize msg empty_payload) (interface.advertise d sender_id) d)

  unfoldable pub send_receipt : Option D → DeviceId → ReceiptMsg → Option D
  send_receipt none device_id msg = none
  send_receipt (some d) device_id msg =
      some (if_serialized (Receipt.serialize msg empty_payload) (interface.send_to d device_id) d)

  unfoldable pub receive : Option D → DeviceId → BlePayload → Bool × BlePayload × Option D
  receive none self_id out_payload = (false, out_payload, none)
  receive (some d) self_id out_payload =
      let (done, p, d') = interface.receive d self_id out_payload in (done, p, some d')

  -- A call that is only passed on.
  abbrev pub pass_on : (D → D) → Option D → Option D
  pass_on call none = none
  pass_on call (some d) = some (call d)

  abbrev pub process_events : Option D → Option D
  process_events = pass_on interface.poll

  abbrev pub set_connection_callback : Option D → Option D
  set_connection_callback = pass_on interface.set_connection_callback

  abbrev pub clear_connection_callback : Option D → Option D
  clear_connection_callback = pass_on interface.clear_connection_callback

  abbrev pub set_start_broadcast_callback : Option D → Option D
  set_start_broadcast_callback = pass_on interface.set_start_broadcast_callback

  abbrev pub set_reading_callback : Option D → Option D
  set_reading_callback = pass_on interface.set_reading_callback

  abbrev pub set_receipt_callback : Option D → Option D
  set_receipt_callback = pass_on interface.set_receipt_callback

  abbrev pub set_message_callback : Option D → Option D
  set_message_callback = pass_on interface.set_message_callback

  abbrev pub begin : Option D → Bool × Option D
  begin none = (false, none)
  begin (some d) = let (done, d') = interface.begin d in (done, some d')

  abbrev pub end : Option D → Option D
  end = pass_on interface.end

  abbrev pub is_connected : Option D → Bool
  is_connected none = false
  is_connected (some d) = interface.is_connected d
