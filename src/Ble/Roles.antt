-- ===== src/Ble/Roles.antt =====
-- include/jenlib/ble/Roles.h: the two roles over the class `BLE`, whose driver is the state. The class
-- Sensor is the identifier that it broadcasts under; the class Broker has no members.
pub mod Exchange
mod Tests
use jenlib.Common.{Bool, Option, if◌then◌else◌}
use jenlib.Ble.Ids.{DeviceId}
use jenlib.Ble.Messages.{StartBroadcastMsg, ReadingMsg, ReceiptMsg}
use jenlib.Ble.Facade
use jenlib.Ble.Facade.{BleDriver, BleCallbacks}

pub record Sensor : Type 0 where
  pub self_id : DeviceId

module _ {D : Type 0} (interface : BleDriver D) where
  -- A setter that is called for a callback that is not empty.
  abbrev pub set_if : Bool → (Option D → Option D) → Option D → Option D
  set_if given set ble = if given then set ble else ble

  -- `Sensor::configure_callbacks`: there is none for readings.
  unfoldable pub configure_sensor : BleCallbacks → Option D → Option D
  configure_sensor cbs ble = set_if cbs.on_generic (Facade.set_message_callback interface) (
      set_if cbs.on_receipt (Facade.set_receipt_callback interface) (
        set_if cbs.on_start (Facade.set_start_broadcast_callback interface)
          (set_if cbs.on_connection (Facade.set_connection_callback interface) ble)))

  -- `Broker::configure_callbacks`: there is none for starts and receipts.
  unfoldable pub configure_broker : BleCallbacks → Option D → Option D
  configure_broker cbs ble = set_if cbs.on_generic (Facade.set_message_callback interface) (
      set_if cbs.on_reading (Facade.set_reading_callback interface)
        (set_if cbs.on_connection (Facade.set_connection_callback interface) ble))

  -- `begin`, `end` and `process_events` of both roles.
  abbrev pub begin : Option D → Bool × Option D
  begin = Facade.begin interface

  abbrev pub end : Option D → Option D
  end = Facade.end interface

  abbrev pub process_events : Option D → Option D
  process_events = Facade.process_events interface

  abbrev pub broadcast_reading : Sensor → ReadingMsg → Option D → Option D
  broadcast_reading sensor msg ble = Facade.broadcast_reading interface ble sensor.self_id msg

  abbrev pub send_start : DeviceId → StartBroadcastMsg → Option D → Option D
  send_start sensor msg ble = Facade.send_start interface ble sensor msg

  abbrev pub send_receipt : DeviceId → ReceiptMsg → Option D → Option D
  send_receipt sensor msg ble = Facade.send_receipt interface ble sensor msg
