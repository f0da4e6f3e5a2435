-- ===== src/Ble/Roles/Exchange.antt =====
-- The two roles over one native driver: what reaches the callbacks that a role configures.
use jenlib.Common.{◌≡◌, refl, ap, ◌∙◌, true, ◌||◌, some, arith}
use jenlib.Ble.Payload.{empty_payload}
use jenlib.Ble.Ids.{DeviceId}
use jenlib.Ble.Messages.{StartBroadcastMsg, ReceiptMsg}
use jenlib.Ble.Messages.StartBroadcast
use jenlib.Ble.Messages.Receipt
use jenlib.Ble.Native.{NativeBleDriver, run_callback, send_to, start_broadcast, receipt}
use jenlib.Ble.Native.Header.{empty_payload-Holds}
use jenlib.Ble.Native.Dispatch.{message_dispatched}
use jenlib.Ble.Typed.{start_msg, receipt_msg}
use jenlib.Ble.Facade
use jenlib.Ble.Facade.{BleCallbacks, native_driver, if_serialized}
use jenlib.Ble.Roles.{configure_sensor, configure_broker, send_start, send_receipt}

-- The driver whose callbacks a sensor has configured.
abbrev pub sensor_driver : BleCallbacks → NativeBleDriver → NativeBleDriver
sensor_driver cbs d = record d {
  connection_callback = cbs.on_connection || d.connection_callback;
  start_broadcast_callback = cbs.on_start || d.start_broadcast_callback;
  receipt_callback = cbs.on_receipt || d.receipt_callback;
  message_callback = cbs.on_generic || d.message_callback;
}

abbrev pub broker_driver : BleCallbacks → NativeBleDriver → NativeBleDriver
broker_driver cbs d = record d {
  connection_callback = cbs.on_connection || d.connection_callback;
  reading_callback = cbs.on_reading || d.reading_callback;
  message_callback = cbs.on_generic || d.message_callback;
}

configure_sensor_lem :
    (cbs : BleCallbacks) (d : NativeBleDriver)
    → configure_sensor native_driver cbs (some d) ≡ some (sensor_driver cbs d)
unfolding configure_sensor
configure_sensor_lem cbs d = ground arith

configure_broker_lem :
    (cbs : BleCallbacks) (d : NativeBleDriver)
    → configure_broker native_driver cbs (some d) ≡ some (broker_driver cbs d)
unfolding configure_broker
configure_broker_lem cbs d = ground arith

module _ (d : NativeBleDriver) (dest : DeviceId) (ready : d.initialized ≡ true) where
  send_start-run :
      (m : StartBroadcastMsg)
      → StartBroadcast.Wire.IsMsg m
      → d.start_broadcast_callback ≡ true
      → send_start native_driver dest m (some d)
        ≡ some (run_callback (start_broadcast (record { value = 0 }) m) d)
  unfolding Facade.send_start
  send_start-run m w on =
      let (q, e, c, v) = StartBroadcast.Wire.serialize_lem m empty_payload empty_payload-Holds.2 in
      ap (λ r. some (if_serialized native_driver r (send_to d dest) d)) e
      ∙ ap some (message_dispatched d dest (start_msg m) q v w c ready on)

  send_receipt-run :
      (m : ReceiptMsg)
      → Receipt.Wire.IsMsg m
      → d.receipt_callback ≡ true
      → send_receipt native_driver dest m (some d)
        ≡ some (run_callback (receipt (record { value = 0 }) m) d)
  unfolding Facade.send_receipt
  send_receipt-run m w on =
      let (q, e, c, v) = Receipt.Wire.serialize_lem m empty_payload empty_payload-Holds.2 in
      ap (λ r. some (if_serialized native_driver r (send_to d dest) d)) e
      ∙ ap some (message_dispatched d dest (receipt_msg m) q v w c ready on)

-- Over one initialized native driver, a sensor configures callbacks for starts and receipts and a
-- broker its own: the reading callback is set exactly if it was or the broker gives one, and no
-- callback runs. When the broker then sends a start and a receipt, with fields that fit their
-- widths, the two callbacks run with the two messages, once each and in this order; the sender
-- passed is 0.
pub configure_callbacks-send_start :
    (d : NativeBleDriver) (cbs others : BleCallbacks) (dest : DeviceId) (m : StartBroadcastMsg)
    (r : ReceiptMsg)
    → d.initialized ≡ true
    → cbs.on_start ≡ true
    → cbs.on_receipt ≡ true
    → StartBroadcast.Wire.IsMsg m
    → Receipt.Wire.IsMsg r
    → let sender : DeviceId = record { value = 0 } in
      (d' : NativeBleDriver) × (configure_broker native_driver others
          (configure_sensor native_driver cbs (some d))
        ≡ some d')
      × (d'.reading_callback ≡ others.on_reading || d.reading_callback)
      × (d'.calls ≡ d.calls)
      × (send_receipt native_driver dest r (send_start native_driver dest m (some d'))
          ≡ some (run_callback (receipt sender r) (run_callback (start_broadcast sender m) d')))
configure_callbacks-send_start d cbs others dest m r ready start_on receipt_on wm wr =
    let d' = broker_driver others (sensor_driver cbs d) in
    let d1 = run_callback (start_broadcast (record { value = 0 }) m) d' in
    (
      d',
      ap (configure_broker native_driver others) (configure_sensor_lem cbs d)
          ∙ configure_broker_lem others (sensor_driver cbs d),
      refl,
      refl,
      ap (send_receipt native_driver dest r)
            (send_start-run d' dest ready m wm (ap (λ b. b || d.start_broadcast_callback) start_on))
          ∙ send_receipt-run d1 dest ready r wr (ap (λ b. b || d.receipt_callback) receipt_on),
    )
