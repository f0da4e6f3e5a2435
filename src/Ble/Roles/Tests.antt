-- ===== src/Ble/Roles/Tests.antt =====
-- The two roles over the native driver at a concrete input.
use jenlib.Common.{◌≡◌, refl, true, false, some, arith}
use jenlib.Ble.Ids.{DeviceId}
use jenlib.Ble.Messages.{StartBroadcastMsg, ReceiptMsg}
use jenlib.Ble.Native.{NativeBleDriver, new_driver, run_callback, start_broadcast, receipt}
use jenlib.Ble.Facade.{BleCallbacks, native_driver}
use jenlib.Ble.Roles.{configure_sensor, configure_broker, send_start, send_receipt}
use jenlib.Ble.Roles.Exchange.{configure_callbacks-send_start}

abbrev sensor_id : DeviceId
sensor_id = record { value = 7 }

abbrev ready_driver : NativeBleDriver
ready_driver = record (new_driver sensor_id) { initialized = true }

abbrev sensor_callbacks : BleCallbacks
sensor_callbacks = record {
  on_connection = true;
  on_start = true;
  on_reading = true;
  on_receipt = true;
  on_generic = false;
}

abbrev no_callbacks : BleCallbacks
no_callbacks = record {
  on_connection = false;
  on_start = false;
  on_reading = false;
  on_receipt = false;
  on_generic = false;
}

abbrev start : StartBroadcastMsg
start = record { device_id = sensor_id; session_id = record { value = 9 } }

abbrev acknowledgement : ReceiptMsg
acknowledgement = record { session_id = record { value = 9 }; up_to_offset_ms = 3000 }

configure_callbacks-send_start_example :
    let sender : DeviceId = record { value = 0 } in
    (d' : NativeBleDriver) × (configure_broker native_driver no_callbacks
        (configure_sensor native_driver sensor_callbacks (some ready_driver))
      ≡ some d')
    × (d'.reading_callback ≡ false)
    × (d'.calls ≡ ready_driver.calls)
    × (send_receipt native_driver sensor_id acknowledgement
          (send_start native_driver sensor_id start (some d'))
        ≡ some (
            run_callback
              (receipt sender acknowledgement)
              (run_callback (start_broadcast sender start) d')))
configure_callbacks-send_start_example =
    configure_callbacks-send_start ready_driver sensor_callbacks no_callbacks sensor_id start
      acknowledgement refl refl refl
      (record { device_fits = omega arith; session_fits = omega arith })
      (record { session_fits = omega arith; offset_fits = omega arith })
