-- ===== src/Ble/EspIdf/Tests.antt =====
-- The ESP-IDF driver at concrete inputs.
use jenlib.Common.{
  ◌≡◌, refl, true, false, List, [], ◌∷◌, ◌++◌, ◌==◌, ◌&&◌, Bool, not, some, if◌then◌else◌, arith,
  replicate,
}
use jenlib.Common.Int.{pos}
use jenlib.Ble.Payload.{empty_payload}
use jenlib.Ble.Payload.Content.{content}
use jenlib.Ble.Ids.{DeviceId}
use jenlib.Ble.Native.{message}
use jenlib.Ble.Told.{told, last_or}
use jenlib.Ble.Typed.{Message, reading_msg, encoding, call_of}
use jenlib.Ble.EspIdf.{
  EspIdfBleDriver, StackCall, controller_init, controller_enable, bluedroid_init, bluedroid_enable,
  register_gatts, register_gap, send_indicate, new_driver, issue, run_callback, begin, end,
  advertise, receive,
}
use jenlib.Ble.EspIdf.Handlers.{
  GattsEvent, connect, disconnect, registered, extract_sender_id_from_connection,
  gatts_event_handler,
}
use jenlib.Ble.EspIdf.Start.{steps, all_ok, issued, service_calls, begin_outcome}
use jenlib.Ble.EspIdf.Writes.{written_payload, whole_write, write_message, write_too_long}
use jenlib.Ble.EspIdf.Links.{
  IsListening, link_changes, handle_all, connection_told, connect_advertise,
}
use jenlib.Ble.EspIdf.Receiving.{begins, sets_message, gatts, run, receive_nothing}

abbrev self : DeviceId
self = record { value = 7 }

abbrev fresh : EspIdfBleDriver
fresh = new_driver 255 self

-- A stack in which registering with GAP fails, and one in which all succeeds.
abbrev no_gap : StackCall → Bool
no_gap register_gap = false
no_gap call = true

abbrev all_good : StackCall → Bool
all_good call = true

begin_outcome_example :
    let (done, d') = begin no_gap fresh in
    (done ≡ all_ok no_gap steps)
    × (d'.initialized ≡ all_ok no_gap steps)
    × (d'.stack
        ≡ fresh.stack
          ++ (issued no_gap steps ++ (if all_ok no_gap steps then service_calls fresh else [])))
    × (done ≡ false → end d' ≡ d')
begin_outcome_example = begin_outcome no_gap fresh refl

-- All six calls were made.
no_gap-issued :
    issued no_gap steps
    ≡ controller_init ∷ controller_enable ∷ bluedroid_init ∷ bluedroid_enable ∷ register_gatts
      ∷ register_gap ∷ []
no_gap-issued = refl

abbrev linked : EspIdfBleDriver
linked = record fresh {
  is_instance = true;
  initialized = true;
  connection_callback = true;
  reading_callback = true;
  conn_id = 3;
  control_char_handle = 42;
}

abbrev written_msg : Message
written_msg = reading_msg (record {
  sender_id = record { value = 5 };
  session_id = record { value = 9 };
  offset_ms = 70000;
  temperature_c_centi = pos 2150;
  humidity_bp = 4500;
})

write_message_example :
    let sender = extract_sender_id_from_connection in
    let p = written_payload (encoding written_msg) in
    (gatts_event_handler (whole_write 42 (encoding written_msg)) linked
      ≡ run_callback (call_of sender written_msg) linked)
    × (content p ≡ encoding written_msg)
write_message_example =
    write_message linked 42 written_msg
      (record {
        sender_fits = omega arith;
        session_fits = omega arith;
        offset_fits = omega arith;
        temperature_fits = omega arith;
        humidity_fits = omega arith;
      })
      refl refl

abbrev generic : EspIdfBleDriver
generic = record linked { message_callback = true }

write_too_long_example :
    gatts_event_handler (whole_write 42 (replicate 65 1)) generic
    ≡ run_callback (message extract_sender_id_from_connection empty_payload) generic
write_too_long_example = write_too_long generic 42 (replicate 65 1) (omega arith) refl refl

linked-IsListening : IsListening linked
linked-IsListening = record { active = refl; heard = refl }

abbrev events : List GattsEvent
events = registered 4 ∷ connect (some 0) ∷ disconnect ∷ connect (some 1) ∷ []

connection_told_example :
    let d' = handle_all events linked in
    (told d'.calls ≡ told linked.calls ++ link_changes events)
    × (d'.last_connected_state ≡ last_or linked.last_connected_state (link_changes events))
connection_told_example = connection_told events linked linked-IsListening

connect_advertise_example :
    let d' = gatts_event_handler (connect (some 6)) linked in
    (told d'.calls ≡ told linked.calls ++ true ∷ [])
    × (advertise d' self empty_payload ≡ (
        if linked.initialized && not (6 == 0)
        then issue
            (send_indicate linked.gatts_if 6 linked.reading_char_handle
              (content empty_payload)
              false)
            d'
        else d'))
connect_advertise_example = connect_advertise linked 6 self empty_payload linked-IsListening

receive_nothing_example :
    let calls = begins all_good ∷ sets_message ∷ gatts (whole_write 0 (1 ∷ [])) ∷ [] in
    let (done, out', _) = receive (run calls (new_driver 255 self)) self empty_payload in
    (done ≡ false) × (out' ≡ empty_payload)
receive_nothing_example =
    receive_nothing 255 self (begins all_good ∷ sets_message ∷ gatts (whole_write 0 (1 ∷ [])) ∷ [])
      self empty_payload
