-- ===== src/Ble/Arduino/Tests.antt =====
-- The Arduino driver at concrete inputs.
use jenlib.Common.{◌≡◌, refl, true, false, Bool, List, [], ◌∷◌, ◌++◌, some, arith, length, All}
use jenlib.Common.Int.{negsuc}
use jenlib.Ble.Payload.{empty_payload}
use jenlib.Ble.Ids.{DeviceId}
use jenlib.Ble.Messages.{ReadingMsg}
use jenlib.Ble.Messages.Reading
use jenlib.Ble.Told.{told, last_or}
use jenlib.Ble.Facade.{broadcast_reading}
use jenlib.Ble.Arduino.{ArduinoBleDriver, write_value, new_driver, issue, receive, arduino_driver}
use jenlib.Ble.Arduino.Edges.{poll_all, Alternates, count_changes, IsPolled, polls_tell_changes}
use jenlib.Ble.Arduino.Broadcast.{broadcast_reading_writes}
use jenlib.Ble.Arduino.Receiving.{
  begins, polls, sets_connection, sets_reading, control_written, run, IsConnection,
  arduino_hears_nothing,
}

abbrev self : DeviceId
self = record { value = 7 }

abbrev running : ArduinoBleDriver
running = record (new_driver self) { initialized = true; connection_callback = true }

running-IsPolled : IsPolled running
running-IsPolled = record { ready = refl; heard = refl }

abbrev states : List Bool
states = false ∷ true ∷ true ∷ false ∷ []

polls_tell_changes_example :
    let d' = poll_all states running in
    (changes : List Bool) × (told d'.calls ≡ told running.calls ++ changes)
    × Alternates false changes
    × (length changes ≡ count_changes false states)
    × (last_or false changes ≡ last_or false states)
    × (d'.last_connected_state ≡ last_or false states)
polls_tell_changes_example = polls_tell_changes states running running-IsPolled

-- One connect and one disconnect.
two_changes : count_changes false states ≡ 2
two_changes = refl

abbrev reading : ReadingMsg
reading = record {
  sender_id = self;
  session_id = record { value = 9 };
  offset_ms = 1000;
  temperature_c_centi = negsuc 549;
  humidity_bp = 8000;
}

broadcast_reading_writes_example :
    broadcast_reading (arduino_driver true true) (some running) self reading
    ≡ some (issue (write_value (Reading.Wire.encoding reading) ∷ []) running)
broadcast_reading_writes_example = broadcast_reading_writes true true running self reading (record {
  sender_fits = omega arith;
  session_fits = omega arith;
  offset_fits = omega arith;
  temperature_fits = omega arith;
  humidity_fits = omega arith;
})

arduino_hears_nothing_example :
    let calls =
      begins true ∷ sets_connection ∷ sets_reading ∷ polls true ∷ control_written (2 ∷ []) ∷ [] in
    let d = run calls (new_driver self) in
    let (done, out', _) = receive true d self empty_payload in
    All IsConnection d.calls × (done ≡ false) × (out' ≡ empty_payload)
arduino_hears_nothing_example =
    arduino_hears_nothing self
      (begins true ∷ sets_connection ∷ sets_reading ∷ polls true ∷ control_written (2 ∷ []) ∷ [])
      true self empty_payload
