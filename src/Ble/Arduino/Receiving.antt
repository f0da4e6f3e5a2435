-- ===== src/Ble/Arduino/Receiving.antt =====
-- What reaches the program over any sequence of calls of the Arduino driver and of written values.
use jenlib.Common.{
  ℕ, ◌≡◌, refl, sym, ap, subst, ◌∙◌, if_elim, Bool, true, false, List, [], ◌∷◌, ◌++◌, ◌&&◌, not,
  if◌then◌else◌, arith, All, All-append,
}
use mathlib.Core.List.{append-nil}
use jenlib.Ble.Payload.{BlePayload}
use jenlib.Ble.Ids.{DeviceId}
use jenlib.Ble.Buffer.{new_buffer, pop}
use jenlib.Ble.Native.{CallbackRun, connection}
use jenlib.Ble.Arduino.{
  ArduinoBleDriver, begin, end, advertise, send_to, receive, poll, new_driver, differs,
  process_ble_events, get_pending_payload, on_control_written, on_receipt_written,
  set_message_callback, clear_message_callback, set_start_broadcast_callback, set_reading_callback,
  set_receipt_callback, clear_type_specific_callbacks, set_connection_callback,
  clear_connection_callback,
}

-- Everything that the program and the library can call, with what the library answers meanwhile.
pub data Call : Type 0 where
  begins : Bool → Call
  ends : Call
  polls : Bool → Call
  advertises receives : Bool → DeviceId → BlePayload → Call
  sends_to : DeviceId → BlePayload → Call
  control_written receipt_written : List ℕ → Call
  sets_message clears_message sets_start sets_reading sets_receipt clears_typed : Call
  sets_connection clears_connection : Call

pub step : Call → ArduinoBleDriver → ArduinoBleDriver
step (begins answer) d = (begin answer d).1
step ends d = end d
step (polls connected) d = poll connected d
step (advertises connected id p) d = advertise connected d id p
step (receives connected id out) d = (receive connected d id out).2
step (sends_to id p) d = send_to d id p
step (control_written value) d = on_control_written value d
step (receipt_written value) d = on_receipt_written value d
step sets_message d = set_message_callback d
step clears_message d = clear_message_callback d
step sets_start d = set_start_broadcast_callback d
step sets_reading d = set_reading_callback d
step sets_receipt d = set_receipt_callback d
step clears_typed d = clear_type_specific_callbacks d
step sets_connection d = set_connection_callback d
step clears_connection d = clear_connection_callback d

pub run : List Call → ArduinoBleDriver → ArduinoBleDriver
run [] d = d
run (call ∷ calls) d = run calls (step call d)

-- A call of the connection callback.
abbrev pub IsConnection : CallbackRun → Type 0
IsConnection call = (connected : Bool) × (call ≡ connection connected)

-- Nothing is buffered, and only the connection callback has run.
pub record IsDeaf (d : ArduinoBleDriver) : Type 0 where
  pub nothing : d.received_payloads ≡ new_buffer
  pub connections : All IsConnection d.calls

-- A call that leaves the buffer and the callbacks alone.
abbrev Quiet : ArduinoBleDriver → ArduinoBleDriver → Type 0
Quiet d d' = (d'.received_payloads ≡ d.received_payloads) × (d'.calls ≡ d.calls)

Quiet-IsDeaf : {d : ArduinoBleDriver} (d' : ArduinoBleDriver) → Quiet d d' → IsDeaf d → IsDeaf d'
Quiet-IsDeaf d' (kept, same) s = record {
  nothing = kept ∙ s.nothing;
  connections = subst (All IsConnection) (sym same) s.connections;
}

begin-Quiet : (answer : Bool) (d : ArduinoBleDriver) → Quiet d (begin answer d).1
unfolding begin
begin-Quiet answer d = ground arith

end-Quiet : (d : ArduinoBleDriver) → Quiet d (end d)
unfolding end
end-Quiet d = ground arith

advertise-Quiet :
    (connected : Bool) (d : ArduinoBleDriver) (id : DeviceId) (p : BlePayload)
    → Quiet d (advertise connected d id p)
unfolding advertise
advertise-Quiet connected d id p = ground arith

-- What one round of events adds to the calls.
abbrev added : Bool → ArduinoBleDriver → List CallbackRun
added connected d =
    if d.initialized && (differs connected d.last_connected_state && d.connection_callback)
    then connection connected ∷ []
    else []

events_effect :
    (connected : Bool) (d : ArduinoBleDriver)
    → ((process_ble_events connected d).received_payloads ≡ d.received_payloads)
      × ((process_ble_events connected d).calls ≡ d.calls ++ added connected d)
unfolding process_ble_events
events_effect true d = ground (arith, append-nil d.calls)
events_effect false d = ground (arith, append-nil d.calls)

added_connections : (connected : Bool) (d : ArduinoBleDriver) → All IsConnection (added connected d)
added_connections connected d =
    if_elim (All IsConnection)
      (d.initialized && (differs connected d.last_connected_state && d.connection_callback))
      (connection connected ∷ []) [] (λ _. ((connected, refl), tt)) (λ _. tt)

events-IsDeaf :
    (connected : Bool) (d : ArduinoBleDriver) → IsDeaf d → IsDeaf (process_ble_events connected d)
events-IsDeaf connected d s =
    let (kept, made) = events_effect connected d in
    record {
      nothing = kept ∙ s.nothing;
      connections = subst (All IsConnection) (sym made) (
          All-append IsConnection d.calls (added connected d) s.connections
            (added_connections connected d));
    }

poll-IsDeaf : (connected : Bool) (d : ArduinoBleDriver) → IsDeaf d → IsDeaf (poll connected d)
unfolding poll
poll-IsDeaf connected d s =
    if_elim IsDeaf (not d.initialized) d (process_ble_events connected d) (λ _. s)
      (λ _. events-IsDeaf connected d s)

-- `receive` fails, leaves its payload as it was and buffers nothing.
abbrev Fails : BlePayload → Bool × BlePayload × ArduinoBleDriver → Type 0
Fails out (done, out', d') = (done ≡ false) × (out' ≡ out) × IsDeaf d'

get_pending_payload-Fails :
    (d : ArduinoBleDriver) (id : DeviceId) (out : BlePayload)
    → IsDeaf d
    → Fails out (get_pending_payload d id out)
unfolding pop
get_pending_payload-Fails d id out s =
    let popped = ap (λ b. pop b out) s.nothing in
    (
      ap (λ r. r.0) popped,
      ap (λ r. r.1) popped,
      record { nothing = ap (λ r. r.2) popped; connections = s.connections },
    )

receive-Fails :
    (connected : Bool) (d : ArduinoBleDriver) (id : DeviceId) (out : BlePayload)
    → IsDeaf d
    → Fails out (receive connected d id out)
unfolding receive
receive-Fails connected d id out s =
    if_elim (Fails out) (not d.initialized) (false, out, d)
      (get_pending_payload (process_ble_events connected d) id out) (λ _. (refl, refl, s))
      (λ _. get_pending_payload-Fails _ id out (events-IsDeaf connected d s))

step-IsDeaf : (call : Call) (d : ArduinoBleDriver) → IsDeaf d → IsDeaf (step call d)
unfolding step
step-IsDeaf (begins answer) d s = Quiet-IsDeaf _ (begin-Quiet answer d) s
step-IsDeaf ends d s = Quiet-IsDeaf _ (end-Quiet d) s
step-IsDeaf (polls connected) d s = poll-IsDeaf connected d s
step-IsDeaf (advertises connected id p) d s = Quiet-IsDeaf _ (advertise-Quiet connected d id p) s
step-IsDeaf (receives connected id out) d s = (receive-Fails connected d id out s).2
step-IsDeaf (sends_to id p) d s = s
step-IsDeaf (control_written value) d s = s
step-IsDeaf (receipt_written value) d s = s
step-IsDeaf sets_message d s = Quiet-IsDeaf _ (refl, refl) s
step-IsDeaf clears_message d s = Quiet-IsDeaf _ (refl, refl) s
step-IsDeaf sets_start d s = Quiet-IsDeaf _ (refl, refl) s
step-IsDeaf sets_reading d s = Quiet-IsDeaf _ (refl, refl) s
step-IsDeaf sets_receipt d s = Quiet-IsDeaf _ (refl, refl) s
step-IsDeaf clears_typed d s = Quiet-IsDeaf _ (refl, refl) s
step-IsDeaf sets_connection d s = Quiet-IsDeaf _ (refl, refl) s
step-IsDeaf clears_connection d s = Quiet-IsDeaf _ (refl, refl) s

run-IsDeaf : (calls : List Call) (d : ArduinoBleDriver) → IsDeaf d → IsDeaf (run calls d)
unfolding run
run-IsDeaf [] d s = s
run-IsDeaf (call ∷ calls) d s = run-IsDeaf calls (step call d) (step-IsDeaf call d s)

-- Whatever is called on a new Arduino driver and whatever a peer writes, the driver has run no
-- callback but the one for the connection, and receive then fails and leaves its payload as it was.
pub arduino_hears_nothing :
    (self : DeviceId) (calls : List Call) (connected : Bool) (id : DeviceId) (out : BlePayload)
    → let d = run calls (new_driver self) in
      let (done, out', _) = receive connected d id out in
      All IsConnection d.calls × (done ≡ false) × (out' ≡ out)
arduino_hears_nothing self calls connected id out =
    let d = run calls (new_driver self) in
    let s = run-IsDeaf calls (new_driver self) (record { nothing = refl; connections = tt }) in
    let (done, same, _) = receive-Fails connected d id out s in (s.connections, done, same)
