-- ===== src/Ble/EspIdf/Links.antt =====
-- What the ESP-IDF driver tells of its connection, and what it receives, over any sequence of events
-- and calls.
use jenlib.Common.{
  ℕ, ◌≡◌, refl, sym, ap, subst, ◌∙◌, if_elim, Bool, true, false, List, [], ◌∷◌, ◌++◌, ◌==◌, ◌&&◌,
  ◌||◌, not, Option, some, none, if◌then◌else◌, arith,
}
use mathlib.Core.List.{append_assoc, append-nil}
use jenlib.Ble.Payload.{BlePayload, empty_payload, append_raw}
use jenlib.Ble.Payload.Content.{content}
use jenlib.Ble.Ids.{DeviceId}
use jenlib.Ble.Native.{CallbackRun, connection, message}
use jenlib.Ble.Told.{told, told-append, last_or, last_or-append}
use jenlib.Ble.Typed.{typed_callback, typed_callback_all}
use jenlib.Ble.EspIdf.{EspIdfBleDriver, run_callback, issue, send_indicate, advertise}
use jenlib.Ble.EspIdf.Handlers.{
  AddCharParam, WriteParam, extract_sender_id_from_connection, route, typed_or_generic,
  tell_connection, GattsEvent, registered, created, char_added, write, connect, disconnect, other,
  on_char_added, on_write, on_gatts_event, gatts_event_handler,
}

-- The changes of the link among the events, oldest first.
abbrev pub link_changes : List GattsEvent → List Bool
link_changes [] = []
link_changes (connect (some conn_id) ∷ events) = true ∷ link_changes events
link_changes (disconnect ∷ events) = false ∷ link_changes events
link_changes (event ∷ events) = link_changes events

pub handle_all : List GattsEvent → EspIdfBleDriver → EspIdfBleDriver
handle_all [] d = d
handle_all (event ∷ events) d = handle_all events (gatts_event_handler event d)

-- The driver that the events reach, with a connection callback.
pub record IsListening (d : EspIdfBleDriver) : Type 0 where
  pub active : d.is_instance ≡ true
  pub heard : d.connection_callback ≡ true

-- An event that is not about the link changes nothing of this.
abbrev Untold : EspIdfBleDriver → EspIdfBleDriver → Type 0
Untold d d' =
    (d'.is_instance ≡ d.is_instance)
    × (d'.connection_callback ≡ d.connection_callback)
    × (told d'.calls ≡ told d.calls)
    × (d'.last_connected_state ≡ d.last_connected_state)

-- The typed callbacks are not the connection callback.
abbrev UntoldCall : Option CallbackRun → Type 0
UntoldCall none = Unit {0}
UntoldCall (some call) = told (call ∷ []) ≡ []

typed_callback_untold :
    (a b c : Bool) (sender : DeviceId) (p : BlePayload) → UntoldCall (typed_callback a b c sender p)
typed_callback_untold a b c sender p =
    typed_callback_all UntoldCall a b c sender p (λ m. refl) (λ m. refl) (λ m. refl) tt

append-Untold :
    (d : EspIdfBleDriver) (call : CallbackRun)
    → told (call ∷ []) ≡ []
    → Untold d (run_callback call d)
append-Untold d call e = (
  refl,
  refl,
  told-append d.calls (call ∷ []) ∙ ap (λ l. told d.calls ++ l) e ∙ append-nil _,
  refl,
)

typed_or_generic-Untold :
    (found : Option CallbackRun) (sender : DeviceId) (p : BlePayload) (d : EspIdfBleDriver)
    → UntoldCall found
    → Untold d (typed_or_generic found sender p d)
typed_or_generic-Untold (some call) sender p d e = append-Untold d call e
typed_or_generic-Untold none sender p d e =
    if_elim (Untold d) d.message_callback _ d (λ _. append-Untold d (message sender p) refl)
      (λ _. (refl, refl, refl, refl))

on_write-Untold : (param : WriteParam) (d : EspIdfBleDriver) → Untold d (on_write param d)
unfolding on_write
on_write-Untold param d =
    let same : Untold d d = (refl, refl, refl, refl) in
    let sender = extract_sender_id_from_connection in
    let p = (append_raw empty_payload param.value param.len).1 in
    let call =
      typed_callback d.start_broadcast_callback d.reading_callback d.receipt_callback sender p in
    let known = param.handle == d.control_char_handle || param.handle == d.receipt_char_handle in
    let routed = typed_or_generic-Untold call sender p d (
      typed_callback_untold d.start_broadcast_callback d.reading_callback d.receipt_callback sender
        p) in
    if_elim (Untold d) param.is_prep d (if known then route sender p d else d) (λ _. same)
      (λ _. if_elim (Untold d) known (route sender p d) d (λ _. routed) (λ _. same))

on_char_added-Untold :
    (param : AddCharParam) (d : EspIdfBleDriver) → Untold d (on_char_added param d)
unfolding on_char_added
on_char_added-Untold param d = ground arith

-- One event.
module _ (d : EspIdfBleDriver) (l : IsListening d) where
  handled : (event : GattsEvent) → gatts_event_handler event d ≡ on_gatts_event event d
  unfolding gatts_event_handler
  handled event = ap (λ b. if not b then d else on_gatts_event event d) l.active

  abbrev Tells : List Bool → EspIdfBleDriver → Type 0
  Tells changes d' =
      IsListening d'
      × (told d'.calls ≡ told d.calls ++ changes)
      × (d'.last_connected_state ≡ last_or d.last_connected_state changes)

  Untold-Tells : (d' : EspIdfBleDriver) → Untold d d' → Tells [] d'
  Untold-Tells d' (a, c, t, s) =
      (record { active = a ∙ l.active; heard = c ∙ l.heard }, t ∙ sym (append-nil _), s)

  tell_Tells :
      (connected : Bool) (d' : EspIdfBleDriver)
      → Untold d (record d' { last_connected_state = d.last_connected_state })
      → d'.last_connected_state ≡ connected
      → Tells (connected ∷ []) (tell_connection connected d')
  tell_Tells connected d' (a, c, t, _) s =
      let told_so =
        told-append d'.calls (connection connected ∷ []) ∙ ap (λ l. l ++ connected ∷ []) t in
      subst (λ b. Tells (connected ∷ []) (if b then run_callback (connection connected) d' else d'))
        (sym (c ∙ l.heard)) (record { active = a ∙ l.active; heard = c ∙ l.heard }, told_so, s)

  event_Tells : (event : GattsEvent) → Tells (link_changes (event ∷ [])) (on_gatts_event event d)
  unfolding on_gatts_event
  event_Tells (registered gatts_if) = Untold-Tells _ (refl, refl, refl, refl)
  event_Tells (created none) = Untold-Tells d (refl, refl, refl, refl)
  event_Tells (created (some h)) = Untold-Tells _ (refl, refl, refl, refl)
  event_Tells (char_added none) = Untold-Tells d (refl, refl, refl, refl)
  event_Tells (char_added (some p)) = Untold-Tells _ (on_char_added-Untold p d)
  event_Tells (write none) = Untold-Tells d (refl, refl, refl, refl)
  event_Tells (write (some p)) = Untold-Tells _ (on_write-Untold p d)
  event_Tells (connect none) = Untold-Tells d (refl, refl, refl, refl)
  event_Tells (connect (some c)) = tell_Tells true _ (refl, refl, refl, refl) refl
  event_Tells disconnect = tell_Tells false _ (refl, refl, refl, refl) refl
  event_Tells other = Untold-Tells d (refl, refl, refl, refl)

link_changes_cons :
    (event : GattsEvent) (events : List GattsEvent)
    → link_changes (event ∷ events) ≡ link_changes (event ∷ []) ++ link_changes events
link_changes_cons (connect (some c)) events = refl
link_changes_cons (connect none) events = refl
link_changes_cons disconnect events = refl
link_changes_cons (registered g) events = refl
link_changes_cons (created h) events = refl
link_changes_cons (char_added p) events = refl
link_changes_cons (write p) events = refl
link_changes_cons other events = refl

-- Over any sequence of events that reach an ESP-IDF driver with a connection callback, the callback
-- is told of the connects and disconnects among them, each once and in their order, and the state
-- that the driver keeps is the last that it told.
pub connection_told :
    (events : List GattsEvent) (d : EspIdfBleDriver)
    → IsListening d
    → let d' = handle_all events d in
      (told d'.calls ≡ told d.calls ++ link_changes events)
      × (d'.last_connected_state ≡ last_or d.last_connected_state (link_changes events))
unfolding handle_all
connection_told [] d l = (sym (append-nil _), refl)
connection_told (event ∷ events) d l =
    let first = link_changes (event ∷ []) in
    let d1 = gatts_event_handler event d in
    let (l1, t1, s1) = subst (Tells d l first) (sym (handled d l event)) (event_Tells d l event) in
    let (t, s) = connection_told events d1 l1 in
    let split = link_changes_cons event events in
    (
      t
          ∙ ap (λ x. x ++ link_changes events) t1
          ∙ append_assoc (told d.calls) first (link_changes events)
          ∙ ap (λ x. told d.calls ++ x) (sym split),
      s
          ∙ ap (λ x. last_or x (link_changes events)) s1
          ∙ sym (last_or-append d.last_connected_state first (link_changes events))
          ∙ ap (last_or d.last_connected_state) (sym split),
    )

-- When the stack reports a connection to an ESP-IDF driver that listens, the connection callback is
-- told so, and advertising a payload then makes one esp_ble_gatts_send_indicate without
-- confirmation, which is a notification, of its content on the reading characteristic of that
-- connection, if the driver is initialized and the identifier of the connection is not 0; otherwise
-- nothing is sent.
pub connect_advertise :
    (d : EspIdfBleDriver) (conn_id : ℕ) (id : DeviceId) (p : BlePayload)
    → IsListening d
    → let d' = gatts_event_handler (connect (some conn_id)) d in
      (told d'.calls ≡ told d.calls ++ true ∷ [])
      × (advertise d' id p ≡ (
          if d.initialized && not (conn_id == 0)
          then issue (send_indicate d.gatts_if conn_id d.reading_char_handle (content p) false) d'
          else d'))
unfolding on_gatts_event advertise
connect_advertise d conn_id id p l =
    let linked = record d { conn_id = conn_id; last_connected_state = true } in
    let called = run_callback (connection true) linked in
    let event : gatts_event_handler (connect (some conn_id)) d ≡ called =
      handled d l (connect (some conn_id)) ∙ ap (λ b. if b then called else linked) l.heard in
    let sent =
      issue (send_indicate d.gatts_if conn_id d.reading_char_handle (content p) false) called in
    let step : advertise called id p
        ≡ (if d.initialized && not (conn_id == 0) then sent else called) =
      advertise_cases d.initialized (not (conn_id == 0)) sent called in
    subst
      (λ x.
        (told x.calls ≡ told d.calls ++ true ∷ [])
        × (advertise x id p ≡ (
            if d.initialized && not (conn_id == 0)
            then issue (send_indicate d.gatts_if conn_id d.reading_char_handle (content p) false) x
            else x)))
      (sym event) (told-append d.calls (connection true ∷ []), step)
  where
    advertise_cases :
        (a b : Bool) (x y : EspIdfBleDriver)
        → (if not a then y else if a && b then x else y) ≡ (if a && b then x else y)
    advertise_cases true b x y = refl
    advertise_cases false b x y = refl
