-- ===== src/Ble/EspIdf/Start.antt =====
-- How the ESP-IDF driver starts and stops.
use jenlib.Common.{
  ◌≡◌, refl, sym, ap, subst, ◌∙◌, inl, inr, Bool, true, false, List, [], ◌∷◌, ◌++◌, ◌&&◌,
  if◌then◌else◌, Bool-cases, arith, drop,
}
use mathlib.Core.List.{append_assoc}
use jenlib.Ble.EspIdf.{
  EspIdfBleDriver, StackCall, stop_advertising, bluedroid_disable, bluedroid_deinit,
  controller_disable, controller_deinit, controller_init, controller_enable, bluedroid_init,
  bluedroid_enable, register_gatts, register_gap, create_service, config_adv_data, service_sensor,
  uuid_bytes, issue, checked, set_up, register_callbacks, start_bluedroid, begin, end, is_connected,
}

-- The calls that can fail, in their order.
abbrev pub steps : List StackCall
steps =
    controller_init ∷ controller_enable ∷ bluedroid_init ∷ bluedroid_enable ∷ register_gatts
    ∷ register_gap ∷ []

-- All succeed, and what is called when the first failure ends it.
abbrev pub all_ok : (StackCall → Bool) → List StackCall → Bool
all_ok answer [] = true
all_ok answer (c ∷ calls) = answer c && all_ok answer calls

abbrev pub issued : (StackCall → Bool) → List StackCall → List StackCall
issued answer [] = []
issued answer (c ∷ calls) = c ∷ (if answer c then issued answer calls else [])

-- What a start leaves that has yet to make `calls`, and `rest` behind them.
abbrev Starts :
    (StackCall → Bool)
    → List StackCall
    → List StackCall
    → EspIdfBleDriver
    → Bool × EspIdfBleDriver
    → Type 0
Starts answer calls rest d (done, d') =
    (done ≡ all_ok answer calls)
    × (d'.initialized ≡ all_ok answer calls)
    × (d'.stack ≡ d.stack ++ (issued answer calls ++ (if all_ok answer calls then rest else [])))

module _ (answer : StackCall → Bool) (c : StackCall) (calls rest : List StackCall)
    (d : EspIdfBleDriver) (go_on : EspIdfBleDriver → Bool × EspIdfBleDriver) where
  checked-Starts :
      d.initialized ≡ false
      → Starts answer calls rest (issue c d) (go_on (issue c d))
      → Starts answer (c ∷ calls) rest d (checked answer c d go_on)
  checked-Starts off (done, ready, made) = elim (Bool-cases (answer c)) [
    | inl ok ↦ rw ok (done, ready, made ∙ append_assoc d.stack (c ∷ []) _)
    | inr failed ↦ rw failed (refl, off, refl)
  ]

abbrev pub service_calls : EspIdfBleDriver → List StackCall
service_calls d = create_service d.gatts_if (uuid_bytes service_sensor) 3 ∷ config_adv_data ∷ []

module _ (answer : StackCall → Bool) (d : EspIdfBleDriver) (off : d.initialized ≡ false) where
  register_callbacks-Starts :
      Starts answer
        (register_gatts ∷ register_gap ∷ [])
        (service_calls d)
        d
        (register_callbacks answer d)
  register_callbacks-Starts =
      let d' = record d { is_instance = true } in
      let d5 = issue register_gatts d' in
      checked-Starts answer register_gatts (register_gap ∷ []) (service_calls d) d'
        (λ x. checked answer register_gap x set_up) off
        (checked-Starts answer register_gap [] (service_calls d) d5 set_up off
          (refl, refl, append_assoc _ (_ ∷ []) _))

module _ (answer : StackCall → Bool) (d : EspIdfBleDriver) (off : d.initialized ≡ false) where
  start_bluedroid-Starts :
      Starts answer
        (bluedroid_init ∷ bluedroid_enable ∷ register_gatts ∷ register_gap ∷ [])
        (service_calls d)
        d
        (start_bluedroid answer d)
  start_bluedroid-Starts =
      let d3 = issue bluedroid_init d in
      checked-Starts answer bluedroid_init (bluedroid_enable ∷ register_gatts ∷ register_gap ∷ [])
        (service_calls d) d (λ x. checked answer bluedroid_enable x (register_callbacks answer)) off
        (checked-Starts answer bluedroid_enable (register_gatts ∷ register_gap ∷ [])
          (service_calls d) d3 (register_callbacks answer) off
          (register_callbacks-Starts answer (issue bluedroid_enable d3) off))

module _ (answer : StackCall → Bool) (d : EspIdfBleDriver) (off : d.initialized ≡ false) where
  begin-Starts : Starts answer steps (service_calls d) d (begin answer d)
  unfolding begin
  begin-Starts =
      let d1 = issue controller_init d in
      let go_on =
        λ (x : EspIdfBleDriver). checked answer controller_enable x (start_bluedroid answer) in
      subst
        (λ b.
          Starts answer steps (service_calls d) d
            (if b then (true, d) else checked answer controller_init d go_on))
        (sym off)
        (checked-Starts answer controller_init (drop 1 steps) (service_calls d) d go_on off (
          checked-Starts answer controller_enable (drop 2 steps) (service_calls d) d1
            (start_bluedroid answer) off
            (start_bluedroid-Starts answer (issue controller_enable d1) off)))

end_off : (d : EspIdfBleDriver) → d.initialized ≡ false → end d ≡ d
unfolding end
end_off d off =
    let stopped = record d {
      stack =
          d.stack
          ++ (stop_advertising ∷ bluedroid_disable ∷ bluedroid_deinit ∷ controller_disable
              ∷ controller_deinit ∷ []);
      initialized = false;
    } in
    ap (λ b. if b then stopped else d) off

-- An ESP-IDF driver that is not initialized makes the six calls that can fail in their order and
-- stops behind the first that does. Exactly if all succeed, it sets up the service and the
-- advertising data, is initialized and returns true. After a failure end makes no call, so that
-- what was started stays.
pub begin_outcome :
    (answer : StackCall → Bool) (d : EspIdfBleDriver)
    → d.initialized ≡ false
    → let (done, d') = begin answer d in
      (done ≡ all_ok answer steps)
      × (d'.initialized ≡ all_ok answer steps)
      × (d'.stack
          ≡ d.stack
            ++ (issued answer steps ++ (if all_ok answer steps then service_calls d else [])))
      × (done ≡ false → end d' ≡ d')
begin_outcome answer d off =
    let (done, ready, made) = begin-Starts answer d off in
    (done, ready, made, λ failed. end_off _ (ready ∙ sym done ∙ failed))

begin_ready :
    (answer : StackCall → Bool) (d : EspIdfBleDriver)
    → d.initialized ≡ false
    → all_ok answer steps ≡ true
    → (begin answer d).1.conn_id ≡ d.conn_id
unfolding begin
begin_ready answer d off ok = ground arith

end_lem : (d : EspIdfBleDriver) → ((end d).initialized ≡ false) × ((end d).conn_id ≡ d.conn_id)
unfolding end
end_lem d = ground arith

-- A driver that stops while it is connected and starts again with success is connected at once,
-- without an event that says so: `end` keeps the identifier of the connection.
pub end-begin_connected :
    (answer : StackCall → Bool) (d : EspIdfBleDriver)
    → is_connected d ≡ true
    → all_ok answer steps ≡ true
    → let (done, d') = begin answer (end d) in
      (done ≡ true) × (is_connected d' ≡ true) × (is_connected (end d) ≡ false)
end-begin_connected answer d on ok =
    let (off, same) = end_lem d in
    let (done, ready, _) = begin-Starts answer (end d) off in
    let kept = begin_ready answer (end d) off ok in
    (done ∙ ok, ground (arith, ready, kept), ground arith)
