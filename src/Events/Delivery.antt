-- ===== src/Events/Delivery.antt =====
-- What `process_events` delivers: with callbacks that leave the dispatcher alone, each pending event
-- to each active callback of its type, in order; and what becomes of events that a callback dispatches.
use jenlib.Common.{
  ℕ, zero, suc, ◌+◌, ◌%◌, ◌≡◌, refl, sym, ap, ◌∙◌, inl, inr, List, [], ◌∷◌, ◌++◌, arith, ◌==◌,
  if◌then◌else◌, length, length-append, drop, drop_end, drop_next, get_or, Option, none, some,
  Bool-cases,
}
use jenlib.Common.Ring.{ring}
use native.Mathlib.Numerals.{add-one}
use jenlib.Events.{
  Event, default_event, CallbackEntry, cleared, matching, Dispatcher, max_callbacks, visit_slot,
  visit_slots, visit_events, process_events,
}
use jenlib.Events.Queue.{pending}

-- The callback that an entry has for an event.
receiver : Event → CallbackEntry → Option ℕ
receiver e entry = if matching e.type entry then entry.callback else none

-- The calls due for one event, in the order of the slots.
receivers : Event → List CallbackEntry → List (ℕ × Event)
receivers e [] = []
receivers e (entry ∷ entries) = elim (receiver e entry) [
  | none ↦ receivers e entries
  | some callback ↦ (callback, e) ∷ receivers e entries
]

-- The calls due for several events, the oldest first.
pub deliveries : List Event → List CallbackEntry → List (ℕ × Event)
unfolding receivers receiver
deliveries [] entries = []
deliveries (e ∷ events) entries = receivers e entries ++ deliveries events entries

module _ {W : Type 0} (act : ℕ → Event → W → W) where
  -- A callback that acts on the outside world only.
  abbrev pub passive : ℕ → Event → Dispatcher × W → Dispatcher × W
  passive callback e (d, w) = (d, act callback e w)

  pub act_all : List (ℕ × Event) → W → W
  act_all [] w = w
  act_all ((callback, e) ∷ calls) w = act_all calls (act callback e w)

  act_all-append : (l m : List (ℕ × Event)) (w : W) → act_all (l ++ m) w ≡ act_all m (act_all l w)
  unfolding act_all
  act_all-append [] m w = refl
  act_all-append ((c, e) ∷ l) m w = act_all-append l m (act c e w)

  abbrev after : List (ℕ × Event) → ℕ × Dispatcher × W → ℕ × Dispatcher × W
  after calls (count, d, w) = (count + length calls, d, act_all calls w)

  module _ (d : Dispatcher) (position : ℕ) where
    abbrev here : Event
    here = get_or d.event_queue (position % 32) default_event

    visit_slot_calls :
        (i : ℕ) (count : ℕ) (w : W) (rest : List CallbackEntry)
        → after (receivers here rest) (visit_slot passive position i (count, d, w))
          ≡ after (receivers here (get_or d.callbacks i cleared ∷ rest)) (count, d, w)
    unfolding visit_slot receivers receiver act_all
    visit_slot_calls i count w rest = ground arith

    visit_slot_keeps : (i count : ℕ) (w : W) → (visit_slot passive position i (count, d, w)).1 ≡ d
    unfolding visit_slot
    visit_slot_keeps i count w = ground arith

    visit_slots_calls :
        (n i count : ℕ) (w : W)
        → n + i ≡ length d.callbacks
        → visit_slots passive n position i (count, d, w)
          ≡ after (receivers here (drop i d.callbacks)) (count, d, w)
    unfolding visit_slots
    visit_slots_calls zero i count w e =
        rw (drop_end d.callbacks i (omega arith)) (unfold receivers act_all in ground arith)
    visit_slots_calls (suc n) i count w e =
        let s = visit_slot passive position i (count, d, w) in
        let kept : s ≡ (s.0, d, s.2) = λ k. (s.0, visit_slot_keeps i count w k, s.2) in
        let rest = drop (suc i) d.callbacks in
        let next = drop_next d.callbacks i cleared (omega arith) in
        ap (visit_slots passive n position (i + 1)) kept
        ∙ visit_slots_calls n (i + 1) s.0 s.2 (omega arith)
        ∙ ap (after (receivers here (drop (i + 1) d.callbacks))) (sym kept)
        ∙ rw (add-one, next) (visit_slot_calls i count w rest)

  module _ (d : Dispatcher) (slots : length d.callbacks ≡ max_callbacks) where
    after-append :
        (l m : List (ℕ × Event)) (count : ℕ) (w : W)
        → after m (after l (count, d, w)) ≡ after (l ++ m) (count, d, w)
    after-append l m count w = rw (act_all-append l m w, length-append l m) (ground arith)

    visit_events_calls :
        (n position count : ℕ) (w : W)
        → visit_events passive n position (count, d, w)
          ≡ after
              (deliveries (ring d.event_queue 32 position n default_event) d.callbacks)
              (count, d, w)
    unfolding visit_events deliveries ring
    visit_events_calls zero position count w = unfold act_all in ground arith
    visit_events_calls (suc n) position count w =
        let event = get_or d.event_queue (position % 32) default_event in
        let calls = receivers event d.callbacks in
        let later = deliveries (ring d.event_queue 32 (position + 1) n default_event) d.callbacks in
        ap (visit_events passive n (position + 1))
          (visit_slots_calls d position 16 0 count w (sym slots))
        ∙ visit_events_calls n (position + 1) (count + length calls) (act_all calls w)
        ∙ after-append calls later count w

  -- With callbacks that leave the dispatcher alone and all sixteen slots, process_events calls each
  -- active callback of each pending event's type, in the order of the events and then of the slots,
  -- returns the number of the calls, keeps the callbacks and leaves nothing pending.
  pub process_events_delivers :
      (d : Dispatcher) (w : W)
      → length d.callbacks ≡ max_callbacks
      → let calls = deliveries (pending d) d.callbacks in
        let (count, d', w') = process_events passive d w in
        (count ≡ length calls)
        × (w' ≡ act_all calls w)
        × (d'.callbacks ≡ d.callbacks)
        × (pending d' ≡ [])
  unfolding process_events pending ring deliveries act_all
  process_events_delivers d w slots = elim (Bool-cases (d.queue_size == 0)) [
    | inl none_left ↦
        let zero_size : d.queue_size ≡ 0 = ground arith in
        let nothing = ap (λ n. ring d.event_queue 32 d.queue_head n default_event) zero_size in
        rw (none_left, nothing) (refl, refl, refl, refl)
    | inr some_left ↦
        let e = visit_events_calls d slots d.queue_size d.queue_head 0 w in
        rw (some_left, e) (omega arith, refl, refl, refl)
  ]

-- Whatever the callbacks do, nothing is pending after process_events: an event that a callback
-- dispatches meanwhile is never delivered.
pub process_events_drops :
    {W : Type 0} (invoke : ℕ → Event → Dispatcher × W → Dispatcher × W) (d : Dispatcher) (w : W)
    → pending (process_events invoke d w).1 ≡ []
unfolding process_events pending ring
process_events_drops invoke d w = elim (Bool-cases (d.queue_size == 0)) [
  | inl none_left ↦
      let zero_size : d.queue_size ≡ 0 = ground arith in
      let nothing = ap (λ n. ring d.event_queue 32 d.queue_head n default_event) zero_size in
      rw (none_left, nothing) refl
  | inr some_left ↦ rw some_left refl
]
