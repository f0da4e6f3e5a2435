-- ===== src/Events.antt =====
-- include/jenlib/events/EventTypes.h, include/jenlib/events/EventDispatcher.h and
-- src/events/EventDispatcher.cpp: callbacks in sixteen slots and a circular queue of 32 events.
-- The static members are a record that each function takes and returns. A callback is a handle; what
-- running one does, to the dispatcher too, is the parameter `invoke` of `process_events`.
pub mod Queue
pub mod Slots
pub mod Registration
pub mod Delivery
mod Tests
use jenlib.Common.{
  ℕ, zero, suc, ◌+◌, ◌-◌, ◌%◌, ◌^◌, Bool, true, false, List, [], ◌∷◌, ◌==◌, leb, not, ◌&&◌,
  if◌then◌else◌, get_or, set, replicate, Option, none, some, map, length,
}
use mathlib.Core.Option

-- An `EventType` is any value of the enumeration's `std::uint8_t`: the custom types start at 0x80.
abbrev pub time_tick : ℕ
time_tick = 0x01

abbrev pub ble_message : ℕ
ble_message = 0x02

abbrev pub gpio_change : ℕ
gpio_change = 0x03

abbrev pub measurement_ready : ℕ
measurement_ready = 0x04

abbrev pub connection_state_change : ℕ
connection_state_change = 0x05

abbrev pub custom : ℕ
custom = 0x80

-- `event_data` is the member `data`.
pub record Event : Type 0 where
  pub type : ℕ
  pub timestamp : ℕ
  pub event_data : ℕ

abbrev pub default_event : Event
default_event = record { type = custom; timestamp = 0; event_data = 0 }

abbrev pub invalid_event_id : ℕ
invalid_event_id = 0

-- An empty `std::function` is `none`.
pub record CallbackEntry : Type 0 where
  pub id : ℕ
  pub type : ℕ
  pub callback : Option ℕ
  pub active : Bool

-- The default entry, which `clear` restores.
abbrev pub cleared : CallbackEntry
cleared = record { id = invalid_event_id; type = custom; callback = none; active = false }

abbrev pub max_callbacks : ℕ
max_callbacks = 16

abbrev pub max_event_queue_size : ℕ
max_event_queue_size = 32

pub record Dispatcher : Type 0 where
  pub initialized : Bool
  pub next_event_id : ℕ
  pub callbacks : List CallbackEntry
  pub event_queue : List Event
  pub queue_size : ℕ
  pub queue_head : ℕ

-- The static members before any call.
abbrev pub startup : Dispatcher
startup = record {
  initialized = false;
  next_event_id = 1;
  callbacks = replicate max_callbacks cleared;
  event_queue = replicate max_event_queue_size default_event;
  queue_size = 0;
  queue_head = 0;
}

abbrev clear_entries : List CallbackEntry → List CallbackEntry
clear_entries = map (λ _. cleared)

pub initialize : Dispatcher → Dispatcher
initialize d = if d.initialized then d else record {
  initialized = true;
  next_event_id = 1;
  callbacks = clear_entries d.callbacks;
  event_queue = d.event_queue;
  queue_size = 0;
  queue_head = 0;
}

-- `next_event_id_++` on a `std::uint32_t`; at 0, after it has wrapped, no more are given out.
pub get_next_event_id : Dispatcher → ℕ × Dispatcher
get_next_event_id d =
    if d.next_event_id == invalid_event_id
    then (invalid_event_id, d)
    else (d.next_event_id, record d { next_event_id = (d.next_event_id + 1) % 2 ^ 32 })

-- The index of the slot that the pointer points to.
unfoldable pub find_available_slot : List CallbackEntry → Option ℕ
find_available_slot [] = none
find_available_slot (e ∷ entries) =
    if not e.active then some 0 else Option.map suc (find_available_slot entries)

pub find_callback_entry : ℕ → List CallbackEntry → Option ℕ
find_callback_entry event_id [] = none
find_callback_entry event_id (e ∷ entries) =
    if e.active && e.id == event_id
    then some 0
    else Option.map suc (find_callback_entry event_id entries)

pub register_callback : Dispatcher → ℕ → Option ℕ → ℕ × Dispatcher
unfolding initialize get_next_event_id
register_callback d event_type none = (invalid_event_id, d)
register_callback d event_type (some callback) =
    let (event_id, d') = get_next_event_id (initialize d) in
    let entry : CallbackEntry = record {
      id = event_id;
      type = event_type;
      callback = some callback;
      active = true;
    } in
    if event_id == invalid_event_id
    then (invalid_event_id, d')
    else elim (find_available_slot d'.callbacks) [
      | none ↦ (invalid_event_id, d')
      | some i ↦ (event_id, record d' { callbacks = set d'.callbacks i entry })
    ]

-- The entry that was found is active, so the test of `entry->active` adds nothing.
pub unregister_callback : Dispatcher → ℕ → Bool × Dispatcher
unregister_callback d event_id =
    if event_id == invalid_event_id
    then (false, d)
    else elim (find_callback_entry event_id d.callbacks) [
      | none ↦ (false, d)
      | some i ↦
          if not (get_or d.callbacks i cleared).active
          then (false, d)
          else (true, record d { callbacks = set d.callbacks i cleared })
    ]

abbrev matching : ℕ → CallbackEntry → Bool
matching event_type e = e.active && e.type == event_type

pub clear_matching : ℕ → List CallbackEntry → List CallbackEntry
clear_matching event_type [] = []
clear_matching event_type (e ∷ entries) =
    (if matching event_type e then cleared else e) ∷ clear_matching event_type entries

pub count_matching : ℕ → List CallbackEntry → ℕ
count_matching event_type [] = 0
count_matching event_type (e ∷ entries) =
    (if matching event_type e then 1 else 0) + count_matching event_type entries

pub count_active : List CallbackEntry → ℕ
count_active [] = 0
count_active (e ∷ entries) = (if e.active then 1 else 0) + count_active entries

pub unregister_callbacks : Dispatcher → ℕ → ℕ × Dispatcher
unregister_callbacks d event_type = (
  count_matching event_type d.callbacks,
  record d { callbacks = clear_matching event_type d.callbacks },
)

pub get_callback_count : Dispatcher → ℕ → ℕ
get_callback_count d event_type = count_matching event_type d.callbacks

pub get_total_callback_count : Dispatcher → ℕ
get_total_callback_count d = count_active d.callbacks

pub clear_all_callbacks : Dispatcher → Dispatcher
clear_all_callbacks d = record d {
  callbacks = clear_entries d.callbacks;
  queue_size = 0;
  queue_head = 0;
}

pub data EnqueueResult : Type 0 where
  enqueued enqueued_with_eviction : EnqueueResult

-- The eviction of the oldest event from a full queue, with the event that `evicted_event` receives.
evict : Dispatcher → EnqueueResult × Option Event × Dispatcher
evict d =
    if leb max_event_queue_size d.queue_size
    then (
      enqueued_with_eviction,
      some (get_or d.event_queue d.queue_head default_event),
      record d {
        queue_head = (d.queue_head + 1) % max_event_queue_size;
        queue_size = d.queue_size - 1;
      },
    )
    else (enqueued, none, d)

-- The rest of `dispatch_event`, behind `initialize()`.
enqueue : Dispatcher → Event → EnqueueResult × Option Event × Dispatcher
unfolding evict
enqueue d event =
    let (result, evicted, d') = evict d in
    let tail = (d'.queue_head + d'.queue_size) % max_event_queue_size in
    (
      result,
      evicted,
      record d' { event_queue = set d'.event_queue tail event; queue_size = d'.queue_size + 1 },
    )

pub dispatch_event : Dispatcher → Event → EnqueueResult × Option Event × Dispatcher
unfolding enqueue initialize
dispatch_event d event = enqueue (initialize d) event

-- `process_events`. `W` is the world outside of the dispatcher.
module _ {W : Type 0} (invoke : ℕ → Event → Dispatcher × W → Dispatcher × W) where
  -- One round of the inner loop. The slot and the event are references, read in the current state.
  visit_slot : ℕ → ℕ → ℕ × Dispatcher × W → ℕ × Dispatcher × W
  visit_slot position i (count, d, w) =
      let entry = get_or d.callbacks i cleared in
      let event = get_or d.event_queue (position % max_event_queue_size) default_event in
      if not (matching event.type entry) then (count, d, w) else elim entry.callback [
        | none ↦ (count, d, w)
        | some callback ↦ let (d', w') = invoke callback event (d, w) in (count + 1, d', w')
      ]

  visit_slots : ℕ → ℕ → ℕ → ℕ × Dispatcher × W → ℕ × Dispatcher × W
  visit_slots zero position i s = s
  visit_slots (suc n) position i s = visit_slots n position (i + 1) (visit_slot position i s)

  -- The outer loop; the iterators keep the head and the size that the queue had at its start.
  visit_events : ℕ → ℕ → ℕ × Dispatcher × W → ℕ × Dispatcher × W
  visit_events zero position s = s
  visit_events (suc n) position s =
      visit_events n (position + 1) (visit_slots max_callbacks position 0 s)

  pub process_events : Dispatcher → W → ℕ × Dispatcher × W
  process_events d w =
      if d.queue_size == 0
      then (0, d, w)
      else let (count, d', w') = visit_events d.queue_size d.queue_head (0, d, w) in
        (count, record d' { queue_size = 0; queue_head = 0 }, w')
