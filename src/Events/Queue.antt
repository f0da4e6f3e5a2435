-- ===== src/Events/Queue.antt =====
-- The event queue is a bounded first-in-first-out queue that gives up its oldest event when full.
use jenlib.Common.{
  ℕ, zero, suc, ◌+◌, ◌-◌, ◌%◌, ◌≤◌, ◌<◌, ◌≡◌, refl, ap, ◌∙◌, inl, inr, true, false, List, [], ◌∷◌,
  ◌++◌, arith, leb, if◌then◌else◌, length, length-set, get_or, set, Option, none, some, Bool-cases,
}
use jenlib.Common.Ring.{ring, length-ring, ring_wrap, ring-set}
use native.Mathlib.Numerals.{add-one}
use jenlib.Events.{
  Event, default_event, Dispatcher, EnqueueResult, enqueued, enqueued_with_eviction, initialize,
  enqueue, dispatch_event,
}

pub record IsQueue (d : Dispatcher) : Type 0 where
  pub slots : length d.event_queue ≡ 32
  pub within : d.queue_size ≤ 32
  pub heads : d.queue_head < 32

-- The events to be processed, oldest first.
unfoldable pub pending : Dispatcher → List Event
pending d = ring d.event_queue 32 d.queue_head d.queue_size default_event

length-pending : (d : Dispatcher) → length (pending d) ≡ d.queue_size
unfolding pending
length-pending d = length-ring d.event_queue 32 d.queue_head d.queue_size default_event

-- The abstract queue.
pub fifo_dispatch : List Event → Event → EnqueueResult × Option Event × List Event
fifo_dispatch [] e = (enqueued, none, e ∷ [])
fifo_dispatch (oldest ∷ q) e =
    if leb 32 (length (oldest ∷ q))
    then (enqueued_with_eviction, some oldest, q ++ (e ∷ []))
    else (enqueued, none, oldest ∷ (q ++ (e ∷ [])))

initialize-IsQueue : (d : Dispatcher) → IsQueue d → IsQueue (initialize d)
unfolding initialize
initialize-IsQueue d v = ground arith

enqueue-IsQueue : (d : Dispatcher) (e : Event) → IsQueue d → IsQueue (enqueue d e).2
unfolding enqueue
enqueue-IsQueue d e v = elim (Bool-cases (leb 32 d.queue_size)) [
  | inl packed ↦
      let tail = ((d.queue_head + 1) % 32 + (d.queue_size - 1)) % 32 in
      rw packed (record {
        slots = length-set d.event_queue tail e ∙ v.slots;
        within = omega (arith, v.within);
        heads = omega arith;
      })
  | inr room ↦
      let tail = (d.queue_head + d.queue_size) % 32 in
      rw room (record {
        slots = length-set d.event_queue tail e ∙ v.slots;
        within = ground arith;
        heads = v.heads;
      })
]

dispatch_event-IsQueue : (d : Dispatcher) (e : Event) → IsQueue d → IsQueue (dispatch_event d e).2
unfolding dispatch_event
dispatch_event-IsQueue d e v = enqueue-IsQueue (initialize d) e (initialize-IsQueue d v)

abbrev view : EnqueueResult × Option Event × Dispatcher → EnqueueResult × Option Event × List Event
view (result, evicted, d) = (result, evicted, pending d)

dispatch_fits :
    (d : Dispatcher) (e : Event)
    → IsQueue d
    → d.queue_size < 32
    → ring
        (set d.event_queue ((d.queue_head + d.queue_size) % 32) e)
        32
        d.queue_head
        (d.queue_size + 1)
        default_event
      ≡ pending d ++ (e ∷ [])
unfolding pending
dispatch_fits d e v h =
    rw add-one
      (ring-set d.event_queue 32 d.queue_head d.queue_size _ e default_event refl h v.slots)

dispatch_evicts :
    (d : Dispatcher) (e : Event)
    → IsQueue d
    → let head = (d.queue_head + 1) % 32 in
      ring (set d.event_queue ((head + 31) % 32) e) 32 head 32 default_event
      ≡ ring d.event_queue 32 (d.queue_head + 1) 31 default_event ++ (e ∷ [])
dispatch_evicts d e v =
    let head = (d.queue_head + 1) % 32 in
    let rest = ring_wrap d.event_queue 32 (d.queue_head + 1) 31 default_event in
    ring-set d.event_queue 32 head 31 (head + 31) e default_event refl (omega arith) v.slots
    ∙ ap (λ l. l ++ (e ∷ [])) rest

enqueue_cases :
    (d : Dispatcher) (e : Event) (n : ℕ)
    → d.queue_size ≡ n
    → IsQueue d
    → view (enqueue d e) ≡ fifo_dispatch (ring d.event_queue 32 d.queue_head n default_event) e
unfolding enqueue fifo_dispatch ring pending
enqueue_cases d e zero s v =
    let room : leb 32 d.queue_size ≡ false = ground arith in
    let grown = ap (λ n. ring d.event_queue 32 d.queue_head n default_event ++ (e ∷ [])) s in
    rw room (ap (λ l. (enqueued, none, l)) (dispatch_fits d e v (omega arith) ∙ grown))
enqueue_cases d e (suc n) s v =
    let size = length-ring d.event_queue 32 (d.queue_head + 1) n default_event in
    let slot : d.queue_head % 32 ≡ d.queue_head = omega (arith, v.heads) in
    elim (Bool-cases (leb 32 (suc n))) [
      | inl packed ↦
          let full : leb 32 d.queue_size ≡ true = ground arith in
          let thirty_two : d.queue_size ≡ 32 = ground (arith, v.within) in
          let thirty_one : n ≡ 31 = ground (arith, v.within) in
          let oldest = get_or d.event_queue d.queue_head default_event in
          rw (size, packed, full, slot, thirty_one, thirty_two)
            (ap (λ l. (enqueued_with_eviction, some oldest, l)) (dispatch_evicts d e v))
      | inr more ↦
          let room : leb 32 d.queue_size ≡ false = ground arith in
          let grown = ap (λ n. ring d.event_queue 32 d.queue_head n default_event ++ (e ∷ [])) s in
          rw (size, more, room)
            (ap (λ l. (enqueued, none, l)) (dispatch_fits d e v (ground arith) ∙ grown))
    ]

-- On a well-formed queue, dispatch_event has the result, the evicted event and the pending events
-- of a queue that gives up its oldest event when 32 are pending.
pub dispatch_event_refines :
    (d : Dispatcher) (e : Event)
    → IsQueue d
    → let (result, evicted, d') = dispatch_event d e in
      (result, evicted, pending d') ≡ fifo_dispatch (pending (initialize d)) e
unfolding dispatch_event pending
dispatch_event_refines d e v =
    let d' = initialize d in enqueue_cases d' e d'.queue_size refl (initialize-IsQueue d v)
