-- ===== src/Events/Tests.antt =====
-- The event dispatcher at concrete inputs.
use jenlib.Common.{
  ℕ, ◌+◌, ◌<◌, ◌≡◌, ◌≢◌, ◌⊎◌, refl, true, false, List, [], ◌∷◌, ◌++◌, arith, length, replicate,
  All-replicate, none, some,
}
use jenlib.Events.{
  Event, default_event, cleared, Dispatcher, startup, initialize, register_callback,
  unregister_callback, get_callback_count, get_total_callback_count, dispatch_event, process_events,
}
use jenlib.Events.Queue.{IsQueue, pending, fifo_dispatch, dispatch_event_refines}
use jenlib.Events.Slots.{issued, IsRegistry}
use jenlib.Events.Registration.{register_callback-unregister_callback}
use jenlib.Events.Delivery.{deliveries, passive, act_all, process_events_delivers}

abbrev message : Event
message = record { type = 2; timestamp = 10; event_data = 3 }

-- One callback for messages, and one message pending.
abbrev busy : Dispatcher
busy = record {
  initialized = true;
  next_event_id = 2;
  callbacks = record { id = 1; type = 2; callback = some 7; active = true } ∷ replicate 15 cleared;
  event_queue = message ∷ replicate 31 default_event;
  queue_size = 1;
  queue_head = 0;
}

-- The outside world is the list of the callbacks called.
abbrev logging : ℕ → Event → List ℕ → List ℕ
logging callback e calls = calls ++ (callback ∷ [])

-- A callback that dispatches an event.
abbrev dispatching : ℕ → Event → Dispatcher × List ℕ → Dispatcher × List ℕ
dispatching callback e (d, calls) = ((dispatch_event d e).2, calls ++ (callback ∷ []))

startup-IsQueue : IsQueue startup
startup-IsQueue = record { slots = refl; within = omega arith; heads = omega arith }

startup-IsRegistry : IsRegistry startup
startup-IsRegistry = record {
  slots = refl;
  known = All-replicate (λ e. e.id < issued 1) 16 cleared (omega arith);
  within = omega arith;
}

dispatch_event_refines_example :
    let (result, evicted, d') = dispatch_event startup message in
    (result, evicted, pending d') ≡ fifo_dispatch (pending (initialize startup)) message
dispatch_event_refines_example = dispatch_event_refines startup message startup-IsQueue

process_events_delivers_example :
    let calls = deliveries (pending busy) busy.callbacks in
    let (count, d', w') = process_events (passive logging) busy [] in
    (count ≡ length calls)
    × (w' ≡ act_all logging calls [])
    × (d'.callbacks ≡ busy.callbacks)
    × (pending d' ≡ [])
process_events_delivers_example = process_events_delivers logging busy [] refl

register_callback-unregister_callback_example :
    (register_callback startup 2 none ≡ (0, startup))
    × (let d0 = initialize startup in
        let (id, d1) = register_callback startup 2 (some 7) in
        let (done, d2) = unregister_callback d1 id in
        ((id ≡ 0)
          × ((d0.next_event_id ≡ 0) ⊎ (get_total_callback_count d0 ≡ 16))
          × (d1.callbacks ≡ d0.callbacks))
        ⊎ ((id ≢ 0)
            × (id ≡ d0.next_event_id)
            × (get_callback_count d1 2 ≡ get_callback_count d0 2 + 1)
            × (get_total_callback_count d1 ≡ get_total_callback_count d0 + 1)
            × (done ≡ true)
            × (get_callback_count d2 2 ≡ get_callback_count d0 2)
            × (get_total_callback_count d2 ≡ get_total_callback_count d0)
            × ((unregister_callback d2 id).0 ≡ false)))
register_callback-unregister_callback_example =
    register_callback-unregister_callback startup 2 7 2 startup-IsRegistry
