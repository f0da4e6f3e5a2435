-- ===== src/Time/Tests.antt =====
-- The time service at concrete inputs. The world is the clock and the callbacks called.
use jenlib.Common.{
  ℕ, ◌+◌, ◌-◌, ◌^◌, ◌≤◌, ◌<◌, ◌≡◌, ◌≢◌, ◌⊎◌, refl, Bool, true, false, List, [], ◌∷◌, ◌++◌, length,
  replicate, All-replicate, Option, some, map, arith,
}
use jenlib.Time.{
  default_entry, new_entry, Timers, startup, initialize, now, get_total_timer_count,
  get_active_timer_count, schedule_callback, cancel_callback, clear_all_timers, visit_timer,
  process_timers,
}
use jenlib.Time.Slots.{IsSettled}
use jenlib.Time.Scheduling.{IsTimers, issued}
use jenlib.Time.Handles.{schedule_callback-cancel_callback}
use jenlib.Time.Processing.{advance, calls_due, act_all, passive}
use jenlib.Time.Firing.{process_timers_fires}
use jenlib.Time.Calls.{TimerCall, schedule_call, process_call, pass, step}
use jenlib.Time.Reentry.{clear_in_callback}

abbrev World : Type 0
World = ℕ × List ℕ

abbrev clock : ℕ → World → ℕ
clock driver (time, calls) = time

abbrev wait : ℕ → ℕ → World → World
wait driver ms (time, calls) = (time + ms, calls)

abbrev log : ℕ → World → World
log callback (time, calls) = (time, calls ++ (callback ∷ []))

-- A repeating timer and a one-shot timer, both due from 100 on.
abbrev two_timers : Timers
two_timers = record {
  initialized = true;
  next_timer_id = 3;
  timers =
      new_entry 1 50 100 (some 7) true
      ∷ new_entry 2 60 100 (some 8) false
      ∷ replicate 14 default_entry;
  timer_count = 2;
  driver = some 0;
}

abbrev at_120 : World
at_120 = (120, [])

two_timers-IsTimers : IsTimers two_timers
two_timers-IsTimers = record {
  slots = refl;
  settled = (omega arith, (omega arith, All-replicate IsSettled 14 default_entry (omega arith)));
  counted = refl;
  known = (
    omega arith,
    (omega arith, All-replicate (λ e. e.id < issued 3) 14 default_entry (omega arith)),
  );
  within = omega arith;
  unused = λ h. absurd (ground arith);
}

schedule_callback-cancel_callback_example :
    let t0 = initialize two_timers in
    let (id, t1) = schedule_callback clock wait two_timers 500 (some 9) true at_120 in
    let (done, t2) = cancel_callback t1 id in
    (((16 ≤ get_total_timer_count t0) ⊎ (t0.next_timer_id ≡ 0)) × (id ≡ 0) × (t1 ≡ t0))
    ⊎ ((get_total_timer_count t0 < 16)
        × (id ≢ 0)
        × (id ≡ t0.next_timer_id)
        × (get_total_timer_count t1 ≡ get_total_timer_count t0 + 1)
        × (done ≡ true)
        × (get_total_timer_count t2 ≡ get_total_timer_count t0)
        × ((cancel_callback t2 id).0 ≡ false))
schedule_callback-cancel_callback_example =
    schedule_callback-cancel_callback clock wait two_timers 500 9 true at_120 two_timers-IsTimers
      (omega arith)

process_timers_fires_example :
    let current_time = now clock wait two_timers at_120 in
    let calls = calls_due current_time two_timers.timers in
    let (fired_count, t', w') =
      process_timers clock wait (passive clock wait log) two_timers at_120 in
    (fired_count ≡ length calls)
    × (w' ≡ act_all log calls at_120)
    × (t'.timers ≡ map (advance current_time) two_timers.timers)
    × (get_total_timer_count t' ≡ get_active_timer_count t')
process_timers_fires_example =
    process_timers_fires clock wait log two_timers at_120 two_timers-IsTimers

abbrev schedule_one : TimerCall clock wait log
schedule_one = schedule_call 100 (some 7) true

abbrev tick : TimerCall clock wait log
tick = pass (wait 0 150)

abbrev process : TimerCall clock wait log
process = process_call

abbrev run : Timers × World
run =
    step clock wait log process
      (step clock wait log tick (step clock wait log schedule_one (startup, at_120)))

-- Callbacks that cancel the repeating timer, and that clear all timers.
abbrev cancelling : ℕ → Timers × World → Timers × World
cancelling callback (t, w) = ((cancel_callback t 1).1, w)

abbrev clearing : ℕ → Timers × World → Timers × World
clearing callback (t, w) = (clear_all_timers t, w)

clear_in_callback_example :
    let (_, t', w') = visit_timer clock wait clearing 120 1 (0, two_timers, at_120) in
    (get_total_timer_count t' ≡ 2 ^ 32 - 1)
    × ((interval : ℕ) (cb : Option ℕ) (repeat : Bool)
        → (schedule_callback clock wait t' interval cb repeat w').0 ≡ 0)
clear_in_callback_example =
    clear_in_callback clock wait clearing 120 1 0 8 two_timers at_120 refl (omega arith) refl refl
      refl (λ u v. refl)
