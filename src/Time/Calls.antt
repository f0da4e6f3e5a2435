-- ===== src/Time/Calls.antt =====
-- Sequences of calls of the time service, with callbacks that leave it alone.
use jenlib.Common.{
  ℕ, zero, suc, ◌+◌, ◌%◌, ◌^◌, ◌<◌, ◌≡◌, ◌≢◌, refl, ap, ◌⊎◌, inl, inr, Bool, true, false, List, [],
  ◌∷◌, ◌==◌, leb, if◌then◌else◌, length, length-append, get_or, set, Option, some, arith,
  Bool-cases,
}
use native.Mathlib.Decide.{dec_lt}
use jenlib.Time.{
  TimerEntry, default_entry, new_entry, Timers, startup, initialize, set_driver, clear_all_timers,
  now, process_timers, schedule_callback, cancel_callback,
}
use jenlib.Time.Scheduling.{
  IsTimers, initialize-IsTimers, placed, placed-IsTimers, IsFree, initialize_used,
}
use jenlib.Time.Handles.{entry_for, schedule_refused, schedule_accepted}
use jenlib.Time.Processing.{due, calls_due, call_of, passive}
use jenlib.Time.Firing.{Fires-all}

length-calls_due-set :
    (current_time : ℕ) (l : List TimerEntry) (i : ℕ) (e : TimerEntry)
    → i < length l
    → length (calls_due current_time (set l i e))
        + length (call_of current_time (get_or l i default_entry))
      ≡ length (calls_due current_time l) + length (call_of current_time e)
length-calls_due-set current_time [] i e h = elim h [ ]
length-calls_due-set current_time (x ∷ l) zero e h = omega (
  arith,
  length-append (call_of current_time e) (calls_due current_time l),
  length-append (call_of current_time x) (calls_due current_time l),
)
length-calls_due-set current_time (x ∷ l) (suc i) e h = omega (
  arith,
  length-append (call_of current_time x) (calls_due current_time (set l i e)),
  length-append (call_of current_time x) (calls_due current_time l),
  length-calls_due-set current_time l i e (omega arith),
)

-- A new timer is due at the time of its creation exactly if its time to fire wraps around.
length-call_of-new_entry :
    (current_time id interval callback : ℕ) (repeat : Bool)
    → 0 < interval
    → interval < 2 ^ 32
    → current_time < 2 ^ 32
    → length (
        call_of current_time
          (new_entry id interval ((current_time + interval) % 2 ^ 32) (some callback) repeat))
      ≡ (if leb (2 ^ 32) (current_time + interval) then 1 else 0)
length-call_of-new_entry current_time id interval callback repeat positive fits clock =
    elim (dec_lt (current_time + interval) (2 ^ 32)) [
      | yes stays ↦
          let later : leb ((current_time + interval) % 2 ^ 32) current_time ≡ false =
            ground arith in
          let small : leb (2 ^ 32) (current_time + interval) ≡ false = ground arith in
          rw (later, small) refl
      | no wraps ↦
          let at_once : leb ((current_time + interval) % 2 ^ 32) current_time ≡ true =
            ground arith in
          let large : leb (2 ^ 32) (current_time + interval) ≡ true = ground arith in
          rw (at_once, large) refl
    ]

module _ {W : Type 0} (driver_now : ℕ → W → ℕ) (driver_delay : ℕ → ℕ → W → W)
    (act : ℕ → W → W) where
  -- The calls, and the passing of time in the world.
  pub data TimerCall : Type 0 where
    schedule_call : ℕ → Option ℕ → Bool → TimerCall
    cancel_call : ℕ → TimerCall
    process_call clear_call initialize_call : TimerCall
    set_driver_call : Option ℕ → TimerCall
    pass : (W → W) → TimerCall

  unfoldable pub step : TimerCall → Timers × W → Timers × W
  step (schedule_call interval callback repeat) (t, w) =
      ((schedule_callback driver_now driver_delay t interval callback repeat w).1, w)
  step (cancel_call timer_id) (t, w) = ((cancel_callback t timer_id).1, w)
  step process_call (t, w) =
      let s = process_timers driver_now driver_delay (passive driver_now driver_delay act) t w in
      (s.1, s.2)
  step clear_call (t, w) = (clear_all_timers t, w)
  step initialize_call (t, w) = (initialize t, w)
  step (set_driver_call driver) (t, w) = (set_driver t driver, w)
  step (pass change) (t, w) = (t, change w)

  pub data Reachable : Timers × W → Type 0 where
    fresh : (w : W) → Reachable (startup, w)
    after : {s : Timers × W} (c : TimerCall) → Reachable s → Reachable (step c s)

  process_placed :
      (t : Timers) (i interval callback : ℕ) (repeat : Bool) (w : W)
      → IsTimers t
      → IsFree t i
      → t.initialized ≡ true
      → 0 < interval
      → interval < 2 ^ 32
      → now driver_now driver_delay t w < 2 ^ 32
      → let handler = passive driver_now driver_delay act in
        let entry = entry_for driver_now driver_delay t interval callback repeat w in
        (process_timers driver_now driver_delay handler (placed t i entry) w).0
        ≡ (process_timers driver_now driver_delay handler t w).0
          + (if leb (2 ^ 32) (now driver_now driver_delay t w + interval) then 1 else 0)
  unfolding IsFree
  process_placed t i interval callback repeat w v (inside, free, room, left) used positive fits
        clock =
      let current_time = now driver_now driver_delay t w in
      let entry = entry_for driver_now driver_delay t interval callback repeat w in
      let old = get_or t.timers i default_entry in
      let off : due current_time old ≡ false = ground arith in
      let silent : length (call_of current_time old) ≡ 0 = rw off refl in
      let v' = placed-IsTimers t i entry v (inside, free, room, left) (refl, refl) used in
      let before = (Fires-all driver_now driver_delay act t w v).total in
      let behind = (Fires-all driver_now driver_delay act (placed t i entry) w v').total in
      let change = length-calls_due-set current_time t.timers i entry inside in
      let own =
        length-call_of-new_entry current_time t.next_timer_id interval callback repeat positive fits
          clock in
      omega (arith, before, behind, change, silent, own)

  -- In an initialized service, a timer taken with a positive 32-bit interval fires in the same
  -- millisecond exactly if the time to fire wraps around at 2 ^ 32: then process_timers fires one
  -- timer more, and otherwise as many as without it.
  pub schedule_callback-process_timers :
      (t : Timers) (interval callback : ℕ) (repeat : Bool) (w : W)
      → IsTimers t
      → t.initialized ≡ true
      → 0 < interval
      → interval < 2 ^ 32
      → now driver_now driver_delay t w < 2 ^ 32
      → let (id, t') =
          schedule_callback driver_now driver_delay t interval (some callback) repeat w in
        let handler = passive driver_now driver_delay act in
        (id ≡ 0)
        ⊎ ((process_timers driver_now driver_delay handler t' w).0
            ≡ (process_timers driver_now driver_delay handler t w).0
              + (if leb (2 ^ 32) (now driver_now driver_delay t w + interval) then 1 else 0))
  schedule_callback-process_timers t interval callback repeat w v used positive fits clock =
      let same = initialize_used t used in
      let nonzero : interval ≢ 0 = omega arith in
      let refused = schedule_refused driver_now driver_delay t interval callback repeat w nonzero in
      elim (dec_lt (initialize t).timer_count 16) [
        | no full ↦ inl (ap (λ p. p.0) (refused (inl (omega arith))))
        | yes room ↦ elim (Bool-cases ((initialize t).next_timer_id == 0)) [
          | inl out ↦ inl (ap (λ p. p.0) (refused (inr (ground arith))))
          | inr left ↦
              let v0 = initialize-IsTimers t v in
              let accepted =
                schedule_accepted driver_now driver_delay t interval callback repeat w v0 nonzero
                  room (ground arith) in
              let (i, free, e) = (rw same at accepted) in
              rw e (
                inr (process_placed t i interval callback repeat w v free used positive fits clock))
        ]
      ]
