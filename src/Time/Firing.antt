-- ===== src/Time/Firing.antt =====
-- `process_timers` with callbacks that leave the time service alone: which timers fire, in which order,
-- and what becomes of them.
use jenlib.Common.{
  ℕ, zero, suc, ◌+◌, ◌<◌, ◌≡◌, refl, sym, ap, ◌∙◌, inl, inr, ◌++◌, ◌==◌, length, length-append,
  length-set, get_or, drop, drop_end, drop_next, map, arith, Bool-cases,
}
use jenlib.Time.{
  default_entry, Timers, count_active, get_total_timer_count, get_active_timer_count, now,
  visit_timers, process_timers,
}
use jenlib.Time.Scheduling.{IsTimers}
use jenlib.Time.Processing.{
  advance, calls_due, call_of, advance_from, advance_from_end, advance_from_next, drop-set, idle,
  fired, fired-timers, fired-IsTimers, act_all, act_all-append, passive, visit_timer-passive,
}

module _ {W : Type 0} (driver_now : ℕ → W → ℕ) (driver_delay : ℕ → ℕ → W → W)
    (act : ℕ → W → W) where
  abbrev handler : ℕ → Timers × W → Timers × W
  handler = passive driver_now driver_delay act

  -- What a run that finds the timers in `t` and goes on from slot `i` leads to.
  pub record Fires (current_time i count : ℕ) (t : Timers) (w : W) (s : ℕ × Timers × W)
      : Type 0 where
    pub total : s.0 ≡ count + length (calls_due current_time (drop i t.timers))
    pub world : s.2 ≡ act_all act (calls_due current_time (drop i t.timers)) w
    pub slots : s.1.timers ≡ advance_from current_time i t.timers
    pub valid : IsTimers s.1

  Fires-next :
      (j current_time i count : ℕ) (t : Timers) (w : W) (s : ℕ × Timers × W)
      → j ≡ suc i
      → i < length t.timers
      → let calls = call_of current_time (get_or t.timers i default_entry) in
        Fires current_time j (count + length calls) (fired current_time t i) (act_all act calls w) s
        → Fires current_time i count t w s
  Fires-next j current_time i count t w s next inside f =
      let entry = get_or t.timers i default_entry in
      let calls = call_of current_time entry in
      let t' = fired current_time t i in
      let later = calls_due current_time (drop (suc i) t.timers) in
      let slots' = fired-timers current_time t i inside in
      let tail : calls_due current_time (drop j t'.timers) ≡ later =
        ap (λ n. calls_due current_time (drop n t'.timers)) next
        ∙ ap (λ l. calls_due current_time (drop (suc i) l)) slots'
        ∙ ap (calls_due current_time) (drop-set t.timers i (advance current_time entry)) in
      let all : calls_due current_time (drop i t.timers) ≡ calls ++ later =
        ap (calls_due current_time) (drop_next t.timers i default_entry inside) in
      let longer = ap length all ∙ length-append calls later in
      record {
        total = omega (arith, f.total, ap length tail, longer);
        world =
            f.world
            ∙ ap (λ l. act_all act l (act_all act calls w)) tail
            ∙ sym (act_all-append act calls later w)
            ∙ ap (λ l. act_all act l w) (sym all);
        slots =
            f.slots
            ∙ ap (λ n. advance_from current_time n t'.timers) next
            ∙ ap (advance_from current_time (suc i)) slots'
            ∙ advance_from_next current_time i t.timers inside;
        valid = f.valid;
      }

  visit_timers-Fires :
      (n current_time i count : ℕ) (t : Timers) (w : W)
      → IsTimers t
      → n + i ≡ length t.timers
      → Fires current_time i count t w
          (visit_timers driver_now driver_delay handler n current_time i (count, t, w))
  unfolding visit_timers
  visit_timers-Fires zero current_time i count t w v e =
      let none_left = ap (calls_due current_time) (drop_end t.timers i (omega arith)) in
      record {
        total = rw none_left (omega arith);
        world = rw none_left refl;
        slots = sym (advance_from_end current_time i t.timers (omega arith));
        valid = v;
      }
  visit_timers-Fires (suc n) current_time i count t w v e =
      let inside : i < length t.timers = omega arith in
      let entry = get_or t.timers i default_entry in
      let calls = call_of current_time entry in
      let t' = fired current_time t i in
      let step = visit_timer-passive driver_now driver_delay act current_time i count t w inside in
      let slots' = fired-timers current_time t i inside in
      let same_length = length-set t.timers i (advance current_time entry) in
      let long : length t'.timers ≡ length t.timers = ap length slots' ∙ same_length in
      let rest =
        visit_timers-Fires n current_time (i + 1) (count + length calls) t' (act_all act calls w)
          (fired-IsTimers current_time t i v inside) (omega (arith, long, e)) in
      rw step (Fires-next (i + 1) current_time i count t w _ (omega arith) inside rest)

  pub Fires-all :
      (t : Timers) (w : W)
      → IsTimers t
      → Fires
          (now driver_now driver_delay t w)
          0
          0
          t
          w
          (process_timers driver_now driver_delay handler t w)
  unfolding process_timers
  Fires-all t w v =
      let current_time = now driver_now driver_delay t w in
      elim (Bool-cases (t.timer_count == 0)) [
        | inl nothing ↦
            let none_active : count_active t.timers ≡ 0 = ground (arith, v.counted) in
            let (no_calls, same) = idle current_time t.timers none_active in
            simp nothing (record {
              total = rw no_calls refl;
              world = rw no_calls refl;
              slots = sym same;
              valid = v;
            })
        | inr something ↦
            simp something (visit_timers-Fires 16 current_time 0 0 t w v (omega (arith, v.slots)))
      ]

  -- With callbacks that leave the time service alone, process_timers calls the callbacks of the due
  -- timers, once each and in the order of the slots, and returns their number; it moves a repeating
  -- timer that was due to one interval from now, stops the others that were due, and leaves a count
  -- that is the number of active timers.
  pub process_timers_fires :
      (t : Timers) (w : W)
      → IsTimers t
      → let current_time = now driver_now driver_delay t w in
        let calls = calls_due current_time t.timers in
        let (fired_count, t', w') = process_timers driver_now driver_delay handler t w in
        (fired_count ≡ length calls)
        × (w' ≡ act_all act calls w)
        × (t'.timers ≡ map (advance current_time) t.timers)
        × (get_total_timer_count t' ≡ get_active_timer_count t')
  process_timers_fires t w v =
      let f = Fires-all t w v in ((omega (arith, f.total)), f.world, f.slots, f.valid.counted)
