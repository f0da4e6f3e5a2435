-- ===== src/Time/Reentry.antt =====
-- Callbacks that call the time service while `process_timers` runs them.
use jenlib.Common.{
  ℕ, zero, suc, ◌+◌, ◌-◌, ◌^◌, ◌<◌, ◌≡◌, ◌≢◌, refl, ap, ◌∙◌, inl, inr, Bool, true, false, List, [],
  ◌∷◌, ◌==◌, leb, if◌then◌else◌, length, length-set, get_or, get_or-set_self, get_or-set_ne, set,
  Option, none, some, arith, Bool-cases,
}
use jenlib.Time.{
  TimerState, TimerEntry, default_entry, Timers, in_state, with_state, initialize, is_due, fire,
  settle, visit_timer, schedule_callback, cancel_callback, clear_all_timers, decrement,
  deactivate_all, get_total_timer_count,
}
use jenlib.Time.Slots.{find_timer_cases}
use jenlib.Time.Scheduling.{initialize_used}
use jenlib.Time.Processing.{again}

-- A timer marked as expired, while its callback runs.
abbrev marked : Timers → ℕ → Timers
marked t i = record t {
  timers = set t.timers i (with_state TimerState.expired (get_or t.timers i default_entry));
}

-- `cancel_callback` leaves the expired timer alone.
cancel_keeps_expired :
    (t : Timers) (i timer_id : ℕ)
    → i < length t.timers
    → get_or (cancel_callback (marked t i) timer_id).1.timers i default_entry
      ≡ with_state TimerState.expired (get_or t.timers i default_entry)
unfolding cancel_callback
cancel_keeps_expired t i timer_id inside =
    let e = with_state TimerState.expired (get_or t.timers i default_entry) in
    let l = set t.timers i e in
    let here = get_or-set_self t.timers i e default_entry inside in
    elim (Bool-cases (timer_id == 0)) [
      | inl invalid ↦ rw invalid here
      | inr valid ↦ elim (find_timer_cases timer_id l) [
        | inl missing ↦ rw (valid, missing) here
        | inr (j, found, within, on, _) ↦ elim (Bool-cases (j == i)) [
          | inl same ↦
              let at : j ≡ i = ground arith in
              let expired_on = ap (λ n. in_state TimerState.active (get_or l n default_entry)) at in
              let none_on = ap (in_state TimerState.active) here in absurd (ground arith)
          | inr other ↦
              let apart : j ≢ i = ground arith in
              let stop = with_state TimerState.inactive (get_or l j default_entry) in
              rw (valid, found) (get_or-set_ne l j i stop default_entry apart ∙ here)
        ]
      ]
    ]

length-cancel_callback :
    (t : Timers) (timer_id : ℕ) → length (cancel_callback t timer_id).1.timers ≡ length t.timers
unfolding cancel_callback
length-cancel_callback t timer_id = elim (Bool-cases (timer_id == 0)) [
  | inl invalid ↦ rw invalid refl
  | inr valid ↦ elim (find_timer_cases timer_id t.timers) [
    | inl missing ↦ rw (valid, missing) refl
    | inr (j, found, _, _, _) ↦
        rw (valid, found)
          (length-set t.timers j (with_state TimerState.inactive (get_or t.timers j default_entry)))
  ]
]

get_or-deactivate_all :
    (l : List TimerEntry) (i : ℕ)
    → get_or (deactivate_all l) i default_entry
      ≡ with_state TimerState.inactive (get_or l i default_entry)
get_or-deactivate_all [] i = refl
get_or-deactivate_all (x ∷ l) zero = refl
get_or-deactivate_all (x ∷ l) (suc i) = get_or-deactivate_all l i

-- With a count that `--timer_count_` has taken below 0, no timer is taken.
schedule_stuck :
    {W : Type 0} (driver_now : ℕ → W → ℕ) (driver_delay : ℕ → ℕ → W → W) (t : Timers) (interval : ℕ)
    (callback : Option ℕ) (repeat : Bool) (w : W)
    → t.initialized ≡ true
    → t.timer_count ≡ 2 ^ 32 - 1
    → (schedule_callback driver_now driver_delay t interval callback repeat w).0 ≡ 0
unfolding schedule_callback initialize
schedule_stuck driver_now driver_delay t interval none repeat w used stuck = refl
schedule_stuck driver_now driver_delay t interval (some callback) repeat w used stuck =
    let full : leb 16 t.timer_count ≡ true = ground arith in
    elim (Bool-cases (interval == 0)) [
      | inl none_set ↦ rw none_set refl
      | inr is_set ↦ rw (is_set, initialize_used t used, full) refl
    ]

module _ {W : Type 0} (driver_now : ℕ → W → ℕ) (driver_delay : ℕ → ℕ → W → W)
    (invoke : ℕ → Timers × W → Timers × W) where
  visit_due :
      (current_time i fired_count callback : ℕ) (t : Timers) (w : W)
      → let e = get_or t.timers i default_entry in
        is_due driver_now driver_delay invoke current_time e ≡ true
        → e.callback ≡ some callback
        → let (t', w') = invoke callback (marked t i, w) in
          visit_timer driver_now driver_delay invoke current_time i (fired_count, t, w)
          ≡ (fired_count + 1, settle driver_now driver_delay invoke current_time i t', w')
  unfolding visit_timer
  visit_due current_time i fired_count callback t w now_due handler =
      let e = get_or t.timers i default_entry in
      let finish : ℕ × Timers × W → ℕ × Timers × W =
        λ s. (s.0, settle driver_now driver_delay invoke current_time i s.1, s.2) in
      simp now_due (
        ap (λ c. finish (fire driver_now driver_delay invoke c (fired_count, marked t i, w)))
          handler)

  settle_repeats :
      (current_time i : ℕ) (u : Timers)
      → i < length u.timers
      → (get_or u.timers i default_entry).repeat ≡ true
      → get_or (settle driver_now driver_delay invoke current_time i u).timers i default_entry
        ≡ again current_time (get_or u.timers i default_entry)
  settle_repeats current_time i u inside repeats =
      let e = get_or u.timers i default_entry in
      let repeated = record u { timers = set u.timers i (again current_time e) } in
      let ended = record u {
        timers = set u.timers i (with_state TimerState.inactive e);
        timer_count = decrement u.timer_count;
      } in
      ap (λ b. get_or (if b then repeated else ended).timers i default_entry) repeats
      ∙ get_or-set_self u.timers i (again current_time e) default_entry inside

  settle_ends :
      (current_time i : ℕ) (u : Timers)
      → (get_or u.timers i default_entry).repeat ≡ false
      → let u' = settle driver_now driver_delay invoke current_time i u in
        (u'.timer_count ≡ decrement u.timer_count) × (u'.initialized ≡ u.initialized)
  settle_ends current_time i u once =
      let e = get_or u.timers i default_entry in
      let repeated = record u { timers = set u.timers i (again current_time e) } in
      let ended = record u {
        timers = set u.timers i (with_state TimerState.inactive e);
        timer_count = decrement u.timer_count;
      } in
      (
        ap (λ b. (if b then repeated else ended).timer_count) once,
        ap (λ b. (if b then repeated else ended).initialized) once,
      )

  -- A due repeating timer whose callback calls cancel_callback, with any identifier, is active
  -- afterwards and due again one interval later.
  pub repeating_timer_survives :
      (current_time i fired_count callback timer_id : ℕ) (t : Timers) (w : W)
      → i < length t.timers
      → let e = get_or t.timers i default_entry in
        is_due driver_now driver_delay invoke current_time e ≡ true
        → e.repeat ≡ true
        → e.callback ≡ some callback
        → ((u : Timers) (v : W) → invoke callback (u, v) ≡ ((cancel_callback u timer_id).1, v))
        → let (_, t', _) =
            visit_timer driver_now driver_delay invoke current_time i (fired_count, t, w) in
          get_or t'.timers i default_entry ≡ again current_time e
  repeating_timer_survives current_time i fired_count callback timer_id t w inside now_due repeats
        handler cancels =
      let e = get_or t.timers i default_entry in
      let u = (cancel_callback (marked t i) timer_id).1 in
      let visited = visit_due current_time i fired_count callback t w now_due handler in
      let called = cancels (marked t i) w in
      let kept = cancel_keeps_expired t i timer_id inside in
      let long =
        length-cancel_callback (marked t i) timer_id
        ∙ length-set t.timers i (with_state TimerState.expired e) in
      let slot : ℕ × Timers × W → TimerEntry = λ s. get_or s.1.timers i default_entry in
      ap slot visited
      ∙ ap (λ s. slot (0, settle driver_now driver_delay invoke current_time i s.0, s.1)) called
      ∙ settle_repeats current_time i u (omega (arith, long, inside))
          (ap (λ x. x.repeat) kept ∙ repeats)
      ∙ ap (again current_time) kept

  -- In an initialized time service, a due one-shot timer whose callback calls clear_all_timers
  -- takes the count of timers to 2 ^ 32 - 1, and in the state that this leaves schedule_callback
  -- refuses every timer.
  pub clear_in_callback :
      (current_time i fired_count callback : ℕ) (t : Timers) (w : W)
      → t.initialized ≡ true
      → i < length t.timers
      → let e = get_or t.timers i default_entry in
        is_due driver_now driver_delay invoke current_time e ≡ true
        → e.repeat ≡ false
        → e.callback ≡ some callback
        → ((u : Timers) (v : W) → invoke callback (u, v) ≡ (clear_all_timers u, v))
        → let (_, t', w') =
            visit_timer driver_now driver_delay invoke current_time i (fired_count, t, w) in
          (get_total_timer_count t' ≡ 2 ^ 32 - 1)
          × ((interval : ℕ) (cb : Option ℕ) (repeat : Bool)
              → (schedule_callback driver_now driver_delay t' interval cb repeat w').0 ≡ 0)
  unfolding clear_all_timers
  clear_in_callback current_time i fired_count callback t w used inside now_due once handler
        clears =
      let e = get_or t.timers i default_entry in
      let u = clear_all_timers (marked t i) in
      let visited = visit_due current_time i fired_count callback t w now_due handler in
      let called = clears (marked t i) w in
      let after =
        visited
        ∙ ap (λ s. (fired_count + 1, settle driver_now driver_delay invoke current_time i s.0, s.1))
            called in
      let once' : (get_or u.timers i default_entry).repeat ≡ false =
        ap (λ x. x.repeat) (get_or-deactivate_all (marked t i).timers i)
        ∙ ap (λ x. x.repeat)
            (get_or-set_self t.timers i (with_state TimerState.expired e) default_entry inside)
        ∙ once in
      let (count, same) = settle_ends current_time i u once' in
      let count' = ap (λ s. s.1.timer_count) after ∙ count in
      let same' = ap (λ s. s.1.initialized) after ∙ same ∙ used in
      let s = visit_timer driver_now driver_delay invoke current_time i (fired_count, t, w) in
      (
        count',
        λ interval cb repeat.
            schedule_stuck driver_now driver_delay s.1 interval cb repeat s.2 same' count',
      )
