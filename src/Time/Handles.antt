-- ===== src/Time/Handles.antt =====
-- `schedule_callback` and `cancel_callback`: when a timer is accepted, and how the identifier that it
-- gets cancels it.
use jenlib.Common.{
  ℕ, ◌+◌, ◌%◌, ◌^◌, ◌≤◌, ◌<◌, ◌≡◌, ◌≢◌, refl, ap, ◌∙◌, ◌⊎◌, inl, inr, Bool, true, false, ◌==◌, leb,
  get_or, set-set, set, All, some, arith, Bool-cases,
}
use native.Mathlib.Decide.{dec_lt}
use jenlib.Time.{
  TimerState, TimerEntry, default_entry, new_entry, Timers, with_state, initialize,
  get_next_timer_id, get_total_timer_count, find_available_slot, find_timer, cancel_callback, now,
  schedule_callback,
}
use jenlib.Time.Slots.{find_available_slot_cases, find_timer-set, find_timer-set_off}
use jenlib.Time.Scheduling.{issued, IsTimers, initialize-IsTimers, placed, IsFree, Entry}

get_next_timer_id_left :
    (t : Timers)
    → t.next_timer_id ≢ 0
    → get_next_timer_id t
      ≡ (t.next_timer_id, record t { next_timer_id = (t.next_timer_id + 1) % 2 ^ 32 })
unfolding get_next_timer_id
get_next_timer_id_left t left = let n : (t.next_timer_id == 0) ≡ false = ground arith in simp n refl

module _ {W : Type 0} (driver_now : ℕ → W → ℕ) (driver_delay : ℕ → ℕ → W → W) where
  abbrev pub entry_for : Timers → ℕ → ℕ → Bool → W → TimerEntry
  entry_for t interval callback repeat w =
      new_entry t.next_timer_id interval ((now driver_now driver_delay t w + interval) % 2 ^ 32)
        (some callback) repeat

  abbrev schedule : Timers → ℕ → ℕ → Bool → W → ℕ × Timers
  schedule t interval callback repeat w =
      schedule_callback driver_now driver_delay t interval (some callback) repeat w

  abbrev put_timer : ℕ → Timers → ℕ → ℕ → ℕ → Bool → W → Timers
  put_timer id t i interval callback repeat w =
      let fire_time = (now driver_now driver_delay t w + interval) % 2 ^ 32 in
      record t {
        timers = set t.timers i (new_entry id interval fire_time (some callback) repeat);
        timer_count = (t.timer_count + 1) % 2 ^ 32;
      }

  pub schedule_refused :
      (t : Timers) (interval callback : ℕ) (repeat : Bool) (w : W)
      → interval ≢ 0
      → (16 ≤ (initialize t).timer_count) ⊎ ((initialize t).next_timer_id ≡ 0)
      → schedule t interval callback repeat w ≡ (0, initialize t)
  unfolding schedule_callback get_next_timer_id
  schedule_refused t interval callback repeat w nonzero (inl full) =
      let i : (interval == 0) ≡ false = ground arith in
      let f : leb 16 (initialize t).timer_count ≡ true = ground arith in rw (i, f) refl
  schedule_refused t interval callback repeat w nonzero (inr out) =
      let i : (interval == 0) ≡ false = ground arith in
      let o : ((initialize t).next_timer_id == 0) ≡ true = ground arith in
      elim (Bool-cases (leb 16 (initialize t).timer_count)) [
        | inl full ↦ rw (i, full) refl
        | inr room ↦ rw (i, room, o) refl
      ]

  pub schedule_accepted :
      (t : Timers) (interval callback : ℕ) (repeat : Bool) (w : W)
      → IsTimers (initialize t)
      → interval ≢ 0
      → (initialize t).timer_count < 16
      → (initialize t).next_timer_id ≢ 0
      → (i : ℕ) × IsFree (initialize t) i
        × (schedule t interval callback repeat w ≡ (
          (initialize t).next_timer_id,
          placed (initialize t) i (entry_for (initialize t) interval callback repeat w),
        ))
  unfolding schedule_callback IsFree
  schedule_accepted t interval callback repeat w v nonzero room left =
      let t0 = initialize t in
      let next = get_next_timer_id_left t0 left in
      let i : (interval == 0) ≡ false = ground arith in
      let r : leb 16 t0.timer_count ≡ false = ground arith in
      let n0 : (t0.next_timer_id == 0) ≡ false = ground arith in
      let n : ((get_next_timer_id t0).0 == 0) ≡ false = ap (λ p. p.0 == 0) next ∙ n0 in
      let timers : (get_next_timer_id t0).1.timers ≡ t0.timers = ap (λ p. p.1.timers) next in
      elim (find_available_slot_cases t0.timers v.settled) [
        | inl (_, full) ↦ absurd (omega (arith, v.counted, v.slots, full, room))
        | inr (slot, e, inside, free) ↦
            let found = ap find_available_slot timers ∙ e in
            let result = ap (λ p. (p.0, put_timer p.0 p.1 slot interval callback repeat w)) next in
            (slot, (inside, free, room, left), rw (i, r, n, found) result)
      ]

-- The timer just placed is found by its identifier, and is not once it has been stopped.
cancel_placed :
    (t : Timers) (i : ℕ) (e : TimerEntry)
    → IsTimers t
    → IsFree t i
    → Entry t e
    → let id = t.next_timer_id in
      let (done, t') = cancel_callback (placed t i e) id in
      (done ≡ true) × (t'.timer_count ≡ t.timer_count) × ((cancel_callback t' id).0 ≡ false)
unfolding cancel_callback IsFree
cancel_placed t i e v (inside, free, room, left) (named, on) =
    let id = t.next_timer_id in
    let valid : (id == 0) ≡ false = ground arith in
    let bound : issued id ≡ id = rw valid refl in
    let older : All (λ e. e.id < id) t.timers = rw bound at v.known in
    let found = find_timer-set id t.timers i e older inside named on in
    let e' = with_state TimerState.inactive (get_or (set t.timers i e) i default_entry) in
    let gone = find_timer-set_off id t.timers i e' older refl in
    let twice = set-set t.timers i e e' in
    let gone' = ap (find_timer id) twice ∙ gone in
    rw (valid, found, gone') (refl, omega arith, refl)

module _ {W : Type 0} (driver_now : ℕ → W → ℕ) (driver_delay : ℕ → ℕ → W → W) where
  -- Given a callback and an interval other than 0, schedule_callback takes the timer unless sixteen
  -- are there or the identifiers are used up, and then changes nothing; a timer taken counts as one
  -- more, and its identifier cancels it once, which restores the count, and not a second time.
  pub schedule_callback-cancel_callback :
      (t : Timers) (interval callback : ℕ) (repeat : Bool) (w : W)
      → IsTimers t
      → interval ≢ 0
      → let t0 = initialize t in
        let (id, t1) =
          schedule_callback driver_now driver_delay t interval (some callback) repeat w in
        let (done, t2) = cancel_callback t1 id in
        (((16 ≤ get_total_timer_count t0) ⊎ (t0.next_timer_id ≡ 0)) × (id ≡ 0) × (t1 ≡ t0))
        ⊎ ((get_total_timer_count t0 < 16)
            × (id ≢ 0)
            × (id ≡ t0.next_timer_id)
            × (get_total_timer_count t1 ≡ get_total_timer_count t0 + 1)
            × (done ≡ true)
            × (get_total_timer_count t2 ≡ get_total_timer_count t0)
            × ((cancel_callback t2 id).0 ≡ false))
  schedule_callback-cancel_callback t interval callback repeat w v nonzero =
      let t0 = initialize t in
      let v0 = initialize-IsTimers t v in
      let refused = schedule_refused driver_now driver_delay t interval callback repeat w nonzero in
      elim (dec_lt t0.timer_count 16) [
        | no full ↦
            let why = inl (omega arith) in
            let e = refused why in inl (why, ap (λ p. p.0) e, ap (λ p. p.1) e)
        | yes room ↦ elim (Bool-cases (t0.next_timer_id == 0)) [
          | inl out ↦
              let why = inr (ground arith) in
              let e = refused why in inl (why, ap (λ p. p.0) e, ap (λ p. p.1) e)
          | inr left ↦
              let some_left : t0.next_timer_id ≢ 0 = ground arith in
              let entry = entry_for driver_now driver_delay t0 interval callback repeat w in
              let (i, free, e) =
                schedule_accepted driver_now driver_delay t interval callback repeat w v0 nonzero
                  room some_left in
              let (done, restored, gone) = cancel_placed t0 i entry v0 free (refl, refl) in
              rw e (inr (room, some_left, refl, omega arith, done, restored, gone))
        ]
      ]
