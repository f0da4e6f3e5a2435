-- ===== src/Time/Processing.antt =====
-- One round of `process_timers` with a callback that leaves the time service alone.
use jenlib.Common.{
  ℕ, zero, suc, ◌+◌, ◌%◌, ◌^◌, ◌<◌, ◌≡◌, refl, sym, ap, ◌∙◌, inl, inr, Bool, true, List, [], ◌∷◌,
  ◌++◌, ◌&&◌, leb, if◌then◌else◌, length, length-set, get_or, get_or-set_self, set, set-set,
  set-get_or, drop, All-set, All-get_or, Option, none, some, map, arith, Bool-cases, if_elim,
}
use jenlib.Time.{
  TimerState, TimerEntry, default_entry, Timers, in_state, with_state, count_active, decrement,
  fire, settle, visit_timer,
}
use jenlib.Time.Slots.{IsSettled, count_active-set}
use jenlib.Time.Scheduling.{issued, IsTimers, stopped, stopped-IsTimers}

-- What happens to a due timer that repeats.
abbrev pub again : ℕ → TimerEntry → TimerEntry
again current_time e = record e {
  next_fire_time = (current_time + e.interval_ms) % 2 ^ 32;
  state = TimerState.active;
}

abbrev pub due : ℕ → TimerEntry → Bool
due current_time e = in_state TimerState.active e && leb e.next_fire_time current_time

-- What one run makes of a timer.
abbrev pub advance : ℕ → TimerEntry → TimerEntry
advance current_time e =
    if due current_time e
    then (if e.repeat then again current_time e else with_state TimerState.inactive e)
    else e

abbrev handle : Option ℕ → List ℕ
handle none = []
handle (some callback) = callback ∷ []

abbrev pub call_of : ℕ → TimerEntry → List ℕ
call_of current_time e = if due current_time e then handle e.callback else []

-- The callbacks of the timers that are due, in the order of the slots.
abbrev pub calls_due : ℕ → List TimerEntry → List ℕ
calls_due current_time [] = []
calls_due current_time (e ∷ l) = call_of current_time e ++ calls_due current_time l

abbrev pub advance_from : ℕ → ℕ → List TimerEntry → List TimerEntry
advance_from current_time zero l = map (advance current_time) l
advance_from current_time (suc i) [] = []
advance_from current_time (suc i) (e ∷ l) = e ∷ advance_from current_time i l

pub advance_from_end :
    (current_time i : ℕ) (l : List TimerEntry) → i ≡ length l → advance_from current_time i l ≡ l
advance_from_end current_time zero [] e = refl
advance_from_end current_time zero (x ∷ l) e = absurd (omega arith)
advance_from_end current_time (suc i) [] e = refl
advance_from_end current_time (suc i) (x ∷ l) e =
    ap (λ m. x ∷ m) (advance_from_end current_time i l (omega arith))

pub advance_from_next :
    (current_time i : ℕ) (l : List TimerEntry)
    → i < length l
    → advance_from current_time (suc i) (set l i (advance current_time (get_or l i default_entry)))
      ≡ advance_from current_time i l
advance_from_next current_time i [] h = elim h [ ]
advance_from_next current_time zero (x ∷ l) h = refl
advance_from_next current_time (suc i) (x ∷ l) h =
    ap (λ m. x ∷ m) (advance_from_next current_time i l (omega arith))

pub drop-set :
    (l : List TimerEntry) (i : ℕ) (e : TimerEntry) → drop (suc i) (set l i e) ≡ drop (suc i) l
drop-set [] i e = refl
drop-set (x ∷ l) zero e = refl
drop-set (x ∷ l) (suc i) e = drop-set l i e

-- Without an active timer nothing is due and nothing changes.
pub idle :
    (current_time : ℕ) (l : List TimerEntry)
    → count_active l ≡ 0
    → (calls_due current_time l ≡ []) × (map (advance current_time) l ≡ l)
idle current_time [] none_active = (refl, refl)
idle current_time (x ∷ l) none_active = elim (Bool-cases (in_state TimerState.active x)) [
  | inl on ↦ let e : 1 + count_active l ≡ 0 = rw on at none_active in absurd (omega (arith, e))
  | inr off ↦
      let e : 0 + count_active l ≡ 0 = rw off at none_active in
      let (a, b) = idle current_time l (omega (arith, e)) in rw (off, a, b) (refl, refl)
]

-- The state behind the visit of one slot.
abbrev pub fired : ℕ → Timers → ℕ → Timers
fired current_time t i =
    let e = get_or t.timers i default_entry in
    if due current_time e
    then (if e.repeat
        then record t { timers = set t.timers i (again current_time e) }
        else stopped t i)
    else t

pub fired-timers :
    (current_time : ℕ) (t : Timers) (i : ℕ)
    → i < length t.timers
    → (fired current_time t i).timers
      ≡ set t.timers i (advance current_time (get_or t.timers i default_entry))
fired-timers current_time t i inside =
    let e = get_or t.timers i default_entry in
    elim (Bool-cases (due current_time e)) [
      | inl now_due ↦ elim (Bool-cases e.repeat) [
        | inl repeats ↦ rw (now_due, repeats) refl
        | inr once ↦ rw (now_due, once) refl
      ]
      | inr later ↦ rw later (sym (set-get_or t.timers i default_entry inside))
    ]

again-IsTimers :
    (current_time : ℕ) (t : Timers) (i : ℕ)
    → IsTimers t
    → i < length t.timers
    → in_state TimerState.active (get_or t.timers i default_entry) ≡ true
    → IsTimers (record t {
      timers = set t.timers i (again current_time (get_or t.timers i default_entry));
    })
again-IsTimers current_time t i v inside on =
    let e = get_or t.timers i default_entry in
    let e' = again current_time e in
    let change = count_active-set t.timers i e' inside in
    let change' : count_active (set t.timers i e') + 1 ≡ count_active t.timers + 1 =
      rw on at change in
    let positive : 0 < issued t.next_timer_id = ground arith in
    let below =
      All-get_or (λ e. e.id < issued t.next_timer_id) t.timers i default_entry positive v.known in
    record {
      slots = length-set t.timers i e' ∙ v.slots;
      settled = All-set IsSettled t.timers i e' (omega arith) v.settled;
      counted = omega (arith, v.counted, change');
      known = All-set (λ e. e.id < issued t.next_timer_id) t.timers i e' below v.known;
      within = v.within;
      unused = v.unused;
    }

pub fired-IsTimers :
    (current_time : ℕ) (t : Timers) (i : ℕ)
    → IsTimers t
    → i < length t.timers
    → IsTimers (fired current_time t i)
fired-IsTimers current_time t i v inside =
    let e = get_or t.timers i default_entry in
    let repeated = record t { timers = set t.timers i (again current_time e) } in
    if_elim IsTimers (due current_time e) (if e.repeat then repeated else stopped t i) t
      (λ now_due.
        let on : in_state TimerState.active e ≡ true = ground arith in
        if_elim IsTimers e.repeat repeated (stopped t i)
          (λ _. again-IsTimers current_time t i v inside on)
          (λ _. stopped-IsTimers t i v inside on))
      (λ _. v)

abbrev pub act_all : {W : Type 0} → (ℕ → W → W) → List ℕ → W → W
act_all act [] w = w
act_all act (callback ∷ calls) w = act_all act calls (act callback w)

pub act_all-append :
    {W : Type 0} (act : ℕ → W → W) (l m : List ℕ) (w : W)
    → act_all act (l ++ m) w ≡ act_all act m (act_all act l w)
act_all-append act [] m w = refl
act_all-append act (c ∷ l) m w = act_all-append act l m (act c w)

plus_zero : (n : ℕ) → n + 0 ≡ n
plus_zero n = omega arith

module _ {W : Type 0} (driver_now : ℕ → W → ℕ) (driver_delay : ℕ → ℕ → W → W)
    (act : ℕ → W → W) where
  -- A callback that acts on the outside world only.
  abbrev pub passive : ℕ → Timers × W → Timers × W
  passive callback (t, w) = (t, act callback w)

  fire-passive :
      (callback : Option ℕ) (count : ℕ) (t : Timers) (w : W)
      → fire driver_now driver_delay passive callback (count, t, w)
        ≡ (count + length (handle callback), t, act_all act (handle callback) w)
  fire-passive none count t w = ap (λ n. (n, t, w)) (omega arith)
  fire-passive (some callback) count t w = refl

  settle_marked :
      (current_time : ℕ) (t : Timers) (i : ℕ)
      → i < length t.timers
      → let e = get_or t.timers i default_entry in
        settle driver_now driver_delay passive current_time i
          (record t { timers = set t.timers i (with_state TimerState.expired e) })
        ≡ (if e.repeat
            then record t { timers = set t.timers i (again current_time e) }
            else stopped t i)
  settle_marked current_time t i inside =
      let e = get_or t.timers i default_entry in
      let e' = with_state TimerState.expired e in
      let l = set t.timers i e' in
      let settled : TimerEntry → Timers = λ x.
        if x.repeat then record t { timers = set l i (again current_time x) } else record t {
          timers = set l i (with_state TimerState.inactive x);
          timer_count = decrement t.timer_count;
        } in
      ap settled (get_or-set_self t.timers i e' default_entry inside) ∙ (λ k.
        if e.repeat
        then record t { timers = set-set t.timers i e' (again current_time e) k }
        else record t {
          timers = set-set t.timers i e' (with_state TimerState.inactive e) k;
          timer_count = decrement t.timer_count;
        })

  pub visit_timer-passive :
      (current_time i count : ℕ) (t : Timers) (w : W)
      → i < length t.timers
      → let calls = call_of current_time (get_or t.timers i default_entry) in
        visit_timer driver_now driver_delay passive current_time i (count, t, w)
        ≡ (count + length calls, fired current_time t i, act_all act calls w)
  unfolding visit_timer
  visit_timer-passive current_time i count t w inside =
      let e = get_or t.timers i default_entry in
      let marked = record t { timers = set t.timers i (with_state TimerState.expired e) } in
      let finish : ℕ × Timers × W → ℕ × Timers × W =
        λ s. (s.0, settle driver_now driver_delay passive current_time i s.1, s.2) in
      elim (Bool-cases (due current_time e)) [
        | inl now_due ↦
            let e1 = ap finish (fire-passive e.callback count marked w) in
            let e2 = settle_marked current_time t i inside in
            simp now_due (
              e1
              ∙ ap (λ u. (count + length (handle e.callback), u, act_all act (handle e.callback) w))
                  e2)
        | inr later ↦ simp later (sym (ap (λ n. (n, t, w)) (plus_zero count)))
      ]
