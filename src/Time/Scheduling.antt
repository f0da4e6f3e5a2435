-- ===== src/Time/Scheduling.antt =====
-- The invariant of the time service between two calls, for every operation but `process_timers`.
use jenlib.Common.{
  ℕ, ◌+◌, ◌%◌, ◌^◌, ◌≤◌, ◌<◌, ◌≡◌, ◌≢◌, refl, sym, ◌∙◌, inl, inr, Bool, true, false, List, [], ◌∷◌,
  ◌==◌, if◌then◌else◌, length, length-set, get_or, set, All, All-set, All-get_or, arith, Bool-cases,
}
use jenlib.Time.{
  TimerState, TimerEntry, default_entry, Timers, in_state, with_state, deactivate_all, decrement,
  initialize, count_active, clear_all_timers, cancel_callback,
}
use jenlib.Time.Slots.{
  IsSettled, count_active-set, count_active-bound, count_active-deactivate_all,
  length-deactivate_all, deactivate_all-IsSettled, find_timer_cases,
}

-- The bound that all identifiers given out are below; behind the last one the counter is 0.
abbrev pub issued : ℕ → ℕ
issued next = if next == 0 then 2 ^ 32 else next

pub record IsTimers (t : Timers) : Type 0 where
  pub slots : length t.timers ≡ 16
  pub settled : All IsSettled t.timers
  pub counted : t.timer_count ≡ count_active t.timers
  pub known : All (λ e. e.id < issued t.next_timer_id) t.timers
  pub within : t.next_timer_id < 2 ^ 32
  pub unused : t.initialized ≡ false → t.next_timer_id ≡ 1

All-map_deactivate :
    (n : ℕ) (l : List TimerEntry) → All (λ e. e.id < n) l → All (λ e. e.id < n) (deactivate_all l)
All-map_deactivate n [] h = tt
All-map_deactivate n (x ∷ l) h = (h.0, All-map_deactivate n l h.1)

All-weaken : (n m : ℕ) (l : List TimerEntry) → n ≤ m → All (λ e. e.id < n) l → All (λ e. e.id < m) l
All-weaken n m [] le h = tt
All-weaken n m (x ∷ l) le h = (omega (arith, h.0), All-weaken n m l le h.1)

pub few : (t : Timers) → IsTimers t → t.timer_count ≤ 16
few t v = omega (arith, v.counted, v.slots, count_active-bound t.timers)

cleared-IsTimers :
    (t : Timers) (b : Bool)
    → IsTimers t
    → (b ≡ false → t.next_timer_id ≡ 1)
    → IsTimers (record t { initialized = b; timers = deactivate_all t.timers; timer_count = 0 })
cleared-IsTimers t b v unused = record {
  slots = length-deactivate_all t.timers ∙ v.slots;
  settled = deactivate_all-IsSettled t.timers;
  counted = sym (count_active-deactivate_all t.timers);
  known = All-map_deactivate (issued t.next_timer_id) t.timers v.known;
  within = v.within;
  unused = unused;
}

pub clear_all_timers-IsTimers : (t : Timers) → IsTimers t → IsTimers (clear_all_timers t)
unfolding clear_all_timers
clear_all_timers-IsTimers t v = cleared-IsTimers t t.initialized v v.unused

pub initialize_used : (t : Timers) → t.initialized ≡ true → initialize t ≡ t
unfolding initialize
initialize_used t used = simp used refl

initialize_unused :
    (t : Timers)
    → t.initialized ≡ false
    → initialize t ≡ record t {
      initialized = true;
      next_timer_id = 1;
      timers = deactivate_all t.timers;
      timer_count = 0;
    }
unfolding initialize
initialize_unused t unused = simp unused refl

pub initialize-IsTimers : (t : Timers) → IsTimers t → IsTimers (initialize t)
initialize-IsTimers t v = elim (Bool-cases t.initialized) [
  | inl used ↦ rw (initialize_used t used) v
  | inr unused ↦
      rw (initialize_unused t unused, sym (v.unused unused))
        (cleared-IsTimers t true v (λ h. v.unused unused))
]

pub initialize-initialized : (t : Timers) → (initialize t).initialized ≡ true
initialize-initialized t = elim (Bool-cases t.initialized) [
  | inl used ↦ rw (initialize_used t used) used
  | inr unused ↦ rw (initialize_unused t unused) refl
]

-- A timer stopped in its slot, with the count of one timer less.
abbrev pub stopped : Timers → ℕ → Timers
stopped t i = record t {
  timers = set t.timers i (with_state TimerState.inactive (get_or t.timers i default_entry));
  timer_count = decrement t.timer_count;
}

stopped-count :
    (t : Timers) (i : ℕ)
    → IsTimers t
    → i < length t.timers
    → in_state TimerState.active (get_or t.timers i default_entry) ≡ true
    → t.timer_count ≡ count_active (stopped t i).timers + 1
stopped-count t i v inside on =
    let e = get_or t.timers i default_entry in
    let change = count_active-set t.timers i (with_state TimerState.inactive e) inside in
    let change' : count_active (stopped t i).timers + 1 ≡ count_active t.timers + 0 =
      rw on at change in
    omega (arith, v.counted, change')

pub stopped-IsTimers :
    (t : Timers) (i : ℕ)
    → IsTimers t
    → i < length t.timers
    → in_state TimerState.active (get_or t.timers i default_entry) ≡ true
    → IsTimers (stopped t i)
stopped-IsTimers t i v inside on =
    let e = get_or t.timers i default_entry in
    let less = stopped-count t i v inside on in
    let bound = few t v in
    let positive : 0 < issued t.next_timer_id = ground arith in
    let below =
      All-get_or (λ e. e.id < issued t.next_timer_id) t.timers i default_entry positive v.known in
    record {
      slots = length-set t.timers i (with_state TimerState.inactive e) ∙ v.slots;
      settled =
          All-set IsSettled t.timers i (with_state TimerState.inactive e) (omega arith) v.settled;
      counted = omega arith;
      known =
          All-set (λ e. e.id < issued t.next_timer_id) t.timers i (with_state TimerState.inactive e)
            below v.known;
      within = v.within;
      unused = v.unused;
    }

pub cancel_callback-IsTimers :
    (t : Timers) (timer_id : ℕ) → IsTimers t → IsTimers (cancel_callback t timer_id).1
unfolding cancel_callback
cancel_callback-IsTimers t timer_id v = elim (Bool-cases (timer_id == 0)) [
  | inl invalid ↦ rw invalid v
  | inr valid ↦ elim (find_timer_cases timer_id t.timers) [
    | inl e ↦ rw (valid, e) v
    | inr (i, e, inside, on, _) ↦ rw (valid, e) (stopped-IsTimers t i v inside on)
  ]
]

-- A timer put in a free slot, with the next identifier.
abbrev pub placed : Timers → ℕ → TimerEntry → Timers
placed t i entry = record t {
  next_timer_id = (t.next_timer_id + 1) % 2 ^ 32;
  timers = set t.timers i entry;
  timer_count = (t.timer_count + 1) % 2 ^ 32;
}

unfoldable pub IsFree : Timers → ℕ → Type 0
IsFree t i =
    (i < length t.timers)
    × (in_state TimerState.inactive (get_or t.timers i default_entry) ≡ true)
    × (t.timer_count < 16)
    × (t.next_timer_id ≢ 0)

abbrev pub Entry : Timers → TimerEntry → Type 0
Entry t e = (e.id ≡ t.next_timer_id) × (in_state TimerState.active e ≡ true)

placed-count :
    (t : Timers) (i : ℕ) (e : TimerEntry)
    → IsTimers t
    → IsFree t i
    → Entry t e
    → count_active (placed t i e).timers ≡ t.timer_count + 1
unfolding IsFree
placed-count t i e v (inside, free, room, left) (named, on) =
    let off : in_state TimerState.active (get_or t.timers i default_entry) ≡ false = ground arith in
    let change = count_active-set t.timers i e inside in
    let change' : count_active (placed t i e).timers + 0 ≡ count_active t.timers + 1 =
      rw (on, off) at change in
    omega (arith, v.counted, change')

pub placed-IsTimers :
    (t : Timers) (i : ℕ) (e : TimerEntry)
    → IsTimers t
    → IsFree t i
    → Entry t e
    → t.initialized ≡ true
    → IsTimers (placed t i e)
unfolding IsFree
placed-IsTimers t i e v (inside, free, room, left) (named, on) used =
    let next = t.next_timer_id in
    let next' = (next + 1) % 2 ^ 32 in
    let grows : issued next ≤ issued next' = ground (arith, v.within) in
    let own : e.id < issued next' = ground (arith, v.within) in
    let more = placed-count t i e v (inside, free, room, left) (named, on) in
    record {
      slots = length-set t.timers i e ∙ v.slots;
      settled = All-set IsSettled t.timers i e (ground arith) v.settled;
      counted = omega arith;
      known =
          All-set (λ e. e.id < issued next') t.timers i e own
            (All-weaken (issued next) (issued next') t.timers grows v.known);
      within = ground arith;
      unused = λ h. absurd (ground arith);
    }
