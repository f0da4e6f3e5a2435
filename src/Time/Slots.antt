-- ===== src/Time/Slots.antt =====
-- The sixteen slots of the time service: what the searches over them find, and what a write to a
-- slot does to the number of active timers.
use jenlib.Common.{
  ℕ, zero, suc, ◌+◌, ◌≤◌, ◌<◌, ◌≡◌, refl, ap, ◌⊎◌, inl, inr, true, false, List, [], ◌∷◌, ◌==◌, ◌&&◌,
  if◌then◌else◌, length, get_or, set, All, none, some, arith, Bool-cases,
}
use jenlib.Time.{
  TimerState, state_code, TimerEntry, default_entry, in_state, count_active, find_available_slot,
  find_timer, deactivate_all,
}

-- A timer between two calls of the service: expired timers are found only inside `process_timers`.
abbrev pub IsSettled : TimerEntry → Type 0
IsSettled e = state_code e.state < 2

abbrev pub active_weight : TimerEntry → ℕ
active_weight e = if in_state TimerState.active e then 1 else 0

pub count_active-set :
    (l : List TimerEntry) (i : ℕ) (e : TimerEntry)
    → i < length l
    → count_active (set l i e) + active_weight (get_or l i default_entry)
      ≡ count_active l + active_weight e
count_active-set [] i e h = elim h [ ]
count_active-set (x ∷ l) zero e h = omega arith
count_active-set (x ∷ l) (suc i) e h = omega (arith, count_active-set l i e (omega arith))

pub count_active-bound : (l : List TimerEntry) → count_active l ≤ length l
count_active-bound [] = omega arith
count_active-bound (x ∷ l) =
    let rest = count_active-bound l in
    elim (Bool-cases (in_state TimerState.active x)) [
      | inl on ↦ rw on (omega arith)
      | inr off ↦ rw off (omega arith)
    ]

pub count_active-deactivate_all : (l : List TimerEntry) → count_active (deactivate_all l) ≡ 0
count_active-deactivate_all [] = refl
count_active-deactivate_all (x ∷ l) = omega (arith, count_active-deactivate_all l)

pub length-deactivate_all : (l : List TimerEntry) → length (deactivate_all l) ≡ length l
length-deactivate_all [] = refl
length-deactivate_all (x ∷ l) = ap suc (length-deactivate_all l)

pub deactivate_all-IsSettled : (l : List TimerEntry) → All IsSettled (deactivate_all l)
deactivate_all-IsSettled [] = tt
deactivate_all-IsSettled (x ∷ l) = (omega arith, deactivate_all-IsSettled l)

-- Either every slot is in use, or the slot found is free.
pub find_available_slot_cases :
    (l : List TimerEntry)
    → All IsSettled l
    → ((find_available_slot l ≡ none) × (count_active l ≡ length l))
      ⊎ ((i : ℕ) × (find_available_slot l ≡ some i)
          × (i < length l)
          × (in_state TimerState.inactive (get_or l i default_entry) ≡ true))
unfolding find_available_slot
find_available_slot_cases [] h = inl (refl, refl)
find_available_slot_cases (x ∷ l) h = elim (Bool-cases (in_state TimerState.inactive x)) [
  | inl free ↦ rw free (inr (0, refl, omega arith, free))
  | inr used ↦ elim (find_available_slot_cases l h.1) [
    | inl (e, c) ↦
        let on : in_state TimerState.active x ≡ true = ground (arith, h.0) in
        rw (used, e, on) (inl (refl, omega arith))
    | inr (i, e, inside, free) ↦ rw (used, e) (inr (suc i, refl, omega arith, free))
  ]
]

-- Either no active timer has the identifier, or the slot found holds one that has.
pub find_timer_cases :
    (timer_id : ℕ) (l : List TimerEntry)
    → ((find_timer timer_id l ≡ none))
      ⊎ ((i : ℕ) × (find_timer timer_id l ≡ some i)
          × (i < length l)
          × (in_state TimerState.active (get_or l i default_entry) ≡ true)
          × ((get_or l i default_entry).id ≡ timer_id))
unfolding find_timer
find_timer_cases timer_id [] = inl refl
find_timer_cases timer_id (x ∷ l) =
    elim (Bool-cases (x.id == timer_id && in_state TimerState.active x)) [
      | inl found ↦
          let on : in_state TimerState.active x ≡ true = ground arith in
          let named : x.id ≡ timer_id = ground arith in
          rw found (inr (0, refl, omega arith, on, named))
      | inr other ↦ elim (find_timer_cases timer_id l) [
        | inl e ↦ rw (other, e) (inl refl)
        | inr (i, e, inside, on, named) ↦ rw (other, e) (inr (suc i, refl, omega arith, on, named))
      ]
    ]

-- An identifier above all that are in use is not found.
find_timer-unused :
    (timer_id : ℕ) (l : List TimerEntry)
    → All (λ e. e.id < timer_id) l
    → find_timer timer_id l ≡ none
unfolding find_timer
find_timer-unused timer_id [] h = refl
find_timer-unused timer_id (x ∷ l) h =
    let other : (x.id == timer_id) ≡ false = ground (arith, h.0) in
    rw (other, find_timer-unused timer_id l h.1) refl

-- Behind a write of an active timer with such an identifier, it is found in the slot written.
pub find_timer-set :
    (timer_id : ℕ) (l : List TimerEntry) (i : ℕ) (e : TimerEntry)
    → All (λ e. e.id < timer_id) l
    → i < length l
    → e.id ≡ timer_id
    → in_state TimerState.active e ≡ true
    → find_timer timer_id (set l i e) ≡ some i
unfolding find_timer
find_timer-set timer_id [] i e h inside named on = elim inside [ ]
find_timer-set timer_id (x ∷ l) zero e h inside named on =
    let same : (e.id == timer_id) ≡ true = ground arith in rw (same, on) refl
find_timer-set timer_id (x ∷ l) (suc i) e h inside named on =
    let other : (x.id == timer_id) ≡ false = ground (arith, h.0) in
    rw (other, find_timer-set timer_id l i e h.1 (omega arith) named on) refl

-- Behind a write of a timer that is not active, it is not.
pub find_timer-set_off :
    (timer_id : ℕ) (l : List TimerEntry) (i : ℕ) (e : TimerEntry)
    → All (λ e. e.id < timer_id) l
    → in_state TimerState.active e ≡ false
    → find_timer timer_id (set l i e) ≡ none
unfolding find_timer
find_timer-set_off timer_id [] i e h off = refl
find_timer-set_off timer_id (x ∷ l) zero e h off =
    rw (off, find_timer-unused timer_id l h.1) (ground arith)
find_timer-set_off timer_id (x ∷ l) (suc i) e h off =
    let other : (x.id == timer_id) ≡ false = ground (arith, h.0) in
    rw (other, find_timer-set_off timer_id l i e h.1 off) refl
