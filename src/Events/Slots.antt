-- ===== src/Events/Slots.antt =====
-- The sixteen slots of the event dispatcher: what the searches over them find, and how a callback is
-- put into one.
use jenlib.Common.{
  ℕ, zero, suc, ◌+◌, ◌%◌, ◌^◌, ◌<◌, ◌≡◌, ◌≢◌, refl, sym, ap, subst, ◌∙◌, ◌⊎◌, inl, inr, true, false,
  List, [], ◌∷◌, ◌==◌, ◌&&◌, if◌then◌else◌, length, get_or, set, All, none, some, arith, Bool-cases,
}
use jenlib.Events.{
  CallbackEntry, cleared, matching, Dispatcher, initialize, get_next_event_id, find_available_slot,
  find_callback_entry, register_callback, count_matching, count_active,
}

abbrev pub issued : ℕ → ℕ
issued next = if next == 0 then 2 ^ 32 else next

-- The callbacks are in sixteen slots, under identifiers that have been given out.
pub record IsRegistry (d : Dispatcher) : Type 0 where
  pub slots : length d.callbacks ≡ 16
  pub known : All (λ e. e.id < issued d.next_event_id) d.callbacks
  pub within : d.next_event_id < 2 ^ 32

abbrev active_weight : CallbackEntry → ℕ
active_weight e = if e.active then 1 else 0

abbrev matching_weight : ℕ → CallbackEntry → ℕ
matching_weight event_type e = if matching event_type e then 1 else 0

pub count_active-set :
    (l : List CallbackEntry) (i : ℕ) (e : CallbackEntry)
    → i < length l
    → count_active (set l i e) + active_weight (get_or l i cleared)
      ≡ count_active l + active_weight e
unfolding count_active
count_active-set [] i e h = elim h [ ]
count_active-set (x ∷ l) zero e h = omega arith
count_active-set (x ∷ l) (suc i) e h = omega (arith, count_active-set l i e (omega arith))

pub count_matching-set :
    (event_type : ℕ) (l : List CallbackEntry) (i : ℕ) (e : CallbackEntry)
    → i < length l
    → count_matching event_type (set l i e) + matching_weight event_type (get_or l i cleared)
      ≡ count_matching event_type l + matching_weight event_type e
unfolding count_matching
count_matching-set event_type [] i e h = elim h [ ]
count_matching-set event_type (x ∷ l) zero e h = omega arith
count_matching-set event_type (x ∷ l) (suc i) e h =
    omega (arith, count_matching-set event_type l i e (omega arith))

find_available_slot_cases :
    (l : List CallbackEntry)
    → ((find_available_slot l ≡ none) × (count_active l ≡ length l))
      ⊎ ((i : ℕ) × (find_available_slot l ≡ some i)
          × (i < length l)
          × ((get_or l i cleared).active ≡ false))
unfolding find_available_slot count_active
find_available_slot_cases [] = inl (refl, refl)
find_available_slot_cases (x ∷ l) = elim (Bool-cases x.active) [
  | inr free ↦
      let e : find_available_slot (x ∷ l) ≡ some 0 = rw free refl in inr (0, e, omega arith, free)
  | inl used ↦ elim (find_available_slot_cases l) [
    | inl (e, c) ↦ rw (used, e) (inl (refl, omega arith))
    | inr (i, e, inside, free) ↦ rw (used, e) (inr (suc i, refl, omega arith, free))
  ]
]

pub find_callback_entry-set :
    (event_id : ℕ) (l : List CallbackEntry) (i : ℕ) (e : CallbackEntry)
    → All (λ e. e.id < event_id) l
    → i < length l
    → e.id ≡ event_id
    → e.active ≡ true
    → find_callback_entry event_id (set l i e) ≡ some i
unfolding find_callback_entry
find_callback_entry-set event_id [] i e h inside named on = elim inside [ ]
find_callback_entry-set event_id (x ∷ l) zero e h inside named on =
    let same : (e.id == event_id) ≡ true = ground arith in rw (on, same) refl
find_callback_entry-set event_id (x ∷ l) (suc i) e h inside named on =
    let other : (x.active && x.id == event_id) ≡ false = ground (arith, h.0) in
    rw (other, find_callback_entry-set event_id l i e h.1 (omega arith) named on) refl

pub find_callback_entry-unused :
    (event_id : ℕ) (l : List CallbackEntry)
    → All (λ e. e.id < event_id) l
    → find_callback_entry event_id l ≡ none
unfolding find_callback_entry
find_callback_entry-unused event_id [] h = refl
find_callback_entry-unused event_id (x ∷ l) h =
    let other : (x.active && x.id == event_id) ≡ false = ground (arith, h.0) in
    rw (other, find_callback_entry-unused event_id l h.1) refl

get_next_event_id_left :
    (d : Dispatcher)
    → d.next_event_id ≢ 0
    → get_next_event_id d
      ≡ (d.next_event_id, record d { next_event_id = (d.next_event_id + 1) % 2 ^ 32 })
unfolding get_next_event_id
get_next_event_id_left d left = let n : (d.next_event_id == 0) ≡ false = ground arith in simp n refl

get_next_event_id_out : (d : Dispatcher) → d.next_event_id ≡ 0 → get_next_event_id d ≡ (0, d)
unfolding get_next_event_id
get_next_event_id_out d out = let n : (d.next_event_id == 0) ≡ true = ground arith in simp n refl

abbrev pub entry_for : ℕ → ℕ → ℕ → CallbackEntry
entry_for event_id event_type callback = record {
  id = event_id;
  type = event_type;
  callback = some callback;
  active = true;
}

-- The three outcomes of a registration.
pub data Registered (d : Dispatcher) (event_type callback : ℕ) : ℕ × Dispatcher → Type 0 where
  used_up : d.next_event_id ≡ 0 → Registered d event_type callback (0, d)
  no_slot :
      count_active d.callbacks ≡ 16
      → Registered d event_type callback
          (0, record d { next_event_id = (d.next_event_id + 1) % 2 ^ 32 })
  in_slot :
      (i : ℕ)
      → d.next_event_id ≢ 0
      → i < length d.callbacks
      → (get_or d.callbacks i cleared).active ≡ false
      → Registered d event_type callback (
        d.next_event_id,
        record d {
          next_event_id = (d.next_event_id + 1) % 2 ^ 32;
          callbacks = set d.callbacks i (entry_for d.next_event_id event_type callback);
        },
      )

-- The rest of `register_callback`, behind the identifier.
abbrev store : ℕ → ℕ → ℕ × Dispatcher → ℕ × Dispatcher
store event_type callback (event_id, d) =
    if event_id == 0 then (0, d) else elim (find_available_slot d.callbacks) [
      | none ↦ (0, d)
      | some i ↦ (
        event_id,
        record d { callbacks = set d.callbacks i (entry_for event_id event_type callback) },
      )
    ]

register_callback-store :
    (d : Dispatcher) (event_type callback : ℕ)
    → register_callback d event_type (some callback)
      ≡ store event_type callback (get_next_event_id (initialize d))
unfolding register_callback
register_callback-store d event_type callback = refl

store_cases :
    (d : Dispatcher) (event_type callback : ℕ)
    → length d.callbacks ≡ 16
    → Registered d event_type callback (store event_type callback (get_next_event_id d))
store_cases d event_type callback slots = elim (Bool-cases (d.next_event_id == 0)) [
  | inl out ↦
      let gone : d.next_event_id ≡ 0 = ground arith in
      rw (get_next_event_id_out d gone) (used_up gone)
  | inr left ↦
      let some_left : d.next_event_id ≢ 0 = ground arith in
      let next = ap (store event_type callback) (get_next_event_id_left d some_left) in
      elim (find_available_slot_cases d.callbacks) [
        | inl (e, full) ↦
            subst (Registered d event_type callback) (sym (next ∙ (rw (left, e) refl)))
              (no_slot (omega (arith, full, slots)))
        | inr (i, e, inside, free) ↦
            subst (Registered d event_type callback) (sym (next ∙ (rw (left, e) refl)))
              (in_slot i some_left inside free)
      ]
]

pub register_callback_cases :
    (d : Dispatcher) (event_type callback : ℕ)
    → length (initialize d).callbacks ≡ 16
    → Registered (initialize d) event_type callback (register_callback d event_type (some callback))
register_callback_cases d event_type callback slots =
    rw (register_callback-store d event_type callback)
      (store_cases (initialize d) event_type callback slots)
