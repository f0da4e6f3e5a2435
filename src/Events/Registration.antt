-- ===== src/Events/Registration.antt =====
-- How a registered callback counts, and how its identifier takes it out again.
use jenlib.Common.{
  ℕ, suc, ◌+◌, ◌%◌, ◌^◌, ◌<◌, ◌≡◌, ◌≢◌, refl, ap, ◌∙◌, ◌⊎◌, inl, inr, true, false, List, [], ◌∷◌,
  ◌==◌, if◌then◌else◌, length, get_or, get_or-set_self, set, set-set, All, All-set, none, some, map,
  arith, if_elim,
}
use jenlib.Events.{
  CallbackEntry, cleared, matching, Dispatcher, initialize, find_callback_entry, register_callback,
  unregister_callback, unregister_callbacks, clear_matching, count_matching, count_active,
  get_callback_count, get_total_callback_count,
}
use jenlib.Events.Slots.{
  issued, IsRegistry, count_active-set, count_matching-set, find_callback_entry-set,
  find_callback_entry-unused, Registered, used_up, no_slot, in_slot, entry_for,
  register_callback_cases,
}

length-clear : (l : List CallbackEntry) → length (map (λ _. cleared) l) ≡ length l
length-clear [] = refl
length-clear (x ∷ l) = ap suc (length-clear l)

All-clear : (n : ℕ) (l : List CallbackEntry) → 0 < n → All (λ e. e.id < n) (map (λ _. cleared) l)
All-clear n [] h = tt
All-clear n (x ∷ l) h = (h, All-clear n l h)

initialize-IsRegistry : (d : Dispatcher) → IsRegistry d → IsRegistry (initialize d)
unfolding initialize
initialize-IsRegistry d v =
    if_elim IsRegistry d.initialized d _ (λ _. v)
      (λ _. record {
        slots = length-clear d.callbacks ∙ v.slots;
        known = All-clear 1 d.callbacks (omega arith);
        within = omega arith;
      })

-- A registration refused changes no slot. One accepted counts as one more callback of its type; its
-- identifier takes it out once, which restores all counts, and not a second time.
abbrev Outcome : Dispatcher → ℕ → ℕ → ℕ × Dispatcher → Type 0
Outcome d event_type other (id, d1) =
    let (done, d2) = unregister_callback d1 id in
    ((id ≡ 0)
      × ((d.next_event_id ≡ 0) ⊎ (get_total_callback_count d ≡ 16))
      × (d1.callbacks ≡ d.callbacks))
    ⊎ ((id ≢ 0)
        × (id ≡ d.next_event_id)
        × (get_callback_count d1 other
            ≡ get_callback_count d other + (if event_type == other then 1 else 0))
        × (get_total_callback_count d1 ≡ get_total_callback_count d + 1)
        × (done ≡ true)
        × (get_callback_count d2 other ≡ get_callback_count d other)
        × (get_total_callback_count d2 ≡ get_total_callback_count d)
        × ((unregister_callback d2 id).0 ≡ false))

abbrev active_of : CallbackEntry → ℕ
active_of e = if e.active then 1 else 0

abbrev matching_of : ℕ → CallbackEntry → ℕ
matching_of event_type e = if matching event_type e then 1 else 0

in_slot-Outcome :
    (d : Dispatcher) (event_type callback other i : ℕ)
    → IsRegistry d
    → d.next_event_id ≢ 0
    → i < length d.callbacks
    → (get_or d.callbacks i cleared).active ≡ false
    → Outcome d event_type other (
      d.next_event_id,
      record d {
        next_event_id = (d.next_event_id + 1) % 2 ^ 32;
        callbacks = set d.callbacks i (entry_for d.next_event_id event_type callback);
      },
    )
unfolding get_callback_count get_total_callback_count unregister_callback
in_slot-Outcome d event_type callback other i v left inside free =
    let id = d.next_event_id in
    let e = entry_for id event_type callback in
    let l = set d.callbacks i e in
    let valid : (id == 0) ≡ false = ground arith in
    let bound : issued id ≡ id = rw valid refl in
    let older : All (λ x. x.id < id) d.callbacks = rw bound at v.known in
    let found = find_callback_entry-set id d.callbacks i e older inside refl refl in
    let here = ap (λ x. x.active) (get_or-set_self d.callbacks i e cleared inside) in
    let twice = set-set d.callbacks i e cleared in
    let more = count_active-set d.callbacks i e inside in
    let more' = count_matching-set other d.callbacks i e inside in
    let less = count_active-set d.callbacks i cleared inside in
    let less' = count_matching-set other d.callbacks i cleared inside in
    let unused : All (λ x. x.id < id) (set d.callbacks i cleared) =
      All-set (λ x. x.id < id) d.callbacks i cleared (omega arith) older in
    let gone = find_callback_entry-unused id (set d.callbacks i cleared) unused in
    let off : active_of (get_or d.callbacks i cleared) ≡ 0 = rw free refl in
    let off' : matching_of other (get_or d.callbacks i cleared) ≡ 0 = rw free refl in
    let restored = ap count_active twice in
    let restored' = ap (count_matching other) twice in
    let gone' = ap (find_callback_entry id) twice ∙ gone in
    rw (valid, found, here, gone')
      (inr (
        left,
        refl,
        omega (arith, more', off'),
        omega (arith, more, off),
        refl,
        omega (arith, less', off', restored'),
        omega (arith, less, off, restored),
        refl,
      ))

Registered-Outcome :
    (d : Dispatcher) (event_type callback other : ℕ) (s : ℕ × Dispatcher)
    → IsRegistry d
    → Registered d event_type callback s
    → Outcome d event_type other s
unfolding get_total_callback_count
Registered-Outcome d event_type callback other _ v (used_up out) = inl (refl, inl out, refl)
Registered-Outcome d event_type callback other _ v (no_slot full) = inl (refl, inr full, refl)
Registered-Outcome d event_type callback other _ v (in_slot i left inside free) =
    in_slot-Outcome d event_type callback other i v left inside free

-- A registration without a callback is refused and changes nothing. One with a callback is refused
-- only when the identifiers are used up or sixteen callbacks are there, and changes no slot then;
-- one accepted counts as one more callback of its type, and its identifier takes it out once, which
-- restores the counts, and not a second time.
pub register_callback-unregister_callback :
    (d : Dispatcher) (event_type callback other : ℕ)
    → IsRegistry d
    → (register_callback d event_type none ≡ (0, d))
      × (let d0 = initialize d in
          let (id, d1) = register_callback d event_type (some callback) in
          let (done, d2) = unregister_callback d1 id in
          ((id ≡ 0)
            × ((d0.next_event_id ≡ 0) ⊎ (get_total_callback_count d0 ≡ 16))
            × (d1.callbacks ≡ d0.callbacks))
          ⊎ ((id ≢ 0)
              × (id ≡ d0.next_event_id)
              × (get_callback_count d1 other
                  ≡ get_callback_count d0 other + (if event_type == other then 1 else 0))
              × (get_total_callback_count d1 ≡ get_total_callback_count d0 + 1)
              × (done ≡ true)
              × (get_callback_count d2 other ≡ get_callback_count d0 other)
              × (get_total_callback_count d2 ≡ get_total_callback_count d0)
              × ((unregister_callback d2 id).0 ≡ false)))
unfolding register_callback
register_callback-unregister_callback d event_type callback other v =
    let v0 = initialize-IsRegistry d v in
    (
      refl,
      Registered-Outcome (initialize d) event_type callback other
          (register_callback d event_type (some callback)) v0
          (register_callback_cases d event_type callback v0.slots),
    )

count_matching-clear_matching :
    (event_type : ℕ) (l : List CallbackEntry)
    → count_matching event_type (clear_matching event_type l) ≡ 0
unfolding count_matching clear_matching
count_matching-clear_matching event_type [] = refl
count_matching-clear_matching event_type (x ∷ l) =
    let rest = count_matching-clear_matching event_type l in ground arith

count_matching-clear_other :
    (event_type other : ℕ) (l : List CallbackEntry)
    → other ≢ event_type
    → count_matching other (clear_matching event_type l) ≡ count_matching other l
unfolding count_matching clear_matching
count_matching-clear_other event_type other [] h = refl
count_matching-clear_other event_type other (x ∷ l) h =
    let rest = count_matching-clear_other event_type other l h in ground arith

count_active-clear_matching :
    (event_type : ℕ) (l : List CallbackEntry)
    → count_active (clear_matching event_type l) + count_matching event_type l ≡ count_active l
unfolding count_active count_matching clear_matching
count_active-clear_matching event_type [] = refl
count_active-clear_matching event_type (x ∷ l) =
    let rest = count_active-clear_matching event_type l in ground arith

-- unregister_callbacks takes out the callbacks of its type and none of another type, and returns
-- their number.
pub unregister_callbacks_counts :
    (d : Dispatcher) (event_type other : ℕ)
    → other ≢ event_type
    → let (count, d') = unregister_callbacks d event_type in
      (count ≡ get_callback_count d event_type)
      × (get_callback_count d' event_type ≡ 0)
      × (get_callback_count d' other ≡ get_callback_count d other)
      × (get_total_callback_count d' + count ≡ get_total_callback_count d)
unfolding unregister_callbacks get_callback_count get_total_callback_count
unregister_callbacks_counts d event_type other h = (
  refl,
  count_matching-clear_matching event_type d.callbacks,
  count_matching-clear_other event_type other d.callbacks h,
  count_active-clear_matching event_type d.callbacks,
)
