-- ===== src/Gpio/EspIdf/Channels.antt =====
-- The channels of the LED controller, which the ESP-IDF driver hands out to pins.
use jenlib.Common.{
  ℕ, zero, suc, ◌-◌, ◌≤◌, ◌<◌, ◌≡◌, ◌≢◌, refl, sym, ap, subst, ◌∙◌, ◌⊎◌, inl, inr, Bool, true,
  false, List, [], ◌∷◌, ◌==◌, ==_iff, none, some, arith, length, get_or, set, replicate, Bool-cases,
  length-set,
}
use jenlib.Gpio.EspIdf.{EspIdfGpioDriver, lookup, find_free, allocate}

abbrev pub count_used : List Bool → ℕ
count_used [] = 0
count_used (true ∷ used) = suc (count_used used)
count_used (false ∷ used) = count_used used

-- What `find_free` finds.
pub find_free-some :
    (used : List Bool) (from ch : ℕ)
    → find_free from used ≡ some ch
    → (from ≤ ch) × (ch - from < length used) × (get_or used (ch - from) true ≡ false)
find_free-some [] from ch e = cc
find_free-some (false ∷ used) from ch e =
    let same : from ≡ ch = ground (arith, e) in
    subst
      (λ c.
        (from ≤ c)
        × (c - from < suc (length used))
        × (get_or (false ∷ used) (c - from) true ≡ false))
      same
      (let none_past : from - from ≡ 0 = omega arith in
        rw none_past (omega arith, omega arith, refl))
find_free-some (true ∷ used) from ch e =
    let (a, b, c) = find_free-some used (suc from) ch e in
    let next : ch - from ≡ suc (ch - suc from) = omega arith in
    rw next (omega arith, omega arith, c)

pub find_free-none :
    (used : List Bool) (from : ℕ) → find_free from used ≡ none → count_used used ≡ length used
find_free-none [] from e = refl
find_free-none (false ∷ used) from e = cc
find_free-none (true ∷ used) from e = ap suc (find_free-none used (suc from) e)

count_used-set :
    (used : List Bool) (ch : ℕ)
    → get_or used ch true ≡ false
    → count_used (set used ch true) ≡ suc (count_used used)
count_used-set [] ch e = cc
count_used-set (false ∷ used) zero e = refl
count_used-set (true ∷ used) zero e = cc
count_used-set (true ∷ used) (suc ch) e = ap suc (count_used-set used ch e)
count_used-set (false ∷ used) (suc ch) e = count_used-set used ch e

pub count_used-replicate : (n : ℕ) → count_used (replicate n false) ≡ 0
count_used-replicate zero = refl
count_used-replicate (suc n) = count_used-replicate n

-- A channel is in use exactly if it is some pin's, no two pins share one, and the channels in use are
-- counted by the map.
pub record IsValid (channel_max : ℕ) (d : EspIdfGpioDriver) : Type 0 where
  pub full_array : length d.channel_used ≡ channel_max
  pub owned :
      (pin ch : ℕ) → lookup pin d.pin_to_channel ≡ some ch → get_or d.channel_used ch false ≡ true
  pub owner :
      (ch : ℕ)
      → get_or d.channel_used ch false ≡ true
      → (pin : ℕ) × (lookup pin d.pin_to_channel ≡ some ch)
  pub distinct :
      (p q ch : ℕ)
      → lookup p d.pin_to_channel ≡ some ch
      → lookup q d.pin_to_channel ≡ some ch
      → p ≡ q
  pub counted : count_used d.channel_used ≡ length d.pin_to_channel

pub lookup_cons_self : (pin ch : ℕ) (m : List (ℕ × ℕ)) → lookup pin ((pin, ch) ∷ m) ≡ some ch
lookup_cons_self pin ch m = ground arith

pub lookup_cons_ne :
    (p pin ch : ℕ) (m : List (ℕ × ℕ)) → p ≢ pin → lookup p ((pin, ch) ∷ m) ≡ lookup p m
lookup_cons_ne p pin ch m ne = ground arith

-- The channel of a pin behind a new entry is the new one, for the new pin, or an old one.
lookup_cons_cases :
    (p pin ch c : ℕ) (m : List (ℕ × ℕ))
    → lookup p ((pin, ch) ∷ m) ≡ some c
    → ((p ≡ pin) × (c ≡ ch)) ⊎ (lookup p m ≡ some c)
lookup_cons_cases p pin ch c m e = elim (Bool-cases (pin == p)) [
  | inl same ↦ inl (sym ((==_iff pin p).0 same), ground arith)
  | inr other ↦ inr (ground arith)
]

used_kept :
    (used : List Bool) (ch c : ℕ)
    → get_or used c false ≡ true
    → get_or (set used ch true) c false ≡ true
used_kept [] ch c e = e
used_kept (u ∷ used) zero zero e = refl
used_kept (u ∷ used) zero (suc c) e = e
used_kept (u ∷ used) (suc ch) zero e = e
used_kept (u ∷ used) (suc ch) (suc c) e = used_kept used ch c e

used_new :
    (used : List Bool) (ch : ℕ)
    → get_or used ch true ≡ false
    → (get_or (set used ch true) ch false ≡ true) × (get_or used ch false ≡ false)
used_new [] ch e = cc
used_new (u ∷ used) zero e = (refl, e)
used_new (u ∷ used) (suc ch) e = used_new used ch e

used_set_cases :
    (used : List Bool) (ch c : ℕ)
    → get_or (set used ch true) c false ≡ true
    → (c ≡ ch) ⊎ (get_or used c false ≡ true)
used_set_cases [] ch c e = inr e
used_set_cases (u ∷ used) zero zero e = inl refl
used_set_cases (u ∷ used) zero (suc c) e = inr e
used_set_cases (u ∷ used) (suc ch) zero e = inr e
used_set_cases (u ∷ used) (suc ch) (suc c) e = elim (used_set_cases used ch c e) [
  | inl same ↦ inl (ap suc same)
  | inr old ↦ inr old
]

-- A free channel goes to a pin without one.
module _ {channel_max : ℕ} {d : EspIdfGpioDriver} (v : IsValid channel_max d) (pin ch : ℕ)
    (unknown : lookup pin d.pin_to_channel ≡ none)
    (free : get_or d.channel_used ch true ≡ false) where
  -- The channel is nobody's.
  pub unowned : (p : ℕ) → lookup p d.pin_to_channel ≢ some ch
  unowned p e = cc (v.owned p ch e, (used_new d.channel_used ch free).1)

  allocate_owned :
      (p c : ℕ)
      → lookup p ((pin, ch) ∷ d.pin_to_channel) ≡ some c
      → get_or (set d.channel_used ch true) c false ≡ true
  allocate_owned p c e = elim (lookup_cons_cases p pin ch c d.pin_to_channel e) [
    | inl (_, same) ↦
        subst (λ x. get_or (set d.channel_used ch true) x false ≡ true) (sym same)
          (used_new d.channel_used ch free).0
    | inr old ↦ used_kept d.channel_used ch c (v.owned p c old)
  ]

  allocate_owner :
      (c : ℕ)
      → get_or (set d.channel_used ch true) c false ≡ true
      → (p : ℕ) × (lookup p ((pin, ch) ∷ d.pin_to_channel) ≡ some c)
  allocate_owner c e = elim (used_set_cases d.channel_used ch c e) [
    | inl same ↦ (pin, lookup_cons_self pin ch d.pin_to_channel ∙ ap some (sym same))
    | inr old ↦
        let (p, found) = v.owner c old in
        let ne : p ≢ pin = λ same. cc (found, unknown, same) in
        (p, lookup_cons_ne p pin ch d.pin_to_channel ne ∙ found)
  ]

  allocate_distinct :
      (p q c : ℕ)
      → lookup p ((pin, ch) ∷ d.pin_to_channel) ≡ some c
      → lookup q ((pin, ch) ∷ d.pin_to_channel) ≡ some c
      → p ≡ q
  allocate_distinct p q c e f = elim (lookup_cons_cases p pin ch c d.pin_to_channel e) [
    | inl (of_p, new_p) ↦ elim (lookup_cons_cases q pin ch c d.pin_to_channel f) [
      | inl (of_q, new_q) ↦ of_p ∙ sym of_q
      | inr old_q ↦ absurd (unowned q (old_q ∙ ap some new_p))
    ]
    | inr old_p ↦ elim (lookup_cons_cases q pin ch c d.pin_to_channel f) [
      | inl (of_q, new_q) ↦ absurd (unowned p (old_p ∙ ap some new_q))
      | inr old_q ↦ v.distinct p q c old_p old_q
    ]
  ]

  pub allocate-IsValid : IsValid channel_max (allocate (some ch) pin d).1
  allocate-IsValid = record {
    full_array = length-set d.channel_used ch true ∙ v.full_array;
    owned = allocate_owned;
    owner = allocate_owner;
    distinct = allocate_distinct;
    counted = count_used-set d.channel_used ch free ∙ ap suc v.counted;
  }
