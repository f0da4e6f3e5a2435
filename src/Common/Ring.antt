-- ===== src/Common/Ring.antt =====
-- Circular buffers: the elements of a fixed array from a head position on, wrapping at its end.
-- The payload buffer and the event queue both store their content so.
use Prim.Native.Nat.{ℕ, zero, suc, ◌+◌, ◌-◌, ◌%◌, ◌≤◌, ◌<◌}
use mathlib.Core.Path.{◌≡◌, refl, sym, ap, ◌∙◌}
use mathlib.Core.Logic.{◌≢◌}
use mathlib.Core.List.{List, [], ◌∷◌, ◌++◌}
use native.Mathlib.Omega.{arith}
use native.Mathlib.Decide.{dec_lt}
use native.Mathlib.Nat.{mod-lt, mod-mod, mod-add-mod, mod-eq_of_lt, mod-eq-sub-mod}
use jenlib.Common.Lists.{length, get_or, set, get_or-set_self, get_or-set_ne}

-- Positions less than one lap apart are different slots.
slot_ne : (slots i d : ℕ) → 0 < d → d < slots → (i + d) % slots ≢ i % slots
slot_ne slots i d p q e = elim (dec_lt (i % slots + d) slots) [
  | yes fits ↦
      let stays = mod-eq_of_lt fits in absurd (omega (arith, e, mod-add-mod i slots d, stays))
  | no laps ↦
      let lap : slots ≤ i % slots + d = omega arith in
      let below : i % slots < slots = mod-lt i (omega arith) in
      let small : i % slots + d - slots < slots = omega arith in
      absurd (omega (arith, e, mod-add-mod i slots d, mod-eq-sub-mod lap, mod-eq_of_lt small))
]

next_slot : (slots i j : ℕ) → i % slots ≡ j % slots → (i + 1) % slots ≡ (j + 1) % slots
next_slot slots i j e = sym (mod-add-mod i slots 1) ∙ rw e (mod-add-mod j slots 1)

module _ {ℓ} {A : Type ℓ} where
  -- The `n` elements from position `head` on, oldest first; `d` stands for a read out of range.
  unfoldable pub ring : List A → ℕ → ℕ → ℕ → A → List A
  ring buf slots head zero d = []
  ring buf slots head (suc n) d = get_or buf (head % slots) d ∷ ring buf slots (head + 1) n d

  pub length-ring : (buf : List A) (slots head n : ℕ) (d : A) → length (ring buf slots head n d) ≡ n
  unfolding ring
  length-ring buf slots head zero d = refl
  length-ring buf slots head (suc n) d = ap suc (length-ring buf slots (head + 1) n d)

  -- Only the slot of the head counts, so it may be kept reduced.
  ring_slot :
      (buf : List A) (slots i j n : ℕ) (d : A)
      → i % slots ≡ j % slots
      → ring buf slots i n d ≡ ring buf slots j n d
  unfolding ring
  ring_slot buf slots i j zero d e = refl
  ring_slot buf slots i j (suc n) d e =
      rw (e, ring_slot buf slots (i + 1) (j + 1) n d (next_slot slots i j e))

  pub ring_wrap :
      (buf : List A) (slots head n : ℕ) (d : A)
      → ring buf slots (head % slots) n d ≡ ring buf slots head n d
  ring_wrap buf slots head n d = ring_slot buf slots (head % slots) head n d (mod-mod head slots)

  -- A write to a slot outside of the stored ones leaves them alone.
  pub ring-set_outside :
      (buf : List A) (slots head n k at : ℕ) (v d : A)
      → at ≡ head + (n + k)
      → n + k < slots
      → ring (set buf (at % slots) v) slots head n d ≡ ring buf slots head n d
  unfolding ring
  ring-set_outside buf slots head zero k at v d e h = refl
  ring-set_outside buf slots head (suc n) k at v d e h =
      let rest = ring-set_outside buf slots (head + 1) n k at v d (omega arith) (omega arith) in
      let off : at % slots ≢ head % slots = rw e (slot_ne slots head (suc n + k) (omega arith) h) in
      rw (get_or-set_ne buf (at % slots) (head % slots) v d off)
        (ap (λ l. get_or buf (head % slots) d ∷ l) rest)

  -- A write to the tail slot appends.
  pub ring-set :
      (buf : List A) (slots head n at : ℕ) (v d : A)
      → at ≡ head + n
      → n < slots
      → length buf ≡ slots
      → ring (set buf (at % slots) v) slots head (suc n) d ≡ ring buf slots head n d ++ (v ∷ [])
  unfolding ring
  ring-set buf slots head zero at v d e h len =
      let here : at ≡ head = omega arith in
      let inside : head % slots < length buf = omega (arith, mod-lt head h) in
      rw (here, get_or-set_self buf (head % slots) v d inside)
  ring-set buf slots head (suc n) at v d e h len =
      let rest = ring-set buf slots (head + 1) n at v d (omega arith) (omega arith) len in
      let off : at % slots ≢ head % slots = rw e (slot_ne slots head (suc n) (omega arith) h) in
      rw (get_or-set_ne buf (at % slots) (head % slots) v d off)
        (ap (λ l. get_or buf (head % slots) d ∷ l) rest)
