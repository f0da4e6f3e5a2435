-- ===== src/OneWire/Bytes.antt =====
-- The order of the bits of a byte on the wire: the lowest first.
use jenlib.Common.{
  ℕ, zero, suc, ◌+◌, ◌*◌, inl, inr, Bool-cases, ◌/◌, ◌%◌, ◌^◌, ◌<◌, ◌≡◌, refl, ap, ◌∙◌, bit_and,
  bit_or, Bool, true, false, List, [], ◌∷◌, ◌++◌, ◌==◌, ==_iff, not, if◌then◌else◌, arith, length,
  All,
}
use native.Mathlib.Nat.{pow-suc}
use jenlib.Common.Table.{all_below, all_below_sound}
use jenlib.OneWire.{write_bits, read_bits, read_all}

-- The `n` lowest bits, the lowest first.
abbrev pub bits_of : ℕ → ℕ → List Bool
bits_of zero v = []
bits_of (suc n) v = not (v % 2 == 0) ∷ bits_of n (v / 2)

-- The bits of bytes in a row.
abbrev pub bits_of_bytes : List ℕ → List Bool
bits_of_bytes [] = []
bits_of_bytes (x ∷ bytes) = bits_of 8 x ++ bits_of_bytes bytes

-- The number with the given bits.
abbrev pub value_of : List Bool → ℕ
value_of [] = 0
value_of (b ∷ bits) = (if b then 1 else 0) + 2 * value_of bits

pub value_of-bits_of : (n v : ℕ) → v < 2 ^ n → value_of (bits_of n v) ≡ v
value_of-bits_of zero v h = omega arith
value_of-bits_of (suc n) v h =
    let half = value_of-bits_of n (v / 2) (omega (arith, pow-suc 2 n)) in
    elim (Bool-cases (v % 2 == 0)) [
      | inl even ↦ rw even (ground (arith, half))
      | inr odd ↦ rw odd (ground (arith, half))
    ]

lowest_table : all_below 256 (λ v. bit_and v 0x01 == v % 2) ≡ true
unfolding all_below
lowest_table = refl

lowest : (v : ℕ) → v < 256 → not (bit_and v 0x01 == 0) ≡ not (v % 2 == 0)
lowest v h = ap (λ b. not (b == 0)) ((==_iff _ (v % 2)).0 (all_below_sound 256 _ v lowest_table h))

module _ {W : Type 0} (write_bit : Bool → W → W) where
  abbrev pub write_list : List Bool → W → W
  write_list [] w = w
  write_list (b ∷ bits) w = write_list bits (write_bit b w)

  pub write_bits_lem :
      (n v : ℕ) (w : W) → v < 256 → write_bits write_bit n v w ≡ write_list (bits_of n v) w
  unfolding write_bits
  write_bits_lem zero v w h = refl
  write_bits_lem (suc n) v w h =
      write_bits_lem n (v / 2) _ (omega arith)
      ∙ ap (λ b. write_list (bits_of n (v / 2)) (write_bit b w)) (lowest v h)

  write_list-append :
      (xs ys : List Bool) (w : W) → write_list (xs ++ ys) w ≡ write_list ys (write_list xs w)
  write_list-append [] ys w = refl
  write_list-append (x ∷ xs) ys w = write_list-append xs ys (write_bit x w)

-- A wire that gives the bits of a list, and a wire that gives the same.
abbrev take_bit : List Bool → Bool × List Bool
take_bit [] = (false, [])
take_bit (b ∷ bits) = (b, bits)

module _ {W : Type 0} (read_bit : W → Bool × W) where
  -- The reads of the wire `w` give these bits and leave `w'`.
  abbrev pub Gives : List Bool → W → W → Type 0
  Gives [] w w' = w ≡ w'
  Gives (b ∷ bits) w w' = (next : W) × (read_bit w ≡ (b, next)) × Gives bits next w'

  read_bits_given :
      (n value : ℕ) (bits : List Bool) (w w' : W)
      → length bits ≡ n
      → Gives bits w w'
      → read_bits read_bit n value w ≡ ((read_bits take_bit n value bits).0, w')
  unfolding read_bits
  read_bits_given zero value [] w w' e g = ap (λ x. (value, x)) g
  read_bits_given zero value (b ∷ bits) w w' e g = absurd (omega arith)
  read_bits_given (suc n) value [] w w' e g = absurd (omega arith)
  read_bits_given (suc n) value (b ∷ bits) w w' e (next, found, rest) =
      let shifted = if b then bit_or (value / 2) 0x80 else value / 2 in
      ap (λ r. read_bits read_bit n (if r.0 then bit_or (value / 2) 0x80 else value / 2) r.1) found
      ∙ read_bits_given n shifted bits next w' (omega (arith, e)) rest

read_table : all_below 256 (λ v. (read_bits take_bit 8 0 (bits_of 8 v)).0 == v) ≡ true
unfolding all_below read_bits
read_table = refl

-- A wire that gives the eight bits of a byte, the lowest first, is read as that byte.
pub read_bits_lem :
    {W : Type 0} (read_bit : W → Bool × W) (v : ℕ) (w w' : W)
    → v < 256
    → Gives read_bit (bits_of 8 v) w w'
    → read_bits read_bit 8 0 w ≡ (v, w')
read_bits_lem read_bit v w w' h g =
    read_bits_given read_bit 8 0 (bits_of 8 v) w w' refl g
    ∙ ap (λ x. (x, w')) ((==_iff _ v).0 (all_below_sound 256 _ v read_table h))

module _ {W : Type 0} (read_bit : W → Bool × W) where
  Gives-append :
      (xs ys : List Bool) (w w' : W)
      → Gives read_bit (xs ++ ys) w w'
      → (middle : W) × Gives read_bit xs w middle × Gives read_bit ys middle w'
  Gives-append [] ys w w' g = (w, refl, g)
  Gives-append (b ∷ xs) ys w w' (next, found, rest) =
      let (middle, front, back) = Gives-append xs ys next w' rest in
      (middle, (next, found, front), back)

-- A wire that gives the bits of bytes is read as those bytes.
pub read_all_lem :
    {W : Type 0} (read_bit : W → Bool × W) (bytes : List ℕ) (w w' : W)
    → All (λ x. x < 256) bytes
    → Gives read_bit (bits_of_bytes bytes) w w'
    → read_all (read_bits read_bit 8 0) (length bytes) w ≡ (bytes, w')
unfolding read_all
read_all_lem read_bit [] w w' h g = ap (λ x. ([], x)) g
read_all_lem read_bit (x ∷ bytes) w w' h g =
    let (middle, front, back) = Gives-append read_bit (bits_of 8 x) (bits_of_bytes bytes) w w' g in
    let first = read_bits_lem read_bit x w middle h.0 front in
    let rest = read_all_lem read_bit bytes middle w' h.1 back in
    ap (λ r. let (l, v) = read_all (read_bits read_bit 8 0) (length bytes) r.1 in (r.0 ∷ l, v))
      first
    ∙ ap (λ r. (x ∷ r.0, r.1)) rest
