-- ===== src/Ble/Crc.antt =====
-- src/ble/Ids.cpp, `crc8` and `compute_crc8`: CRC-8-ATM, bit by bit.
use jenlib.Common.{
  ℕ, zero, suc, ◌*◌, ◌/◌, ◌%◌, ◌^◌, ◌<◌, ◌≡◌, ◌≢◌, refl, sym, ap, subst, ◌∙◌, bit_and, bit_or,
  bit_xor, true, List, [], ◌∷◌, ◌++◌, arith, ltb, ◌==◌, ==_iff, if◌then◌else◌, All,
}
use jenlib.Common.Table.{all_below, all_below_sound}
use jenlib.Common.Checksum.{fold_bytes, fold_bytes-lt, fold_bytes_same}

abbrev pub crc8_poly : ℕ
crc8_poly = 0x07

abbrev pub crc8_init : ℕ
crc8_init = 0x00

abbrev pub crc8_high_bit : ℕ
crc8_high_bit = 0x80

-- One round of the inner loop; the shifts are cut to 8 bits.
pub crc8_round : ℕ → ℕ
crc8_round crc =
    if bit_and crc crc8_high_bit == 0 then crc * 2 % 2 ^ 8 else bit_xor (crc * 2) crc8_poly % 2 ^ 8

-- `n` rounds.
pub crc8_rounds : ℕ → ℕ → ℕ
crc8_rounds zero crc = crc
crc8_rounds (suc n) crc = crc8_rounds n (crc8_round crc)

-- The outer loop.
pub crc8_loop : ℕ → List ℕ → ℕ
crc8_loop crc [] = crc
crc8_loop crc (x ∷ bytes) = crc8_loop (crc8_rounds 8 (bit_xor crc x)) bytes

unfoldable pub crc8 : List ℕ → ℕ
unfolding crc8_loop crc8_rounds crc8_round
crc8 bytes = crc8_loop crc8_init bytes

unfoldable pub compute_crc8 : List ℕ → ℕ
compute_crc8 bytes = crc8 bytes

crc8_round_table : all_below 256 (λ c. ltb (crc8_round c) 256) ≡ true
unfolding all_below crc8_round
crc8_round_table = refl

-- Undoing a round: its result tells by the lowest bit which branch was taken.
unround : ℕ → ℕ
unround d = if d % 2 == 0 then d / 2 else bit_or (bit_xor d crc8_poly / 2) crc8_high_bit

unround_table : all_below 256 (λ c. unround (crc8_round c) == c) ≡ true
unfolding all_below crc8_round unround
unround_table = refl

crc8_round-lt : (c : ℕ) → c < 256 → crc8_round c < 256
crc8_round-lt c h =
    ground (arith, all_below_sound 256 (λ c. ltb (crc8_round c) 256) c crc8_round_table h)

crc8_round_injective : (c d : ℕ) → c < 256 → d < 256 → crc8_round c ≡ crc8_round d → c ≡ d
crc8_round_injective c d hc hd e =
    sym ((==_iff _ _).0 (all_below_sound 256 _ c unround_table hc))
    ∙ ap unround e
    ∙ (==_iff _ _).0 (all_below_sound 256 _ d unround_table hd)

crc8_rounds-lt : (n c : ℕ) → c < 256 → crc8_rounds n c < 256
unfolding crc8_rounds
crc8_rounds-lt zero c h = h
crc8_rounds-lt (suc n) c h = crc8_rounds-lt n (crc8_round c) (crc8_round-lt c h)

crc8_rounds_injective : (n c d : ℕ) → c < 256 → d < 256 → crc8_rounds n c ≡ crc8_rounds n d → c ≡ d
unfolding crc8_rounds
crc8_rounds_injective zero c d hc hd e = e
crc8_rounds_injective (suc n) c d hc hd e = crc8_round_injective c d hc hd (
    crc8_rounds_injective n (crc8_round c) (crc8_round d) (crc8_round-lt c hc) (crc8_round-lt d hd)
      e)

crc8_loop_fold : (c : ℕ) (l : List ℕ) → crc8_loop c l ≡ fold_bytes (crc8_rounds 8) c l
unfolding crc8_loop
crc8_loop_fold c [] = refl
crc8_loop_fold c (x ∷ l) = crc8_loop_fold (crc8_rounds 8 (bit_xor c x)) l

pub crc8-lt : (l : List ℕ) → All (λ x. x < 256) l → crc8 l < 256
unfolding crc8
crc8-lt l b =
    subst (λ c. c < 256) (sym (crc8_loop_fold 0 l))
      (fold_bytes-lt (crc8_rounds 8) (crc8_rounds-lt 8) 0 l (omega arith) b)

-- Two byte strings that differ in one place at most and have the same checksum are equal.
pub crc8_same :
    (front back : List ℕ) (x y : ℕ)
    → All (λ b. b < 256) front
    → All (λ b. b < 256) back
    → x < 256
    → y < 256
    → crc8 (front ++ (x ∷ back)) ≡ crc8 (front ++ (y ∷ back))
    → x ≡ y
unfolding crc8
crc8_same front back x y hf hb hx hy e =
    fold_bytes_same (crc8_rounds 8) (crc8_rounds-lt 8) (crc8_rounds_injective 8) 0 front back x y
      (omega arith) hf hb hx hy
      (sym (crc8_loop_fold 0 (front ++ (x ∷ back))) ∙ e ∙ crc8_loop_fold 0 (front ++ (y ∷ back)))

-- Two byte strings that differ in exactly one place have different checksums.
pub crc8_single_byte :
    (front back : List ℕ) (x y : ℕ)
    → All (λ b. b < 256) front
    → All (λ b. b < 256) back
    → x < 256
    → y < 256
    → x ≢ y
    → crc8 (front ++ (x ∷ back)) ≢ crc8 (front ++ (y ∷ back))
crc8_single_byte front back x y hf hb hx hy ne e = ne (crc8_same front back x y hf hb hx hy e)
