-- ===== src/OneWire/Crc.antt =====
-- include/jenlib/onewire/OneWireBus.h, `crc8`: the checksum of Maxim (Dallas), bit by bit.
use jenlib.Common.{
  ℕ, zero, suc, ◌+◌, ◌*◌, ◌/◌, ◌%◌, ◌^◌, ◌<◌, ◌≡◌, refl, sym, ap, subst, ◌∙◌, bit_and, bit_xor,
  Bool, true, false, inl, inr, Bool-cases, List, [], ◌∷◌, ◌++◌, arith, ltb, ◌==◌, ==_iff,
  if◌then◌else◌, not,
}
use native.Mathlib.Nat.{pow-suc}
use jenlib.Common.Table.{all_below, all_below_sound}
use jenlib.Common.Bits.{
  bit_xor_assoc, bit_xor_cancel_right, bit_xor_comm, bit_xor_zero, bit_xor_self, bit_xor_lowest,
  bit_xor-lt,
}
use jenlib.Common.Checksum.{AreBytes, fold_bytes, fold_bytes-append, fold_bytes-lt, fold_bytes_same}

-- `n` rounds of the inner loop, over the checksum and the byte that is taken in.
unfoldable pub crc_rounds : ℕ → ℕ → ℕ → ℕ
crc_rounds zero crc byte = crc
crc_rounds (suc n) crc byte =
    let mix = bit_and (bit_xor crc byte) 0x01 in
    let shifted = crc / 2 in
    crc_rounds n (if not (mix == 0) then bit_xor shifted 0x8C else shifted) (byte / 2)

-- The outer loop.
pub crc_loop : ℕ → List ℕ → ℕ
crc_loop crc [] = crc
crc_loop crc (x ∷ bytes) = crc_loop (crc_rounds 8 crc x) bytes

unfoldable pub dallas_crc8 : List ℕ → ℕ
unfolding crc_loop crc_rounds
dallas_crc8 bytes = crc_loop 0x00 bytes

-- The byte-wise form: a register without a byte, shifted eight times.
abbrev shift : ℕ → ℕ
shift z = if z % 2 == 0 then z / 2 else bit_xor (z / 2) 0x8C

pub shifts : ℕ → ℕ → ℕ
shifts zero z = z
shifts (suc n) z = shifts n (shift z)

unfoldable pub table_entry : ℕ → ℕ
unfolding shifts
table_entry z = shifts 8 z

and_table : all_below 256 (λ v. bit_and v 0x01 == v % 2) ≡ true
unfolding all_below
and_table = refl

shift_table : all_below 256 (λ z. ltb (shift z) 256) ≡ true
unfolding all_below
shift_table = refl

shift-lt : (z : ℕ) → z < 256 → shift z < 256
shift-lt z h = ground (arith, all_below_sound 256 (λ z. ltb (shift z) 256) z shift_table h)

-- A round that takes in a bit is a shift of the register with that bit put in.
round_shift :
    (crc byte : ℕ)
    → crc < 256
    → byte < 256
    → let mix = bit_and (bit_xor crc byte) 0x01 in
      bit_xor (if not (mix == 0) then bit_xor (crc / 2) 0x8C else crc / 2) (byte / 2)
      ≡ shift (bit_xor crc byte)
round_shift crc byte hc hb =
    let z = bit_xor crc byte in
    let (half, _) = bit_xor_lowest crc byte in
    let mixed =
      (==_iff _ (z % 2)).0 (all_below_sound 256 _ z and_table (bit_xor-lt 8 crc byte hc hb)) in
    let moved : bit_xor (bit_xor (crc / 2) 0x8C) (byte / 2) ≡ bit_xor (z / 2) 0x8C =
      bit_xor_assoc (crc / 2) 0x8C (byte / 2)
      ∙ ap (bit_xor (crc / 2)) (bit_xor_comm 0x8C (byte / 2))
      ∙ sym (bit_xor_assoc (crc / 2) (byte / 2) 0x8C)
      ∙ ap (λ h. bit_xor h 0x8C) (sym half) in
    elim (Bool-cases (z % 2 == 0)) [
      | inl even ↦ rw (mixed, even) (sym half)
      | inr odd ↦ rw (mixed, odd) moved
    ]

next-lt :
    (crc : ℕ) (mixed : Bool) → crc < 256 → (if mixed then bit_xor (crc / 2) 0x8C else crc / 2) < 256
next-lt crc true h = bit_xor-lt 8 (crc / 2) 0x8C (omega arith) (omega arith)
next-lt crc false h = omega arith

-- Rounds that take in all the bits of a byte are shifts of the register with the byte put in.
crc_rounds-shifts :
    (n crc byte : ℕ)
    → crc < 256
    → byte < 256
    → byte < 2 ^ n
    → crc_rounds n crc byte ≡ shifts n (bit_xor crc byte)
unfolding crc_rounds shifts
crc_rounds-shifts zero crc byte hc hb fits =
    let gone : byte ≡ 0 = omega arith in sym (ap (bit_xor crc) gone ∙ bit_xor_zero crc)
crc_rounds-shifts (suc n) crc byte hc hb fits =
    let mixed = not (bit_and (bit_xor crc byte) 0x01 == 0) in
    let next = if mixed then bit_xor (crc / 2) 0x8C else crc / 2 in
    crc_rounds-shifts n next (byte / 2) (next-lt crc mixed hc) (omega arith)
      (omega (arith, pow-suc 2 n))
    ∙ ap (shifts n) (round_shift crc byte hc hb)

table_entry-lt : (z : ℕ) → z < 256 → table_entry z < 256
unfolding table_entry shifts
table_entry-lt z h =
    shift-lt _
      (shift-lt _ (shift-lt _ (shift-lt _ (shift-lt _ (shift-lt _ (shift-lt _ (shift-lt z h)))))))

crc_loop_fold :
    (c : ℕ) (l : List ℕ) → c < 256 → AreBytes l → crc_loop c l ≡ fold_bytes table_entry c l
unfolding crc_loop table_entry
crc_loop_fold c [] h b = refl
crc_loop_fold c (x ∷ l) h b =
    let round = crc_rounds-shifts 8 c x h b.0 (omega (arith, b.0)) in
    ap (λ r. crc_loop r l) round
    ∙ crc_loop_fold (shifts 8 (bit_xor c x)) l (table_entry-lt _ (bit_xor-lt 8 c x h b.0)) b.1

-- Undoing a shift: the result tells by its highest bit which branch was taken.
unshift : ℕ → ℕ
unshift z = if ltb z 0x80 then z * 2 else bit_xor z 0x8C * 2 + 1

unshift_table : all_below 256 (λ z. unshift (shift z) == z) ≡ true
unfolding all_below unshift
unshift_table = refl

shift_injective : (c d : ℕ) → c < 256 → d < 256 → shift c ≡ shift d → c ≡ d
shift_injective c d hc hd e =
    sym ((==_iff _ _).0 (all_below_sound 256 _ c unshift_table hc))
    ∙ ap unshift e
    ∙ (==_iff _ _).0 (all_below_sound 256 _ d unshift_table hd)

shifts_injective : (n c d : ℕ) → c < 256 → d < 256 → shifts n c ≡ shifts n d → c ≡ d
unfolding shifts
shifts_injective zero c d hc hd e = e
shifts_injective (suc n) c d hc hd e =
    shift_injective c d hc hd
      (shifts_injective n (shift c) (shift d) (shift-lt c hc) (shift-lt d hd) e)

-- The Dallas checksum that the loops over bits compute is the one that takes in each byte by one
-- look-up in a table of 256 entries.
pub dallas_crc8_table :
    (bytes : List ℕ) → AreBytes bytes → dallas_crc8 bytes ≡ fold_bytes table_entry 0 bytes
unfolding dallas_crc8
dallas_crc8_table bytes b = crc_loop_fold 0 bytes (omega arith) b

dallas_crc8-lt : (bytes : List ℕ) → AreBytes bytes → dallas_crc8 bytes < 256
dallas_crc8-lt bytes b =
    subst (λ c. c < 256) (sym (dallas_crc8_table bytes b))
      (fold_bytes-lt table_entry table_entry-lt 0 bytes (omega arith) b)

AreBytes-append : (xs ys : List ℕ) → AreBytes xs → AreBytes ys → AreBytes (xs ++ ys)
AreBytes-append [] ys h k = k
AreBytes-append (x ∷ xs) ys h k = (h.0, AreBytes-append xs ys h.1 k)

-- A sequence of bytes with its Dallas checksum behind it has checksum 0, and with a byte before the
-- checksum replaced by a different one it has not.
pub dallas_crc8_checks :
    (front back : List ℕ) (x y : ℕ)
    → AreBytes front
    → AreBytes back
    → x < 256
    → y < 256
    → let sum = dallas_crc8 (front ++ (x ∷ back)) in
      (dallas_crc8 ((front ++ (x ∷ back)) ++ sum ∷ []) ≡ 0)
      × (dallas_crc8 ((front ++ (y ∷ back)) ++ sum ∷ []) ≡ 0 → x ≡ y)
unfolding table_entry
dallas_crc8_checks front back x y hf hb hx hy =
    let xs = front ++ (x ∷ back) in
    let ys = front ++ (y ∷ back) in
    let bx = AreBytes-append front (x ∷ back) hf (hx, hb) in
    let by = AreBytes-append front (y ∷ back) hf (hy, hb) in
    let sum = dallas_crc8 xs in
    let hs = dallas_crc8-lt xs bx in
    let ends = λ (zs : List ℕ) (bz : AreBytes zs).
      dallas_crc8_table (zs ++ sum ∷ []) (AreBytes-append zs (sum ∷ []) bz (hs, tt))
      ∙ fold_bytes-append table_entry 0 zs (sum ∷ [])
      ∙ ap (λ c. table_entry (bit_xor c sum)) (sym (dallas_crc8_table zs bz)) in
    (
      ends xs bx ∙ ap table_entry (bit_xor_self sum),
      λ zero.
          let hy' = dallas_crc8-lt ys by in
          let none_left =
            shifts_injective 8 (bit_xor (dallas_crc8 ys) sum) 0 (bit_xor-lt 8 _ _ hy' hs)
              (omega arith) (sym (ends ys by) ∙ zero) in
          let same : dallas_crc8 ys ≡ sum =
            bit_xor_cancel_right sum (dallas_crc8 ys) sum (none_left ∙ sym (bit_xor_self sum)) in
          fold_bytes_same table_entry table_entry-lt (shifts_injective 8) 0 front back x y
            (omega arith) hf hb hx hy
            (sym (dallas_crc8_table xs bx) ∙ sym same ∙ dallas_crc8_table ys by),
    )
