-- ===== src/Common/Bits.antt =====
-- Bit operations on words of any width as arithmetic: one equation for the lowest binary digit, and
-- what the program needs of it (joining bytes by `|`, undoing a `^`, staying within a width).
use Prim.Native.Nat.{
  ℕ, zero, suc, ◌+◌, ◌*◌, ◌/◌, ◌%◌, ◌^◌, ◌≤◌, ◌<◌, max, bit_or, bit_xor, digits, differ,
  bit_or-bitwise, bit_xor-bitwise,
}
use mathlib.Core.Path.{◌≡◌, refl, sym, ap, ◌∙◌}
use native.Mathlib.Nat.{pow-suc}
use native.Mathlib.Omega.{arith}

-- The fuel of the digit recursion does not matter once it covers the first word.
enough_digits :
    (f : ℕ → ℕ → ℕ) (n a b : ℕ) → a ≤ n → digits (λ y. y) f n a b ≡ digits (λ y. y) f a a b
enough_digits f n a b h = meet n a a b h (omega arith)
  where
    meet : (n m a b : ℕ) → a ≤ n → a ≤ m → digits (λ y. y) f n a b ≡ digits (λ y. y) f m a b
    meet zero zero a b p q = refl
    meet zero (suc m) zero b p q = refl
    meet zero (suc m) (suc a) b p q = absurd (omega arith)
    meet (suc n) zero zero b p q = refl
    meet (suc n) zero (suc a) b p q = absurd (omega arith)
    meet (suc n) (suc m) zero b p q = refl
    meet (suc n) (suc m) (suc a) b p q =
        rw (meet n m (suc a / 2) (b / 2) (omega arith) (omega arith))

bit_or_digit : (a b : ℕ) → bit_or a b ≡ bit_or (a / 2) (b / 2) * 2 + max (a % 2) (b % 2)
bit_or_digit zero b = simp bit_or-bitwise (omega arith)
bit_or_digit (suc a) b =
    simp bit_or-bitwise (omega (arith, enough_digits max a (suc a / 2) (b / 2)))

bit_xor_digit : (a b : ℕ) → bit_xor a b ≡ bit_xor (a / 2) (b / 2) * 2 + differ (a % 2) (b % 2)
bit_xor_digit zero b = simp bit_xor-bitwise (omega arith)
bit_xor_digit (suc a) b =
    simp bit_xor-bitwise (omega (arith, enough_digits differ a (suc a / 2) (b / 2)))

bit_or_zero_below : (n b : ℕ) → b ≤ n → bit_or b 0 ≡ b
bit_or_zero_below n zero h = refl
bit_or_zero_below zero (suc b) h = absurd (omega arith)
bit_or_zero_below (suc n) (suc b) h =
    omega (arith, bit_or_digit (suc b) 0, bit_or_zero_below n (suc b / 2) (omega arith))

double_shift : (q k : ℕ) → q * 2 ^ suc k ≡ 2 * (q * 2 ^ k)
double_shift q k = omega (arith, ap (λ (t : ℕ). q * t) (pow-suc 2 k))

-- `low | (high << k)` is a sum when `low` fits `k` bits.
pub bit_or_join : (k low high : ℕ) → low < 2 ^ k → bit_or low (high * 2 ^ k) ≡ low + high * 2 ^ k
bit_or_join zero zero high h = simp bit_or-bitwise (omega arith)
bit_or_join zero (suc low) high h = absurd (omega arith)
bit_or_join (suc k) low high h =
    let halved : high * 2 ^ suc k / 2 ≡ high * 2 ^ k = omega (arith, double_shift high k) in
    bit_or_digit low (high * 2 ^ suc k)
    ∙ rw (halved, bit_or_join k (low / 2) high (omega (arith, pow-suc 2 k)))
        (omega (arith, double_shift high k))

-- The two lowest digits of an exclusive or, and undoing it.
differ_cases : (x y : ℕ) → x < 2 → y < 2 → (differ x (differ x y) ≡ y) × (differ x y < 2)
differ_cases zero y p q = (refl, q)
differ_cases (suc zero) zero p q = (refl, omega arith)
differ_cases (suc zero) (suc zero) p q = (refl, omega arith)
differ_cases (suc zero) (suc (suc y)) p q = absurd (omega arith)
differ_cases (suc (suc x)) y p q = absurd (omega arith)

pub bit_xor_lowest :
    (a b : ℕ)
    → (bit_xor a b / 2 ≡ bit_xor (a / 2) (b / 2)) × (bit_xor a b % 2 ≡ differ (a % 2) (b % 2))
bit_xor_lowest a b =
    let (_, small) = differ_cases (a % 2) (b % 2) (omega arith) (omega arith) in
    (omega (arith, bit_xor_digit a b), omega (arith, bit_xor_digit a b))

bit_xor_undo_below : (n a b : ℕ) → a ≤ n → bit_xor a (bit_xor a b) ≡ b
bit_xor_undo_below n zero b h = simp bit_xor-bitwise refl
bit_xor_undo_below zero (suc a) b h = absurd (omega arith)
bit_xor_undo_below (suc n) (suc a) b h =
    let (half, low) = bit_xor_lowest (suc a) b in
    let (undone, _) = differ_cases (suc a % 2) (b % 2) (omega arith) (omega arith) in
    bit_xor_digit (suc a) (bit_xor (suc a) b)
    ∙ rw (half, low, undone, bit_xor_undo_below n (suc a / 2) (b / 2) (omega arith)) (omega arith)

-- An exclusive or by the same word twice cancels.
bit_xor_undo : (a b : ℕ) → bit_xor a (bit_xor a b) ≡ b
bit_xor_undo a b = bit_xor_undo_below a a b (omega arith)

-- It stays within the width of its operands.
pub bit_xor-lt : (k a b : ℕ) → a < 2 ^ k → b < 2 ^ k → bit_xor a b < 2 ^ k
bit_xor-lt zero zero b p q = simp bit_xor-bitwise q
bit_xor-lt zero (suc a) b p q = absurd (omega arith)
bit_xor-lt (suc k) a b p q =
    let (_, small) = differ_cases (a % 2) (b % 2) (omega arith) (omega arith) in
    let grow = pow-suc 2 k in
    omega (arith, bit_xor_digit a b, bit_xor-lt k (a / 2) (b / 2) (omega arith) (omega arith))

differ_comm : (x y : ℕ) → x < 2 → y < 2 → differ x y ≡ differ y x
differ_comm zero zero p q = refl
differ_comm zero (suc y) p q = refl
differ_comm (suc x) zero p q = refl
differ_comm (suc zero) (suc zero) p q = refl
differ_comm (suc (suc x)) (suc y) p q = absurd (omega arith)
differ_comm (suc zero) (suc (suc y)) p q = absurd (omega arith)

bit_xor_comm_below : (n a b : ℕ) → a ≤ n → b ≤ n → bit_xor a b ≡ bit_xor b a
bit_xor_comm_below zero zero zero p q = refl
bit_xor_comm_below zero zero (suc b) p q = absurd (omega arith)
bit_xor_comm_below zero (suc a) b p q = absurd (omega arith)
bit_xor_comm_below (suc n) a b p q = omega (
  arith,
  bit_xor_digit a b,
  bit_xor_digit b a,
  differ_comm (a % 2) (b % 2) (omega arith) (omega arith),
  bit_xor_comm_below n (a / 2) (b / 2) (omega arith) (omega arith),
)

pub bit_xor_comm : (a b : ℕ) → bit_xor a b ≡ bit_xor b a
bit_xor_comm a b = bit_xor_comm_below (a + b) a b (omega arith) (omega arith)

pub bit_xor_cancel_left : (a b c : ℕ) → bit_xor a b ≡ bit_xor a c → b ≡ c
bit_xor_cancel_left a b c e = sym (bit_xor_undo a b) ∙ ap (bit_xor a) e ∙ bit_xor_undo a c

pub bit_xor_cancel_right : (a b c : ℕ) → bit_xor b a ≡ bit_xor c a → b ≡ c
bit_xor_cancel_right a b c e = bit_xor_cancel_left a b c (bit_xor_comm a b ∙ e ∙ bit_xor_comm c a)

differ_assoc :
    (x y z : ℕ)
    → x < 2
    → y < 2
    → z < 2
    → (differ (differ x y) z ≡ differ x (differ y z)) × (differ x y < 2)
differ_assoc zero zero zero p q r = (refl, omega arith)
differ_assoc zero zero (suc zero) p q r = (refl, omega arith)
differ_assoc zero (suc zero) zero p q r = (refl, omega arith)
differ_assoc zero (suc zero) (suc zero) p q r = (refl, omega arith)
differ_assoc (suc zero) zero zero p q r = (refl, omega arith)
differ_assoc (suc zero) zero (suc zero) p q r = (refl, omega arith)
differ_assoc (suc zero) (suc zero) zero p q r = (refl, omega arith)
differ_assoc (suc zero) (suc zero) (suc zero) p q r = (refl, omega arith)
differ_assoc (suc (suc x)) y z p q r = absurd (omega arith)
differ_assoc zero (suc (suc y)) z p q r = absurd (omega arith)
differ_assoc (suc zero) (suc (suc y)) z p q r = absurd (omega arith)
differ_assoc zero zero (suc (suc z)) p q r = absurd (omega arith)
differ_assoc zero (suc zero) (suc (suc z)) p q r = absurd (omega arith)
differ_assoc (suc zero) zero (suc (suc z)) p q r = absurd (omega arith)
differ_assoc (suc zero) (suc zero) (suc (suc z)) p q r = absurd (omega arith)

bit_xor_assoc_below :
    (n a b c : ℕ) → a ≤ n → b ≤ n → c ≤ n → bit_xor (bit_xor a b) c ≡ bit_xor a (bit_xor b c)
bit_xor_assoc_below zero zero zero zero p q r = refl
bit_xor_assoc_below zero (suc a) b c p q r = absurd (omega arith)
bit_xor_assoc_below zero zero (suc b) c p q r = absurd (omega arith)
bit_xor_assoc_below zero zero zero (suc c) p q r = absurd (omega arith)
bit_xor_assoc_below (suc n) a b c p q r =
    let (half_ab, low_ab) = bit_xor_lowest a b in
    let (half_bc, low_bc) = bit_xor_lowest b c in
    let (low, _) = differ_assoc (a % 2) (b % 2) (c % 2) (omega arith) (omega arith) (omega arith) in
    let halves =
      bit_xor_assoc_below n (a / 2) (b / 2) (c / 2) (omega arith) (omega arith) (omega arith) in
    omega (
      arith,
      bit_xor_digit (bit_xor a b) c,
      bit_xor_digit a (bit_xor b c),
      ap (λ h. bit_xor h (c / 2)) half_ab,
      ap (λ l. differ l (c % 2)) low_ab,
      ap (bit_xor (a / 2)) half_bc,
      ap (differ (a % 2)) low_bc,
      halves,
      low,
    )

pub bit_xor_assoc : (a b c : ℕ) → bit_xor (bit_xor a b) c ≡ bit_xor a (bit_xor b c)
bit_xor_assoc a b c =
    bit_xor_assoc_below (a + (b + c)) a b c (omega arith) (omega arith) (omega arith)

pub bit_xor_zero : (a : ℕ) → bit_xor a 0 ≡ a
bit_xor_zero a = bit_xor_comm a 0 ∙ simp bit_xor-bitwise refl

pub bit_xor_self : (a : ℕ) → bit_xor a a ≡ 0
bit_xor_self a = ap (bit_xor a) (sym (bit_xor_zero a)) ∙ bit_xor_undo a 0
