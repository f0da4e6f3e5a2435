-- ===== src/Common/Int.antt =====
-- Signed integers over the native numbers, and `int16_t` as the integer that a 16-bit pattern
-- stands for in two's complement.
use Prim.Native.Nat.{ℕ, ◌-◌, ◌%◌, ◌^◌, ◌<◌}
use mathlib.Core.Path.{◌≡◌}
use native.Mathlib.Omega.{arith}
use jenlib.Common.Tests.{ltb, if◌then◌else◌}

-- `negsuc n` is -(n + 1).
pub data ℤ : Type 0 where
  pos : ℕ → ℤ
  negsuc : ℕ → ℤ

-- The values of an `int16_t`.
abbrev pub IsI16 : ℤ → Type 0
IsI16 (pos n) = n < 2 ^ 15
IsI16 (negsuc n) = n < 2 ^ 15

-- `static_cast<std::uint16_t>` of a signed value, and `static_cast<std::int16_t>` of a pattern.
abbrev pub u16_of_i16 : ℤ → ℕ
u16_of_i16 (pos n) = n % 2 ^ 16
u16_of_i16 (negsuc n) = 2 ^ 16 - 1 - n % 2 ^ 16

abbrev pub i16_of_u16 : ℕ → ℤ
i16_of_u16 w = if ltb w (2 ^ 15) then pos w else negsuc (2 ^ 16 - 1 - w)

pub i16_of_u16-u16_of_i16 : (z : ℤ) → IsI16 z → i16_of_u16 (u16_of_i16 z) ≡ z
i16_of_u16-u16_of_i16 (pos n) h = ground arith
i16_of_u16-u16_of_i16 (negsuc n) h = ground arith

pub u16_of_i16-i16_of_u16 : (w : ℕ) → w < 2 ^ 16 → u16_of_i16 (i16_of_u16 w) ≡ w
u16_of_i16-i16_of_u16 w h = ground arith

pub u16_of_i16-lt : (z : ℤ) → u16_of_i16 z < 2 ^ 16
u16_of_i16-lt (pos n) = omega arith
u16_of_i16-lt (negsuc n) = omega arith

pub i16_of_u16-IsI16 : (w : ℕ) → w < 2 ^ 16 → IsI16 (i16_of_u16 w)
i16_of_u16-IsI16 w h = ground arith
