-- ===== src/Common/Float.antt =====
-- The operations of `float` that the program uses, as a parameter: the development says nothing of
-- rounding.
use Prim.Native.Nat.{ℕ}
use mathlib.Core.Bool.{Bool}
use jenlib.Common.Int.{ℤ}

pub record Floats (F : Type 0) : Type 0 where
  pub zero_f : F
  pub half_f : F
  pub hundred_f : F
  pub add : F → F → F
  pub sub : F → F → F
  pub mul : F → F → F
  pub div : F → F → F
  -- `a < b` and `a <= b`.
  pub lt : F → F → Bool
  pub le : F → F → Bool
  -- The conversions from and to integers; the ones to integers cut off the fraction.
  pub of_nat : ℕ → F
  pub of_int : ℤ → F
  pub to_nat : F → ℕ
  pub to_int : F → ℤ
