-- ===== src/Common/Checksum.antt =====
-- Checksums of bytes that take in a byte by an exclusive or and a permutation of the bytes, and what
-- they detect.
use Prim.Native.Nat.{ℕ, ◌<◌, bit_xor}
use mathlib.Core.Path.{◌≡◌, refl, sym, ◌∙◌}
use mathlib.Core.List.{List, [], ◌∷◌, ◌++◌}
use jenlib.Common.Lists.{All}
use jenlib.Common.Bits.{bit_xor_cancel_left, bit_xor_cancel_right, bit_xor-lt}

abbrev pub AreBytes : List ℕ → Type 0
AreBytes l = All (λ x. x < 256) l

abbrev pub fold_bytes : (ℕ → ℕ) → ℕ → List ℕ → ℕ
fold_bytes step c [] = c
fold_bytes step c (x ∷ bytes) = fold_bytes step (step (bit_xor c x)) bytes

module _ (step : ℕ → ℕ) where
  pub fold_bytes-append :
      (c : ℕ) (front l : List ℕ)
      → fold_bytes step c (front ++ l) ≡ fold_bytes step (fold_bytes step c front) l
  fold_bytes-append c [] l = refl
  fold_bytes-append c (x ∷ front) l = fold_bytes-append (step (bit_xor c x)) front l

module _ (step : ℕ → ℕ) (step-lt : (c : ℕ) → c < 256 → step c < 256) where
  pub fold_bytes-lt : (c : ℕ) (l : List ℕ) → c < 256 → AreBytes l → fold_bytes step c l < 256
  fold_bytes-lt c [] h b = h
  fold_bytes-lt c (x ∷ l) h b =
      fold_bytes-lt (step (bit_xor c x)) l (step-lt (bit_xor c x) (bit_xor-lt 8 c x h b.0)) b.1

  module _ (step_injective : (c d : ℕ) → c < 256 → d < 256 → step c ≡ step d → c ≡ d) where
    fold_bytes_injective :
        (c d : ℕ) (l : List ℕ)
        → c < 256
        → d < 256
        → AreBytes l
        → fold_bytes step c l ≡ fold_bytes step d l
        → c ≡ d
    fold_bytes_injective c d [] hc hd b e = e
    fold_bytes_injective c d (x ∷ l) hc hd b e =
        let hx = bit_xor-lt 8 c x hc b.0 in
        let hy = bit_xor-lt 8 d x hd b.0 in
        let after =
          fold_bytes_injective (step (bit_xor c x)) (step (bit_xor d x)) l (step-lt _ hx)
            (step-lt _ hy) b.1 e in
        bit_xor_cancel_right x c d (step_injective _ _ hx hy after)

    -- Two byte strings that differ in one place at most and have the same checksum are equal.
    pub fold_bytes_same :
        (start : ℕ) (front back : List ℕ) (x y : ℕ)
        → start < 256
        → AreBytes front
        → AreBytes back
        → x < 256
        → y < 256
        → fold_bytes step start (front ++ (x ∷ back)) ≡ fold_bytes step start (front ++ (y ∷ back))
        → x ≡ y
    fold_bytes_same start front back x y hs hf hb hx hy e =
        let c = fold_bytes step start front in
        let hc = fold_bytes-lt start front hs hf in
        let lx = bit_xor-lt 8 c x hc hx in
        let ly = bit_xor-lt 8 c y hc hy in
        let same =
          sym (fold_bytes-append step start front (x ∷ back))
          ∙ e
          ∙ fold_bytes-append step start front (y ∷ back) in
        let after =
          fold_bytes_injective (step (bit_xor c x)) (step (bit_xor c y)) back (step-lt _ lx)
            (step-lt _ ly) hb same in
        bit_xor_cancel_left c x y (step_injective _ _ lx ly after)
