-- ===== src/Gpio/Arduino/Pwm.antt =====
-- The scaling of an analog value to the eight bits of `analogWrite`.
use jenlib.Common.{
  ℕ, zero, suc, false, subst, ◌+◌, ◌-◌, ◌*◌, ◌/◌, ◌^◌, ◌≤◌, ◌<◌, ◌≡◌, sym, ap, ◌∙◌, leb, arith,
}
use native.Mathlib.Numerals.{towards_suc}
use native.Mathlib.Nat.{
  pow-suc, div-mul-le_self, lt-div-mul-add, div-lt_iff_lt-mul, le-div_iff_mul-le, mod-eq_of_lt,
}
use jenlib.Gpio.Arduino.{pwm_value}

pow_pos : (k : ℕ) → 0 < 2 ^ k
pow_pos zero = omega arith
pow_pos (suc k) = omega (arith, pow-suc 2 k, pow_pos k)

pow_split : (k : ℕ) → 2 ^ (k + 8) ≡ 256 * 2 ^ k
pow_split k = simp towards_suc (omega arith)

div-le-div : (a b d : ℕ) → 0 < d → a ≤ b → a / d ≤ b / d
div-le-div a b d pos h = (le-div_iff_mul-le pos).1 (omega (arith, div-mul-le_self a d))

-- A value within its resolution loses its low bits, and no others.
pwm_value-div : (k v : ℕ) → v < 2 ^ (k + 8) → pwm_value (k + 8) v ≡ v / 2 ^ k
unfolding pwm_value
pwm_value-div zero v h = omega arith
pwm_value-div (suc k) v h =
    let pos = pow_pos (suc k) in
    let wide : leb (suc k + 8) 8 ≡ false = ground arith in
    let shift : suc k + 8 - 8 ≡ suc k = omega arith in
    let small : v / 2 ^ suc k < 256 =
      (div-lt_iff_lt-mul pos).1 (omega (arith, pow_split (suc k))) in
    rw (wide, shift) (mod-eq_of_lt small)

-- A value within a resolution of 8 bits and more is handed to the 8-bit `analogWrite` as the eight high
-- bits of that resolution: the result is below 256, a larger value never gives a smaller result, and
-- the result times the unit of a step is at most the value, which is less than one step above it.
pub pwm_value_scales :
    (bits v w : ℕ)
    → 8 ≤ bits
    → v ≤ w
    → w < 2 ^ bits
    → let out = pwm_value bits v in
      let unit = 2 ^ (bits - 8) in
      (out < 256) × (out ≤ pwm_value bits w) × (out * unit ≤ v) × (v < out * unit + unit)
pwm_value_scales bits v w h le fits =
    let k = bits - 8 in
    let wide : bits ≡ k + 8 = omega arith in
    let fits' : w < 2 ^ (k + 8) = subst (λ b. w < 2 ^ b) wide fits in
    let pos = pow_pos k in
    let of_v : pwm_value bits v ≡ v / 2 ^ k =
      ap (λ b. pwm_value b v) wide ∙ pwm_value-div k v (omega arith) in
    let of_w : pwm_value bits w ≡ w / 2 ^ k =
      ap (λ b. pwm_value b w) wide ∙ pwm_value-div k w fits' in
    let small : v / 2 ^ k < 256 = (div-lt_iff_lt-mul pos).1 (omega (arith, pow_split k)) in
    (
      omega (arith, of_v),
      omega (arith, of_v, of_w, div-le-div v w (2 ^ k) pos le),
      subst (λ q. q * 2 ^ k ≤ v) (sym of_v) (div-mul-le_self v (2 ^ k)),
      subst (λ q. v < q * 2 ^ k + 2 ^ k) (sym of_v) (lt-div-mul-add pos),
    )
