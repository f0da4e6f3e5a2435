-- ===== src/Gpio/EspIdf/Scaling.antt =====
-- The scaling of a converter's reading to 16 bits.
use jenlib.Common.{ℕ, ◌+◌, ◌-◌, ◌*◌, ◌^◌, ◌≤◌, ◌<◌, ◌≡◌, ap, subst, sym, ◌∙◌, ◌⊎◌, inl, inr, arith}
use jenlib.Common.Int.{ℤ, pos}
use jenlib.Gpio.EspIdf.{
  EspIdfGpioDriver, Chip, esp32, adc12, adc13, convert_adc_bits_width, scale_reading, analog_read,
}

-- The widths of the converters.
abbrev IsWidth : ℕ → Type 0
IsWidth bits = (9 ≤ bits) × (bits ≤ 13)

-- A width that a chip takes as it is.
convert_adc_bits_width-IsWidth :
    (chip : Chip) (bits : ℕ) → convert_adc_bits_width chip bits ≡ bits → IsWidth bits
convert_adc_bits_width-IsWidth esp32 bits e = ground arith
convert_adc_bits_width-IsWidth adc12 bits e = ground arith
convert_adc_bits_width-IsWidth adc13 bits e = ground arith

-- `v` is the reading `n` of `bits` bits as a part of 65535, rounded down.
abbrev pub ScaledTo : ℕ → ℕ → ℕ → Type 0
ScaledTo bits n v =
    let full = 2 ^ bits - 1 in (v ≤ 65535) × (v * full ≤ n * 65535) × (n * 65535 < v * full + full)

abbrev At : ℕ → ℕ → Type 0
At n bits = n < 2 ^ bits → ScaledTo bits n (scale_reading bits (pos n))

At-nine : (n : ℕ) → At n 9
unfolding scale_reading
At-nine n h = omega arith

At-ten : (n : ℕ) → At n 10
unfolding scale_reading
At-ten n h = omega arith

At-eleven : (n : ℕ) → At n 11
unfolding scale_reading
At-eleven n h = omega arith

At-twelve : (n : ℕ) → At n 12
unfolding scale_reading
At-twelve n h = omega arith

At-thirteen : (n : ℕ) → At n 13
unfolding scale_reading
At-thirteen n h = omega arith

width_cases :
    (bits : ℕ)
    → IsWidth bits
    → (bits ≡ 9) ⊎ ((bits ≡ 10) ⊎ ((bits ≡ 11) ⊎ ((bits ≡ 12) ⊎ (bits ≡ 13))))
width_cases bits w = ground arith

scaled_at :
    (bits n : ℕ) → IsWidth bits → n < 2 ^ bits → ScaledTo bits n (scale_reading bits (pos n))
scaled_at bits n w h = elim (width_cases bits w) [
  | inl e ↦ subst (At n) (sym e) (At-nine n) h
  | inr (inl e) ↦ subst (At n) (sym e) (At-ten n) h
  | inr (inr (inl e)) ↦ subst (At n) (sym e) (At-eleven n) h
  | inr (inr (inr (inl e))) ↦ subst (At n) (sym e) (At-twelve n) h
  | inr (inr (inr (inr e))) ↦ subst (At n) (sym e) (At-thirteen n) h
]

-- On a chip that takes the configured width as it is, a reading of that width is returned as its
-- part of full scale in 65535ths, rounded down: 0 as 0 and full scale as 65535.
pub analog_read_scales :
    (chip : Chip) (reading : ℕ → ℕ → ℤ) (d : EspIdfGpioDriver) (pin n : ℕ)
    → convert_adc_bits_width chip d.analog_read_bits ≡ d.analog_read_bits
    → reading d.analog_read_bits pin ≡ pos n
    → n < 2 ^ d.analog_read_bits
    → ScaledTo d.analog_read_bits n (analog_read chip reading d pin).0
unfolding analog_read
analog_read_scales chip reading d pin n kept found fits =
    let bits = d.analog_read_bits in
    let same : scale_reading bits (reading (convert_adc_bits_width chip bits) pin)
        ≡ scale_reading bits (pos n) =
      ap (λ w. scale_reading bits (reading w pin)) kept ∙ ap (scale_reading bits) found in
    subst (ScaledTo bits n) (sym same)
      (scaled_at bits n (convert_adc_bits_width-IsWidth chip bits kept) fits)
