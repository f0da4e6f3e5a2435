-- ===== src/Gpio/EspIdf/Duty.antt =====
-- The duty of an analog value, and the timer that is set up before it is put out.
use jenlib.Common.{
  ℕ, ◌+◌, ◌-◌, ◌^◌, ◌≤◌, ◌<◌, ◌≡◌, refl, sym, ◌⊎◌, inl, inr, Bool-cases, true, List, [], ◌∷◌, ◌++◌,
  leb, ltb, if◌then◌else◌, arith,
}
use mathlib.Core.List.{append-nil}
use native.Mathlib.Nat.{pow-le-pow_right}
use jenlib.Gpio.EspIdf.{EspIdfGpioDriver, EspCall, ledc_timer_config, init_ledc, clamp_duty}

-- A value that fits the resolution is the duty; for any other it is the largest that fits.
abbrev pub IsDuty : ℕ → ℕ → ℕ → Type 0
IsDuty bits value duty =
    ((value < 2 ^ bits) × (duty ≡ value)) ⊎ ((2 ^ bits ≤ value) × (duty + 1 ≡ 2 ^ bits))

pub clamp_duty-IsDuty :
    (bits value : ℕ) → value < 2 ^ 16 → IsDuty bits value (clamp_duty bits value)
clamp_duty-IsDuty bits value small = elim (Bool-cases (leb 16 bits)) [
  | inl wide ↦
      let above : 2 ^ 16 ≤ 2 ^ bits = pow-le-pow_right (omega arith) {i = 16} (ground arith) in
      rw wide (inl (omega (arith, above), ground arith))
  | inr narrow ↦
      let some_duty : 2 ^ 0 ≤ 2 ^ bits = pow-le-pow_right (omega arith) {i = 0} (omega arith) in
      elim (Bool-cases (ltb (2 ^ bits - 1) value)) [
        | inl over ↦ rw (narrow, over) (inr (ground arith, omega (arith, some_duty)))
        | inr fits ↦ rw (narrow, fits) (inl (ground arith, refl))
      ]
]

-- The call that sets the timer up, if that has not been done.
abbrev pub timer_set_up : EspIdfGpioDriver → List EspCall
timer_set_up d = if d.ledc_initialized then [] else ledc_timer_config d.analog_write_bits ∷ []

pub init_ledc_keeps :
    (d : EspIdfGpioDriver)
    → let d' = init_ledc d in
      (d'.channel_used ≡ d.channel_used)
      × (d'.pin_to_channel ≡ d.pin_to_channel)
      × (d'.analog_write_bits ≡ d.analog_write_bits)
      × (d'.ledc_initialized ≡ true)
      × (d'.calls ≡ d.calls ++ timer_set_up d)
init_ledc_keeps d = elim (Bool-cases d.ledc_initialized) [
  | inl done ↦ rw done (refl, refl, refl, refl, sym (append-nil d.calls))
  | inr not_done ↦ rw not_done (refl, refl, refl, refl, refl)
]
