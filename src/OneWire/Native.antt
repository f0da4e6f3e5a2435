-- ===== src/OneWire/Native.antt =====
-- The native bus over the native pin driver.
use jenlib.Common.{
  ℕ, zero, suc, ◌<◌, ◌≡◌, refl, ap, subst, ◌∙◌, ◌/◌, Bool, true, false, not, none, some, bit_and,
  ◌==◌, Option-cases, if◌then◌else◌, arith, replicate, inl, inr,
}
use jenlib.Common.Float.{Floats}
use jenlib.Gpio.{
  low, high, GpioDriver, Gpio, output, input_pullup, pin_mode, digital_write, digital_read,
}
use jenlib.Gpio.Native
use jenlib.Gpio.Native.{store, NativeGpioDriver, native_gpio, level_of}
use jenlib.OneWire.{
  OneWireBus, write_bits, read_bits, write_bit, read_bit, write_byte, read_byte, is_high,
}
use jenlib.OneWire.Bytes.{bits_of, Gives, read_bits_lem}

module _ {D : Type 0} (interface : GpioDriver D) (bus : OneWireBus) where
  write_bits_blind :
      (n x y : ℕ) (g : Gpio D)
      → write_bits (write_bit interface bus) n x g ≡ write_bits (write_bit interface bus) n y g
  unfolding write_bits write_bit
  write_bits_blind zero x y g = refl
  write_bits_blind (suc n) x y g =
      write_bits_blind n (x / 2) (y / 2) _
      ∙ ap (write_bits (write_bit interface bus) n (y / 2))
          (same (not (bit_and x 0x01 == 0)) (not (bit_and y 0x01 == 0)))
    where
      same : (a b : Bool) → write_bit interface bus a g ≡ write_bit interface bus b g
      same true true = refl
      same true false = refl
      same false true = refl
      same false false = refl

  -- Over any pin driver, the native bus leaves the pins in the same state whatever byte it writes.
  pub write_byte_blind :
      (x y : ℕ) (g : Gpio D) → write_byte interface bus x g ≡ write_byte interface bus y g
  unfolding write_byte
  write_byte_blind x y g = ap (λ w. if not bus.initialized then g else w) (write_bits_blind 8 x y g)

module _ {F : Type 0} (floats : Floats F) (bus : OneWireBus) where
  -- The bit that the native driver gives on a pin that was just written low.
  abbrev pub pulled_bit : NativeGpioDriver F → Bool
  pulled_bit d = elim (d.pin_voltage bus.pin) [
    | none ↦ false
    | some volts ↦ is_high (level_of floats d volts)
  ]

  -- What a read of a bit leaves.
  abbrev after : NativeGpioDriver F → NativeGpioDriver F
  after d = record d {
    pin_modes = store (store d.pin_modes bus.pin input_pullup) bus.pin output;
    digital_values = store (store d.digital_values bus.pin low) bus.pin high;
  }

  read_bit_native :
      (g : Gpio (NativeGpioDriver F)) (d : NativeGpioDriver F)
      → read_bit (native_gpio floats) bus (record g { driver = some d })
        ≡ (pulled_bit d, record g { driver = some (after d) })
  unfolding read_bit digital_write pin_mode digital_read Native.digital_read
  read_bit_native g d = elim (Option-cases (d.pin_voltage bus.pin)) [
    | inl e ↦ ground arith
    | inr (volts, e) ↦ ground arith
  ]

  abbrev over : Gpio (NativeGpioDriver F) → NativeGpioDriver F → Gpio (NativeGpioDriver F)
  over g d = record g { driver = some d }

  -- A state of the wrapper over a driver that gives the same bit.
  abbrev Same : Gpio (NativeGpioDriver F) → NativeGpioDriver F → Gpio (NativeGpioDriver F) → Type 0
  Same g d g' = (d' : NativeGpioDriver F) × (g' ≡ over g d') × (pulled_bit d' ≡ pulled_bit d)

  writes_native :
      (n x : ℕ) (g : Gpio (NativeGpioDriver F)) (d : NativeGpioDriver F)
      → Same g d (write_bits (write_bit (native_gpio floats) bus) n x (over g d))
  unfolding write_bits write_bit digital_write
  writes_native zero x g d = (d, refl, refl)
  writes_native (suc n) x g d =
      let pulse = record d {
        digital_values = store (store d.digital_values bus.pin low) bus.pin high;
      } in
      let (d', e, s) = writes_native n (x / 2) g pulse in
      (
        d',
        ap (write_bits (write_bit (native_gpio floats) bus) n (x / 2))
              (pulsed (not (bit_and x 0x01 == 0)))
            ∙ e,
        s,
      )
    where
      pulsed :
          (b : Bool)
          → write_bit (native_gpio floats) bus b (over g d)
            ≡ over g (record d {
              digital_values = store (store d.digital_values bus.pin low) bus.pin high;
            })
      pulsed true = refl
      pulsed false = refl

  reads_native :
      (n : ℕ) (g : Gpio (NativeGpioDriver F)) (d : NativeGpioDriver F)
      → (g' : Gpio (NativeGpioDriver F)) × Gives
          (read_bit (native_gpio floats) bus)
          (replicate n (pulled_bit d))
          (over g d)
          g'
        × Same g d g'
  reads_native zero g d = (over g d, refl, (d, refl, refl))
  reads_native (suc n) g d =
      let (g', given, same) = reads_native n g (after d) in
      (g', (over g (after d), read_bit_native g d, given), same)

  all_bits : (b : Bool) → replicate 8 b ≡ bits_of 8 (if b then 255 else 0)
  all_bits true = refl
  all_bits false = refl

  small_byte : (b : Bool) → (if b then 255 else 0) < 256
  small_byte true = omega arith
  small_byte false = omega arith

  -- An initialized native bus over the native pin driver reads, whatever byte it has just written,
  -- 255 if a voltage at the threshold or above is set on its pin and 0 otherwise.
  pub native_bus_reads :
      (x : ℕ) (g : Gpio (NativeGpioDriver F)) (d : NativeGpioDriver F)
      → bus.initialized ≡ true
      → g.driver ≡ some d
      → (read_byte (native_gpio floats) bus (write_byte (native_gpio floats) bus x g)).0
        ≡ (if pulled_bit d then 255 else 0)
  unfolding write_byte read_byte
  native_bus_reads x g d ready set_up =
      let wire = native_gpio floats in
      let (d', written, s) = writes_native 8 x g d in
      let (g'', given, _) = reads_native 8 g d' in
      let bits =
        subst (λ l. Gives (read_bit wire bus) l (over g d') g'') (all_bits (pulled_bit d')) given in
      let value =
        read_bits_lem (read_bit wire bus) _ (over g d') g'' (small_byte (pulled_bit d')) bits in
      let start : g ≡ over g d = ap (λ o. record g { driver = o }) set_up in
      ap
        (λ b.
          (if not b
            then (0, if not b then g else write_bits (write_bit wire bus) 8 x g)
            else read_bits (read_bit wire bus) 8 0
                (if not b then g else write_bits (write_bit wire bus) 8 x g)).0)
        ready
      ∙ ap (λ w. (read_bits (read_bit wire bus) 8 0 (write_bits (write_bit wire bus) 8 x w)).0)
          start
      ∙ ap (λ w. (read_bits (read_bit wire bus) 8 0 w).0) written
      ∙ ap (λ r. r.0) value
      ∙ ap (λ b. if b then 255 else 0) s
