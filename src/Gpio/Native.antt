-- ===== src/Gpio/Native.antt =====
-- include/jenlib/gpio/drivers/NativeGpioDriver.h: the driver that keeps the pins in maps. A map is a
-- function; the operations of `float` are a parameter.
use jenlib.Common.{ℕ, ◌-◌, ◌%◌, ◌^◌, ◌==◌, Option, none, some, if◌then◌else◌}
use jenlib.Common.Float.{Floats}
use jenlib.Gpio.{PinMode, DigitalValue, low, high, GpioDriver}

pub record NativeGpioDriver (F : Type 0) : Type 0 where
  pub pin_modes : ℕ → Option PinMode
  pub digital_values : ℕ → Option DigitalValue
  pub analog_values : ℕ → Option ℕ
  pub pin_voltage : ℕ → Option F
  pub analog_read_bits : ℕ
  pub analog_write_bits : ℕ
  pub reference_voltage : F
  pub digital_threshold_ratio : F

-- `m[pin] = v`
abbrev pub store : {V : Type 0} → (ℕ → Option V) → ℕ → V → ℕ → Option V
store m pin v other = if other == pin then some v else m other

-- `it != m.end() ? it->second : v`
abbrev pub value_or : {V : Type 0} → V → Option V → V
value_or v none = v
value_or v (some x) = x

module _ {F : Type 0} (floats : Floats F) where
  open floats use {zero_f, half_f, add, mul, div, lt, le, of_nat, to_nat}

  -- 3.3 volts and a ratio of 0.5 are given.
  abbrev pub new_driver : F → F → NativeGpioDriver F
  new_driver volts ratio = record {
    pin_modes = λ _. none;
    digital_values = λ _. none;
    analog_values = λ _. none;
    pin_voltage = λ _. none;
    analog_read_bits = 10;
    analog_write_bits = 8;
    reference_voltage = volts;
    digital_threshold_ratio = ratio;
  }

  abbrev pub set_reference_voltage : NativeGpioDriver F → F → NativeGpioDriver F
  set_reference_voltage d volts = record d { reference_voltage = volts }

  abbrev pub set_digital_threshold_ratio : NativeGpioDriver F → F → NativeGpioDriver F
  set_digital_threshold_ratio d ratio = record d { digital_threshold_ratio = ratio }

  abbrev pub set_pin_voltage : NativeGpioDriver F → ℕ → F → NativeGpioDriver F
  set_pin_voltage d pin volts = record d { pin_voltage = store d.pin_voltage pin volts }

  abbrev pub set_pin_mode : NativeGpioDriver F → ℕ → PinMode → NativeGpioDriver F
  set_pin_mode d pin mode = record d { pin_modes = store d.pin_modes pin mode }

  abbrev pub digital_write : NativeGpioDriver F → ℕ → DigitalValue → NativeGpioDriver F
  digital_write d pin value = record d { digital_values = store d.digital_values pin value }

  -- A voltage at the threshold is high.
  abbrev pub level_of : NativeGpioDriver F → F → DigitalValue
  level_of d volts =
      if le (mul d.reference_voltage d.digital_threshold_ratio) volts then high else low

  unfoldable pub digital_read : NativeGpioDriver F → ℕ → DigitalValue × NativeGpioDriver F
  digital_read d pin = elim (d.pin_voltage pin) [
    | some volts ↦ (level_of d volts, d)
    | none ↦ (value_or low (d.digital_values pin), d)
  ]

  abbrev pub analog_write : NativeGpioDriver F → ℕ → ℕ → NativeGpioDriver F
  analog_write d pin value = record d { analog_values = store d.analog_values pin value }

  -- A voltage as a code of the resolution.
  abbrev pub code_of : NativeGpioDriver F → F → ℕ
  code_of d volts =
      let max_code = (2 ^ d.analog_read_bits - 1) % 2 ^ 16 in
      let not_below = if lt volts zero_f then zero_f else volts in
      let clamped = if lt d.reference_voltage not_below then d.reference_voltage else not_below in
      let ratio =
        if lt zero_f d.reference_voltage then div clamped d.reference_voltage else zero_f in
      to_nat (add (mul ratio (of_nat max_code)) half_f) % 2 ^ 16

  unfoldable pub analog_read : NativeGpioDriver F → ℕ → ℕ × NativeGpioDriver F
  analog_read d pin = elim (d.pin_voltage pin) [
    | some volts ↦ (code_of d volts, d)
    | none ↦ (value_or 0 (d.analog_values pin), d)
  ]

  abbrev pub set_analog_read_resolution : NativeGpioDriver F → ℕ → NativeGpioDriver F
  set_analog_read_resolution d bits = record d { analog_read_bits = bits }

  abbrev pub set_analog_write_resolution : NativeGpioDriver F → ℕ → NativeGpioDriver F
  set_analog_write_resolution d bits = record d { analog_write_bits = bits }

  abbrev pub native_gpio : GpioDriver (NativeGpioDriver F)
  native_gpio = record {
    set_pin_mode = set_pin_mode;
    digital_write = digital_write;
    digital_read = digital_read;
    analog_write = analog_write;
    analog_read = analog_read;
    set_analog_read_resolution = set_analog_read_resolution;
    set_analog_write_resolution = set_analog_write_resolution;
    get_analog_read_resolution = λ d. d.analog_read_bits;
    get_analog_write_resolution = λ d. d.analog_write_bits;
  }
