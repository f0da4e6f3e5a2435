-- ===== src/Gpio.antt =====
-- include/jenlib/gpio/GpioDriver.h, include/jenlib/gpio/GPIO.h and src/gpio/GPIO.cpp: the interface of
-- the pin drivers, and the wrapper that passes calls on to the driver that is set and does nothing
-- without one.
pub mod Native
pub mod EspIdf
pub mod Arduino
pub mod Wrapper
mod Tests
use jenlib.Common.{ℕ, Option, none, some}

pub data PinMode : Type 0 where
  input output input_pullup input_pulldown : PinMode

pub data DigitalValue : Type 0 where
  low high : DigitalValue

-- The operations of a driver with states `D`; a read returns what it found and the new state.
pub record GpioDriver (D : Type 0) : Type 0 where
  pub set_pin_mode : D → ℕ → PinMode → D
  pub digital_write : D → ℕ → DigitalValue → D
  pub digital_read : D → ℕ → DigitalValue × D
  pub analog_write : D → ℕ → ℕ → D
  pub analog_read : D → ℕ → ℕ × D
  pub set_analog_read_resolution : D → ℕ → D
  pub set_analog_write_resolution : D → ℕ → D
  pub get_analog_read_resolution : D → ℕ
  pub get_analog_write_resolution : D → ℕ

-- A handle of a pin, which `PinMap` makes of its index.
pub record Pin : Type 0 where
  pub raw_pin : ℕ

abbrev pub pin_at : ℕ → Pin
pin_at index = record { raw_pin = index }

-- `g_driver`, `g_ar_bits` and `g_aw_bits`.
pub record Gpio (D : Type 0) : Type 0 where
  pub driver : Option D
  pub ar_bits : ℕ
  pub aw_bits : ℕ

abbrev pub new_gpio : {D : Type 0} → Gpio D
new_gpio = record { driver = none; ar_bits = 10; aw_bits = 8 }

module _ {D : Type 0} (interface : GpioDriver D) where
  -- A call that is passed on to the driver.
  abbrev pub pass_on : (D → D) → Gpio D → Gpio D
  pass_on call g = elim g.driver [ none ↦ g | some d ↦ record g { driver = some (call d) } ]

  abbrev pub read_from : {V : Type 0} → V → (D → V × D) → Gpio D → V × Gpio D
  read_from unread call g = elim g.driver [
    | none ↦ (unread, g)
    | some d ↦ let (v, d') = call d in (v, record g { driver = some d' })
  ]

  unfoldable pub pin_mode : Pin → PinMode → Gpio D → Gpio D
  pin_mode p mode = pass_on (λ d. interface.set_pin_mode d p.raw_pin mode)

  unfoldable pub digital_write : Pin → DigitalValue → Gpio D → Gpio D
  digital_write p value = pass_on (λ d. interface.digital_write d p.raw_pin value)

  unfoldable pub analog_write : Pin → ℕ → Gpio D → Gpio D
  analog_write p value = pass_on (λ d. interface.analog_write d p.raw_pin value)

  unfoldable pub digital_read : Pin → Gpio D → DigitalValue × Gpio D
  digital_read p = read_from low (λ d. interface.digital_read d p.raw_pin)

  unfoldable pub analog_read : Pin → Gpio D → ℕ × Gpio D
  analog_read p = read_from 0 (λ d. interface.analog_read d p.raw_pin)

  unfoldable pub set_analog_read_resolution : ℕ → Gpio D → Gpio D
  set_analog_read_resolution bits g =
      pass_on (λ d. interface.set_analog_read_resolution d bits) (record g { ar_bits = bits })

  unfoldable pub set_analog_write_resolution : ℕ → Gpio D → Gpio D
  set_analog_write_resolution bits g =
      pass_on (λ d. interface.set_analog_write_resolution d bits) (record g { aw_bits = bits })

  unfoldable pub get_analog_read_resolution : Gpio D → ℕ
  get_analog_read_resolution g = elim g.driver [
    | some d ↦ interface.get_analog_read_resolution d
    | none ↦ g.ar_bits
  ]

  unfoldable pub get_analog_write_resolution : Gpio D → ℕ
  get_analog_write_resolution g = elim g.driver [
    | some d ↦ interface.get_analog_write_resolution d
    | none ↦ g.aw_bits
  ]

module _ {D : Type 0} where
  abbrev pub set_driver : Option D → Gpio D → Gpio D
  set_driver driver g = record g { driver = driver }

  abbrev pub get_driver : Gpio D → Option D
  get_driver g = g.driver
