-- ===== src/Gpio/Arduino.antt =====
-- src/gpio/drivers/ArduinoGpioDriver.cpp. The calls of the Arduino core are collected in `calls`, oldest
-- first; what a read of the core returns is an argument, and so are the switches of the preprocessor:
-- whether the core has INPUT_PULLDOWN and whether analogReadResolution and analogWriteResolution are
-- macros.
pub mod Pwm
use jenlib.Common.{
  ℕ, ◌-◌, ◌/◌, ◌%◌, ◌^◌, Bool, true, false, List, [], ◌∷◌, ◌++◌, ◌==◌, leb, if◌then◌else◌,
}
use jenlib.Gpio.{
  PinMode, input, output, input_pullup, input_pulldown, DigitalValue, low, high, GpioDriver,
}

-- The modes are those of the core.
pub data CoreCall : Type 0 where
  core_pin_mode : ℕ → PinMode → CoreCall
  core_digital_write : ℕ → DigitalValue → CoreCall
  core_analog_write : ℕ → ℕ → CoreCall
  core_read_resolution core_write_resolution : ℕ → CoreCall

pub record ArduinoGpioDriver : Type 0 where
  pub analog_read_bits : ℕ
  pub analog_write_bits : ℕ
  pub calls : List CoreCall

abbrev pub new_driver : ArduinoGpioDriver
new_driver = record { analog_read_bits = 10; analog_write_bits = 8; calls = [] }

abbrev issue : CoreCall → ArduinoGpioDriver → ArduinoGpioDriver
issue call d = record d { calls = d.calls ++ (call ∷ []) }

-- The `switch` of `set_pin_mode`.
abbrev core_mode : Bool → PinMode → PinMode
core_mode has_pulldown input = input
core_mode has_pulldown output = output
core_mode has_pulldown input_pullup = input_pullup
core_mode has_pulldown input_pulldown = if has_pulldown then input_pulldown else input

abbrev pub set_pin_mode : Bool → ArduinoGpioDriver → ℕ → PinMode → ArduinoGpioDriver
set_pin_mode has_pulldown d pin mode = issue (core_pin_mode pin (core_mode has_pulldown mode)) d

abbrev pub digital_write : ArduinoGpioDriver → ℕ → DigitalValue → ArduinoGpioDriver
digital_write d pin value = issue (core_digital_write pin value) d

-- `level` is what `digitalRead` of the core returns, 1 for HIGH.
abbrev pub digital_read : (ℕ → ℕ) → ArduinoGpioDriver → ℕ → DigitalValue × ArduinoGpioDriver
digital_read level d pin = (if level pin == 1 then high else low, d)

-- What `analog_write` hands to an 8-bit `analogWrite`.
unfoldable pub pwm_value : ℕ → ℕ → ℕ
pwm_value analog_write_bits value =
    if leb analog_write_bits 8 then value % 2 ^ 8 else value / 2 ^ (analog_write_bits - 8) % 2 ^ 8

abbrev pub analog_write : Bool → ArduinoGpioDriver → ℕ → ℕ → ArduinoGpioDriver
analog_write has_resolution d pin value =
    if has_resolution
    then issue (core_analog_write pin value) d
    else issue (core_analog_write pin (pwm_value d.analog_write_bits value)) d

-- `level` is what `analogRead` of the core returns, cut to 16 bits.
abbrev pub analog_read : (ℕ → ℕ) → ArduinoGpioDriver → ℕ → ℕ × ArduinoGpioDriver
analog_read level d pin = (level pin % 2 ^ 16, d)

abbrev pub set_analog_read_resolution : Bool → ArduinoGpioDriver → ℕ → ArduinoGpioDriver
set_analog_read_resolution has_resolution d bits =
    let d' = record d { analog_read_bits = bits } in
    if has_resolution then issue (core_read_resolution bits) d' else d'

abbrev pub set_analog_write_resolution : Bool → ArduinoGpioDriver → ℕ → ArduinoGpioDriver
set_analog_write_resolution has_resolution d bits =
    let d' = record d { analog_write_bits = bits } in
    if has_resolution then issue (core_write_resolution bits) d' else d'

abbrev pub get_analog_read_resolution : ArduinoGpioDriver → ℕ
get_analog_read_resolution d = d.analog_read_bits

abbrev pub get_analog_write_resolution : ArduinoGpioDriver → ℕ
get_analog_write_resolution d = d.analog_write_bits

-- What the core has and returns.
pub record Core : Type 0 where
  pub has_pulldown : Bool
  pub has_read_resolution : Bool
  pub has_write_resolution : Bool
  pub digital_level : ℕ → ℕ
  pub analog_level : ℕ → ℕ

abbrev pub arduino_gpio : Core → GpioDriver ArduinoGpioDriver
arduino_gpio core = record {
  set_pin_mode = set_pin_mode core.has_pulldown;
  digital_write = digital_write;
  digital_read = digital_read core.digital_level;
  analog_write = analog_write core.has_write_resolution;
  analog_read = analog_read core.analog_level;
  set_analog_read_resolution = set_analog_read_resolution core.has_read_resolution;
  set_analog_write_resolution = set_analog_write_resolution core.has_write_resolution;
  get_analog_read_resolution = get_analog_read_resolution;
  get_analog_write_resolution = get_analog_write_resolution;
}
