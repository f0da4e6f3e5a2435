-- ===== src/Gpio/EspIdf.antt =====
-- src/gpio/drivers/EspIdfGpioDriver.cpp. The calls of ESP-IDF are collected in `calls`, oldest first;
-- what a read of the hardware returns is an argument, and so is LEDC_CHANNEL_MAX, which differs between
-- chips. The map of pins is an association list without a pin twice.
pub mod Channels
pub mod Duty
pub mod Outputs
pub mod Scaling
use jenlib.Common.{
  ℕ, zero, suc, ◌+◌, ◌-◌, ◌*◌, ◌/◌, ◌%◌, ◌^◌, Bool, true, false, List, [], ◌∷◌, ◌++◌, ◌==◌, Option,
  none, some, ltb, leb, not, if◌then◌else◌, set, replicate,
}
use jenlib.Common.Int.{ℤ, pos, negsuc}
use jenlib.Gpio.{
  PinMode, input, output, input_pullup, input_pulldown, DigitalValue, low, high, GpioDriver,
}

-- The directions and the width of the converter.
pub data Direction : Type 0 where
  mode_input mode_output : Direction

pub data EspCall : Type 0 where
  gpio_config : ℕ → Direction → Bool → Bool → EspCall
  gpio_set_level : ℕ → ℕ → EspCall
  ledc_timer_config : ℕ → EspCall
  ledc_channel_config : ℕ → ℕ → EspCall
  ledc_set_duty : ℕ → ℕ → EspCall
  ledc_update_duty : ℕ → EspCall
  adc_config_width : ℕ → EspCall
  adc_config_channel : ℕ → EspCall

pub record EspIdfGpioDriver : Type 0 where
  pub analog_read_bits : ℕ
  pub analog_write_bits : ℕ
  pub ledc_initialized : Bool
  pub pin_to_channel : List (ℕ × ℕ)
  pub channel_used : List Bool
  pub calls : List EspCall

abbrev pub new_driver : ℕ → EspIdfGpioDriver
new_driver channel_max = record {
  analog_read_bits = 12;
  analog_write_bits = 8;
  ledc_initialized = false;
  pin_to_channel = [];
  channel_used = replicate channel_max false;
  calls = [];
}

abbrev pub issue : List EspCall → EspIdfGpioDriver → EspIdfGpioDriver
issue made d = record d { calls = d.calls ++ made }

abbrev pub convert_pin_mode : PinMode → Direction
convert_pin_mode input = mode_input
convert_pin_mode input_pullup = mode_input
convert_pin_mode input_pulldown = mode_input
convert_pin_mode output = mode_output

-- The tests for the two pulls.
abbrev pulls_up : PinMode → Bool
pulls_up input_pullup = true
pulls_up mode = false

abbrev pulls_down : PinMode → Bool
pulls_down input_pulldown = true
pulls_down mode = false

abbrev pub set_pin_mode : EspIdfGpioDriver → ℕ → PinMode → EspIdfGpioDriver
set_pin_mode d pin mode =
    issue (gpio_config pin (convert_pin_mode mode) (pulls_up mode) (pulls_down mode) ∷ []) d

abbrev level_of : DigitalValue → ℕ
level_of high = 1
level_of low = 0

abbrev pub digital_write : EspIdfGpioDriver → ℕ → DigitalValue → EspIdfGpioDriver
digital_write d pin value = issue (gpio_set_level pin (level_of value) ∷ []) d

abbrev pub digital_read : (ℕ → ℕ) → EspIdfGpioDriver → ℕ → DigitalValue × EspIdfGpioDriver
digital_read level d pin = (if level pin == 1 then high else low, d)

-- `pin_to_channel_.find(pin)`
abbrev pub lookup : ℕ → List (ℕ × ℕ) → Option ℕ
lookup pin [] = none
lookup pin ((p, channel) ∷ m) = if p == pin then some channel else lookup pin m

-- The loop over `channel_used_`, from channel `ch` on.
abbrev pub find_free : ℕ → List Bool → Option ℕ
find_free ch [] = none
find_free ch (false ∷ used) = some ch
find_free ch (true ∷ used) = find_free (suc ch) used

-- The channel of a pin that has none yet; without a free one it is 0.
abbrev pub allocate : Option ℕ → ℕ → EspIdfGpioDriver → ℕ × EspIdfGpioDriver
allocate none pin d = (0, d)
allocate (some ch) pin d = (
  ch,
  record (issue (ledc_channel_config ch pin ∷ []) d) {
    channel_used = set d.channel_used ch true;
    pin_to_channel = (pin, ch) ∷ d.pin_to_channel;
  },
)

abbrev pub channel_of : Option ℕ → ℕ → EspIdfGpioDriver → ℕ × EspIdfGpioDriver
channel_of (some ch) pin d = (ch, d)
channel_of none pin d = allocate (find_free 0 d.channel_used) pin d

abbrev pub get_or_allocate_channel_for_pin : EspIdfGpioDriver → ℕ → ℕ × EspIdfGpioDriver
get_or_allocate_channel_for_pin d pin = channel_of (lookup pin d.pin_to_channel) pin d

-- The lazy set-up of the timer.
abbrev pub init_ledc : EspIdfGpioDriver → EspIdfGpioDriver
init_ledc d =
    if d.ledc_initialized
    then d
    else record (issue (ledc_timer_config d.analog_write_bits ∷ []) d) { ledc_initialized = true }

-- The clamped duty; `value` is a 16-bit value.
abbrev pub max_duty : ℕ → ℕ
max_duty bits = if leb 16 bits then 0xFFFF else 2 ^ bits - 1

abbrev pub clamp_duty : ℕ → ℕ → ℕ
clamp_duty bits value = if ltb (max_duty bits) value then max_duty bits else value

unfoldable pub analog_write : EspIdfGpioDriver → ℕ → ℕ → EspIdfGpioDriver
analog_write d pin value =
    let (channel, d') = get_or_allocate_channel_for_pin (init_ledc d) pin in
    let duty = clamp_duty d'.analog_write_bits value in
    issue (ledc_set_duty channel duty ∷ ledc_update_duty channel ∷ []) d'

-- The widths of the converter: those that a chip knows, by the switches of the preprocessor, and 12.
pub data Chip : Type 0 where
  esp32 adc12 adc13 : Chip

abbrev pub convert_adc_bits_width : Chip → ℕ → ℕ
convert_adc_bits_width esp32 bits =
    if bits == 9 then 9 else if bits == 10 then 10 else if bits == 11 then 11 else 12
convert_adc_bits_width adc12 bits = 12
convert_adc_bits_width adc13 bits = if bits == 13 then 13 else 12

-- `(adc_reading * 65535) / max_value` cut to 16 bits, where `max_value` is cut to 16 bits too. The
-- division of a negative reading rounds towards 0.
abbrev pub max_value : ℕ → ℕ
max_value bits = (2 ^ bits - 1) % 2 ^ 16

unfoldable pub scale_reading : ℕ → ℤ → ℕ
scale_reading bits (pos n) = n * 65535 / max_value bits % 2 ^ 16
scale_reading bits (negsuc n) = (2 ^ 16 - suc n * 65535 / max_value bits % 2 ^ 16) % 2 ^ 16

-- `reading` is what `adc1_get_raw` returns at the width that is set.
unfoldable pub analog_read : Chip → (ℕ → ℕ → ℤ) → EspIdfGpioDriver → ℕ → ℕ × EspIdfGpioDriver
analog_read chip reading d pin =
    let width = convert_adc_bits_width chip d.analog_read_bits in
    (
      scale_reading d.analog_read_bits (reading width pin),
      issue (adc_config_width width ∷ adc_config_channel pin ∷ []) d,
    )

abbrev pub set_analog_read_resolution : EspIdfGpioDriver → ℕ → EspIdfGpioDriver
set_analog_read_resolution d bits = record d { analog_read_bits = bits }

abbrev pub set_analog_write_resolution : EspIdfGpioDriver → ℕ → EspIdfGpioDriver
set_analog_write_resolution d bits =
    let d' = record d { analog_write_bits = bits } in
    if d.ledc_initialized then issue (ledc_timer_config bits ∷ []) d' else d'

abbrev pub get_analog_read_resolution : EspIdfGpioDriver → ℕ
get_analog_read_resolution d = d.analog_read_bits

abbrev pub get_analog_write_resolution : EspIdfGpioDriver → ℕ
get_analog_write_resolution d = d.analog_write_bits

-- The driver as the interface has it, on a chip whose inputs are as given.
abbrev pub esp_idf_gpio : Chip → (ℕ → ℕ) → (ℕ → ℕ → ℤ) → GpioDriver EspIdfGpioDriver
esp_idf_gpio chip level reading = record {
  set_pin_mode = set_pin_mode;
  digital_write = digital_write;
  digital_read = digital_read level;
  analog_write = analog_write;
  analog_read = analog_read chip reading;
  set_analog_read_resolution = set_analog_read_resolution;
  set_analog_write_resolution = set_analog_write_resolution;
  get_analog_read_resolution = get_analog_read_resolution;
  get_analog_write_resolution = get_analog_write_resolution;
}
