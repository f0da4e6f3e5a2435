-- ===== src/OneWire/EspIdf.antt =====
-- src/onewire/drivers/EspIdfOneWireBus.cpp: the bus that times its pin. The calls of ESP-IDF are
-- collected in `actions`, oldest first; `levels` are the levels that `gpio_get_level` will return, and
-- the last argument of `begin` is what `gpio_config` returns.
pub mod Waveform
use jenlib.Common.{ℕ, Bool, true, false, List, [], ◌∷◌, ◌++◌, not, if◌then◌else◌}
use jenlib.OneWire.{write_bits, write_all, read_bits, read_all}

pub data PinAction : Type 0 where
  config_open_drain as_output as_input : PinAction
  set_level : Bool → PinAction
  wait_us : ℕ → PinAction
  get_level : PinAction

pub record EspIdfOneWireBus : Type 0 where
  pub pin : ℕ
  pub initialized : Bool
  pub device_count : ℕ
  pub actions : List PinAction
  pub levels : List Bool

abbrev pub new_bus : ℕ → List Bool → EspIdfOneWireBus
new_bus pin levels = record {
  pin = pin;
  initialized = false;
  device_count = 0;
  actions = [];
  levels = levels;
}

abbrev pub act : List PinAction → EspIdfOneWireBus → EspIdfOneWireBus
act done bus = record bus { actions = bus.actions ++ done }

-- A line that nothing pulls down is high.
abbrev next_level : List Bool → Bool × List Bool
next_level [] = (true, [])
next_level (level ∷ levels) = (level, levels)

abbrev pub sample : EspIdfOneWireBus → Bool × EspIdfOneWireBus
sample bus =
    let (level, levels) = next_level bus.levels in
    (level, record (act (get_level ∷ []) bus) { levels = levels })

unfoldable pub begin : EspIdfOneWireBus → Bool → Bool × EspIdfOneWireBus
begin bus configured =
    if bus.initialized
    then (true, bus)
    else if not configured
    then (false, act (config_open_drain ∷ []) bus)
    else (true, record (act (config_open_drain ∷ set_level true ∷ []) bus) { initialized = true })

unfoldable pub reset : EspIdfOneWireBus → Bool × EspIdfOneWireBus
reset bus =
    let pulled = act (as_output ∷ set_level false ∷ wait_us 480 ∷ as_input ∷ wait_us 70 ∷ []) bus in
    let (level, sampled) = sample pulled in
    if not bus.initialized then (false, bus) else (not level, act (wait_us 410 ∷ []) sampled)

-- The slot of a bit.
abbrev pub slot_of : Bool → List PinAction
slot_of true = as_output ∷ set_level false ∷ wait_us 6 ∷ set_level true ∷ wait_us 64 ∷ []
slot_of false = as_output ∷ set_level false ∷ wait_us 60 ∷ set_level true ∷ wait_us 10 ∷ []

abbrev pub write_bit_timing : Bool → EspIdfOneWireBus → EspIdfOneWireBus
write_bit_timing bit bus = act (slot_of bit) bus

abbrev pub read_bit_timing : EspIdfOneWireBus → Bool × EspIdfOneWireBus
read_bit_timing bus =
    let (bit, sampled) =
      sample (act (as_output ∷ set_level false ∷ wait_us 6 ∷ as_input ∷ wait_us 9 ∷ []) bus) in
    (bit, act (wait_us 55 ∷ []) sampled)

abbrev pub write_bit : Bool → EspIdfOneWireBus → EspIdfOneWireBus
write_bit = write_bit_timing

abbrev pub read_bit : EspIdfOneWireBus → Bool × EspIdfOneWireBus
read_bit = read_bit_timing

unfoldable pub write_byte : ℕ → EspIdfOneWireBus → EspIdfOneWireBus
write_byte value bus = write_bits write_bit 8 value bus

unfoldable pub read_byte : EspIdfOneWireBus → ℕ × EspIdfOneWireBus
read_byte bus = read_bits read_bit 8 0 bus

unfoldable pub write_bytes : List ℕ → EspIdfOneWireBus → EspIdfOneWireBus
write_bytes bytes bus = write_all write_byte bytes bus

unfoldable pub read_bytes : ℕ → EspIdfOneWireBus → List ℕ × EspIdfOneWireBus
read_bytes count bus = read_all read_byte count bus

-- No search is made.
abbrev pub search_devices : EspIdfOneWireBus → Bool
search_devices bus = false

abbrev pub get_device_count : EspIdfOneWireBus → ℕ
get_device_count bus = bus.device_count
