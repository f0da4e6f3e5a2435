-- ===== src/OneWire.antt =====
-- include/jenlib/onewire/OneWireBus.h and src/onewire/drivers/NativeOneWireBus.cpp: the bus over the pin
-- wrapper. The loops over bits and bytes, which the ESP-IDF bus has too, are over the write and the read
-- of a bit on any wire `W`.
pub mod Crc
pub mod Bytes
pub mod EspIdf
pub mod Arduino
pub mod Native
mod Tests
use jenlib.Common.{
  ℕ, zero, suc, ◌+◌, ◌/◌, ◌%◌, ◌^◌, bit_and, bit_or, Bool, true, false, List, [], ◌∷◌, ◌==◌, not,
  if◌then◌else◌, length,
}
use jenlib.Gpio.{
  output, input_pullup, DigitalValue, low, high, GpioDriver, Gpio, Pin, pin_at, pin_mode,
  digital_write, digital_read,
}

module _ {W : Type 0} (write_bit : Bool → W → W) where
  -- `n` rounds of the loop of `write_byte`.
  unfoldable pub write_bits : ℕ → ℕ → W → W
  write_bits zero value w = w
  write_bits (suc n) value w =
      write_bits n (value / 2) (write_bit (not (bit_and value 0x01 == 0)) w)

module _ {W : Type 0} (write_byte : ℕ → W → W) where
  -- The loops of `write_bytes` and of `match_rom`.
  unfoldable pub write_all : List ℕ → W → W
  write_all [] w = w
  write_all (x ∷ bytes) w = write_all bytes (write_byte x w)

module _ {W : Type 0} (read_bit : W → Bool × W) where
  -- `n` rounds of the loop of `read_byte`.
  unfoldable pub read_bits : ℕ → ℕ → W → ℕ × W
  read_bits zero value w = (value, w)
  read_bits (suc n) value w =
      let (bit, w') = read_bit w in
      read_bits n (if bit then bit_or (value / 2) 0x80 else value / 2) w'

module _ {W : Type 0} (read_byte : W → ℕ × W) where
  -- The loops of `read_bytes` and `read_rom`: as many bytes as are asked for.
  unfoldable pub read_all : ℕ → W → List ℕ × W
  read_all zero w = ([], w)
  read_all (suc n) w =
      let (x, w') = read_byte w in let (bytes, w'') = read_all n w' in (x ∷ bytes, w'')

abbrev pub read_rom_command : ℕ
read_rom_command = 0x33

abbrev pub match_rom_command : ℕ
match_rom_command = 0x55

abbrev pub skip_rom_command : ℕ
skip_rom_command = 0xCC

pub record OneWireBus : Type 0 where
  pub pin : ℕ
  pub initialized : Bool

abbrev pub new_bus : ℕ → OneWireBus
new_bus pin = record { pin = pin % 2 ^ 8; initialized = false }

abbrev pub is_high : DigitalValue → Bool
is_high high = true
is_high low = false

-- The bus leaves the pins to the wrapper, whose state is passed along.
module _ {D : Type 0} (interface : GpioDriver D) where
  unfoldable pub configure_pin : OneWireBus → Gpio D → Gpio D
  configure_pin bus g =
      digital_write interface (pin_at bus.pin) high (pin_mode interface (pin_at bus.pin) output g)

  -- No device is looked for: the result is always true.
  unfoldable pub perform_reset : OneWireBus → Gpio D → Bool × Gpio D
  perform_reset bus g =
      let p = pin_at bus.pin in
      let g1 = digital_write interface p low g in
      let g2 = pin_mode interface p input_pullup g1 in
      let g3 = pin_mode interface p output g2 in (true, digital_write interface p high g3)

  -- Both branches make the same calls; the source has no waits between them.
  unfoldable pub write_bit : OneWireBus → Bool → Gpio D → Gpio D
  write_bit bus bit g =
      let p = pin_at bus.pin in
      if bit
      then digital_write interface p high (digital_write interface p low g)
      else digital_write interface p high (digital_write interface p low g)

  unfoldable pub read_bit : OneWireBus → Gpio D → Bool × Gpio D
  read_bit bus g =
      let p = pin_at bus.pin in
      let g1 = digital_write interface p low g in
      let g2 = pin_mode interface p input_pullup g1 in
      let (value, g3) = digital_read interface p g2 in
      let g4 = pin_mode interface p output g3 in (is_high value, digital_write interface p high g4)

  unfoldable pub begin : OneWireBus → Gpio D → OneWireBus × Gpio D
  begin bus g = (record bus { initialized = true }, configure_pin bus g)

  abbrev pub end : OneWireBus → OneWireBus
  end bus = record bus { initialized = false }

  unfoldable pub reset : OneWireBus → Gpio D → Bool × Gpio D
  reset bus g = if not bus.initialized then (false, g) else perform_reset bus g

  unfoldable pub write_byte : OneWireBus → ℕ → Gpio D → Gpio D
  write_byte bus value g = if not bus.initialized then g else write_bits (write_bit bus) 8 value g

  unfoldable pub read_byte : OneWireBus → Gpio D → ℕ × Gpio D
  read_byte bus g = if not bus.initialized then (0, g) else read_bits (read_bit bus) 8 0 g

  unfoldable pub write_bytes : OneWireBus → List ℕ → Gpio D → ℕ × Gpio D
  write_bytes bus bytes g = (length bytes, write_all (write_byte bus) bytes g)

  unfoldable pub read_bytes : OneWireBus → ℕ → Gpio D → ℕ × List ℕ × Gpio D
  read_bytes bus n g = let (bytes, g') = read_all (read_byte bus) n g in (n, bytes, g')

  unfoldable pub skip_rom : OneWireBus → Gpio D → Gpio D
  skip_rom bus g = if not bus.initialized then g else write_byte bus skip_rom_command g

  unfoldable pub match_rom : OneWireBus → List ℕ → Gpio D → Gpio D
  match_rom bus rom g =
      if not bus.initialized
      then g
      else write_all (write_byte bus) rom (write_byte bus match_rom_command g)

  -- The eight bytes of the ROM code are read even if no device answers.
  unfoldable pub read_rom : OneWireBus → List ℕ → Gpio D → Bool × List ℕ × Gpio D
  read_rom bus out_rom g =
      let (present, g1) = perform_reset bus g in
      let g2 = write_byte bus read_rom_command g1 in
      let (bytes, g3) = read_all (read_byte bus) 8 g2 in
      if not bus.initialized
      then (false, out_rom, g)
      else if not present
      then (false, out_rom, g1)
      else (true, bytes, g3)
