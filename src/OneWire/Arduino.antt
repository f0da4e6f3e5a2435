-- ===== src/OneWire/Arduino.antt =====
-- src/onewire/drivers/ArduinoOneWireBus.cpp: the bus that passes every call on to the OneWire library of
-- Arduino, whose operations on a wire `W` are a parameter. Each call makes its own library object for
-- the pin of the bus.
use jenlib.Common.{ℕ, ◌%◌, ◌^◌, Bool, true, false, List, ◌==◌, not, if◌then◌else◌}
use jenlib.OneWire.{OneWireBus, read_all, read_rom_command}

-- The library's operations on a pin.
pub record OneWireLibrary (W : Type 0) : Type 0 where
  pub reset : ℕ → W → ℕ × W
  pub write : ℕ → ℕ → W → W
  pub read : ℕ → W → ℕ × W
  pub skip : ℕ → W → W
  pub select : ℕ → List ℕ → W → W
  pub write_bit : ℕ → ℕ → W → W
  pub read_bit : ℕ → W → ℕ × W

abbrev pub begin : OneWireBus → OneWireBus
begin bus = record bus { initialized = true }

abbrev pub end : OneWireBus → OneWireBus
end bus = record bus { initialized = false }

module _ {W : Type 0} (ow : OneWireLibrary W) where
  -- `ow.reset() == 1`
  abbrev pub perform_reset : OneWireBus → W → Bool × W
  perform_reset bus w = let (found, w') = ow.reset bus.pin w in (found == 1, w')

  unfoldable pub reset : OneWireBus → W → Bool × W
  reset bus w = if not bus.initialized then (false, w) else perform_reset bus w

  unfoldable pub write_byte : OneWireBus → ℕ → W → W
  write_byte bus value w = if not bus.initialized then w else ow.write bus.pin value w

  -- `ow.read()` as a byte.
  abbrev read_some : OneWireBus → W → ℕ × W
  read_some bus w = let (found, w') = ow.read bus.pin w in (found % 2 ^ 8, w')

  unfoldable pub read_byte : OneWireBus → W → ℕ × W
  read_byte bus w = if not bus.initialized then (0, w) else read_some bus w

  unfoldable pub skip_rom : OneWireBus → W → W
  skip_rom bus w = if not bus.initialized then w else ow.skip bus.pin w

  unfoldable pub match_rom : OneWireBus → List ℕ → W → W
  match_rom bus rom w = if not bus.initialized then w else ow.select bus.pin rom w

  -- What the reset finds is not looked at.
  unfoldable pub read_rom : OneWireBus → List ℕ → W → Bool × List ℕ × W
  read_rom bus out_rom w =
      let (bytes, w') =
        read_all (read_some bus) 8 (ow.write bus.pin read_rom_command (ow.reset bus.pin w).1) in
      if not bus.initialized then (false, out_rom, w) else (true, bytes, w')

  abbrev pub write_bit : OneWireBus → Bool → W → W
  write_bit bus bit w = ow.write_bit bus.pin (if bit then 1 else 0) w

  abbrev pub read_bit : OneWireBus → W → Bool × W
  read_bit bus w = let (value, w') = ow.read_bit bus.pin w in (value == 1, w')
