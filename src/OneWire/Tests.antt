-- ===== src/OneWire/Tests.antt =====
-- The buses at concrete inputs.
use jenlib.Common.{
  ℕ, ◌+◌, ◌*◌, ◌/◌, ◌-◌, ◌<◌, ◌≡◌, refl, true, false, List, [], ◌∷◌, ◌++◌, some, arith, ltb, leb,
  All,
}
use jenlib.Common.Int.{pos}
use jenlib.Common.Float.{Floats}
use jenlib.Common.Checksum.{AreBytes, fold_bytes}
use jenlib.Gpio.{Gpio, new_gpio, set_driver}
use jenlib.Gpio.Native.{NativeGpioDriver, native_gpio, new_driver, set_pin_voltage}
use jenlib.OneWire.{OneWireBus, new_bus, write_byte, read_byte}
use jenlib.OneWire.Crc.{dallas_crc8, table_entry, dallas_crc8_table, dallas_crc8_checks}
use jenlib.OneWire.Bytes.{bits_of_bytes}
use jenlib.OneWire.EspIdf.{
  PinAction, EspIdfOneWireBus, new_bus as new_esp_bus, write_bytes, read_bytes,
}
use jenlib.OneWire.EspIdf.Waveform.{
  Wire, is_down, follow_all, bytes_heard, duration, write_bytes_heard, read_bytes_given,
}
use jenlib.OneWire.Native.{native_bus_reads}

-- Numbers in thousandths for `float`; the operations round down and stop at 0.
abbrev millis : Floats ℕ
millis = record {
  zero_f = 0;
  half_f = 500;
  hundred_f = 100000;
  add = λ a b. a + b;
  sub = λ a b. a - b;
  mul = λ a b. a * b / 1000;
  div = λ a b. a * 1000 / b;
  lt = ltb;
  le = leb;
  of_nat = λ n. n * 1000;
  of_int = λ n. 0;
  to_nat = λ a. a / 1000;
  to_int = λ a. pos (a / 1000);
}

-- 3.2 of 3.3 volts on the pin of the bus.
abbrev driven : NativeGpioDriver ℕ
driven = set_pin_voltage millis (new_driver millis 3300 500) 4 3200

abbrev pins : Gpio (NativeGpioDriver ℕ)
pins = set_driver (some driven) new_gpio

abbrev bus : OneWireBus
bus = record (new_bus 4) { initialized = true }

native_bus_reads_example :
    (read_byte (native_gpio millis) bus (write_byte (native_gpio millis) bus 0x44 pins)).0 ≡ 255
native_bus_reads_example = native_bus_reads millis bus 0x44 pins driven refl refl

abbrev two_bytes : List ℕ
two_bytes = 0xCC ∷ 0x44 ∷ []

two_bytes-small : All (λ x. x < 256) two_bytes
two_bytes-small = (omega arith, (omega arith, tt))

abbrev esp_bus : EspIdfOneWireBus
esp_bus = new_esp_bus 4 (bits_of_bytes two_bytes ++ (true ∷ []))

-- A line that is up: the pin is an input, as after a reset, and its level is set to low.
abbrev released : Wire
released = record { driven = false; level = false; low_for = 480; heard = [] }

write_bytes_heard_example :
    (written : List PinAction) × ((write_bytes two_bytes esp_bus).actions
      ≡ esp_bus.actions ++ written)
    × (is_down (follow_all written released) ≡ false)
    × ((follow_all written released).heard ≡ bits_of_bytes two_bytes)
    × (bytes_heard 2 (bits_of_bytes two_bytes) ≡ two_bytes)
    × (duration written ≡ 560 * 2)
write_bytes_heard_example = write_bytes_heard two_bytes esp_bus released two_bytes-small refl

read_bytes_given_example :
    let (found, bus') = read_bytes 2 esp_bus in (found ≡ two_bytes) × (bus'.levels ≡ true ∷ [])
read_bytes_given_example = read_bytes_given two_bytes (true ∷ []) esp_bus two_bytes-small refl

-- The data sheet's ROM code.
abbrev rom : List ℕ
rom = 0x02 ∷ 0x1C ∷ 0xB8 ∷ 0x01 ∷ 0 ∷ 0 ∷ 0 ∷ []

rom-AreBytes : AreBytes rom
rom-AreBytes = (
  omega arith,
  (omega arith, (omega arith, (omega arith, (omega arith, (omega arith, (omega arith, tt)))))),
)

rom_checksum : dallas_crc8 rom ≡ 0xA2
unfolding dallas_crc8
rom_checksum = refl

dallas_crc8_table_example : dallas_crc8 rom ≡ fold_bytes table_entry 0 rom
dallas_crc8_table_example = dallas_crc8_table rom rom-AreBytes

dallas_crc8_checks_example :
    let sum = dallas_crc8 ((0x02 ∷ []) ++ (0x1C ∷ 0xB8 ∷ [])) in
    (dallas_crc8 (((0x02 ∷ []) ++ (0x1C ∷ 0xB8 ∷ [])) ++ sum ∷ []) ≡ 0)
    × (dallas_crc8 (((0x02 ∷ []) ++ (0x1D ∷ 0xB8 ∷ [])) ++ sum ∷ []) ≡ 0 → ◌≡◌ {A = ℕ} 0x1C 0x1D)
dallas_crc8_checks_example =
    dallas_crc8_checks (0x02 ∷ []) (0xB8 ∷ []) 0x1C 0x1D (omega arith, tt) (omega arith, tt)
      (omega arith) (omega arith)
