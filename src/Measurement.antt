-- ===== src/Measurement.antt =====
-- include/jenlib/measurement/Measurement.h and src/measurement/Measurement.cpp: a measurement as eight
-- bytes. The operations of `float` are a parameter; a cast to a 16-bit type is the conversion to an
-- integer, for a value outside the type the source leaves it undefined.
pub mod Wire
mod Tests
use jenlib.Common.{ℕ, Bool, true, false, ◌==◌, not, if◌then◌else◌}
use jenlib.Common.Int.{ℤ, pos}
use jenlib.Common.Float.{Floats}
use jenlib.Ble.Payload.{
  BlePayload, clear, cbegin, cend, append_u16le, append_i16le, append_u32le, read_u16le, read_i16le,
  read_u32le,
}

pub record Measurement (F : Type 0) : Type 0 where
  pub timestamp_ms : ℕ
  pub temperature_c : F
  pub humidity_bp : F

module _ {F : Type 0} (floats : Floats F) where
  open floats use {
    zero_f, half_f, hundred_f, add, sub, mul, div, le, of_nat, of_int, to_nat, to_int,
  }

  -- Rounded to the nearest, away from zero.
  unfoldable pub temperature_to_centi : F → ℤ
  temperature_to_centi temp_c =
      if le zero_f temp_c
      then to_int (add (mul temp_c hundred_f) half_f)
      else to_int (sub (mul temp_c hundred_f) half_f)

  abbrev pub temperature_from_centi : ℤ → F
  temperature_from_centi temp_centi = div (of_int temp_centi) hundred_f

  unfoldable pub humidity_to_basis_points : F → ℕ
  humidity_to_basis_points humidity_bp = to_nat (add (mul humidity_bp hundred_f) half_f)

  abbrev pub humidity_from_basis_points : ℕ → F
  humidity_from_basis_points humidity_bp = div (of_nat humidity_bp) hundred_f

  unfoldable pub serialize : Measurement F → BlePayload → Bool × BlePayload
  serialize measurement payload =
      let (timed, p1) = append_u32le (clear payload) measurement.timestamp_ms in
      if not timed
      then (false, p1)
      else let (measured, p2) = append_i16le p1 (temperature_to_centi measurement.temperature_c) in
        if not measured
        then (false, p2)
        else append_u16le p2 (humidity_to_basis_points measurement.humidity_bp)

  -- A failure changes neither the payload nor the measurement.
  unfoldable pub deserialize : BlePayload → Measurement F → Bool × BlePayload × Measurement F
  deserialize payload measurement =
      let fail : Bool × BlePayload × Measurement F = (false, payload, measurement) in
      if not (payload.size == 8)
      then fail
      else let (timed, it1, timestamp_ms) = read_u32le payload (cbegin payload) (cend payload) 0 in
        if not timed
        then fail
        else let (measured, it2, temp_centi) = read_i16le payload it1 (cend payload) (pos 0) in
          if not measured
          then fail
          else let (read, it3, humidity_bp) = read_u16le payload it2 (cend payload) 0 in
            if not read then fail else if not (it3 == cend payload) then fail else (
              true,
              clear payload,
              record {
                timestamp_ms = timestamp_ms;
                temperature_c = temperature_from_centi temp_centi;
                humidity_bp = humidity_from_basis_points humidity_bp;
              },
            )
