-- ===== src/Measurement/Tests.antt =====
-- A measurement at a concrete input, with numbers of thousandths for `float`.
use jenlib.Common.{
  ℕ, ◌+◌, ◌-◌, ◌*◌, ◌/◌, ◌<◌, ◌^◌, ◌≡◌, ◌≢◌, refl, true, false, ltb, leb, arith, replicate,
  All-replicate,
}
use jenlib.Common.Int.{ℤ, pos, negsuc, IsI16}
use jenlib.Common.Float.{Floats}
use jenlib.Ble.Payload.{BlePayload, empty_payload, clear, max_payload}
use jenlib.Ble.Payload.Content.{IsByte, IsValid, content}
use jenlib.Measurement.{
  Measurement, temperature_to_centi, humidity_to_basis_points, serialize, deserialize,
}
use jenlib.Measurement.Wire.{
  encoding, IsInRange, measured, measurement_round_trip, measurement_eight,
}

-- No number is below 0.
abbrev millis : Floats ℕ
millis = record {
  zero_f = 0;
  half_f = 500;
  hundred_f = 100000;
  add = λ a b. a + b;
  sub = λ a b. a - b;
  mul = λ a b. a * b / 1000;
  div = λ a b. a * 1000 / b;
  lt = ltb;
  le = leb;
  of_nat = λ n. n * 1000;
  of_int = of_pos;
  to_nat = λ a. a / 1000;
  to_int = λ a. pos (a / 1000);
}
  where
    of_pos : ℤ → ℕ
    of_pos (pos n) = n * 1000
    of_pos (negsuc n) = 0

-- 23.126 degrees and 45.5 percent.
abbrev taken : Measurement ℕ
taken = record { timestamp_ms = 70000; temperature_c = 23126; humidity_bp = 45500 }

taken-IsInRange : IsInRange millis taken
unfolding temperature_to_centi humidity_to_basis_points
taken-IsInRange = record {
  time_fits = omega arith;
  temperature_fits = omega arith;
  humidity_fits = omega arith;
}

empty_payload-IsValid : IsValid empty_payload
empty_payload-IsValid = record {
  full_array = refl;
  within = omega arith;
  all_bytes = All-replicate IsByte max_payload 0 (omega arith);
}

measurement_round_trip_example :
    (q : BlePayload) × (serialize millis taken empty_payload ≡ (true, q))
    × (deserialize millis q taken ≡ (
      true,
      clear q,
      measured millis 70000
          (temperature_to_centi millis 23126)
          (humidity_to_basis_points millis 45500),
    ))
measurement_round_trip_example =
    measurement_round_trip millis taken taken empty_payload empty_payload-IsValid taken-IsInRange

-- The temperature comes back as 23.13 degrees.
rounded : (measured millis 70000 (temperature_to_centi millis 23126) 4550).temperature_c ≡ 23130
unfolding temperature_to_centi
rounded = refl

abbrev eight_zeros : BlePayload
eight_zeros = record { bytes = replicate 64 0; size = 8 }

eight_zeros-IsValid : IsValid eight_zeros
eight_zeros-IsValid = record {
  full_array = refl;
  within = omega arith;
  all_bytes = All-replicate IsByte 64 0 (omega arith);
}

measurement_eight_example :
    (eight_zeros.size ≡ 8
      → (time : ℕ) × (temp : ℤ) × (hum : ℕ) × (time < 2 ^ 32)
        × IsI16 temp
        × (hum < 2 ^ 16)
        × (content eight_zeros ≡ encoding time temp hum)
        × (deserialize millis eight_zeros taken
            ≡ (true, clear eight_zeros, measured millis time temp hum)))
    × (eight_zeros.size ≢ 8 → deserialize millis eight_zeros taken ≡ (false, eight_zeros, taken))
measurement_eight_example = measurement_eight millis eight_zeros taken eight_zeros-IsValid
