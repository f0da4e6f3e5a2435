-- ===== src/Measurement/Wire.antt =====
-- The eight bytes of a measurement: what is written, and exactly what is accepted.
use jenlib.Common.{
  ℕ, ◌^◌, ◌<◌, ◌≡◌, ◌≢◌, refl, sym, ap, ◌∙◌, inl, inr, Bool-cases, true, false, List, [], ◌++◌,
  ◌==◌, ==_iff, arith, length,
}
use jenlib.Common.Int.{ℤ, pos, IsI16, u16_of_i16}
use jenlib.Common.Float.{Floats}
use jenlib.Ble.Payload.{BlePayload, clear, append_u16le, append_i16le, append_u32le}
use jenlib.Ble.Payload.Content.{
  IsValid, content, length-content, clear-IsValid, encode16, encode32, append_u16le-Fits,
  append_i16le-Fits, append_u32le-Fits,
}
use jenlib.Ble.Payload.Reading.{
  unread_end, length-unread, read_u32le-Reads, read_i16le-Reads, read_u16le-Reads, read_u16le-Finds,
  read_i16le-Finds, read_u32le-Finds,
}
use jenlib.Measurement.{
  Measurement, temperature_to_centi, temperature_from_centi, humidity_to_basis_points,
  humidity_from_basis_points, serialize, deserialize,
}

-- The bytes of the three numbers.
abbrev pub encoding : ℕ → ℤ → ℕ → List ℕ
encoding timestamp_ms temp_centi humidity_bp =
    encode32 timestamp_ms ++ (encode16 (u16_of_i16 temp_centi) ++ encode16 humidity_bp)

module _ {F : Type 0} (floats : Floats F) where
  -- The time fits its width, and the conversions are defined.
  pub record IsInRange (m : Measurement F) : Type 0 where
    pub time_fits : m.timestamp_ms < 2 ^ 32
    pub temperature_fits : IsI16 (temperature_to_centi floats m.temperature_c)
    pub humidity_fits : humidity_to_basis_points floats m.humidity_bp < 2 ^ 16

  -- The measurement with the given numbers.
  abbrev pub measured : ℕ → ℤ → ℕ → Measurement F
  measured timestamp_ms temp_centi humidity_bp = record {
    timestamp_ms = timestamp_ms;
    temperature_c = temperature_from_centi floats temp_centi;
    humidity_bp = humidity_from_basis_points floats humidity_bp;
  }

  serialize_steps :
      (m : Measurement F) (p0 p1 p2 p3 : BlePayload)
      → append_u32le (clear p0) m.timestamp_ms ≡ (true, p1)
      → append_i16le p1 (temperature_to_centi floats m.temperature_c) ≡ (true, p2)
      → append_u16le p2 (humidity_to_basis_points floats m.humidity_bp) ≡ (true, p3)
      → serialize floats m p0 ≡ (true, p3)
  unfolding serialize
  serialize_steps m p0 p1 p2 p3 e1 e2 e3 = rw (e1, e2, e3)

  serialize_lem :
      (m : Measurement F) (p : BlePayload)
      → IsValid p
      → (q : BlePayload) × (serialize floats m p ≡ (true, q))
        × (content q
            ≡ encoding m.timestamp_ms
                (temperature_to_centi floats m.temperature_c)
                (humidity_to_basis_points floats m.humidity_bp))
        × IsValid q
  serialize_lem m p v =
      let (p1, e1, c1, s1, v1) =
        append_u32le-Fits (clear p) (clear-IsValid v) m.timestamp_ms (omega arith) in
      let (p2, e2, c2, s2, v2) =
        append_i16le-Fits p1 v1 (temperature_to_centi floats m.temperature_c) (omega (arith, s1)) in
      let (p3, e3, c3, s3, v3) =
        append_u16le-Fits p2 v2 (humidity_to_basis_points floats m.humidity_bp)
          (omega (arith, s1, s2)) in
      (p3, serialize_steps m p p1 p2 p3 e1 e2 e3, c3 ∙ rw (c2, c1) refl, v3)

  deserialize-encoding :
      (out : Measurement F) (p : BlePayload) (time : ℕ) (temp : ℤ) (hum : ℕ)
      → IsValid p
      → time < 2 ^ 32
      → IsI16 temp
      → hum < 2 ^ 16
      → content p ≡ encoding time temp hum
      → deserialize floats p out ≡ (true, clear p, measured time temp hum)
  unfolding deserialize
  deserialize-encoding out p time temp hum v h1 h2 h3 e =
      let tail = encode16 hum in
      let (r1, u1, i1) =
        read_u32le-Finds p v 0 0 time (encode16 (u16_of_i16 temp) ++ tail) (omega arith) h1 e in
      let (r2, u2, i2) = read_i16le-Finds p v 4 (pos 0) temp tail i1 h2 u1 in
      let (r3, _, _) = read_u16le-Finds p v 6 0 hum [] i2 h3 u2 in
      let whole : p.size ≡ 8 = omega (arith, ap length e, length-content v) in
      rw ((==_iff p.size 8).1 whole, r1, r2, r3, (==_iff 8 p.size).1 (sym whole)) refl

  -- A measurement whose time fits its width and whose conversions are defined is serialized into
  -- every valid payload, and what is deserialized from that is its time and the temperature and the
  -- humidity to which the hundredths that were sent convert back; the payload is consumed.
  pub measurement_round_trip :
      (m out : Measurement F) (p : BlePayload)
      → IsValid p
      → IsInRange m
      → (q : BlePayload) × (serialize floats m p ≡ (true, q))
        × (deserialize floats q out ≡ (
          true,
          clear q,
          measured m.timestamp_ms
              (temperature_to_centi floats m.temperature_c)
              (humidity_to_basis_points floats m.humidity_bp),
        ))
  measurement_round_trip m out p v w =
      let (q, e, c, u) = serialize_lem m p v in
      (q, e, deserialize-encoding out q _ _ _ u w.time_fits w.temperature_fits w.humidity_fits c)

  -- A valid payload of eight bytes is always accepted as a measurement, with numbers of which the
  -- bytes are the encoding, and consumed; a payload of any other size is refused, and nothing
  -- changes.
  pub measurement_eight :
      (p : BlePayload) (out : Measurement F)
      → IsValid p
      → (p.size ≡ 8
          → (time : ℕ) × (temp : ℤ) × (hum : ℕ) × (time < 2 ^ 32)
            × IsI16 temp
            × (hum < 2 ^ 16)
            × (content p ≡ encoding time temp hum)
            × (deserialize floats p out ≡ (true, clear p, measured time temp hum)))
        × (p.size ≢ 8 → deserialize floats p out ≡ (false, p, out))
  unfolding deserialize
  measurement_eight p out v = (accepted, refused)
    where
      accepted :
          p.size ≡ 8
          → (time : ℕ) × (temp : ℤ) × (hum : ℕ) × (time < 2 ^ 32)
            × IsI16 temp
            × (hum < 2 ^ 16)
            × (content p ≡ encoding time temp hum)
            × (deserialize floats p out ≡ (true, clear p, measured time temp hum))
      accepted whole =
          let long = length-content v in
          elim (read_u32le-Reads p v 0 0 (omega arith)) [
            | inl (short, _) ↦ absurd (omega (arith, short, long, whole))
            | inr (time, h1, _, i1, u1) ↦ elim (read_i16le-Reads p v 4 (pos 0) i1) [
              | inl (short, _) ↦ absurd (omega (arith, short, length-unread p v 4, whole))
              | inr (temp, h2, _, i2, u2) ↦ elim (read_u16le-Reads p v 6 0 i2) [
                | inl (short, _) ↦ absurd (omega (arith, short, length-unread p v 6, whole))
                | inr (hum, h3, _, i3, u3) ↦
                    let end = unread_end p v 8 (sym whole) in
                    let c : content p ≡ encoding time temp hum = u1 ∙ rw (u2, u3, end) refl in
                    (
                      time,
                      temp,
                      hum,
                      h1,
                      h2,
                      h3,
                      c,
                      deserialize-encoding out p time temp hum v h1 h2 h3 c,
                    )
              ]
            ]
          ]

      refused : p.size ≢ 8 → deserialize floats p out ≡ (false, p, out)
      refused other = elim (Bool-cases (p.size == 8)) [
        | inl same ↦ absurd (other ((==_iff p.size 8).0 same))
        | inr differ ↦ rw differ refl
      ]
