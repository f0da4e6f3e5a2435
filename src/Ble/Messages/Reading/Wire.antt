-- ===== src/Ble/Messages/Reading/Wire.antt =====
-- The wire form of a Reading message: what is written, and exactly what is accepted.
use jenlib.Common.{
  ℕ, ◌^◌, ◌≤◌, ◌<◌, ◌≡◌, refl, sym, ap, ◌∙◌, ◌↔◌, ◌⊎◌, inl, inr, true, false, List, [], ◌∷◌, ◌++◌,
  arith, length, ◌==◌, ==_iff, Bool-cases,
}
use mathlib.Core.Path.{subst}
use jenlib.Common.Int.{ℤ, IsI16, u16_of_i16}
use jenlib.Ble.Payload.{BlePayload, clear, append_u8, append_u16le, append_i16le, append_u32le}
use jenlib.Ble.Payload.Content.{
  IsValid, content, length-content, clear-IsValid, encode16, encode32, append_u8-Fits,
  append_u16le-Fits, append_i16le-Fits, append_u32le-Fits,
}
use jenlib.Ble.Payload.Reading.{
  unread, unread_end, read_u8-Reads, read_u16le-Reads, read_i16le-Reads, read_u32le-Reads,
  read_u8-Finds, read_u16le-Finds, read_i16le-Finds, read_u32le-Finds,
}
use jenlib.Ble.Ids
use jenlib.Ble.Ids.Wire.{encode_id, serialize-Fits, deserialize-Finds, deserialize-Accepts}
use jenlib.Ble.Messages.{ReadingMsg}
use jenlib.Ble.Messages.Reading.{serialize, deserialize, deserialize_climate}

abbrev climate : ReadingMsg → List ℕ
climate m = encode16 (u16_of_i16 m.temperature_c_centi) ++ encode16 m.humidity_bp

abbrev pub encoding : ReadingMsg → List ℕ
encoding m =
    0x02
    ∷ (encode_id m.sender_id.value
        ++ (encode32 m.session_id.value ++ (encode32 m.offset_ms ++ climate m)))

-- The fields are values of their C++ types.
pub record IsMsg (m : ReadingMsg) : Type 0 where
  pub sender_fits : m.sender_id.value < 2 ^ 32
  pub session_fits : m.session_id.value < 2 ^ 32
  pub offset_fits : m.offset_ms < 2 ^ 32
  pub temperature_fits : IsI16 m.temperature_c_centi
  pub humidity_fits : m.humidity_bp < 2 ^ 16

-- The appends in a row; `serialize` makes no other.
serialize_steps :
    (m : ReadingMsg) (p0 p1 p2 p3 p4 p5 p6 : BlePayload)
    → append_u8 (clear p0) 0x02 ≡ (true, p1)
    → Ids.serialize m.sender_id p1 ≡ (true, p2)
    → append_u32le p2 m.session_id.value ≡ (true, p3)
    → append_u32le p3 m.offset_ms ≡ (true, p4)
    → append_i16le p4 m.temperature_c_centi ≡ (true, p5)
    → append_u16le p5 m.humidity_bp ≡ (true, p6)
    → serialize m p0 ≡ (true, p6)
unfolding serialize
serialize_steps m p0 p1 p2 p3 p4 p5 p6 e1 e2 e3 e4 e5 e6 = rw (e1, e2, e3, e4, e5, e6)

-- Any payload receives exactly the wire form.
pub serialize_lem :
    (m : ReadingMsg) (p : BlePayload)
    → IsValid p
    → (q : BlePayload) × (serialize m p ≡ (true, q)) × (content q ≡ encoding m) × IsValid q
serialize_lem m p v =
    let (p1, e1, c1, s1, v1) =
      append_u8-Fits (clear p) (clear-IsValid v) 0x02 (omega arith) (omega arith) in
    let (p2, e2, c2, s2, v2) = serialize-Fits m.sender_id p1 v1 (omega (arith, s1)) in
    let (p3, e3, c3, s3, v3) = append_u32le-Fits p2 v2 m.session_id.value (omega (arith, s1, s2)) in
    let (p4, e4, c4, s4, v4) = append_u32le-Fits p3 v3 m.offset_ms (omega (arith, s1, s2, s3)) in
    let (p5, e5, c5, s5, v5) =
      append_i16le-Fits p4 v4 m.temperature_c_centi (omega (arith, s1, s2, s3, s4)) in
    let (p6, e6, c6, s6, v6) =
      append_u16le-Fits p5 v5 m.humidity_bp (omega (arith, s1, s2, s3, s4, s5)) in
    (
      p6,
      serialize_steps m p p1 p2 p3 p4 p5 p6 e1 e2 e3 e4 e5 e6,
      c6 ∙ rw (c5, c4, c3, c2, c1) refl,
      v6,
    )

module _ (m : ReadingMsg) (p : BlePayload) (v : IsValid p) (w : IsMsg m) where
  climate_encoding :
      (out : ReadingMsg)
      → out.sender_id ≡ m.sender_id
      → out.session_id ≡ m.session_id
      → out.offset_ms ≡ m.offset_ms
      → 18 ≡ p.size
      → unread p 14 ≡ climate m
      → deserialize_climate p 14 out ≡ (true, m)
  unfolding deserialize_climate
  climate_encoding out e1 e2 e3 whole u =
      let tail = encode16 m.humidity_bp in
      let (r, u', inside) =
        read_i16le-Finds p v 14 out.temperature_c_centi m.temperature_c_centi tail (omega arith)
          w.temperature_fits u in
      let (r', _, _) =
        read_u16le-Finds p v 16 out.humidity_bp m.humidity_bp [] inside w.humidity_fits u' in
      rw (r, r', (==_iff 18 p.size).1 whole, e1, e2, e3)

  -- The deserializer returns `true` with `m` on the wire form of `m`.
  pub deserialize-encoding :
      (out : ReadingMsg) → content p ≡ encoding m → deserialize p out ≡ (true, m)
  unfolding deserialize
  deserialize-encoding out e =
      let timed = encode32 m.offset_ms ++ climate m in
      let placed = encode32 m.session_id.value ++ timed in
      let (r1, u1, i1) =
        read_u8-Finds p v 0 0 0x02 (encode_id m.sender_id.value ++ placed) (omega arith) e in
      let (r2, u2, i2) =
        deserialize-Finds p v 1 m.sender_id.value out.sender_id placed i1 w.sender_fits u1 in
      let (r3, u3, i3) = read_u32le-Finds p v 6 0 m.session_id.value timed i2 w.session_fits u2 in
      let (r4, u4, i4) =
        read_u32le-Finds p v 10 out.offset_ms m.offset_ms (climate m) i3 w.offset_fits u3 in
      let whole : 18 ≡ p.size = omega (arith, ap length e, length-content v) in
      rw (r1, r2, r3, r4) (climate_encoding _ refl refl refl whole u4)

climate_cases :
    (out : ReadingMsg) (p : BlePayload)
    → IsValid p
    → 14 ≤ p.size
    → ((deserialize_climate p 14 out).0 ≡ false)
      ⊎ ((t : ℤ) × (h : ℕ) × IsI16 t
          × (h < 2 ^ 16)
          × (deserialize_climate p 14 out
              ≡ (true, record out { temperature_c_centi = t; humidity_bp = h }))
          × (unread p 14 ≡ encode16 (u16_of_i16 t) ++ encode16 h))
unfolding deserialize_climate
climate_cases out p v i = elim (read_i16le-Reads p v 14 out.temperature_c_centi i) [
  | inl (_, e1) ↦ rw e1 (inl refl)
  | inr (t, t_fits, e1, i1, u1) ↦ elim (read_u16le-Reads p v 16 out.humidity_bp i1) [
    | inl (_, e2) ↦ rw (e1, e2) (inl refl)
    | inr (h, h_fits, e2, i2, u2) ↦ elim (Bool-cases (18 == p.size)) [
      | inr more ↦ rw (e1, e2, more) (inl refl)
      | inl done ↦
          let end = unread_end p v 18 ((==_iff 18 p.size).0 done) in
          inr (t, h, t_fits, h_fits, rw (e1, e2, done), u1 ∙ rw (u2, end))
    ]
  ]
]

-- And otherwise it returns `false`.
pub deserialize_cases :
    (out : ReadingMsg) (p : BlePayload)
    → IsValid p
    → ((deserialize p out).0 ≡ false)
      ⊎ ((m : ReadingMsg) × IsMsg m × (deserialize p out ≡ (true, m)) × (content p ≡ encoding m))
unfolding deserialize
deserialize_cases out p v = elim (read_u8-Reads p v 0 0 (omega arith)) [
  | inl (_, e1) ↦ rw e1 (inl refl)
  | inr (type, _, e1, i1, u1) ↦ elim (Bool-cases (type == 0x02)) [
    | inr other ↦ rw (e1, other) (inl refl)
    | inl typed ↦ elim (deserialize-Accepts p v 1 out.sender_id i1) [
      | inl (it, e2) ↦ rw (e1, typed, e2) (inl refl)
      | inr (id, id_fits, e2, i2, u2) ↦ elim (read_u32le-Reads p v 6 0 i2) [
        | inl (_, e3) ↦ rw (e1, typed, e2, e3) (inl refl)
        | inr (sess, sess_fits, e3, i3, u3) ↦ elim (read_u32le-Reads p v 10 out.offset_ms i3) [
          | inl (_, e4) ↦ rw (e1, typed, e2, e3, e4) (inl refl)
          | inr (off, off_fits, e4, i4, u4) ↦
              let read : ReadingMsg = record {
                sender_id = id;
                session_id = record { value = sess };
                offset_ms = off;
                temperature_c_centi = out.temperature_c_centi;
                humidity_bp = out.humidity_bp;
              } in
              elim (climate_cases read p v i4) [
                | inl e5 ↦ rw (e1, typed, e2, e3, e4) (inl e5)
                | inr (t, h, t_fits, h_fits, e5, u5) ↦ inr (
                  record read { temperature_c_centi = t; humidity_bp = h },
                  record {
                    sender_fits = id_fits;
                    session_fits = sess_fits;
                    offset_fits = off_fits;
                    temperature_fits = t_fits;
                    humidity_fits = h_fits;
                  },
                  rw (e1, typed, e2, e3, e4) e5,
                  u1 ∙ rw ((==_iff type 0x02).0 typed, u2, u3, u4, u5),
                )
              ]
        ]
      ]
    ]
  ]
]

-- A reading whose fields fit their widths is serialized into every valid payload, whatever it held,
-- and is deserialized from it as it was.
pub reading_round_trip :
    (m out : ReadingMsg) (p : BlePayload)
    → IsValid p
    → IsMsg m
    → (q : BlePayload) × (serialize m p ≡ (true, q)) × (deserialize q out ≡ (true, m))
reading_round_trip m out p v w =
    let (q, e, c, u) = serialize_lem m p v in (q, e, deserialize-encoding m q u w out c)

-- A valid payload is deserialized to a reading exactly if the fields fit their widths and the
-- content is that reading's encoding: no byte more, fewer or changed.
pub reading_exact :
    (m out : ReadingMsg) (p : BlePayload)
    → IsValid p
    → ((deserialize p out ≡ (true, m)) ↔ (IsMsg m × (content p ≡ encoding m)))
reading_exact m out p v = (accepted, λ (w, c). deserialize-encoding m p v w out c)
  where
    accepted : deserialize p out ≡ (true, m) → IsMsg m × (content p ≡ encoding m)
    accepted e = elim (deserialize_cases out p v) [
      | inl failed ↦ cc (e, failed)
      | inr (m', w, e', c) ↦
          let same : m' ≡ m = ap (λ r. r.1) (sym e' ∙ e) in
          (subst IsMsg same w, c ∙ ap encoding same)
    ]
