-- ===== src/Ble/Messages/StartBroadcast/Wire.antt =====
-- The wire form of a StartBroadcast message: what is written, and exactly what is accepted.
use jenlib.Common.{
  ℕ, ◌+◌, ◌^◌, ◌<◌, ◌≡◌, refl, sym, ap, ◌∙◌, ◌↔◌, ◌⊎◌, inl, inr, true, false, List, [], ◌∷◌, ◌++◌,
  arith, length, ◌==◌, ==_iff, Bool-cases,
}
use mathlib.Core.Path.{subst}
use jenlib.Ble.Payload.{BlePayload, clear, append_u8, append_u32le}
use jenlib.Ble.Payload.Content.{
  IsValid, content, length-content, clear-IsValid, encode32, append_u8-Fits, append_u32le-Fits,
}
use jenlib.Ble.Payload.Reading.{
  unread_end, read_u8-Reads, read_u32le-Reads, read_u8-Finds, read_u32le-Finds,
}
use jenlib.Ble.Ids
use jenlib.Ble.Ids.Wire.{encode_id, serialize-Fits, deserialize-Finds, deserialize-Accepts}
use jenlib.Ble.Messages.{StartBroadcastMsg}
use jenlib.Ble.Messages.StartBroadcast.{serialize, deserialize}

abbrev pub encoding : StartBroadcastMsg → List ℕ
encoding m = 0x01 ∷ (encode_id m.device_id.value ++ encode32 m.session_id.value)

-- The fields are 32-bit values.
pub record IsMsg (m : StartBroadcastMsg) : Type 0 where
  pub device_fits : m.device_id.value < 2 ^ 32
  pub session_fits : m.session_id.value < 2 ^ 32

-- The appends in a row; `serialize` makes no other.
serialize_steps :
    (m : StartBroadcastMsg) (p0 p1 p2 p3 : BlePayload)
    → append_u8 (clear p0) 0x01 ≡ (true, p1)
    → Ids.serialize m.device_id p1 ≡ (true, p2)
    → append_u32le p2 m.session_id.value ≡ (true, p3)
    → serialize m p0 ≡ (true, p3)
unfolding serialize
serialize_steps m p0 p1 p2 p3 e1 e2 e3 = rw (e1, e2, e3)

-- Any payload receives exactly the wire form.
pub serialize_lem :
    (m : StartBroadcastMsg) (p : BlePayload)
    → IsValid p
    → (q : BlePayload) × (serialize m p ≡ (true, q)) × (content q ≡ encoding m) × IsValid q
serialize_lem m p v =
    let (p1, e1, c1, s1, v1) =
      append_u8-Fits (clear p) (clear-IsValid v) 0x01 (omega arith) (omega arith) in
    let (p2, e2, c2, s2, v2) = serialize-Fits m.device_id p1 v1 (omega (arith, s1)) in
    let (p3, e3, c3, s3, v3) = append_u32le-Fits p2 v2 m.session_id.value (omega (arith, s1, s2)) in
    (p3, serialize_steps m p p1 p2 p3 e1 e2 e3, c3 ∙ rw (c2, c1) refl, v3)

-- The deserializer returns `true` with `m` on the wire form of `m`.
pub deserialize-encoding :
    (m out : StartBroadcastMsg) (p : BlePayload)
    → IsValid p
    → IsMsg m
    → content p ≡ encoding m
    → deserialize p out ≡ (true, m)
unfolding deserialize
deserialize-encoding m out p v w e =
    let tail = encode_id m.device_id.value ++ encode32 m.session_id.value in
    let (r, u, inside) = read_u8-Finds p v 0 0 0x01 tail (omega arith) e in
    let (r', u', inside') =
      deserialize-Finds p v (0 + 1) m.device_id.value out.device_id (encode32 m.session_id.value)
        inside w.device_fits u in
    let (r'', u'', inside'') =
      read_u32le-Finds p v (0 + 1 + 5) 0 m.session_id.value [] inside' w.session_fits u' in
    let whole : 10 ≡ p.size = omega (arith, ap length e, length-content v) in
    rw (r, r', r'', (==_iff 10 p.size).1 whole)

-- And otherwise it returns `false`.
pub deserialize_cases :
    (out : StartBroadcastMsg) (p : BlePayload)
    → IsValid p
    → ((deserialize p out).0 ≡ false)
      ⊎ ((m : StartBroadcastMsg) × IsMsg m
          × (deserialize p out ≡ (true, m))
          × (content p ≡ encoding m))
unfolding deserialize
deserialize_cases out p v = elim (read_u8-Reads p v 0 0 (omega arith)) [
  | inl (_, e1) ↦ rw e1 (inl refl)
  | inr (type, _, e1, i1, u1) ↦ elim (Bool-cases (type == 0x01)) [
    | inr other ↦ rw (e1, other) (inl refl)
    | inl typed ↦ elim (deserialize-Accepts p v 1 out.device_id i1) [
      | inl (it, e2) ↦ rw (e1, typed, e2) (inl refl)
      | inr (id, id_fits, e2, i2, u2) ↦ elim (read_u32le-Reads p v 6 0 i2) [
        | inl (_, e3) ↦ rw (e1, typed, e2, e3) (inl refl)
        | inr (sess, sess_fits, e3, i3, u3) ↦ elim (Bool-cases (10 == p.size)) [
          | inr more ↦ rw (e1, typed, e2, e3, more) (inl refl)
          | inl done ↦
              let whole : 10 ≡ p.size = (==_iff 10 p.size).0 done in
              inr (
                record { device_id = id; session_id = record { value = sess } },
                record { device_fits = id_fits; session_fits = sess_fits },
                rw (e1, typed, e2, e3, done),
                u1 ∙ rw ((==_iff type 0x01).0 typed, u2, u3, unread_end p v 10 whole),
              )
        ]
      ]
    ]
  ]
]

-- A start message whose fields fit their widths is serialized into every valid payload, whatever it
-- held, and is deserialized from it as it was.
pub start_broadcast_round_trip :
    (m out : StartBroadcastMsg) (p : BlePayload)
    → IsValid p
    → IsMsg m
    → (q : BlePayload) × (serialize m p ≡ (true, q)) × (deserialize q out ≡ (true, m))
start_broadcast_round_trip m out p v w =
    let (q, e, c, u) = serialize_lem m p v in (q, e, deserialize-encoding m out q u w c)

-- A valid payload is deserialized to a start message exactly if the fields fit their widths and the
-- content is that message's encoding.
pub start_broadcast_exact :
    (m out : StartBroadcastMsg) (p : BlePayload)
    → IsValid p
    → ((deserialize p out ≡ (true, m)) ↔ (IsMsg m × (content p ≡ encoding m)))
start_broadcast_exact m out p v = (accepted, λ (w, c). deserialize-encoding m out p v w c)
  where
    accepted : deserialize p out ≡ (true, m) → IsMsg m × (content p ≡ encoding m)
    accepted e = elim (deserialize_cases out p v) [
      | inl failed ↦ cc (e, failed)
      | inr (m', w, e', c) ↦
          let same : m' ≡ m = ap (λ r. r.1) (sym e' ∙ e) in
          (subst IsMsg same w, c ∙ ap encoding same)
    ]
