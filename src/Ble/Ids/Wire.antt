-- ===== src/Ble/Ids/Wire.antt =====
-- The wire form of a `DeviceId`, what the serializer appends and what the deserializers accept.
use jenlib.Common.{
  ℕ, ◌+◌, ◌^◌, ◌≤◌, ◌<◌, ◌≡◌, refl, ap, ◌∙◌, ◌⊎◌, inl, inr, true, false, List, [], ◌∷◌, ◌++◌, arith,
  All, ◌==◌, ==_iff, Bool-cases,
}
use jenlib.Ble.Crc.{crc8, crc8-lt}
use jenlib.Ble.Payload.{BlePayload, max_payload, Read, append_u8, append_raw}
use jenlib.Ble.Payload.Content.{
  IsByte, IsValid, encode32, append_raw-Appends, append_u8-Appends, Appends-Fits, Fits, then-Fits,
}
use jenlib.Ble.Payload.Reading.{
  unread, Finds, read_u8-Reads, read_u32le-Reads, read_u8-Finds, read_u32le-Finds,
}
use jenlib.Ble.Ids.{DeviceId, serialize, deserialize}

abbrev pub encode_id : ℕ → List ℕ
encode_id v = encode32 v ++ (crc8 (encode32 v) ∷ [])

encode32-All : (v : ℕ) → All IsByte (encode32 v)
encode32-All v = omega arith

crc8_id-IsByte : (v : ℕ) → IsByte (crc8 (encode32 v))
crc8_id-IsByte v = crc8-lt (encode32 v) (encode32-All v)

-- With room for five bytes the serializer puts the wire form behind the content.
pub serialize-Fits :
    (id : DeviceId) (p : BlePayload)
    → IsValid p
    → p.size + 5 ≤ max_payload
    → Fits p (encode_id id.value) (serialize id p)
unfolding serialize
serialize-Fits id p v h =
    let bytes = encode32 id.value in
    let first = append_raw-Appends p bytes 4 v (encode32-All id.value) (omega arith) in
    let (q, e, c, s, w) = Appends-Fits p bytes (append_raw p bytes 4) first (omega arith) in
    let crc = crc8 bytes in
    let second = append_u8-Appends q crc w (crc8_id-IsByte id.value) in
    let fits = Appends-Fits q (crc ∷ []) (append_u8 q crc) second (omega (arith, s)) in
    rw e (then-Fits p q bytes (crc ∷ []) (append_u8 q crc) c s fits)

module _ (p : BlePayload) (v : IsValid p) where
  pub deserialize-Finds :
      (it x : ℕ) (out : DeviceId) (l : List ℕ)
      → it ≤ p.size
      → x < 2 ^ 32
      → unread p it ≡ encode_id x ++ l
      → Finds p v 5 it l (record { value = x }) (deserialize p it p.size out)
  unfolding deserialize
  deserialize-Finds it x out l h small e =
      let (r, u, inside) = read_u32le-Finds p v it 0 x (crc8 (encode32 x) ∷ l) h small e in
      let (r', u', inside') = read_u8-Finds p v (it + 4) 0 (crc8 (encode32 x)) l inside u in
      let five : it + 4 + 1 ≡ it + 5 = omega arith in
      (rw (r, r', (==_iff (crc8 (encode32 x)) _).1 refl, five), rw five at u', omega arith)

  -- Either the deserializer fails and leaves `out` alone, or the unread bytes begin with the wire
  -- form of the identifier that it returns.
  abbrev pub Accepts :
      {A : Type 0} (n : ℕ) (encode : A → List ℕ) (P : A → Type 0) (it : ℕ) (out : A)
      → Read A
      → Type 0
  Accepts {A} n encode P it out r =
      ((it' : ℕ) × (r ≡ (false, it', out)))
      ⊎ ((x : A) × P x
          × (r ≡ (true, it + n, x))
          × (it + n ≤ p.size)
          × (unread p it ≡ encode x ++ unread p (it + n)))

  pub deserialize-Accepts :
      (it : ℕ) (out : DeviceId)
      → it ≤ p.size
      → Accepts 5
          (λ (id : DeviceId). encode_id id.value)
          (λ id. id.value < 2 ^ 32)
          it
          out
          (deserialize p it p.size out)
  unfolding deserialize
  deserialize-Accepts it out h = elim (read_u32le-Reads p v it 0 h) [
    | inl (_, e) ↦ rw e (inl (it, refl))
    | inr (x, small, e, inside, u) ↦ elim (read_u8-Reads p v (it + 4) 0 inside) [
      | inl (_, e') ↦ rw (e, e') (inl (it + 4, refl))
      | inr (y, _, e', inside', u') ↦ elim (Bool-cases (y == crc8 (encode32 x))) [
        | inr bad ↦ rw (e, e', bad) (inl (it + 4 + 1, refl))
        | inl good ↦
            let five : it + 4 + 1 ≡ it + 5 = omega arith in
            let same : y ≡ crc8 (encode32 x) = (==_iff _ _).0 good in
            inr (
              record { value = x },
              small,
              rw (e, e', good, five),
              omega arith,
              u ∙ ap (λ l. encode32 x ++ l) (u' ∙ rw (same, five)),
            )
      ]
    ]
  ]
