-- ===== src/Ble/Ids/Integrity.antt =====
-- What the checksum of a `DeviceId` detects, and the two deserializers compared.
use jenlib.Common.{
  ℕ, ◌+◌, ◌≤◌, ◌≡◌, ◌≢◌, sym, ap, ◌∙◌, inl, inr, false, List, [], ◌∷◌, ◌++◌, arith, length,
  length-append, All, if◌then◌else◌,
}
use mathlib.Core.Path.{subst}
use jenlib.Ble.Crc.{crc8, crc8_same}
use jenlib.Ble.Payload.{BlePayload, byte_of, read_u8, read_u32le, read_u8_at, read_u32le_at}
use jenlib.Ble.Payload.Content.{IsByte, IsValid, encode32}
use jenlib.Ble.Payload.Reading.{unread}
use jenlib.Ble.Ids.{DeviceId, deserialize, deserialize_at}
use jenlib.Ble.Ids.Wire.{encode_id, deserialize-Accepts}

All-front {κ} :
    {A : Type 0} (P : A → Type κ) (front back : List A) → All P (front ++ back) → All P front
All-front P [] back h = tt
All-front P (x ∷ front) back h = (h.0, All-front P front back h.1)

All-back {κ} :
    {A : Type 0} (P : A → Type κ) (front back : List A) → All P (front ++ back) → All P back
All-back P [] back h = h
All-back P (x ∷ front) back h = All-back P front back h.1

encode32-All : (x : ℕ) (l : List ℕ) → encode32 x ≡ l → All IsByte l
encode32-All x l e = subst (All IsByte) e (omega arith)

-- Values with the same checksum whose bytes differ in one place at most are equal there.
encode32_single_byte :
    (front back : List ℕ) (b b' x y : ℕ)
    → encode32 x ≡ front ++ (b ∷ back)
    → encode32 y ≡ front ++ (b' ∷ back)
    → crc8 (encode32 x) ≡ crc8 (encode32 y)
    → b ≡ b'
encode32_single_byte front back b b' x y ex ey crc =
    let hx = encode32-All x (front ++ (b ∷ back)) ex in
    let hy = encode32-All y (front ++ (b' ∷ back)) ey in
    let tx = All-back IsByte front (b ∷ back) hx in
    let ty = All-back IsByte front (b' ∷ back) hy in
    crc8_same front back b b' (All-front IsByte front (b ∷ back) hx) tx.1 tx.0 ty.0
      (sym (ap crc8 ex) ∙ crc ∙ ap crc8 ey)

-- Two wire forms that differ in one byte at most are equal there.
encode_id_single_byte :
    (front back : List ℕ) (b b' x y : ℕ)
    → encode_id x ≡ front ++ (b ∷ back)
    → encode_id y ≡ front ++ (b' ∷ back)
    → b ≡ b'
encode_id_single_byte [] back b b' x y ex ey =
    encode32_single_byte [] (byte_of 8 x ∷ byte_of 16 x ∷ byte_of 24 x ∷ []) b b' x y (cc) (cc) (cc)
encode_id_single_byte (f0 ∷ []) back b b' x y ex ey =
    encode32_single_byte (f0 ∷ []) (byte_of 16 x ∷ byte_of 24 x ∷ []) b b' x y (cc) (cc) (cc)
encode_id_single_byte (f0 ∷ f1 ∷ []) back b b' x y ex ey =
    encode32_single_byte (f0 ∷ f1 ∷ []) (byte_of 24 x ∷ []) b b' x y (cc) (cc) (cc)
encode_id_single_byte (f0 ∷ f1 ∷ f2 ∷ []) back b b' x y ex ey =
    encode32_single_byte (f0 ∷ f1 ∷ f2 ∷ []) [] b b' x y (cc) (cc) (cc)
encode_id_single_byte (f0 ∷ f1 ∷ f2 ∷ f3 ∷ []) back b b' x y ex ey =
    let same : encode32 x ≡ encode32 y = cc in cc (ex, ey, ap crc8 same)
encode_id_single_byte (f0 ∷ f1 ∷ f2 ∷ f3 ∷ f4 ∷ front) back b b' x y ex ey =
    absurd (omega (arith, ap length ex, length-append front (b ∷ back)))

take_five :
    (x0 x1 x2 x3 x4 : ℕ) (u block l : List ℕ)
    → x0 ∷ x1 ∷ x2 ∷ x3 ∷ x4 ∷ u ≡ block ++ l
    → length block ≡ 5
    → x0 ∷ x1 ∷ x2 ∷ x3 ∷ x4 ∷ [] ≡ block
take_five x0 x1 x2 x3 x4 u (b0 ∷ b1 ∷ b2 ∷ b3 ∷ b4 ∷ []) l e h = cc
take_five x0 x1 x2 x3 x4 u block l e h = absurd (omega arith)

-- The deserializer of a device identifier refuses what it is sent as with any single one of the
-- five bytes changed.
pub deserialize_detects :
    (p : BlePayload) (it x b b' : ℕ) (out : DeviceId) (front back l : List ℕ)
    → IsValid p
    → it ≤ p.size
    → encode_id x ≡ front ++ (b ∷ back)
    → b ≢ b'
    → unread p it ≡ (front ++ (b' ∷ back)) ++ l
    → (deserialize p it p.size out).0 ≡ false
deserialize_detects p it x b b' out front back l v h ex ne u =
    elim (deserialize-Accepts p v it out h) [
      | inl (_, failed) ↦ ap (λ r. r.0) failed
      | inr (y, _, _, _, uy) ↦
          let block = front ++ (b' ∷ back) in
          let five : length block ≡ 5 = omega (
            arith,
            ap length ex,
            length-append front (b ∷ back),
            length-append front (b' ∷ back),
          ) in
          let ey = take_five _ _ _ _ _ (unread p (it + 5)) block l (sym uy ∙ u) five in
          absurd (ne (encode_id_single_byte front back b b' x y.value ex ey))
    ]

-- Both deserializers of a device identifier make the same decision and return the same identifier;
-- the one by index moves its offset only on success, the other moves its iterator as far as it has
-- read.
pub deserialize_at-deserialize :
    (p : BlePayload) (i : ℕ) (out : DeviceId)
    → i ≤ p.size
    → let (done, it, id) = deserialize p i p.size out in
      deserialize_at p i out ≡ (done, if done then it else i, id)
unfolding deserialize deserialize_at read_u8 read_u32le read_u8_at read_u32le_at
deserialize_at-deserialize p i out h = ground arith
