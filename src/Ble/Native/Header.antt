-- ===== src/Ble/Native/Header.antt =====
-- The header of an advertised payload: the marker and the sender's identifier, without a checksum.
use jenlib.Common.{
  ℕ, ◌+◌, ◌^◌, ◌≤◌, ◌<◌, ◌≡◌, ◌≢◌, refl, sym, ap, ◌∙◌, inl, inr, true, false, List, [], ◌∷◌, ◌++◌,
  arith, leb, if◌then◌else◌, length, get_or, get_or-take, All-replicate,
}
use mathlib.Core.List.{append-nil}
use jenlib.Ble.Payload.{
  BlePayload, empty_payload, max_payload, byte_of, join32, append_u8, append_raw,
}
use jenlib.Ble.Payload.Content.{
  IsByte, IsValid, content, length-content, encode32, append_u8-Appends, append_raw-Appends,
}
use jenlib.Ble.Payload.Reading.{join32-sum}
use jenlib.Ble.Ids.{DeviceId}
use jenlib.Ble.Native.{sender_id_marker, payload_with_sender, extract_sender_id}

-- A payload whose content is known.
abbrev pub Holds : BlePayload → List ℕ → Type 0
Holds p l = (content p ≡ l) × (p.size ≡ length l) × IsValid p

pub empty_payload-Holds : Holds empty_payload []
empty_payload-Holds = (
  refl,
  refl,
  record {
    full_array = refl;
    within = omega arith;
    all_bytes = All-replicate IsByte max_payload 0 (omega arith);
  },
)

append_u8-Holds :
    (p : BlePayload) (l m : List ℕ) (x : ℕ)
    → Holds p l
    → IsByte x
    → length l < max_payload
    → l ++ (x ∷ []) ≡ m
    → length m ≡ length l + 1
    → Holds (append_u8 p x).1 m
append_u8-Holds p l m x (c, s, v) b room e e' = elim (append_u8-Appends p x v b) [
  | inl (_, _, c', s', v') ↦ (c' ∙ ap (λ k. k ++ (x ∷ [])) c ∙ e, omega (arith, s, s', e'), v')
  | inr (big, _, _) ↦ absurd (omega (arith, s, big))
]

abbrev pub header : ℕ → List ℕ
header v = sender_id_marker ∷ encode32 v

-- The header in front of the content, or without it if it does not fit.
abbrev pub wrapped : ℕ → BlePayload → List ℕ
wrapped v p = header v ++ (if leb p.size 59 then content p else [])

wrap_last :
    (b p : BlePayload) (v : ℕ)
    → content b ≡ header v
    → b.size ≡ 5
    → IsValid b
    → IsValid p
    → let q = (append_raw b p.bytes p.size).1 in
      (content q ≡ wrapped v p) × (5 ≤ q.size) × IsValid q
wrap_last b p v c s w u =
    elim (append_raw-Appends b p.bytes p.size w u.all_bytes
      (omega (arith, u.full_array, u.within))) [
        | inl (fits, _, c', s', w') ↦
            let long = length-content u in
            let small : leb p.size 59 ≡ true = ground (arith, fits, long, s) in
            rw small (c' ∙ ap (λ l. l ++ content p) c, omega (arith, s, s'), w')
        | inr (big, _, e) ↦
            let long = length-content u in
            let large : leb p.size 59 ≡ false = ground (arith, big, long, s) in
            rw (large, e) (c ∙ sym (append-nil (header v)), omega (arith, s), w)
      ]

pub payload_with_sender-Holds :
    (id : DeviceId) (p : BlePayload)
    → IsValid p
    → (content (payload_with_sender id p) ≡ wrapped id.value p)
      × (5 ≤ (payload_with_sender id p).size)
      × IsValid (payload_with_sender id p)
unfolding payload_with_sender
payload_with_sender-Holds id p v =
    let a0 = byte_of 0 id.value in
    let a1 = byte_of 8 id.value in
    let a2 = byte_of 16 id.value in
    let a3 = byte_of 24 id.value in
    let b0 = (append_u8 empty_payload sender_id_marker).1 in
    let b1 = (append_u8 b0 a0).1 in
    let b2 = (append_u8 b1 a1).1 in
    let b3 = (append_u8 b2 a2).1 in
    let b4 = (append_u8 b3 a3).1 in
    let h0 =
      append_u8-Holds empty_payload [] (255 ∷ []) 255 empty_payload-Holds (omega arith)
        (omega arith) refl (omega arith) in
    let h1 =
      append_u8-Holds b0 (255 ∷ []) (255 ∷ a0 ∷ []) a0 h0 (omega arith) (omega arith) refl
        (omega arith) in
    let h2 =
      append_u8-Holds b1 (255 ∷ a0 ∷ []) (255 ∷ a0 ∷ a1 ∷ []) a1 h1 (omega arith) (omega arith) refl
        (omega arith) in
    let h3 =
      append_u8-Holds b2 (255 ∷ a0 ∷ a1 ∷ []) (255 ∷ a0 ∷ a1 ∷ a2 ∷ []) a2 h2 (omega arith)
        (omega arith) refl (omega arith) in
    let (c4, s4, v4) =
      append_u8-Holds b3 (255 ∷ a0 ∷ a1 ∷ a2 ∷ []) (255 ∷ a0 ∷ a1 ∷ a2 ∷ a3 ∷ []) a3 h3
        (omega arith) (omega arith) refl (omega arith) in
    wrap_last b4 p id.value c4 s4 v4 v

join32_bytes :
    (v : ℕ) → v < 2 ^ 32 → join32 (byte_of 0 v) (byte_of 8 v) (byte_of 16 v) (byte_of 24 v) ≡ v
join32_bytes v fits =
    join32-sum (byte_of 0 v) (byte_of 8 v) (byte_of 16 v) (byte_of 24 v) (omega arith) (omega arith)
      (omega arith)
    ∙ omega arith

-- A byte of the array within the content.
pub byte_of_content :
    (q : BlePayload) (l : List ℕ) (i : ℕ)
    → content q ≡ l
    → i < q.size
    → get_or q.bytes i 0 ≡ get_or l i 0
byte_of_content q l i c h = sym (get_or-take q.bytes q.size i 0 h) ∙ ap (λ k. get_or k i 0) c

pub extract_sender_id-payload_with_sender :
    (id : DeviceId) (p : BlePayload)
    → IsValid p
    → id.value < 2 ^ 32
    → extract_sender_id (payload_with_sender id p) ≡ id
unfolding extract_sender_id
extract_sender_id-payload_with_sender id p v fits =
    let q = payload_with_sender id p in
    let l = wrapped id.value p in
    let (c, long, _) = payload_with_sender-Holds id p v in
    let e0 = byte_of_content q l 0 c (omega arith) in
    let e1 = byte_of_content q l 1 c (omega arith) in
    let e2 = byte_of_content q l 2 c (omega arith) in
    let e3 = byte_of_content q l 3 c (omega arith) in
    let e4 = byte_of_content q l 4 c (omega arith) in
    let enough : leb 5 q.size ≡ true = ground (arith, long) in
    rw (enough, e0, e1, e2, e3, e4) (ap (λ n. record { value = n }) (join32_bytes id.value fits))

-- A payload that does not begin with the marker has no known sender.
pub extract_sender_id_none :
    (p : BlePayload) → get_or p.bytes 0 0 ≢ 255 → extract_sender_id p ≡ record { value = 0 }
unfolding extract_sender_id
extract_sender_id_none p other = ground arith
