-- ===== src/Ble/Payload/Content.antt =====
-- What a payload holds: the bytes up to its size. Every append either fails and changes nothing, or
-- puts the encoding behind the content.
use jenlib.Common.{
  ℕ, zero, suc, ◌+◌, ◌^◌, ◌≤◌, ◌<◌, ◌≡◌, refl, sym, ◌∙◌, ◌⊎◌, inl, inr, Bool, true, false, List, [],
  ◌∷◌, ◌++◌, arith, length, take, All, ltb, length-set, length-take, length-append, take-set,
  All-set, All-take, Bool-cases, tests, if◌then◌else◌,
}
use mathlib.Core.List.{append_assoc, append-nil}
use native.Mathlib.Numerals.{add-one}
use jenlib.Ble.Payload.{
  BlePayload, max_payload, byte_of, clear, put, append_u8, append_u16le, append_u32le, append_i16le,
  append_loop, append_raw,
}
use jenlib.Common.Int.{ℤ, u16_of_i16}

abbrev pub IsByte : ℕ → Type 0
IsByte b = b < 2 ^ 8

pub record IsValid (p : BlePayload) : Type 0 where
  pub full_array : length p.bytes ≡ max_payload
  pub within : p.size ≤ max_payload
  pub all_bytes : All IsByte p.bytes

abbrev pub content : BlePayload → List ℕ
content p = take p.size p.bytes

-- The little-endian encodings.
abbrev pub encode16 : ℕ → List ℕ
encode16 v = byte_of 0 v ∷ byte_of 8 v ∷ []

abbrev pub encode32 : ℕ → List ℕ
encode32 v = byte_of 0 v ∷ byte_of 8 v ∷ byte_of 16 v ∷ byte_of 24 v ∷ []

pub length-content : {p : BlePayload} → IsValid p → length (content p) ≡ p.size
length-content {p} v = omega (arith, length-take p.size p.bytes, v.full_array, v.within)

pub clear-IsValid : {p : BlePayload} → IsValid p → IsValid (clear p)
clear-IsValid {p} v = record {
  full_array = v.full_array;
  within = omega arith;
  all_bytes = v.all_bytes;
}

put-IsValid :
    {p : BlePayload} (x : ℕ) → IsValid p → p.size < max_payload → IsByte x → IsValid (put p x)
unfolding put
put-IsValid {p} x v h b = record {
  full_array = length-set p.bytes p.size x ∙ v.full_array;
  within = omega arith;
  all_bytes = All-set IsByte p.bytes p.size x b v.all_bytes;
}

content-put :
    {p : BlePayload} (x : ℕ)
    → IsValid p
    → p.size < max_payload
    → content (put p x) ≡ content p ++ (x ∷ [])
unfolding put
content-put {p} x v h = rw add-one (take-set p.bytes p.size x (omega (arith, v.full_array)))

-- What an append of the bytes `l` does: it succeeds with `l` behind the content if that fits, and
-- otherwise fails and leaves the payload as it was.
abbrev pub Appends : BlePayload → List ℕ → Bool × BlePayload → Type 0
Appends p l (done, q) =
    ((p.size + length l ≤ max_payload)
      × (done ≡ true)
      × (content q ≡ content p ++ l)
      × (q.size ≡ p.size + length l)
      × IsValid q)
    ⊎ ((max_payload < p.size + length l) × (done ≡ false) × (q ≡ p))

-- Several bytes in a row.
abbrev puts : BlePayload → List ℕ → BlePayload
puts p [] = p
puts p (x ∷ l) = puts (put p x) l

abbrev Extends : BlePayload → List ℕ → BlePayload → Type 0
Extends p l q = (content q ≡ content p ++ l) × (q.size ≡ p.size + length l) × IsValid q

size-put : (p : BlePayload) (x : ℕ) → (put p x).size ≡ p.size + 1
unfolding put
size-put p x = refl

puts-Extends :
    (p : BlePayload) (l : List ℕ)
    → IsValid p
    → p.size + length l ≤ max_payload
    → All IsByte l
    → Extends p l (puts p l)
puts-Extends p [] v h b = (sym (append-nil _), omega arith, v)
puts-Extends p (x ∷ l) v h b =
    let room : p.size < max_payload = omega arith in
    let grown = size-put p x in
    let (c, s, w) =
      puts-Extends (put p x) l (put-IsValid x v room b.0) (omega (arith, grown)) b.1 in
    (
      c ∙ rw (content-put x v room) (append_assoc (content p) (x ∷ []) l),
      omega (arith, s, grown),
      w,
    )

Appends-if_room :
    (p : BlePayload) (l : List ℕ) (n : ℕ)
    → IsValid p
    → All IsByte l
    → length l ≡ n
    → Appends p l (if ltb max_payload (p.size + n) then (false, p) else (true, puts p l))
Appends-if_room p l n v b e = elim (Bool-cases (ltb max_payload (p.size + n))) [
  | inl big ↦ rw big (inr (omega (tests, e), refl, refl))
  | inr fits ↦
      let room : p.size + length l ≤ max_payload = ground (arith, e) in
      let (c, s, w) = puts-Extends p l v room b in rw fits (inl (room, refl, c, s, w))
]

pub append_u8-Appends :
    (p : BlePayload) (x : ℕ) → IsValid p → IsByte x → Appends p (x ∷ []) (append_u8 p x)
unfolding append_u8
append_u8-Appends p x v b = Appends-if_room p (x ∷ []) 1 v (b, tt) refl

append_u16le-Appends :
    (p : BlePayload) (x : ℕ) → IsValid p → Appends p (encode16 x) (append_u16le p x)
unfolding append_u16le
append_u16le-Appends p x v = Appends-if_room p (encode16 x) 2 v (omega arith) refl

append_u32le-Appends :
    (p : BlePayload) (x : ℕ) → IsValid p → Appends p (encode32 x) (append_u32le p x)
unfolding append_u32le
append_u32le-Appends p x v = Appends-if_room p (encode32 x) 4 v (omega arith) refl

append_i16le-Appends :
    (p : BlePayload) (x : ℤ) → IsValid p → Appends p (encode16 (u16_of_i16 x)) (append_i16le p x)
unfolding append_i16le
append_i16le-Appends p x v = append_u16le-Appends p (u16_of_i16 x) v

append_loop-puts : (p : BlePayload) (l : List ℕ) (n : ℕ) → append_loop p l n ≡ puts p (take n l)
unfolding append_loop
append_loop-puts p l zero = refl
append_loop-puts p [] (suc n) = refl
append_loop-puts p (x ∷ l) (suc n) = append_loop-puts (put p x) l n

pub append_raw-Appends :
    (p : BlePayload) (l : List ℕ) (n : ℕ)
    → IsValid p
    → All IsByte l
    → n ≤ length l
    → Appends p (take n l) (append_raw p l n)
unfolding append_raw
append_raw-Appends p l n v b h =
    rw (append_loop-puts p l n)
      (Appends-if_room p (take n l) n v (All-take IsByte n l b) (omega (arith, length-take n l)))

-- An append that fits succeeds; its result, named.
abbrev pub Fits : BlePayload → List ℕ → Bool × BlePayload → Type 0
Fits p l r =
    (q : BlePayload) × (r ≡ (true, q))
    × (content q ≡ content p ++ l)
    × (q.size ≡ p.size + length l)
    × IsValid q

pub Appends-Fits :
    (p : BlePayload) (l : List ℕ) (r : Bool × BlePayload)
    → Appends p l r
    → p.size + length l ≤ max_payload
    → Fits p l r
Appends-Fits p l r (inl (_, e, c, s, w)) h = (r.1, λ i. (e i, r.1), c, s, w)
Appends-Fits p l r (inr (big, _, _)) h = absurd (omega arith)

-- Two appends in a row, the second behind the first one's result.
pub then-Fits :
    (p q : BlePayload) (l m : List ℕ) (r : Bool × BlePayload)
    → content q ≡ content p ++ l
    → q.size ≡ p.size + length l
    → Fits q m r
    → Fits p (l ++ m) r
then-Fits p q l m r c s (q', e, c', s', w) =
    (q', e, c' ∙ rw c (append_assoc (content p) l m), omega (arith, s, s', length-append l m), w)

-- The appends at a payload with room.
module _ (p : BlePayload) (v : IsValid p) where
  pub append_u8-Fits :
      (x : ℕ) → IsByte x → p.size + 1 ≤ max_payload → Fits p (x ∷ []) (append_u8 p x)
  append_u8-Fits x b h = Appends-Fits p (x ∷ []) (append_u8 p x) (append_u8-Appends p x v b) h

  pub append_u16le-Fits :
      (x : ℕ) → p.size + 2 ≤ max_payload → Fits p (encode16 x) (append_u16le p x)
  append_u16le-Fits x h =
      Appends-Fits p (encode16 x) (append_u16le p x) (append_u16le-Appends p x v) h

  pub append_i16le-Fits :
      (x : ℤ) → p.size + 2 ≤ max_payload → Fits p (encode16 (u16_of_i16 x)) (append_i16le p x)
  append_i16le-Fits x h =
      Appends-Fits p (encode16 (u16_of_i16 x)) (append_i16le p x) (append_i16le-Appends p x v) h

  pub append_u32le-Fits :
      (x : ℕ) → p.size + 4 ≤ max_payload → Fits p (encode32 x) (append_u32le p x)
  append_u32le-Fits x h =
      Appends-Fits p (encode32 x) (append_u32le p x) (append_u32le-Appends p x v) h
