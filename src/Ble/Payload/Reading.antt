-- ===== src/Ble/Payload/Reading.antt =====
-- What the readers see of a payload: the unread bytes from a position on. Each reader either finds
-- too few of them and leaves the position alone, or takes an encoded value off their front.
use jenlib.Common.{
  ℕ, ◌+◌, ◌-◌, ◌*◌, ◌^◌, ◌≤◌, ◌<◌, ◌≡◌, refl, sym, ap, ◌∙◌, ◌⊎◌, inl, inr, true, false, List, [],
  ◌∷◌, ◌++◌, arith, length, drop, drop-take, get_or, All-get_or, length-drop, ltb, ◌==◌, Bool-cases,
}
use jenlib.Common.Bits.{bit_or_join}
use jenlib.Common.Int.{i16_of_u16-u16_of_i16, u16_of_i16-lt}
use jenlib.Common.Int.{ℤ, IsI16, u16_of_i16, i16_of_u16, i16_of_u16-IsI16, u16_of_i16-i16_of_u16}
use native.Mathlib.Numerals.{add-one}
use jenlib.Ble.Payload.Content.{IsByte, IsValid, content, length-content, encode16, encode32}
use jenlib.Ble.Payload.{
  BlePayload, join16, join32, Read, read_u8, read_u16le, read_u32le, read_i16le,
}

abbrev pub unread : BlePayload → ℕ → List ℕ
unread p it = drop it (content p)

join16-sum : (b0 b1 : ℕ) → IsByte b0 → join16 b0 b1 ≡ b0 + b1 * 2 ^ 8
join16-sum b0 b1 h = bit_or_join 8 b0 b1 h

pub join32-sum :
    (b0 b1 b2 b3 : ℕ)
    → IsByte b0
    → IsByte b1
    → IsByte b2
    → join32 b0 b1 b2 b3 ≡ b0 + b1 * 2 ^ 8 + b2 * 2 ^ 16 + b3 * 2 ^ 24
join32-sum b0 b1 b2 b3 h0 h1 h2 = rw (
  bit_or_join 8 b0 b1 h0,
  bit_or_join 16 (b0 + b1 * 2 ^ 8) b2 (omega arith),
  bit_or_join 24 (b0 + b1 * 2 ^ 8 + b2 * 2 ^ 16) b3 (omega arith),
)

encode16-join16 : (b0 b1 : ℕ) → IsByte b0 → IsByte b1 → encode16 (join16 b0 b1) ≡ b0 ∷ b1 ∷ []
encode16-join16 b0 b1 h0 h1 = rw (join16-sum b0 b1 h0) (ground arith)

encode32-join32 :
    (b0 b1 b2 b3 : ℕ)
    → IsByte b0
    → IsByte b1
    → IsByte b2
    → IsByte b3
    → encode32 (join32 b0 b1 b2 b3) ≡ b0 ∷ b1 ∷ b2 ∷ b3 ∷ []
encode32-join32 b0 b1 b2 b3 h0 h1 h2 h3 = rw (join32-sum b0 b1 b2 b3 h0 h1 h2) (ground arith)

nil_of_length : (l : List ℕ) → length l ≡ 0 → l ≡ []
nil_of_length [] e = refl
nil_of_length (x ∷ l) e = absurd (omega arith)

module _ (p : BlePayload) (v : IsValid p) where
  unread_next : (it : ℕ) → it < p.size → unread p it ≡ get_or p.bytes it 0 ∷ unread p (it + 1)
  unread_next it h =
      rw add-one (drop-take p.bytes it p.size 0 h (omega (arith, v.full_array, v.within)))

  cell-IsByte : (it : ℕ) → IsByte (get_or p.bytes it 0)
  cell-IsByte it = All-get_or IsByte p.bytes it 0 (omega arith) v.all_bytes

  pub length-unread : (it : ℕ) → length (unread p it) ≡ p.size - it
  length-unread it = length-drop it (content p) ∙ ap (λ n. n - it) (length-content v)

  pub unread_end : (it : ℕ) → it ≡ p.size → unread p it ≡ []
  unread_end it e = nil_of_length (unread p it) (omega (arith, length-unread it))

  -- The two outcomes of a reader that takes `n` bytes, `encode x`, for a value `x` with `P x`.
  abbrev pub Reads :
      {A : Type 0} (n : ℕ) (encode : A → List ℕ) (P : A → Type 0) (it : ℕ) (out : A)
      → Read A
      → Type 0
  Reads {A} n encode P it out r =
      ((length (unread p it) < n) × (r ≡ (false, it, out)))
      ⊎ ((x : A) × P x
          × (r ≡ (true, it + n, x))
          × (it + n ≤ p.size)
          × (unread p it ≡ encode x ++ unread p (it + n)))

  pub read_u8-Reads :
      (it out : ℕ) → it ≤ p.size → Reads 1 (λ x. x ∷ []) IsByte it out (read_u8 p it p.size out)
  unfolding read_u8
  read_u8-Reads it out h = elim (Bool-cases (it == p.size)) [
    | inl done ↦ rw done (inl (ground (arith, length-unread it), refl))
    | inr more ↦
        let inside : it < p.size = ground arith in
        rw more
          (inr (get_or p.bytes it 0, cell-IsByte it, refl, omega arith, unread_next it inside))
  ]

  unread_two :
      (it : ℕ)
      → it + 2 ≤ p.size
      → unread p it ≡ get_or p.bytes it 0 ∷ get_or p.bytes (it + 1) 0 ∷ unread p (it + 2)
  unread_two it h =
      let two : it + 1 + 1 ≡ it + 2 = omega arith in
      unread_next it (omega arith)
      ∙ ap (λ l. get_or p.bytes it 0 ∷ l) (rw two at (unread_next (it + 1) (omega arith)))

  unread_four :
      (it : ℕ)
      → it + 4 ≤ p.size
      → unread p it
        ≡ get_or p.bytes it 0
          ∷ get_or p.bytes (it + 1) 0
          ∷ get_or p.bytes (it + 2) 0
          ∷ get_or p.bytes (it + 3) 0
          ∷ unread p (it + 4)
  unread_four it h =
      let three : it + 2 + 1 ≡ it + 3 = omega arith in
      let four : it + 2 + 2 ≡ it + 4 = omega arith in
      unread_two it (omega arith)
      ∙ ap (λ l. get_or p.bytes it 0 ∷ get_or p.bytes (it + 1) 0 ∷ l)
          (rw (three, four) at (unread_two (it + 2) (omega arith)))

  pub read_u16le-Reads :
      (it out : ℕ)
      → it ≤ p.size
      → Reads 2 encode16 (λ x. x < 2 ^ 16) it out (read_u16le p it p.size out)
  unfolding read_u16le
  read_u16le-Reads it out h = elim (Bool-cases (ltb p.size (it + 2))) [
    | inl short ↦ rw short (inl (ground (arith, length-unread it), refl))
    | inr enough ↦
        let inside : it + 2 ≤ p.size = ground arith in
        let b0 = cell-IsByte it in
        let b1 = cell-IsByte (it + 1) in
        rw enough (
          inr (
            join16 (get_or p.bytes it 0) (get_or p.bytes (it + 1) 0),
            omega (arith, join16-sum _ (get_or p.bytes (it + 1) 0) b0),
            refl,
            inside,
            unread_two it inside
                ∙ ap (λ l. l ++ unread p (it + 2)) (sym (encode16-join16 _ _ b0 b1)),
          ))
  ]

  pub read_u32le-Reads :
      (it out : ℕ)
      → it ≤ p.size
      → Reads 4 encode32 (λ x. x < 2 ^ 32) it out (read_u32le p it p.size out)
  unfolding read_u32le
  read_u32le-Reads it out h = elim (Bool-cases (ltb p.size (it + 4))) [
    | inl short ↦ rw short (inl (ground (arith, length-unread it), refl))
    | inr enough ↦
        let inside : it + 4 ≤ p.size = ground arith in
        let b0 = cell-IsByte it in
        let b1 = cell-IsByte (it + 1) in
        let b2 = cell-IsByte (it + 2) in
        let b3 = cell-IsByte (it + 3) in
        rw enough (
          inr (
            join32 (get_or p.bytes it 0) (get_or p.bytes (it + 1) 0) (get_or p.bytes (it + 2) 0)
                (get_or p.bytes (it + 3) 0),
            omega (arith, join32-sum _ _ _ (get_or p.bytes (it + 3) 0) b0 b1 b2),
            refl,
            inside,
            unread_four it inside
                ∙ ap (λ l. l ++ unread p (it + 4)) (sym (encode32-join32 _ _ _ _ b0 b1 b2 b3)),
          ))
  ]

  pub read_i16le-Reads :
      (it : ℕ) (out : ℤ)
      → it ≤ p.size
      → Reads 2 (λ z. encode16 (u16_of_i16 z)) IsI16 it out (read_i16le p it p.size out)
  unfolding read_i16le
  read_i16le-Reads it out h = elim (read_u16le-Reads it 0 h) [
    | inl (short, e) ↦ rw e (inl (short, refl))
    | inr (x, small, e, inside, l) ↦ rw e (
        inr (
          i16_of_u16 x,
          i16_of_u16-IsI16 x small,
          refl,
          inside,
          rw (u16_of_i16-i16_of_u16 x small) l,
        ))
  ]

  -- A reader finds the value whose encoding the unread bytes begin with.
  abbrev pub Finds : {A : Type 0} (n it : ℕ) (l : List ℕ) (x : A) → Read A → Type 0
  Finds n it l x r = (r ≡ (true, it + n, x)) × (unread p (it + n) ≡ l) × (it + n ≤ p.size)

  pub read_u8-Finds :
      (it out x : ℕ) (l : List ℕ)
      → it ≤ p.size
      → unread p it ≡ x ∷ l
      → Finds 1 it l x (read_u8 p it p.size out)
  read_u8-Finds it out x l h e = elim (read_u8-Reads it out h) [
    | inl (short, _) ↦ absurd (omega (arith, short, ap length e))
    | inr (y, fits, r, inside, u) ↦
        (r ∙ ground (arith, sym u ∙ e), ground (arith, sym u ∙ e), inside)
  ]

  pub read_u16le-Finds :
      (it out x : ℕ) (l : List ℕ)
      → it ≤ p.size
      → x < 2 ^ 16
      → unread p it ≡ encode16 x ++ l
      → Finds 2 it l x (read_u16le p it p.size out)
  read_u16le-Finds it out x l h small e = elim (read_u16le-Reads it out h) [
    | inl (short, _) ↦ absurd (omega (arith, short, ap length e))
    | inr (y, fits, r, inside, u) ↦
        (r ∙ ground (arith, sym u ∙ e), ground (arith, sym u ∙ e), inside)
  ]

  pub read_u32le-Finds :
      (it out x : ℕ) (l : List ℕ)
      → it ≤ p.size
      → x < 2 ^ 32
      → unread p it ≡ encode32 x ++ l
      → Finds 4 it l x (read_u32le p it p.size out)
  read_u32le-Finds it out x l h small e = elim (read_u32le-Reads it out h) [
    | inl (short, _) ↦ absurd (omega (arith, short, ap length e))
    | inr (y, fits, r, inside, u) ↦
        (r ∙ ground (arith, sym u ∙ e), ground (arith, sym u ∙ e), inside)
  ]

  pub read_i16le-Finds :
      (it : ℕ) (out x : ℤ) (l : List ℕ)
      → it ≤ p.size
      → IsI16 x
      → unread p it ≡ encode16 (u16_of_i16 x) ++ l
      → Finds 2 it l x (read_i16le p it p.size out)
  unfolding read_i16le
  read_i16le-Finds it out x l h small e =
      let (r, u, inside) = read_u16le-Finds it 0 (u16_of_i16 x) l h (u16_of_i16-lt x) e in
      (rw (r, i16_of_u16-u16_of_i16 x small), u, inside)
