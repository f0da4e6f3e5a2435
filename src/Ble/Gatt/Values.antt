-- ===== src/Ble/Gatt/Values.antt =====
-- What a native characteristic keeps of the values that are written.
use jenlib.Common.{
  lt→ltb, ◌⊎◌, bit_and, All-take, ℕ, ◌≤◌, ◌<◌, ◌≡◌, refl, ap, ◌∙◌, inl, inr, Bool-cases, true,
  false, List, [], ◌∷◌, ◌++◌, ◌==◌, ◌&&◌, not, ltb, arith, if◌then◌else◌, length, take, drop, All,
  All-append, All-drop, zero, suc, length-append, length-take, length-drop,
}
use jenlib.Ble.Payload.{BlePayload, empty_payload, max_payload, clear, append_raw}
use jenlib.Ble.Payload.Content.{
  IsByte, IsValid, content, clear-IsValid, append_raw-Appends, Appends-Fits,
}
use jenlib.Ble.Native.Header.{empty_payload-Holds}
use jenlib.Ble.Gatt.{
  NativeBleCharacteristic, value_written, readable, writable, has_property, copy_over, trigger,
  write_value, read_value,
}

-- The array has its length and bytes, and the size is within it.
pub record IsKept (c : NativeBleCharacteristic) : Type 0 where
  pub full_array : length c.current_value ≡ max_payload
  pub within : c.current_size ≤ max_payload
  pub all_bytes : All IsByte c.current_value

take-append_take : (n : ℕ) (l rest : List ℕ) → n ≤ length l → take n (take n l ++ rest) ≡ take n l
take-append_take zero l rest h = refl
take-append_take (suc n) [] rest h = absurd (omega arith)
take-append_take (suc n) (x ∷ l) rest h = ap (λ t. x ∷ t) (take-append_take n l rest (omega arith))

-- An append of the first bytes of an array to an empty payload.
append_raw-clear :
    (p : BlePayload) (l : List ℕ) (n : ℕ)
    → IsValid p
    → All IsByte l
    → n ≤ length l
    → n ≤ max_payload
    → (q : BlePayload) × (append_raw (clear p) l n ≡ (true, q)) × (content q ≡ take n l)
append_raw-clear p l n v b h small =
    let (q, e, c, _, _) =
      Appends-Fits (clear p) (take n l) _ (append_raw-Appends (clear p) l n (clear-IsValid v) b h)
        (omega (arith, length-take n l)) in
    (q, e, c)

-- A write that fits keeps the first bytes of the payload in front of what the array held.
abbrev stored : NativeBleCharacteristic → BlePayload → NativeBleCharacteristic
stored c p = record c {
  current_value = copy_over c.current_value p.bytes p.size;
  current_size = p.size;
}

-- What the event callback is told of a write.
abbrev pub Told : NativeBleCharacteristic → BlePayload → NativeBleCharacteristic → Type 0
Told c p c' =
    (copy : BlePayload) × (content copy ≡ content p)
    × (c'.calls ≡ (
        if c.callback && has_property c writable
        then c.calls ++ ((value_written, copy) ∷ [])
        else c.calls))

module _ (c : NativeBleCharacteristic) (p : BlePayload) (k : IsKept c) (v : IsValid p) where
  stored-IsKept : IsKept (stored c p)
  stored-IsKept = record {
    full_array = omega (
      arith,
      length-append (take p.size p.bytes) (drop p.size c.current_value),
      length-take p.size p.bytes,
      length-drop p.size c.current_value,
      v.full_array,
      v.within,
      k.full_array,
    );
    within = v.within;
    all_bytes =
        All-append IsByte (take p.size p.bytes) (drop p.size c.current_value)
          (All-take IsByte p.size p.bytes v.all_bytes)
          (All-drop IsByte p.size c.current_value k.all_bytes);
  }

  trigger-Told :
      let c' = trigger p (stored c p) in
      Told c p c'
      × IsKept c'
      × (c'.current_value ≡ copy_over c.current_value p.bytes p.size)
      × (c'.current_size ≡ p.size)
      × (c'.properties ≡ c.properties)
  trigger-Told =
      let (copy, e, same) =
        append_raw-clear empty_payload p.bytes p.size empty_payload-Holds.2 v.all_bytes
          (omega (arith, v.full_array, v.within)) v.within in
      let made : (append_raw empty_payload p.bytes p.size).1 ≡ copy = ap (λ r. r.1) e in
      let kept = stored-IsKept in
      elim (Bool-cases (c.callback && has_property c writable)) [
        | inl on ↦ rw on (
          ((copy, same, ap (λ q. c.calls ++ ((value_written, q) ∷ [])) made)),
          record { full_array = kept.full_array; within = kept.within; all_bytes = kept.all_bytes },
          refl,
          refl,
          refl,
        )
        | inr off ↦ rw off ((copy, same, refl), kept, refl, refl, refl)
      ]

-- A read returns what is kept, or fails and leaves its payload as it was.
module _ (c : NativeBleCharacteristic) (out : BlePayload) (k : IsKept c) (w : IsValid out) where
  read_value_kept :
      has_property c readable ≡ true
      → 0 < c.current_size
      → (q : BlePayload) × (read_value c out ≡ (true, q))
        × (content q ≡ take c.current_size c.current_value)
  unfolding read_value
  read_value_kept on some_bytes =
      let some_size : (c.current_size == 0) ≡ false = ground arith in
      rw (on, some_size)
        (append_raw-clear out c.current_value c.current_size w k.all_bytes
          (omega (arith, k.full_array, k.within)) k.within)

  read_value_fails :
      has_property c readable ≡ false ⊎ (c.current_size ≡ 0) → read_value c out ≡ (false, out)
  unfolding read_value
  read_value_fails (inl off) = rw off refl
  read_value_fails (inr none_kept) =
      let no_size : (c.current_size == 0) ≡ true = ground arith in
      elim (Bool-cases (has_property c readable)) [
        | inl on ↦ rw (on, no_size) refl
        | inr off ↦ rw off refl
      ]

-- A native characteristic refuses a write of more bytes than it takes, and nothing changes. Any
-- other is kept, and a copy is told to the event callback if that is set and the characteristic is
-- writable. A read then returns the content that was written, or fails and leaves its payload as it
-- was if the characteristic is not readable or the content was empty.
pub write_value-read_value :
    (c : NativeBleCharacteristic) (p out : BlePayload)
    → IsKept c
    → IsValid p
    → IsValid out
    → (c.max_size < p.size → write_value c p ≡ (false, c))
      × (p.size ≤ c.max_size
          → let (done, c') = write_value c p in
            (done ≡ true)
            × IsKept c'
            × Told c p c'
            × (has_property c readable ≡ true
                → 0 < p.size
                → (q : BlePayload) × (read_value c' out ≡ (true, q)) × (content q ≡ content p))
            × (has_property c readable ≡ false ⊎ (p.size ≡ 0) → read_value c' out ≡ (false, out)))
unfolding write_value
write_value-read_value c p out k v w = (
  λ big. ap (λ b. if b then (false, c) else (true, c1)) (lt→ltb c.max_size p.size big),
  λ fits.
      let small : ltb c.max_size p.size ≡ false = ground arith in
      let (told, k', value, size, props) = trigger-Told c p k v in
      let same : has_property c1 readable ≡ has_property c readable =
        ap (λ n. not (bit_and n 0x01 == 0)) props in
      rw small (
        refl,
        k',
        told,
        λ on some_bytes.
            let (q, e, held) =
              read_value_kept c1 out k' w (same ∙ on) (omega (arith, size, some_bytes)) in
            (
              q,
              e,
              held
                  ∙ rw (size, value)
                      (take-append_take p.size p.bytes _ (omega (arith, v.full_array, v.within))),
            ),
        λ why. read_value_fails c1 out k' w (fails_from same size why),
      ),
)
  where
    c1 : NativeBleCharacteristic
    c1 = trigger p (stored c p)

    fails_from :
        has_property c1 readable ≡ has_property c readable
        → c1.current_size ≡ p.size
        → has_property c readable ≡ false ⊎ (p.size ≡ 0)
        → has_property c1 readable ≡ false ⊎ (c1.current_size ≡ 0)
    fails_from same size (inl off) = inl (same ∙ off)
    fails_from same size (inr empty) = inr (size ∙ empty)
