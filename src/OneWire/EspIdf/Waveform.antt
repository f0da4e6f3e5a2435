-- ===== src/OneWire/EspIdf/Waveform.antt =====
-- What a device on the wire sees of the writes of the ESP-IDF bus, and what the bus reads of a device.
use jenlib.Common.{
  ℕ, zero, suc, ◌+◌, ◌*◌, ◌<◌, ◌≡◌, refl, sym, ap, ◌∙◌, Bool, true, false, List, [], ◌∷◌, ◌++◌, ltb,
  if◌then◌else◌, arith, length, take, drop, All, ◌&&◌, not,
}
use mathlib.Core.List.{append_assoc, append-nil}
use jenlib.OneWire.{write_all}
use jenlib.OneWire.Bytes.{
  bits_of, bits_of_bytes, value_of, value_of-bits_of, write_list, write_bits_lem, Gives,
  read_all_lem,
}
use jenlib.OneWire.EspIdf.{
  PinAction, as_output, as_input, set_level, wait_us, get_level, config_open_drain,
  EspIdfOneWireBus, act, slot_of, write_bit, read_bit, write_byte, write_bytes, read_byte,
  read_bytes,
}

-- The pin of the bus, whether it drives the line and the level that it is set to, and a device on the
-- line: for how long the line has been down, and the bits so far.
pub record Wire : Type 0 where
  pub driven : Bool
  pub level : Bool
  pub low_for : ℕ
  pub heard : List Bool

-- Only a pin that is an output and set to low pulls the line down.
abbrev pub is_down : Wire → Bool
is_down w = w.driven && not w.level

-- The device starts to count when the line falls and, when the line rises, takes a 1 if it was down
-- for less than 15 microseconds, the earliest time at which a device samples, and a 0 otherwise.
abbrev pub edge : Bool → Wire → Wire
edge was_down w =
    if is_down w
    then (if was_down then w else record w { low_for = 0 })
    else if was_down
    then record w { heard = w.heard ++ (ltb w.low_for 15 ∷ []) }
    else w

abbrev pub follow : PinAction → Wire → Wire
follow (set_level level) w = edge (is_down w) (record w { level = level })
follow as_output w = edge (is_down w) (record w { driven = true })
follow config_open_drain w = edge (is_down w) (record w { driven = true })
follow as_input w = edge (is_down w) (record w { driven = false })
follow (wait_us t) w = if is_down w then record w { low_for = w.low_for + t } else w
follow get_level w = w

pub follow_all : List PinAction → Wire → Wire
follow_all [] w = w
follow_all (a ∷ actions) w = follow_all actions (follow a w)

-- The bytes of which the device has heard the bits.
abbrev pub bytes_heard : ℕ → List Bool → List ℕ
bytes_heard zero bits = []
bytes_heard (suc n) bits = value_of (take 8 bits) ∷ bytes_heard n (drop 8 bits)

-- The slots of bits in a row.
abbrev slots : List Bool → List PinAction
slots [] = []
slots (b ∷ bits) = slot_of b ++ slots bits

write_list_slots :
    (bits : List Bool) (bus : EspIdfOneWireBus)
    → write_list write_bit bits bus ≡ act (slots bits) bus
write_list_slots [] bus = ap (λ l. record bus { actions = l }) (sym (append-nil bus.actions))
write_list_slots (b ∷ bits) bus =
    write_list_slots bits (act (slot_of b) bus)
    ∙ ap (λ l. record bus { actions = l }) (append_assoc bus.actions (slot_of b) (slots bits))

write_byte_slots :
    (v : ℕ) (bus : EspIdfOneWireBus) → v < 256 → write_byte v bus ≡ act (slots (bits_of 8 v)) bus
unfolding write_byte
write_byte_slots v bus h = write_bits_lem write_bit 8 v bus h ∙ write_list_slots (bits_of 8 v) bus

slots-append : (xs ys : List Bool) → slots (xs ++ ys) ≡ slots xs ++ slots ys
slots-append [] ys = refl
slots-append (x ∷ xs) ys =
    ap (λ l. slot_of x ++ l) (slots-append xs ys)
    ∙ sym (append_assoc (slot_of x) (slots xs) (slots ys))

write_bytes_slots :
    (bytes : List ℕ) (bus : EspIdfOneWireBus)
    → All (λ x. x < 256) bytes
    → write_bytes bytes bus ≡ act (slots (bits_of_bytes bytes)) bus
unfolding write_bytes write_all
write_bytes_slots [] bus h = ap (λ l. record bus { actions = l }) (sym (append-nil bus.actions))
write_bytes_slots (x ∷ bytes) bus h =
    let front = slots (bits_of 8 x) in
    write_bytes_slots bytes (write_byte x bus) h.1
    ∙ ap (act (slots (bits_of_bytes bytes))) (write_byte_slots x bus h.0)
    ∙ ap (λ l. record bus { actions = l })
        (append_assoc bus.actions front (slots (bits_of_bytes bytes))
          ∙ ap (λ l. bus.actions ++ l) (sym (slots-append (bits_of 8 x) (bits_of_bytes bytes))))

-- The line behind the slot of a bit.
abbrev behind : Bool → Wire → Wire
behind b w = record {
  driven = true;
  level = true;
  low_for = if b then 6 else 60;
  heard = w.heard ++ (b ∷ []);
}

-- A slot on a line that is up is heard as its bit and leaves the line up, whether the pin was an
-- input or an output before.
slot_heard :
    (b driven level : Bool) (low_for : ℕ) (heard : List Bool) (rest : List PinAction)
    → let w : Wire = record { driven = driven; level = level; low_for = low_for; heard = heard } in
      is_down w ≡ false → follow_all (slot_of b ++ rest) w ≡ follow_all rest (behind b w)
unfolding follow_all
slot_heard b true false low_for heard rest up = absurd (cc up)
slot_heard true true true low_for heard rest up = refl
slot_heard true false true low_for heard rest up = refl
slot_heard true false false low_for heard rest up = refl
slot_heard false true true low_for heard rest up = refl
slot_heard false false true low_for heard rest up = refl
slot_heard false false false low_for heard rest up = refl

slots_heard :
    (bits : List Bool) (w : Wire)
    → is_down w ≡ false
    → (is_down (follow_all (slots bits) w) ≡ false)
      × ((follow_all (slots bits) w).heard ≡ w.heard ++ bits)
unfolding follow_all
slots_heard [] w up = (up, sym (append-nil w.heard))
slots_heard (b ∷ bits) w up =
    let first = slot_heard b w.driven w.level w.low_for w.heard (slots bits) up in
    let (still_up, heard) = slots_heard bits (behind b w) refl in
    (
      ap is_down first ∙ still_up,
      ap (λ x. x.heard) first ∙ heard ∙ append_assoc w.heard (b ∷ []) bits,
    )

bytes_heard_lem :
    (bytes : List ℕ)
    → All (λ x. x < 256) bytes
    → bytes_heard (length bytes) (bits_of_bytes bytes) ≡ bytes
bytes_heard_lem [] h = refl
bytes_heard_lem (x ∷ bytes) h =
    ap (λ v. v ∷ bytes_heard (length bytes) (bits_of_bytes bytes)) (value_of-bits_of 8 x h.0)
    ∙ ap (λ l. x ∷ l) (bytes_heard_lem bytes h.1)

-- The time that actions take, in microseconds.
abbrev pub duration : List PinAction → ℕ
duration [] = 0
duration (wait_us t ∷ actions) = t + duration actions
duration (a ∷ actions) = duration actions

duration-slots : (bits : List Bool) → duration (slots bits) ≡ 70 * length bits
duration-slots [] = omega arith
duration-slots (true ∷ bits) = omega (arith, duration-slots bits)
duration-slots (false ∷ bits) = omega (arith, duration-slots bits)

length-bits_of_bytes : (bytes : List ℕ) → length (bits_of_bytes bytes) ≡ 8 * length bytes
length-bits_of_bytes [] = omega arith
length-bits_of_bytes (x ∷ bytes) = omega (arith, length-bits_of_bytes bytes)

-- Whatever bytes the ESP-IDF bus writes on a line that is up, whether its pin was an input or an
-- output before, a device that takes a low of less than 15 microseconds for a 1 and one of 15 or
-- more for a 0 hears exactly their bits, the lowest of each byte first, from which it has the
-- bytes, and the line is up again; the bytes take 560 microseconds each. Only a pin that is an
-- output and set to low pulls the line down.
pub write_bytes_heard :
    (bytes : List ℕ) (bus : EspIdfOneWireBus) (w : Wire)
    → All (λ x. x < 256) bytes
    → is_down w ≡ false
    → (written : List PinAction) × ((write_bytes bytes bus).actions ≡ bus.actions ++ written)
      × (is_down (follow_all written w) ≡ false)
      × ((follow_all written w).heard ≡ w.heard ++ bits_of_bytes bytes)
      × (bytes_heard (length bytes) (bits_of_bytes bytes) ≡ bytes)
      × (duration written ≡ 560 * length bytes)
write_bytes_heard bytes bus w h up =
    let (still_up, heard) = slots_heard (bits_of_bytes bytes) w up in
    (
      slots (bits_of_bytes bytes),
      ap (λ b. b.actions) (write_bytes_slots bytes bus h),
      still_up,
      heard,
      bytes_heard_lem bytes h,
      omega (arith, duration-slots (bits_of_bytes bytes), length-bits_of_bytes bytes),
    )

levels_given :
    (bits rest : List Bool) (bus : EspIdfOneWireBus)
    → bus.levels ≡ bits ++ rest
    → (bus' : EspIdfOneWireBus) × Gives read_bit bits bus bus' × (bus'.levels ≡ rest)
levels_given [] rest bus e = (bus, refl, e)
levels_given (b ∷ bits) rest bus e =
    let next = act (as_output ∷ set_level false ∷ wait_us 6 ∷ as_input ∷ wait_us 9 ∷ []) bus in
    let sampled = act (get_level ∷ []) next in
    let after = act (wait_us 55 ∷ []) (record sampled { levels = bits ++ rest }) in
    let (bus', given, left) = levels_given bits rest after refl in
    (bus', (after, ap (λ l. read_bit (record bus { levels = l })) e, given), left)

-- When a device puts the bits of bytes on the line, the lowest of each byte first, the ESP-IDF bus
-- reads those bytes, and takes no more of the line than their bits.
pub read_bytes_given :
    (bytes : List ℕ) (rest : List Bool) (bus : EspIdfOneWireBus)
    → All (λ x. x < 256) bytes
    → bus.levels ≡ bits_of_bytes bytes ++ rest
    → let (found, bus') = read_bytes (length bytes) bus in (found ≡ bytes) × (bus'.levels ≡ rest)
unfolding read_bytes read_byte
read_bytes_given bytes rest bus h e =
    let (bus', given, left) = levels_given (bits_of_bytes bytes) rest bus e in
    let read = read_all_lem read_bit bytes bus bus' h given in
    (ap (λ r. r.0) read, ap (λ r. r.1.levels) read ∙ left)
