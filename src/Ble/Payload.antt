-- ===== src/Ble/Payload.antt =====
-- include/jenlib/ble/Payload.h: the fixed-size payload buffer and its little-endian accessors.
-- A method that changes the buffer returns the new one beside its result. An iterator is the index
-- that it stands for in `bytes`; an index is at most 64, so `size_t` sums do not wrap.
pub mod Content
pub mod Reading
use jenlib.Common.{
  ℕ, zero, suc, ◌+◌, ◌*◌, ◌/◌, ◌%◌, ◌^◌, ◌<◌, bit_or, Bool, true, false, List, [], ◌∷◌, ltb, ◌==◌,
  if◌then◌else◌, get_or, set, replicate,
}
use jenlib.Common.Int.{ℤ, u16_of_i16, i16_of_u16}

abbrev pub max_payload : ℕ
max_payload = 64

pub record BlePayload : Type 0 where
  pub bytes : List ℕ
  pub size : ℕ

-- `BlePayload()`: zeroed bytes and size 0.
abbrev pub empty_payload : BlePayload
empty_payload = record { bytes = replicate max_payload 0; size = 0 }

-- The move constructor: the new payload, and what the source is left as.
abbrev pub move : BlePayload → BlePayload × BlePayload
move other = (record { bytes = other.bytes; size = other.size }, record other { size = 0 })

abbrev pub clear : BlePayload → BlePayload
clear p = record p { size = 0 }

abbrev pub is_consumed : BlePayload → Bool
is_consumed p = p.size == 0

-- `cbegin` and `cend`.
abbrev pub cbegin : BlePayload → ℕ
cbegin p = 0

abbrev pub cend : BlePayload → ℕ
cend p = p.size

-- `static_cast<std::uint8_t>((v >> k) & 0xFF)`
abbrev pub byte_of : ℕ → ℕ → ℕ
byte_of k v = v / 2 ^ k % 2 ^ 8

-- `bytes[size++] = v`
pub put : BlePayload → ℕ → BlePayload
put p v = record { bytes = set p.bytes p.size v; size = p.size + 1 }

unfoldable pub append_u8 : BlePayload → ℕ → Bool × BlePayload
append_u8 p v = if ltb max_payload (p.size + 1) then (false, p) else (true, put p v)

unfoldable pub append_u16le : BlePayload → ℕ → Bool × BlePayload
append_u16le p v =
    if ltb max_payload (p.size + 2)
    then (false, p)
    else (true, put (put p (byte_of 0 v)) (byte_of 8 v))

unfoldable pub append_u32le : BlePayload → ℕ → Bool × BlePayload
append_u32le p v =
    if ltb max_payload (p.size + 4)
    then (false, p)
    else (true, put (put (put (put p (byte_of 0 v)) (byte_of 8 v)) (byte_of 16 v)) (byte_of 24 v))

unfoldable pub append_i16le : BlePayload → ℤ → Bool × BlePayload
append_i16le p v = append_u16le p (u16_of_i16 v)

-- The loop of `append_raw`: `n` bytes from the front of `source`. Nothing is appended past the end
-- of the source, which the callers never ask for.
pub append_loop : BlePayload → List ℕ → ℕ → BlePayload
append_loop p source zero = p
append_loop p [] (suc n) = p
append_loop p (x ∷ source) (suc n) = append_loop (put p x) source n

unfoldable pub append_raw : BlePayload → List ℕ → ℕ → Bool × BlePayload
append_raw p source len =
    if ltb max_payload (p.size + len) then (false, p) else (true, append_loop p source len)

-- A reader returns whether it succeeded, the advanced position and the `out` parameter.
abbrev pub Read : Type 0 → Type 0
Read A = Bool × ℕ × A

abbrev byte_at : BlePayload → ℕ → ℕ
byte_at p i = get_or p.bytes i 0

-- `b0 | (b1 << 8)`, and four bytes likewise.
abbrev pub join16 : ℕ → ℕ → ℕ
join16 b0 b1 = bit_or b0 (b1 * 2 ^ 8)

abbrev pub join32 : ℕ → ℕ → ℕ → ℕ → ℕ
join32 b0 b1 b2 b3 = bit_or (bit_or (bit_or b0 (b1 * 2 ^ 8)) (b2 * 2 ^ 16)) (b3 * 2 ^ 24)

-- The readers by index.
unfoldable pub read_u8_at : BlePayload → ℕ → ℕ → Read ℕ
read_u8_at p i out = if ltb p.size (i + 1) then (false, i, out) else (true, i + 1, byte_at p i)

unfoldable pub read_u16le_at : BlePayload → ℕ → ℕ → Read ℕ
read_u16le_at p i out =
    if ltb p.size (i + 2)
    then (false, i, out)
    else (true, i + 2, join16 (byte_at p i) (byte_at p (i + 1)))

unfoldable pub read_u32le_at : BlePayload → ℕ → ℕ → Read ℕ
read_u32le_at p i out = if ltb p.size (i + 4) then (false, i, out) else (
  true,
  i + 4,
  join32 (byte_at p i) (byte_at p (i + 1)) (byte_at p (i + 2)) (byte_at p (i + 3)),
)

unfoldable pub read_i16le_at : BlePayload → ℕ → ℤ → Read ℤ
read_i16le_at p i out =
    let (done, i', tmp) = read_u16le_at p i 0 in
    if done then (true, i', i16_of_u16 tmp) else (false, i', out)

-- The readers by iterator; `std::distance(it, end) < n` is `end < it + n`.
unfoldable pub read_u8 : BlePayload → ℕ → ℕ → ℕ → Read ℕ
read_u8 p it end out = if it == end then (false, it, out) else (true, it + 1, byte_at p it)

unfoldable pub read_u16le : BlePayload → ℕ → ℕ → ℕ → Read ℕ
read_u16le p it end out =
    if ltb end (it + 2)
    then (false, it, out)
    else (true, it + 2, join16 (byte_at p it) (byte_at p (it + 1)))

unfoldable pub read_u32le : BlePayload → ℕ → ℕ → ℕ → Read ℕ
read_u32le p it end out = if ltb end (it + 4) then (false, it, out) else (
  true,
  it + 4,
  join32 (byte_at p it) (byte_at p (it + 1)) (byte_at p (it + 2)) (byte_at p (it + 3)),
)

unfoldable pub read_i16le : BlePayload → ℕ → ℕ → ℤ → Read ℤ
read_i16le p it end out =
    let (done, it', tmp) = read_u16le p it end 0 in
    if done then (true, it', i16_of_u16 tmp) else (false, it', out)
