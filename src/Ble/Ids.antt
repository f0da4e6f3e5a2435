-- ===== src/Ble/Ids.antt =====
-- include/jenlib/ble/Ids.h and src/ble/Ids.cpp: identifiers. A `DeviceId` travels as four bytes,
-- little-endian, with their CRC-8 behind them. An identifier is a `std::uint32_t`.
pub mod Wire
pub mod Integrity
use jenlib.Common.{ℕ, ◌+◌, ◌<◌, Bool, true, false, List, [], ◌∷◌, ◌==◌, not, if◌then◌else◌, ltb}
use jenlib.Ble.Payload.{
  BlePayload, Read, byte_of, append_u8, append_raw, read_u8, read_u32le, read_u8_at, read_u32le_at,
}
use jenlib.Ble.Crc.{crc8}

pub record SessionId : Type 0 where
  pub value : ℕ

pub record DeviceId : Type 0 where
  pub value : ℕ

-- The comparison operators.
abbrev pub session_eq : SessionId → SessionId → Bool
session_eq a b = a.value == b.value

abbrev pub device_eq : DeviceId → DeviceId → Bool
device_eq a b = a.value == b.value

-- The local array `bytes` of each function below.
abbrev pub id_bytes : ℕ → List ℕ
id_bytes v = byte_of 0 v ∷ byte_of 8 v ∷ byte_of 16 v ∷ byte_of 24 v ∷ []

unfoldable pub serialize : DeviceId → BlePayload → Bool × BlePayload
serialize id out =
    let bytes = id_bytes id.value in
    let (done, out') = append_raw out bytes 4 in
    if done then append_u8 out' (crc8 bytes) else (false, out')

-- `deserialize(buf, offset, out)`: the offset is stored only on success.
unfoldable pub deserialize_at : BlePayload → ℕ → DeviceId → Read DeviceId
deserialize_at buf offset out =
    let (got_value, i, v) = read_u32le_at buf offset 0 in
    if not got_value
    then (false, offset, out)
    else let (got_crc, i', crc) = read_u8_at buf i 0 in
      if not got_crc
      then (false, offset, out)
      else if not (crc == crc8 (id_bytes v))
      then (false, offset, out)
      else (true, i', record { value = v })

-- `deserialize(it, end, out)`: the iterator is a reference, advanced as far as the readers got.
unfoldable pub deserialize : BlePayload → ℕ → ℕ → DeviceId → Read DeviceId
deserialize buf it end out =
    let (got_value, it', v) = read_u32le buf it end 0 in
    if not got_value
    then (false, it', out)
    else let (got_crc, it'', crc) = read_u8 buf it' end 0 in
      if not got_crc
      then (false, it'', out)
      else if not (crc == crc8 (id_bytes v))
      then (false, it'', out)
      else (true, it'', record { value = v })
