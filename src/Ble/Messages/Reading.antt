-- ===== src/Ble/Messages/Reading.antt =====
-- src/ble/Messages.cpp: `ReadingMsg::serialize` and `deserialize`.
pub mod Wire
use jenlib.Common.{ℕ, Bool, true, false, ◌==◌, not, if◌then◌else◌}
use jenlib.Ble.Payload.{
  BlePayload, clear, cbegin, cend, append_u8, append_u16le, append_i16le, append_u32le, read_u8,
  read_u16le, read_i16le, read_u32le,
}
use jenlib.Ble.Ids
use jenlib.Ble.Messages.{MessageType, type_code, ReadingMsg}

unfoldable pub serialize : ReadingMsg → BlePayload → Bool × BlePayload
serialize msg out =
    let (typed, out1) = append_u8 (clear out) (type_code MessageType.reading) in
    if not typed
    then (false, out1)
    else let (named, out2) = Ids.serialize msg.sender_id out1 in
      if not named
      then (false, out2)
      else let (placed, out3) = append_u32le out2 msg.session_id.value in
        if not placed
        then (false, out3)
        else let (timed, out4) = append_u32le out3 msg.offset_ms in
          if not timed
          then (false, out4)
          else let (measured, out5) = append_i16le out4 msg.temperature_c_centi in
            if not measured then (false, out5) else append_u16le out5 msg.humidity_bp

-- The last two readers, behind the offset.
deserialize_climate : BlePayload → ℕ → ReadingMsg → Bool × ReadingMsg
deserialize_climate buf it out =
    let (measured, it', temperature) = read_i16le buf it (cend buf) out.temperature_c_centi in
    let out' = record out { temperature_c_centi = temperature } in
    if not measured
    then (false, out')
    else let (read, it'', humidity) = read_u16le buf it' (cend buf) out.humidity_bp in
      let out'' = record out' { humidity_bp = humidity } in
      if not read then (false, out'') else (it'' == cend buf, out'')

unfoldable pub deserialize : BlePayload → ReadingMsg → Bool × ReadingMsg
unfolding deserialize_climate
deserialize buf out =
    let (typed, it1, type) = read_u8 buf (cbegin buf) (cend buf) 0 in
    if not typed
    then (false, out)
    else if not (type == type_code MessageType.reading)
    then (false, out)
    else let (named, it2, sender) = Ids.deserialize buf it1 (cend buf) out.sender_id in
      let out1 = record out { sender_id = sender } in
      if not named
      then (false, out1)
      else let (placed, it3, sess) = read_u32le buf it2 (cend buf) 0 in
        if not placed
        then (false, out1)
        else let out2 = record out1 { session_id = record { value = sess } } in
          let (timed, it4, offset) = read_u32le buf it3 (cend buf) out.offset_ms in
          let out3 = record out2 { offset_ms = offset } in
          if not timed then (false, out3) else deserialize_climate buf it4 out3
