-- ===== src/Ble/Messages/StartBroadcast.antt =====
-- src/ble/Messages.cpp: `StartBroadcastMsg::serialize` and `deserialize`. The deserializer writes its
-- `out` parameter field by field, so a failure may leave the first field written.
pub mod Wire
use jenlib.Common.{ℕ, Bool, true, false, ◌==◌, not, if◌then◌else◌}
use jenlib.Ble.Payload.{
  BlePayload, clear, cbegin, cend, append_u8, append_u32le, read_u8, read_u32le,
}
use jenlib.Ble.Ids.{DeviceId, SessionId}
use jenlib.Ble.Ids
use jenlib.Ble.Messages.{MessageType, type_code, StartBroadcastMsg}

unfoldable pub serialize : StartBroadcastMsg → BlePayload → Bool × BlePayload
serialize msg out =
    let (typed, out') = append_u8 (clear out) (type_code MessageType.start_broadcast) in
    if not typed
    then (false, out')
    else let (named, out'') = Ids.serialize msg.device_id out' in
      if not named then (false, out'') else append_u32le out'' msg.session_id.value

unfoldable pub deserialize : BlePayload → StartBroadcastMsg → Bool × StartBroadcastMsg
deserialize buf out =
    let (typed, it, type) = read_u8 buf (cbegin buf) (cend buf) 0 in
    if not typed
    then (false, out)
    else if not (type == type_code MessageType.start_broadcast)
    then (false, out)
    else let (named, it', device_id) = Ids.deserialize buf it (cend buf) out.device_id in
      let out' = record out { device_id = device_id } in
      if not named
      then (false, out')
      else let (read, it'', sess) = read_u32le buf it' (cend buf) 0 in
        if not read
        then (false, out')
        else (it'' == cend buf, record out' { session_id = record { value = sess } })
