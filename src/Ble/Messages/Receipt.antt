-- ===== src/Ble/Messages/Receipt.antt =====
-- src/ble/Messages.cpp: `ReceiptMsg::serialize` and `deserialize`.
pub mod Wire
use jenlib.Common.{ℕ, Bool, true, false, ◌==◌, not, if◌then◌else◌}
use jenlib.Ble.Payload.{
  BlePayload, clear, cbegin, cend, append_u8, append_u32le, read_u8, read_u32le,
}
use jenlib.Ble.Messages.{MessageType, type_code, ReceiptMsg}

unfoldable pub serialize : ReceiptMsg → BlePayload → Bool × BlePayload
serialize msg out =
    let (typed, out') = append_u8 (clear out) (type_code MessageType.receipt) in
    if not typed
    then (false, out')
    else let (placed, out'') = append_u32le out' msg.session_id.value in
      if not placed then (false, out'') else append_u32le out'' msg.up_to_offset_ms

unfoldable pub deserialize : BlePayload → ReceiptMsg → Bool × ReceiptMsg
deserialize buf out =
    let (typed, it, type) = read_u8 buf (cbegin buf) (cend buf) 0 in
    if not typed
    then (false, out)
    else if not (type == type_code MessageType.receipt)
    then (false, out)
    else let (placed, it', sess2) = read_u32le buf it (cend buf) 0 in
      if not placed
      then (false, out)
      else let out' = record out { session_id = record { value = sess2 } } in
        let (read, it'', up_to) = read_u32le buf it' (cend buf) out.up_to_offset_ms in
        let out'' = record out' { up_to_offset_ms = up_to } in
        if not read then (false, out'') else (it'' == cend buf, out'')
