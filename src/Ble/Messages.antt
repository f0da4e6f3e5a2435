-- ===== src/Ble/Messages.antt =====
-- include/jenlib/ble/Messages.h: the three messages. Each has a child with `serialize` and
-- `deserialize` of src/ble/Messages.cpp; `Disjoint` compares them.
pub mod StartBroadcast
pub mod Reading
pub mod Receipt
pub mod Disjoint
use jenlib.Common.{ℕ}
use jenlib.Common.Int.{ℤ}
use jenlib.Ble.Ids.{DeviceId, SessionId}

pub data MessageType : Type 0 where
  start_broadcast reading receipt : MessageType

-- `static_cast<std::uint8_t>(type)`
abbrev pub type_code : MessageType → ℕ
type_code MessageType.start_broadcast = 0x01
type_code MessageType.reading = 0x02
type_code MessageType.receipt = 0x03

pub record StartBroadcastMsg : Type 0 where
  pub device_id : DeviceId
  pub session_id : SessionId

pub record ReadingMsg : Type 0 where
  pub sender_id : DeviceId
  pub session_id : SessionId
  pub offset_ms : ℕ
  pub temperature_c_centi : ℤ
  pub humidity_bp : ℕ

pub record ReceiptMsg : Type 0 where
  pub session_id : SessionId
  pub up_to_offset_ms : ℕ
