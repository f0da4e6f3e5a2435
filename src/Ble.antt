-- ===== src/Ble.antt =====
-- The BLE part: payload buffers and the wire format, identifiers with a checksum, messages, the
-- queue of received payloads and the drivers.
pub mod Payload
pub mod Crc
pub mod Ids
pub mod Messages
pub mod Buffer
pub mod Native
pub mod Typed
pub mod Facade
pub mod Told
pub mod EspIdf
pub mod Arduino
pub mod Gatt
pub mod Roles
mod Tests
