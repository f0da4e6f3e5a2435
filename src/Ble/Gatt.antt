-- ===== src/Ble/Gatt.antt =====
-- include/jenlib/ble/drivers/BleCharacteristic.h, src/ble/drivers/NativeBleCharacteristic.cpp and
-- src/ble/drivers/NativeBleService.cpp: the native characteristic and the native service. A
-- characteristic is a handle to its service; the calls of the event callback are collected in `calls`,
-- oldest first.
pub mod Values
mod Tests
use jenlib.Common.{
  ℕ, Bool, true, false, List, [], ◌∷◌, ◌++◌, ◌==◌, ◌&&◌, ◌||◌, not, Option, none, some, ltb,
  if◌then◌else◌, take, drop, bit_and, replicate,
}
use jenlib.Ble.Payload.{BlePayload, empty_payload, max_payload, clear, append_raw}

pub data Property : Type 0 where
  readable writable notify indicate write_without_response : Property

abbrev property_code : Property → ℕ
property_code readable = 0x01
property_code writable = 0x02
property_code notify = 0x04
property_code indicate = 0x08
property_code write_without_response = 0x10

pub data CharacteristicEvent : Type 0 where
  value_written subscribed unsubscribed : CharacteristicEvent

pub record NativeBleCharacteristic : Type 0 where
  pub uuid : List ℕ
  pub properties : ℕ
  pub max_size : ℕ
  pub current_value : List ℕ
  pub current_size : ℕ
  pub callback : Bool
  pub calls : List (CharacteristicEvent × BlePayload)

abbrev pub new_characteristic : List ℕ → ℕ → ℕ → NativeBleCharacteristic
new_characteristic uuid properties max_size = record {
  uuid = uuid;
  properties = properties;
  max_size = max_size;
  current_value = replicate max_payload 0;
  current_size = 0;
  callback = false;
  calls = [];
}

abbrev pub has_property : NativeBleCharacteristic → Property → Bool
has_property c property = not (bit_and c.properties (property_code property) == 0)

-- `memcpy` of the first `n` bytes of `from`.
abbrev pub copy_over : List ℕ → List ℕ → ℕ → List ℕ
copy_over to from n = take n from ++ drop n to

-- The event callback gets a copy of the payload.
abbrev pub trigger : BlePayload → NativeBleCharacteristic → NativeBleCharacteristic
trigger payload c =
    let copy = (append_raw empty_payload payload.bytes payload.size).1 in
    if c.callback && has_property c writable
    then record c { calls = c.calls ++ ((value_written, copy) ∷ []) }
    else c

unfoldable pub write_value : NativeBleCharacteristic → BlePayload → Bool × NativeBleCharacteristic
write_value c payload = if ltb c.max_size payload.size then (false, c) else (
  true,
  trigger payload (record c {
    current_value = copy_over c.current_value payload.bytes payload.size;
    current_size = payload.size;
  }),
)

unfoldable pub read_value : NativeBleCharacteristic → BlePayload → Bool × BlePayload
read_value c out_payload =
    if not (has_property c readable) || c.current_size == 0
    then (false, out_payload)
    else append_raw (clear out_payload) c.current_value c.current_size

abbrev pub set_event_callback : NativeBleCharacteristic → NativeBleCharacteristic
set_event_callback c = record c { callback = true }

pub record NativeBleService : Type 0 where
  pub service_uuid : List ℕ
  pub characteristics : List ℕ
  pub advertising : Bool

abbrev pub new_service : List ℕ → NativeBleService
new_service uuid = record { service_uuid = uuid; characteristics = []; advertising = false }

-- The null pointer is none.
unfoldable pub add_characteristic : Option ℕ → NativeBleService → Bool × NativeBleService
add_characteristic none s = (false, s)
add_characteristic (some c) s = (true, record s { characteristics = s.characteristics ++ (c ∷ []) })

abbrev first : List ℕ → Option ℕ
first [] = none
first (c ∷ cs) = some c

-- The UUID is not looked at.
unfoldable pub get_characteristic : List ℕ → NativeBleService → Option ℕ
get_characteristic uuid s = first s.characteristics

abbrev pub start_advertising : NativeBleService → Bool × NativeBleService
start_advertising s = (true, record s { advertising = true })

abbrev pub stop_advertising : NativeBleService → NativeBleService
stop_advertising s = record s { advertising = false }
