-- ===== src/Ble/Gatt/Tests.antt =====
-- The native characteristic and service at concrete inputs.
use jenlib.Common.{
  ◌≤◌, ◌<◌, ◌≡◌, ◌⊎◌, refl, true, false, [], ◌∷◌, some, arith, replicate, All-replicate,
}
use jenlib.Ble.Payload.{BlePayload, empty_payload, max_payload}
use jenlib.Ble.Payload.Content.{IsByte, IsValid, content}
use jenlib.Ble.Native.Header.{empty_payload-Holds}
use jenlib.Ble.Gatt.{
  NativeBleCharacteristic, readable, has_property, new_characteristic, set_event_callback,
  write_value, read_value, new_service, add_characteristic, get_characteristic,
}
use jenlib.Ble.Gatt.Values.{IsKept, Told, write_value-read_value}

-- Readable and writable, for twenty bytes, with a callback.
abbrev chr : NativeBleCharacteristic
chr = set_event_callback (new_characteristic [] 0x03 20)

chr-IsKept : IsKept chr
chr-IsKept = record {
  full_array = refl;
  within = omega arith;
  all_bytes = All-replicate IsByte max_payload 0 (omega arith);
}

abbrev one_byte : BlePayload
one_byte = record { bytes = 5 ∷ replicate 63 0; size = 1 }

one_byte-IsValid : IsValid one_byte
one_byte-IsValid = record {
  full_array = refl;
  within = omega arith;
  all_bytes = (omega arith, All-replicate IsByte 63 0 (omega arith));
}

write_value-read_value_example :
    (20 < 1 → write_value chr one_byte ≡ (false, chr))
    × (1 ≤ 20
        → let (done, c') = write_value chr one_byte in
          (done ≡ true)
          × IsKept c'
          × Told chr one_byte c'
          × (has_property chr readable ≡ true
              → 0 < 1
              → (q : BlePayload) × (read_value c' empty_payload ≡ (true, q))
                × (content q ≡ content one_byte))
          × (has_property chr readable ≡ false ⊎ (one_byte.size ≡ 0)
              → read_value c' empty_payload ≡ (false, empty_payload)))
write_value-read_value_example =
    write_value-read_value chr one_byte empty_payload chr-IsKept one_byte-IsValid
      empty_payload-Holds.2

-- The second characteristic is never found.
found_first :
    get_characteristic
      (2 ∷ [])
      (add_characteristic (some 22) (add_characteristic (some 11) (new_service [])).1).1
    ≡ some 11
unfolding get_characteristic add_characteristic
found_first = refl
