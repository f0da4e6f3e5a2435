-- ===== src/Ble/Messages/Disjoint.antt =====
-- No payload is two messages: a payload that one deserializer accepts is refused by the others, so
-- the order in which the drivers try them does not matter.
use jenlib.Common.{ℕ, ◌≡◌, ap, inl, inr, ◌⊎◌, false, Bool, arith, get_or, ◌&&◌}
use jenlib.Ble.Payload.{BlePayload}
use jenlib.Ble.Payload.Content.{IsValid, content}
use jenlib.Ble.Messages.{StartBroadcastMsg, ReadingMsg, ReceiptMsg}
use jenlib.Ble.Messages.StartBroadcast
use jenlib.Ble.Messages.Reading
use jenlib.Ble.Messages.Receipt

-- What an accepting deserializer says of the first byte.
abbrev pub Typed : ℕ → BlePayload → Bool → Type 0
Typed code p done = (done ≡ false) ⊎ (get_or (content p) 0 0 ≡ code)

module _ (p : BlePayload) (v : IsValid p) where
  pub start_broadcast_Typed :
      (out : StartBroadcastMsg) → Typed 1 p (StartBroadcast.deserialize p out).0
  start_broadcast_Typed out = elim (StartBroadcast.Wire.deserialize_cases out p v) [
    | inl failed ↦ inl failed
    | inr (m, _, _, c) ↦ inr (ap (λ l. get_or l 0 0) c)
  ]

  pub reading_Typed : (out : ReadingMsg) → Typed 2 p (Reading.deserialize p out).0
  reading_Typed out = elim (Reading.Wire.deserialize_cases out p v) [
    | inl failed ↦ inl failed
    | inr (m, _, _, c) ↦ inr (ap (λ l. get_or l 0 0) c)
  ]

  pub receipt_Typed : (out : ReceiptMsg) → Typed 3 p (Receipt.deserialize p out).0
  receipt_Typed out = elim (Receipt.Wire.deserialize_cases out p v) [
    | inl failed ↦ inl failed
    | inr (m, _, _, c) ↦ inr (ap (λ l. get_or l 0 0) c)
  ]

  -- No valid payload is accepted by two of the three deserializers.
  pub messages_disjoint :
      (start : StartBroadcastMsg) (reading : ReadingMsg) (receipt : ReceiptMsg)
      → let a = (StartBroadcast.deserialize p start).0 in
        let b = (Reading.deserialize p reading).0 in
        let c = (Receipt.deserialize p receipt).0 in
        (a && b ≡ false) × (a && c ≡ false) × (b && c ≡ false)
  messages_disjoint start reading receipt =
      let a = start_broadcast_Typed start in
      let b = reading_Typed reading in
      let c = receipt_Typed receipt in (ground arith, ground arith, ground arith)
