-- ===== src/Ble/Typed.antt =====
-- The typed dispatch of received payloads that src/ble/drivers/EspIdfBleDriver.cpp and
-- src/ble/drivers/ArduinoBleDriver.cpp have word for word, as the call that is made, and the three
-- messages as one type.
use jenlib.Common.{
  ℕ, ◌≡◌, ◌≢◌, refl, ap, inl, inr, ◌∙◌, Bool, true, false, ◌&&◌, List, arith, Option, none, some,
  if◌then◌else◌, Bool-cases, if_elim, get_or,
}
use jenlib.Ble.Payload.{BlePayload}
use jenlib.Ble.Payload.Content.{IsValid, content}
use jenlib.Ble.Ids.{DeviceId}
use jenlib.Ble.Messages.{StartBroadcastMsg, ReadingMsg, ReceiptMsg}
use jenlib.Ble.Messages.StartBroadcast
use jenlib.Ble.Messages.Reading
use jenlib.Ble.Messages.Receipt
use jenlib.Ble.Messages.Disjoint.{Typed, start_broadcast_Typed, reading_Typed, receipt_Typed}
use jenlib.Ble.Native.{
  CallbackRun, start_broadcast, reading, receipt, blank_start, blank_reading, blank_receipt,
  NativeBleDriver, run_callback, attempt, try_type_specific_callbacks,
}

-- One attempt: the message is read if the callback is set.
abbrev try_message :
    {M : Type 0} → Bool → Bool × M → (M → CallbackRun) → Option CallbackRun → Option CallbackRun
try_message callback (read, msg) call rest = if callback && read then some (call msg) else rest

-- The call of a typed callback, by which of the three are set.
unfoldable pub typed_callback : Bool → Bool → Bool → DeviceId → BlePayload → Option CallbackRun
typed_callback start_set reading_set receipt_set sender_id payload =
    try_message start_set (StartBroadcast.deserialize payload blank_start)
      (start_broadcast sender_id)
      (try_message reading_set (Reading.deserialize payload blank_reading) (reading sender_id) (
        try_message receipt_set (Receipt.deserialize payload blank_receipt) (receipt sender_id)
          none))

try_message_all :
    {M : Type 0} (P : Option CallbackRun → Type 0) (callback : Bool) (r : Bool × M)
    (call : M → CallbackRun) (rest : Option CallbackRun)
    → ((m : M) → P (some (call m)))
    → P rest
    → P (try_message callback r call rest)
try_message_all P callback r call rest made passed =
    if_elim P (callback && r.0) (some (call r.1)) rest (λ _. made r.1) (λ _. passed)

-- What holds of all calls of the typed callbacks, and of none, holds of the call that is found.
pub typed_callback_all :
    (P : Option CallbackRun → Type 0) (a b c : Bool) (sender_id : DeviceId) (p : BlePayload)
    → ((m : StartBroadcastMsg) → P (some (start_broadcast sender_id m)))
    → ((m : ReadingMsg) → P (some (reading sender_id m)))
    → ((m : ReceiptMsg) → P (some (receipt sender_id m)))
    → P none
    → P (typed_callback a b c sender_id p)
unfolding typed_callback
typed_callback_all P a b c sender_id p on_start on_reading on_receipt nothing =
    try_message_all P a (StartBroadcast.deserialize p blank_start) (start_broadcast sender_id) _
      on_start
      (try_message_all P b (Reading.deserialize p blank_reading) (reading sender_id) _ on_reading (
        try_message_all P c (Receipt.deserialize p blank_receipt) (receipt sender_id) none
          on_receipt nothing))

pub data Message : Type 0 where
  start_msg : StartBroadcastMsg → Message
  reading_msg : ReadingMsg → Message
  receipt_msg : ReceiptMsg → Message

abbrev pub encoding : Message → List ℕ
encoding (start_msg m) = StartBroadcast.Wire.encoding m
encoding (reading_msg m) = Reading.Wire.encoding m
encoding (receipt_msg m) = Receipt.Wire.encoding m

-- The fields fit their widths.
abbrev pub IsMessage : Message → Type 0
IsMessage (start_msg m) = StartBroadcast.Wire.IsMsg m
IsMessage (reading_msg m) = Reading.Wire.IsMsg m
IsMessage (receipt_msg m) = Receipt.Wire.IsMsg m

-- The call that a message is meant for, and whether its callback is set.
abbrev pub call_of : DeviceId → Message → CallbackRun
call_of sender_id (start_msg m) = start_broadcast sender_id m
call_of sender_id (reading_msg m) = reading sender_id m
call_of sender_id (receipt_msg m) = receipt sender_id m

abbrev pub listens : Bool → Bool → Bool → Message → Bool
listens start_set reading_set receipt_set (start_msg m) = start_set
listens start_set reading_set receipt_set (reading_msg m) = reading_set
listens start_set reading_set receipt_set (receipt_msg m) = receipt_set

-- A message type that the first byte rules out is refused.
refused :
    (code : ℕ) (p : BlePayload) (done : Bool)
    → get_or (content p) 0 0 ≢ code
    → Typed code p done
    → done ≡ false
refused code p done other (inl denied) = denied
refused code p done other (inr same) = absurd (other same)

module _ {M : Type 0} (callback : Bool) (r : Bool × M) (call : M → CallbackRun)
    (rest : Option CallbackRun) where
  try_message_refused : r.0 ≡ false → try_message callback r call rest ≡ rest
  try_message_refused e = elim (Bool-cases callback) [
    | inl on ↦ rw (on, e) refl
    | inr off ↦ rw off refl
  ]

  try_message_read :
      (m : M)
      → r ≡ (true, m)
      → try_message callback r call rest ≡ (if callback then some (call m) else rest)
  try_message_read m e = elim (Bool-cases callback) [
    | inl on ↦ rw (on, e) refl
    | inr off ↦ rw off refl
  ]

module _ (start_set reading_set receipt_set : Bool) (sender_id : DeviceId) (p : BlePayload)
    (v : IsValid p) where
  -- A payload that holds a message is dispatched to the callback of its type, if that is set.
  pub typed_callback-encoding :
      (m : Message)
      → IsMessage m
      → content p ≡ encoding m
      → typed_callback start_set reading_set receipt_set sender_id p
        ≡ (if listens start_set reading_set receipt_set m then some (call_of sender_id m) else none)
  unfolding typed_callback
  typed_callback-encoding (start_msg m) w c =
      let first : get_or (content p) 0 0 ≡ 1 = ap (λ l. get_or l 0 0) c in
      let b = refused 2 p _ (omega (arith, first)) (reading_Typed p v blank_reading) in
      let r = refused 3 p _ (omega (arith, first)) (receipt_Typed p v blank_receipt) in
      try_message_read start_set _ (start_broadcast sender_id) _ m
        (StartBroadcast.Wire.deserialize-encoding m blank_start p v w c)
      ∙ ap (λ rest. if start_set then some (start_broadcast sender_id m) else rest)
          (try_message_refused reading_set _ (reading sender_id) _ b
            ∙ try_message_refused receipt_set _ (receipt sender_id) _ r)
  typed_callback-encoding (reading_msg m) w c =
      let first : get_or (content p) 0 0 ≡ 2 = ap (λ l. get_or l 0 0) c in
      let a = refused 1 p _ (omega (arith, first)) (start_broadcast_Typed p v blank_start) in
      let r = refused 3 p _ (omega (arith, first)) (receipt_Typed p v blank_receipt) in
      try_message_refused start_set _ (start_broadcast sender_id) _ a
      ∙ try_message_read reading_set _ (reading sender_id) _ m
          (Reading.Wire.deserialize-encoding m p v w blank_reading c)
      ∙ ap (λ rest. if reading_set then some (reading sender_id m) else rest)
          (try_message_refused receipt_set _ (receipt sender_id) _ r)
  typed_callback-encoding (receipt_msg m) w c =
      let first : get_or (content p) 0 0 ≡ 3 = ap (λ l. get_or l 0 0) c in
      let a = refused 1 p _ (omega (arith, first)) (start_broadcast_Typed p v blank_start) in
      let b = refused 2 p _ (omega (arith, first)) (reading_Typed p v blank_reading) in
      try_message_refused start_set _ (start_broadcast sender_id) _ a
      ∙ try_message_refused reading_set _ (reading sender_id) _ b
      ∙ try_message_read receipt_set _ (receipt sender_id) _ m
          (Receipt.Wire.deserialize-encoding m blank_receipt p v w c)

  -- A payload that holds no message reaches no typed callback.
  pub typed_callback_other :
      ((m : Message) → IsMessage m → content p ≢ encoding m)
      → typed_callback start_set reading_set receipt_set sender_id p ≡ none
  unfolding typed_callback
  typed_callback_other other =
      try_message_refused start_set _ (start_broadcast sender_id) _ start_refused
      ∙ try_message_refused reading_set _ (reading sender_id) _ reading_refused
      ∙ try_message_refused receipt_set _ (receipt sender_id) _ receipt_refused
    where
      start_refused : (StartBroadcast.deserialize p blank_start).0 ≡ false
      start_refused = elim (StartBroadcast.Wire.deserialize_cases blank_start p v) [
        | inl denied ↦ denied
        | inr (m, w, _, c) ↦ absurd (other (start_msg m) w c)
      ]

      reading_refused : (Reading.deserialize p blank_reading).0 ≡ false
      reading_refused = elim (Reading.Wire.deserialize_cases blank_reading p v) [
        | inl denied ↦ denied
        | inr (m, w, _, c) ↦ absurd (other (reading_msg m) w c)
      ]

      receipt_refused : (Receipt.deserialize p blank_receipt).0 ≡ false
      receipt_refused = elim (Receipt.Wire.deserialize_cases blank_receipt p v) [
        | inl denied ↦ denied
        | inr (m, w, _, c) ↦ absurd (other (receipt_msg m) w c)
      ]

-- The result of `try_type_specific_callbacks` of the native driver for a call that was found.
abbrev pub run_found : NativeBleDriver → Option CallbackRun → Bool × NativeBleDriver
run_found d none = (false, d)
run_found d (some call) = (true, run_callback call d)

attempt-try_message :
    {M : Type 0} (callback : Bool) (r : Bool × M) (call : M → CallbackRun) (d : NativeBleDriver)
    (rest : Option CallbackRun)
    → attempt callback r call d (run_found d rest) ≡ run_found d (try_message callback r call rest)
attempt-try_message callback r call d rest = elim (Bool-cases (callback && r.0)) [
  | inl taken ↦ rw taken refl
  | inr passed ↦ rw passed refl
]

-- The dispatch of the native driver and that of the radio drivers choose the same call for every
-- payload, sender and set of callbacks.
pub try_type_specific_callbacks-typed_callback :
    (d : NativeBleDriver) (sender_id : DeviceId) (p : BlePayload)
    → try_type_specific_callbacks d sender_id p
      ≡ run_found d (
          typed_callback d.start_broadcast_callback d.reading_callback d.receipt_callback sender_id
            p)
unfolding try_type_specific_callbacks typed_callback
try_type_specific_callbacks-typed_callback d sender_id p =
    let a = StartBroadcast.deserialize p blank_start in
    let b = Reading.deserialize p blank_reading in
    let c = Receipt.deserialize p blank_receipt in
    let third = attempt-try_message d.receipt_callback c (receipt sender_id) d none in
    let second =
      ap (attempt d.reading_callback b (reading sender_id) d) third
      ∙ attempt-try_message d.reading_callback b (reading sender_id) d _ in
    ap (attempt d.start_broadcast_callback a (start_broadcast sender_id) d) second
    ∙ attempt-try_message d.start_broadcast_callback a (start_broadcast sender_id) d _
