-- ===== src/Ble/Native/Inbox.antt =====
-- The inboxes of a driver without callbacks: bounded queues that keep the latest payloads.
use jenlib.Common.{
  ℕ, zero, suc, ◌+◌, ◌-◌, ◌≤◌, ◌<◌, ◌≡◌, refl, sym, ap, ◌∙◌, true, false, List, [], ◌∷◌, ◌++◌,
  arith, leb, if◌then◌else◌, length, length-append, length-drop, drop, subst,
}
use mathlib.Core.List.{append_assoc, append-nil}
use native.Mathlib.Decide.{dec_lt}
use jenlib.Ble.Payload.{BlePayload, empty_payload}
use jenlib.Ble.Ids.{DeviceId}
use jenlib.Ble.Native.{
  NativeBleDriver, try_type_specific_callbacks, drop_oldest, set_inbox, enqueue, send_to, receive,
}

-- No callback takes payloads.
pub record IsSilent (d : NativeBleDriver) : Type 0 where
  pub ready : d.initialized ≡ true
  pub no_message : d.message_callback ≡ false
  pub no_start : d.start_broadcast_callback ≡ false
  pub no_reading : d.reading_callback ≡ false
  pub no_receipt : d.receipt_callback ≡ false

send_to_silent :
    (d : NativeBleDriver) (dest : DeviceId) (p : BlePayload)
    → IsSilent d
    → send_to d dest p ≡ set_inbox d dest.value (drop_oldest (d.inbox dest.value) ++ (p ∷ []))
unfolding send_to enqueue try_type_specific_callbacks
send_to_silent d dest p s =
    simp (s.ready, s.no_start, s.no_reading, s.no_receipt, s.no_message) refl

pub set_inbox-IsSilent :
    (d : NativeBleDriver) (device : ℕ) (q : List BlePayload)
    → IsSilent d
    → IsSilent (set_inbox d device q)
set_inbox-IsSilent d device q s = record {
  ready = s.ready;
  no_message = s.no_message;
  no_start = s.no_start;
  no_reading = s.no_reading;
  no_receipt = s.no_receipt;
}

abbrev pub send_all : NativeBleDriver → DeviceId → List BlePayload → NativeBleDriver
send_all d dest [] = d
send_all d dest (p ∷ payloads) = send_all (send_to d dest p) dest payloads

drop_oldest_room : (q : List BlePayload) → length q < 100 → drop_oldest q ≡ q
unfolding drop_oldest
drop_oldest_room [] h = refl
drop_oldest_room (p ∷ q) h =
    let room : leb 100 (length (p ∷ q)) ≡ false = ground (arith, h) in rw room refl

drop_oldest_full :
    (p : BlePayload) (q : List BlePayload) → length (p ∷ q) ≡ 100 → drop_oldest (p ∷ q) ≡ q
unfolding drop_oldest
drop_oldest_full p q h =
    let full : leb 100 (length (p ∷ q)) ≡ true = ground (arith, h) in
    rw full (drop_oldest_room q (omega (arith, h)))

next_full :
    (q : List BlePayload) (p : BlePayload) (payloads : List BlePayload)
    → length q ≡ 100
    → (length (drop_oldest q ++ (p ∷ [])) ≤ 100)
      × (drop
            (length (drop_oldest q ++ (p ∷ [])) + length payloads - 100)
            ((drop_oldest q ++ (p ∷ [])) ++ payloads)
          ≡ drop (length q + length (p ∷ payloads) - 100) (q ++ (p ∷ payloads)))
next_full [] p payloads h = absurd (omega (arith, h))
next_full (x ∷ t) p payloads h =
    let longer = length-append t (p ∷ []) in
    let all = append_assoc t (p ∷ []) payloads in
    let less : length (t ++ (p ∷ [])) + length payloads - 100 ≡ length payloads =
      omega (arith, longer, h) in
    let more : suc (length t) + suc (length payloads) - 100 ≡ suc (length payloads) =
      omega (arith, h) in
    rw (drop_oldest_full x t h) (
      omega (arith, longer, h),
      ap (λ n. drop n ((t ++ (p ∷ [])) ++ payloads)) less
          ∙ ap (drop (length payloads)) all
          ∙ sym (ap (λ n. drop n (x ∷ (t ++ (p ∷ payloads)))) more),
    )

-- What is left of a queue when a payload is put behind it.
next_queue :
    (q : List BlePayload) (p : BlePayload) (payloads : List BlePayload)
    → length q ≤ 100
    → (length (drop_oldest q ++ (p ∷ [])) ≤ 100)
      × (drop
            (length (drop_oldest q ++ (p ∷ [])) + length payloads - 100)
            ((drop_oldest q ++ (p ∷ [])) ++ payloads)
          ≡ drop (length q + length (p ∷ payloads) - 100) (q ++ (p ∷ payloads)))
next_queue q p payloads h = elim (dec_lt (length q) 100) [
  | yes room ↦
      let longer = length-append q (p ∷ []) in
      let all = append_assoc q (p ∷ []) payloads in
      let count : length (q ++ (p ∷ [])) + length payloads - 100
          ≡ length q + suc (length payloads) - 100 =
        omega (arith, longer) in
      rw (drop_oldest_room q room) (
        omega (arith, longer),
        ap (λ n. drop n ((q ++ (p ∷ [])) ++ payloads)) count
            ∙ ap (drop (length q + suc (length payloads) - 100)) all,
      )
  | no packed ↦ next_full q p payloads (omega arith)
]

pub inbox_of :
    (d : NativeBleDriver) (device : ℕ) (q : List BlePayload)
    → (set_inbox d device q).inbox device ≡ q
inbox_of d device q = ground arith

send_all_keeps :
    (d : NativeBleDriver) (dest : DeviceId) (payloads : List BlePayload)
    → IsSilent d
    → length (d.inbox dest.value) ≤ 100
    → (send_all d dest payloads).inbox dest.value
      ≡ drop (length (d.inbox dest.value) + length payloads - 100) (d.inbox dest.value ++ payloads)
send_all_keeps d dest [] s h =
    let q = d.inbox dest.value in
    let none_dropped : length q + 0 - 100 ≡ 0 = omega (arith, h) in
    sym (ap (λ n. drop n (q ++ [])) none_dropped ∙ append-nil q)
send_all_keeps d dest (p ∷ payloads) s h =
    let q = d.inbox dest.value in
    let q' = drop_oldest q ++ (p ∷ []) in
    let d' = set_inbox d dest.value q' in
    let now = inbox_of d dest.value q' in
    let (short, same) = next_queue q p payloads h in
    let rest =
      send_all_keeps d' dest payloads (set_inbox-IsSilent d dest.value q' s) (rw now short) in
    ap (λ x. (send_all x dest payloads).inbox dest.value) (send_to_silent d dest p s)
    ∙ (rw now at rest)
    ∙ same

send_all-IsSilent :
    (d : NativeBleDriver) (dest : DeviceId) (payloads : List BlePayload)
    → IsSilent d
    → IsSilent (send_all d dest payloads)
send_all-IsSilent d dest [] s = s
send_all-IsSilent d dest (p ∷ payloads) s =
    let q = drop_oldest (d.inbox dest.value) ++ (p ∷ []) in
    let rest =
      send_all-IsSilent (set_inbox d dest.value q) dest payloads
        (set_inbox-IsSilent d dest.value q s) in
    subst (λ x. IsSilent (send_all x dest payloads)) (sym (send_to_silent d dest p s)) rest

-- The payloads that up to `n` calls of `receive` return.
abbrev pub receive_all : ℕ → NativeBleDriver → DeviceId → List BlePayload
receive_all zero d dest = []
receive_all (suc n) d dest =
    let (done, p, d') = receive d dest empty_payload in
    let rest = receive_all n d' dest in if done then p ∷ rest else []

receive_nothing :
    (d : NativeBleDriver) (dest : DeviceId)
    → IsSilent d
    → d.inbox dest.value ≡ []
    → receive d dest empty_payload ≡ (false, empty_payload, d)
unfolding receive
receive_nothing d dest s e = simp (s.ready, e) refl

pub receive_first :
    (d : NativeBleDriver) (dest : DeviceId) (p : BlePayload) (q : List BlePayload)
    → IsSilent d
    → d.inbox dest.value ≡ p ∷ q
    → receive d dest empty_payload ≡ (true, p, set_inbox d dest.value q)
unfolding receive
receive_first d dest p q s e = simp (s.ready, e) refl

receive_all_drains :
    (n : ℕ) (d : NativeBleDriver) (dest : DeviceId) (q : List BlePayload)
    → IsSilent d
    → d.inbox dest.value ≡ q
    → length q ≤ n
    → receive_all n d dest ≡ q
receive_all_drains zero d dest [] s e h = refl
receive_all_drains zero d dest (p ∷ q) s e h = absurd (omega arith)
receive_all_drains (suc n) d dest [] s e h = rw (receive_nothing d dest s e) refl
receive_all_drains (suc n) d dest (p ∷ q) s e h =
    let d' = set_inbox d dest.value q in
    let rest =
      receive_all_drains n d' dest q (set_inbox-IsSilent d dest.value q s) (inbox_of d dest.value q)
        (omega arith) in
    rw (receive_first d dest p q s e) (ap (λ l. p ∷ l) rest)

-- In an initialized native driver without callbacks for payloads, as many calls of receive as
-- payloads have been sent to a device whose inbox was empty return the latest hundred of them, in
-- the order in which they were sent.
pub inbox_keeps_latest :
    (d : NativeBleDriver) (dest : DeviceId) (payloads : List BlePayload)
    → IsSilent d
    → d.inbox dest.value ≡ []
    → receive_all (length payloads) (send_all d dest payloads) dest
      ≡ drop (length payloads - 100) payloads
inbox_keeps_latest d dest payloads s none_stored =
    let kept = send_all_keeps d dest payloads s (rw none_stored (omega arith)) in
    let kept' : (send_all d dest payloads).inbox dest.value
        ≡ drop (length payloads - 100) payloads =
      kept
      ∙ ap (λ q. drop (length q + length payloads - 100) (q ++ payloads)) none_stored
      ∙ ap (λ n. drop n payloads) (omega arith) in
    receive_all_drains (length payloads) (send_all d dest payloads) dest
      (drop (length payloads - 100) payloads) (send_all-IsSilent d dest payloads s) kept'
      (omega (arith, length-drop (length payloads - 100) payloads))
