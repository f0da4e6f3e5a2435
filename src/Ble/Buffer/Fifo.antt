-- ===== src/Ble/Buffer/Fifo.antt =====
-- The payload buffer is a first-in-first-out queue of at most ten payloads, whatever its indices.
use jenlib.Common.{
  ℕ, zero, suc, ◌+◌, ◌-◌, ◌%◌, ◌≤◌, ◌<◌, ◌≡◌, refl, ap, inl, inr, Bool, true, false, List, [], ◌∷◌,
  ◌++◌, arith, ◌==◌, leb, if◌then◌else◌, length, length-set, get_or, set, Bool-cases,
}
use jenlib.Common.Ring.{ring, length-ring, ring_wrap, ring-set, ring-set_outside}
use native.Mathlib.Numerals.{add-one}
use jenlib.Ble.Payload.{BlePayload, empty_payload}
use jenlib.Ble.Buffer.{PayloadBuffer, max_buffered_payloads, new_buffer, push, pop}

pub record IsValid (b : PayloadBuffer) : Type 0 where
  pub slots : length b.payloads ≡ max_buffered_payloads
  pub within : b.count ≤ max_buffered_payloads
  pub reads : b.read_it < max_buffered_payloads
  pub writes : b.write_it ≡ (b.read_it + b.count) % max_buffered_payloads

-- The payloads to be popped, oldest first.
pub stored : PayloadBuffer → List BlePayload
stored b = ring b.payloads max_buffered_payloads b.read_it b.count empty_payload

pub new_buffer-IsValid : IsValid new_buffer
new_buffer-IsValid = record {
  slots = refl;
  within = omega arith;
  reads = omega arith;
  writes = refl;
}

length-stored : (b : PayloadBuffer) → length (stored b) ≡ b.count
unfolding stored
length-stored b = length-ring b.payloads max_buffered_payloads b.read_it b.count empty_payload

push-IsValid : (b : PayloadBuffer) (p : BlePayload) → IsValid b → IsValid (push b p).1
unfolding push
push-IsValid b p v = ground (arith, length-set b.payloads b.write_it p)

pop-IsValid : (b : PayloadBuffer) (out : BlePayload) → IsValid b → IsValid (pop b out).2
unfolding pop
pop-IsValid b out v =
    let old = get_or b.payloads b.read_it empty_payload in
    ground (arith, length-set b.payloads b.read_it (record old { size = 0 }))

-- The abstract queue.
pub fifo_push : List BlePayload → BlePayload → Bool × List BlePayload
fifo_push q p = if leb max_buffered_payloads (length q) then (false, q) else (true, q ++ (p ∷ []))

pub fifo_pop : List BlePayload → BlePayload → Bool × BlePayload × List BlePayload
fifo_pop [] out = (false, out, [])
fifo_pop (p ∷ q) out = (true, p, q)

-- A write to the slot behind the stored ones, and a write to a slot that was just given up.
write_slot :
    (buf : List BlePayload) (write read n : ℕ) (p : BlePayload)
    → length buf ≡ 10
    → n < 10
    → write ≡ (read + n) % 10
    → ring (set buf write p) 10 read (n + 1) empty_payload
      ≡ ring buf 10 read n empty_payload ++ (p ∷ [])
write_slot buf write read n p slots room e =
    rw (e, add-one) (ring-set buf 10 read n (read + n) p empty_payload refl room slots)

free_slot :
    (buf : List BlePayload) (read n : ℕ) (p : BlePayload)
    → n < 10
    → read < 10
    → ring (set buf read p) 10 (if read + 1 == 10 then 0 else read + 1) n empty_payload
      ≡ ring buf 10 (read + 1) n empty_payload
free_slot buf read n p room small =
    let lap : (read + 10) % 10 ≡ read = omega arith in
    let head : (if read + 1 == 10 then 0 else read + 1) ≡ (read + 1) % 10 = ground arith in
    let apart =
      ring-set_outside buf 10 (read + 1) n (9 - n) (read + 10) p empty_payload (omega arith)
        (omega arith) in
    rw (head, ring_wrap (set buf read p) 10 (read + 1) n empty_payload) (rw lap at apart)

-- On a valid buffer, push acts on the stored payloads as an append to a queue of at most ten.
pub stored-push :
    (b : PayloadBuffer) (p : BlePayload)
    → IsValid b
    → ((push b p).0, stored (push b p).1) ≡ fifo_push (stored b) p
unfolding push fifo_push stored
stored-push b p v =
    let size = length-ring b.payloads 10 b.read_it b.count empty_payload in
    elim (Bool-cases (leb 10 b.count)) [
      | inl packed ↦ rw (size, packed)
      | inr room ↦
          let wrote =
            write_slot b.payloads b.write_it b.read_it b.count p v.slots (ground arith) v.writes in
          rw (size, room) (ap (λ l. (true, l)) wrote)
    ]

stored-pop_cases :
    (b : PayloadBuffer) (n : ℕ) (out : BlePayload)
    → b.count ≡ n
    → IsValid b
    → ((pop b out).0, (pop b out).1, stored (pop b out).2)
      ≡ fifo_pop (ring b.payloads 10 b.read_it n empty_payload) out
unfolding pop fifo_pop stored ring
stored-pop_cases b zero out e v =
    let none_left : (b.count == 0) ≡ true = ground arith in rw none_left (rw e)
stored-pop_cases b (suc n) out e v =
    let some_left : (b.count == 0) ≡ false = ground arith in
    let fewer : b.count - 1 ≡ n = omega arith in
    let slot : b.read_it % 10 ≡ b.read_it = omega (arith, v.reads) in
    let old = get_or b.payloads b.read_it empty_payload in
    let freed =
      free_slot b.payloads b.read_it n (record old { size = 0 }) (omega (arith, v.within))
        v.reads in
    rw (some_left, fewer, slot) (ap (λ l. (true, old, l)) freed)

-- On a valid buffer, pop acts on the stored payloads as taking the oldest, and fails without one.
pub stored-pop :
    (b : PayloadBuffer) (out : BlePayload)
    → IsValid b
    → ((pop b out).0, (pop b out).1, stored (pop b out).2) ≡ fifo_pop (stored b) out
unfolding stored
stored-pop b out v = stored-pop_cases b b.count out refl v

-- A client's calls in order, with what each returns.
pub data Call : Type 0 where
  pushes pops : BlePayload → Call

abbrev pub Reply : Type 0
Reply = Bool × BlePayload

pub run : PayloadBuffer → List Call → List Reply
run b [] = []
run b (pushes p ∷ calls) = let (done, b') = push b p in (done, p) ∷ run b' calls
run b (pops out ∷ calls) = let (done, got, b') = pop b out in (done, got) ∷ run b' calls

pub fifo_run : List BlePayload → List Call → List Reply
fifo_run q [] = []
fifo_run q (pushes p ∷ calls) = let (done, q') = fifo_push q p in (done, p) ∷ fifo_run q' calls
fifo_run q (pops out ∷ calls) =
    let (done, got, q') = fifo_pop q out in (done, got) ∷ fifo_run q' calls

run_refines_from :
    (b : PayloadBuffer) (calls : List Call) → IsValid b → run b calls ≡ fifo_run (stored b) calls
unfolding run fifo_run
run_refines_from b [] v = refl
run_refines_from b (pushes p ∷ calls) v =
    rw (← stored-push b p v)
      (ap (λ l. ((push b p).0, p) ∷ l) (run_refines_from (push b p).1 calls (push-IsValid b p v)))
run_refines_from b (pops out ∷ calls) v = rw (← stored-pop b out v) (
    ap (λ l. ((pop b out).0, (pop b out).1) ∷ l)
      (run_refines_from (pop b out).2 calls (pop-IsValid b out v)))

-- No sequence of pushes and pops tells a new payload buffer from a first-in-first-out queue of at
-- most ten payloads.
pub buffer_refines_fifo : (calls : List Call) → run new_buffer calls ≡ fifo_run [] calls
buffer_refines_fifo calls =
    unfold stored ring in run_refines_from new_buffer calls new_buffer-IsValid
