-- ===== src/Ble/Buffer.antt =====
-- include/jenlib/ble/PayloadBuffer.h: a circular buffer of at most ten payloads. The iterators are
-- the indices that they stand for.
pub mod Fifo
use jenlib.Common.{
  ℕ, suc, ◌+◌, ◌-◌, Bool, true, false, List, ◌==◌, leb, if◌then◌else◌, get_or, set, replicate,
}
use jenlib.Ble.Payload.{BlePayload, empty_payload, move}

abbrev pub max_buffered_payloads : ℕ
max_buffered_payloads = 10

pub record PayloadBuffer : Type 0 where
  pub payloads : List BlePayload
  pub write_it : ℕ
  pub read_it : ℕ
  pub count : ℕ

abbrev pub new_buffer : PayloadBuffer
new_buffer = record {
  payloads = replicate max_buffered_payloads empty_payload;
  write_it = 0;
  read_it = 0;
  count = 0;
}

abbrev pub empty : PayloadBuffer → Bool
empty b = b.count == 0

abbrev pub full : PayloadBuffer → Bool
full b = leb max_buffered_payloads b.count

-- `++it; if (it == payloads.end()) it = payloads.begin();`
abbrev advance : ℕ → ℕ
advance it = if it + 1 == max_buffered_payloads then 0 else it + 1

unfoldable pub push : PayloadBuffer → BlePayload → Bool × PayloadBuffer
push b payload = if full b then (false, b) else (
  true,
  record b {
    payloads = set b.payloads b.write_it (move payload).0;
    write_it = advance b.write_it;
    count = b.count + 1;
  },
)

-- The popped payload is moved out: its slot keeps the bytes with size 0.
unfoldable pub pop : PayloadBuffer → BlePayload → Bool × BlePayload × PayloadBuffer
pop b out =
    let (moved, consumed) = move (get_or b.payloads b.read_it empty_payload) in
    if empty b then (false, out, b) else (
      true,
      moved,
      record b {
        payloads = set b.payloads b.read_it consumed;
        read_it = advance b.read_it;
        count = b.count - 1;
      },
    )
