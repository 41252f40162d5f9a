-- ===== src/Recorder.antt =====
-- The flight recorder, a ring of the last trace events: the kernel's side in
-- crates/core/gpu-runtime/src/flight_recorder.rs, and FlightRecorder of
-- crates/core/gpu-host/src/hostcall.rs. Only the text of the dump is left out.
pub mod Entry
pub mod Last
use async_gpu.Prelude.{
  ℕ, zero, suc, ◌+◌, ◌-◌, ◌*◌, ◌/◌, ◌%◌, ◌^◌, Bool, ◌==◌, ltb, has_bit, if◌then◌else◌, List, [],
  ◌∷◌, ◌++◌, length, take, replicate, update, u8, u16, u64,
}
use async_gpu.Protocol.Metadata.{encode_trace_metadata, decode_trace_metadata}

abbrev pub fr_max_msg_len : ℕ
fr_max_msg_len = 48

abbrev pub fr_flag_crashed : ℕ
fr_flag_crashed = 1

-- All 48 message bytes of a slot are written by each record.
pub record Slot : Type 0 where
  pub meta : ℕ
  pub timestamp : ℕ
  pub msg : List ℕ

pub record FlightRecorder : Type 0 where
  pub write_idx : ℕ
  pub capacity : ℕ
  pub flags : ℕ
  pub slots : ℕ → Slot

-- A call of `fr_record`: the registers that it reads, and its arguments.
pub record Event : Type 0 where
  pub thread_idx : ℕ
  pub block_idx : ℕ
  pub lane : ℕ
  pub timestamp : ℕ
  pub level : ℕ
  pub msg : List ℕ

-- `new` after its allocation, which clears the memory.
unfoldable pub new : ℕ → FlightRecorder
new capacity = record {
  write_idx = 0;
  capacity = capacity;
  flags = 0;
  slots = λ _. record { meta = 0; timestamp = 0; msg = replicate fr_max_msg_len 0 };
}

unfoldable pub copy_len : List ℕ → ℕ
copy_len msg = if ltb fr_max_msg_len (length msg) then fr_max_msg_len else length msg

-- What `fr_record` writes to its slot.
unfoldable pub written : Event → Slot
unfolding copy_len
written e =
    let len = copy_len e.msg in
    record {
      meta =
          encode_trace_metadata (u16 e.thread_idx) (u16 e.block_idx) e.level (u8 len) (u16 e.lane);
      timestamp = e.timestamp;
      msg = take len e.msg ++ replicate (fr_max_msg_len - len) 0;
    }

unfoldable pub fr_record : Event → FlightRecorder → FlightRecorder
unfolding written
fr_record e r = if r.capacity == 0 then r else record r {
  write_idx = u64 (r.write_idx + 1);
  slots = update r.slots (r.write_idx % r.capacity) (written e);
}

-- `flags | 1`
unfoldable pub fr_set_crashed : FlightRecorder → FlightRecorder
fr_set_crashed r = record r {
  flags = if has_bit r.flags fr_flag_crashed then r.flags else r.flags + fr_flag_crashed;
}

unfoldable pub crashed : FlightRecorder → Bool
crashed r = has_bit r.flags fr_flag_crashed

-- What `dump` shows of an event.
pub record Shown : Type 0 where
  pub thread_idx : ℕ
  pub block_idx : ℕ
  pub level : ℕ
  pub lane : ℕ
  pub timestamp : ℕ
  pub msg : List ℕ

unfoldable pub entry : Slot → Shown
entry s =
    let (tid, bid, level, msg_len, lane) = decode_trace_metadata s.meta in
    record {
      thread_idx = tid;
      block_idx = bid;
      level = level;
      lane = lane;
      timestamp = s.timestamp;
      msg = take (if ltb fr_max_msg_len msg_len then fr_max_msg_len else msg_len) s.msg;
    }

-- The loop of `dump`, at event `i` with `left` events to go.
unfoldable pub dump_loop : ℕ → ℕ → FlightRecorder → List Shown
unfolding entry
dump_loop i zero r = []
dump_loop i (suc left) r = entry (r.slots (i % r.capacity)) ∷ dump_loop (suc i) left r

unfoldable pub dump : FlightRecorder → List Shown
unfolding dump_loop
dump r = let start : ℕ = r.write_idx - r.capacity in dump_loop start (r.write_idx - start) r

unfoldable pub reset : FlightRecorder → FlightRecorder
reset r = record r { write_idx = 0; flags = 0 }
