-- ===== src/Host/Console.antt =====
-- crates/core/gpu-host/src/hostcall.rs: the handlers that the listener runs itself, handle_print,
-- handle_bulk_print, handle_time, handle_panic and handle_trace. What they show is a value.
-- The sideband buffer is there: without one a bulk print shows nothing.
use async_gpu.Prelude.{
  ℕ, zero, suc, ◌+◌, ◌*◌, ◌/◌, ◌^◌, ◌==◌, leb, ltb, if◌then◌else◌, Bool, false, ◌||◌, List, [], ◌∷◌,
  ◌++◌, Option, none, some, min, u32, write_u64, read_u64, read_u32, read_from,
}
use async_gpu.Protocol.Services.{print_max_msg_len, file_error_sentinel}
use async_gpu.Protocol.Metadata.{
  panic_thread_idx, panic_block_idx, panic_msg_len, panic_max_msg_len, trace_thread_idx,
  trace_block_idx, trace_level, trace_msg_len, trace_max_msg_len, trace_level_debug,
  trace_level_info, trace_level_warn, trace_level_error,
}
use async_gpu.Host.Os.{Os}
use async_gpu.Host.Resources.{Sideband}

-- The name of a level in the output of a trace.
pub data LevelStr : Type 0 where
  debug info warn error unknown : LevelStr

-- A call of `on_print`, or a line on the standard error of the host: a panic with thread and block,
-- a trace with thread, block, level and time. A message that is not UTF-8 is `none`.
pub data Shown : Type 0 where
  printed : List ℕ → Shown
  panicked : ℕ → ℕ → Option (List ℕ) → Shown
  traced : ℕ → ℕ → LevelStr → ℕ → Option (List ℕ) → Shown

-- A line before the others, if the loop ends.
abbrev pub behind : Shown → Option (List Shown) → Option (List Shown)
behind line none = none
behind line (some lines) = some (line ∷ lines)

unfoldable pub level_str : ℕ → LevelStr
level_str level =
    if level == trace_level_debug
    then LevelStr.debug
    else if level == trace_level_info
    then LevelStr.info
    else if level == trace_level_warn
    then LevelStr.warn
    else if level == trace_level_error
    then LevelStr.error
    else LevelStr.unknown

module _ {W Handle : Type 0} (sys : Os W Handle) where
  unfoldable pub handle_print : (ℕ → ℕ) → Shown
  handle_print payload =
      let msg_len : ℕ = min (read_u64 payload 0) print_max_msg_len in
      let msg = read_from payload 8 msg_len in
      let block_idx : ℕ = read_u32 payload 64 in
      let thread_idx : ℕ = read_u32 payload 68 in printed (sys.prefix block_idx thread_idx ++ msg)

  -- The loop over the framed messages from `pos` on; `none` if the fuel does not last. The data start
  -- at `start` of the region.
  unfoldable pub bulk_print_loop : ℕ → List ℕ → (ℕ → ℕ) → ℕ → ℕ → ℕ → Option (List Shown)
  bulk_print_loop zero pre region start data_len pos = none
  bulk_print_loop (suc fuel) pre region start data_len pos =
      let msg_len : ℕ = region (start + pos) + region (start + pos + 1) * 256 in
      let msg = read_from region (start + pos + 2) msg_len in
      let rest = bulk_print_loop fuel pre region start data_len (pos + 2 + msg_len) in
      if leb (pos + 2) data_len
      then (if (msg_len == 0) || ltb data_len (pos + 2 + msg_len)
          then some []
          else behind (printed (pre ++ msg)) rest)
      else some []

  -- The fuel is one round for each two bytes and one more.
  unfoldable pub handle_bulk_print : Sideband → (ℕ → ℕ) → Option (List Shown)
  unfolding bulk_print_loop
  handle_bulk_print sideband payload =
      let sideband_offset : ℕ = read_u64 payload 0 in
      let data_len : ℕ = read_u64 payload 8 in
      let metadata : ℕ = read_u64 payload 16 in
      let thread_idx : ℕ = u32 metadata in
      let block_idx : ℕ = u32 (metadata / 2 ^ 32) in
      if data_len == 0
      then some []
      else bulk_print_loop (data_len / 2 + 1) (sys.prefix block_idx thread_idx) sideband.data_region
          sideband_offset data_len 0

  -- `unwrap_or("<invalid UTF-8>")`
  unfoldable pub valid_text : List ℕ → Option (List ℕ)
  valid_text msg = if sys.from_utf8 msg then some msg else none

  unfoldable pub handle_panic : (ℕ → ℕ) → Shown
  unfolding valid_text panic_thread_idx panic_block_idx panic_msg_len
  handle_panic payload =
      let meta : ℕ = read_u64 payload 0 in
      let msg_len : ℕ = min (panic_msg_len meta) panic_max_msg_len in
      panicked (panic_thread_idx meta) (panic_block_idx meta)
        (valid_text (read_from payload 8 msg_len))

  unfoldable pub handle_trace : (ℕ → ℕ) → Shown
  unfolding valid_text level_str trace_thread_idx trace_block_idx trace_level trace_msg_len
  handle_trace payload =
      let meta : ℕ = read_u64 payload 0 in
      let msg_len : ℕ = min (trace_msg_len meta) trace_max_msg_len in
      let timestamp : ℕ = read_u64 payload 8 in
      traced (trace_thread_idx meta) (trace_block_idx meta) (level_str (trace_level meta)) timestamp
        (valid_text (read_from payload 16 msg_len))

  -- The payload with the time; a clock before 1970 gives the sentinel, and no error bit.
  unfoldable pub time_payload : Option (ℕ × ℕ) → (ℕ → ℕ) → ℕ → ℕ
  time_payload (some (secs, nanos)) payload = write_u64 (write_u64 payload 0 secs) 8 nanos
  time_payload none payload = write_u64 (write_u64 payload 0 file_error_sentinel) 8 0

  unfoldable pub handle_time : W → (ℕ → ℕ) → Bool × (ℕ → ℕ) × W
  unfolding time_payload
  handle_time w payload = let (now, w') = sys.now w in (false, time_payload now payload, w')
