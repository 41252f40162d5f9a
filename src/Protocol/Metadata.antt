-- ===== src/Protocol/Metadata.antt =====
-- crates/core/gpu-protocol/src/lib.rs: the packed metadata words of PANIC and TRACE requests. Each
-- `|` of shifted fields joins disjoint bits, so it is a sum here.
use async_gpu.Prelude.{ℕ, ◌+◌, ◌*◌, ◌/◌, ◌^◌, ◌<◌, ◌≡◌, arith, u8, u16}

abbrev pub panic_max_msg_len : ℕ
panic_max_msg_len = 56

abbrev pub trace_level_debug : ℕ
trace_level_debug = 0

abbrev pub trace_level_info : ℕ
trace_level_info = 1

abbrev pub trace_level_warn : ℕ
trace_level_warn = 2

abbrev pub trace_level_error : ℕ
trace_level_error = 3

unfoldable pub encode_panic_metadata : ℕ → ℕ → ℕ → ℕ
encode_panic_metadata thread_idx block_idx msg_len =
    thread_idx + block_idx * 2 ^ 16 + msg_len * 2 ^ 32

unfoldable pub panic_thread_idx : ℕ → ℕ
panic_thread_idx meta = u16 meta

unfoldable pub panic_block_idx : ℕ → ℕ
panic_block_idx meta = u16 (meta / 2 ^ 16)

unfoldable pub panic_msg_len : ℕ → ℕ
panic_msg_len meta = u16 (meta / 2 ^ 32)

abbrev pub trace_max_msg_len : ℕ
trace_max_msg_len = 48

unfoldable pub encode_trace_metadata : ℕ → ℕ → ℕ → ℕ → ℕ → ℕ
encode_trace_metadata thread_idx block_idx level msg_len lane_id =
    thread_idx + block_idx * 2 ^ 16 + level * 2 ^ 32 + msg_len * 2 ^ 40 + lane_id * 2 ^ 48

unfoldable pub trace_thread_idx : ℕ → ℕ
trace_thread_idx meta = u16 meta

unfoldable pub trace_block_idx : ℕ → ℕ
trace_block_idx meta = u16 (meta / 2 ^ 16)

unfoldable pub trace_level : ℕ → ℕ
trace_level meta = u8 (meta / 2 ^ 32)

unfoldable pub trace_msg_len : ℕ → ℕ
trace_msg_len meta = u8 (meta / 2 ^ 40)

unfoldable pub trace_lane_id : ℕ → ℕ
trace_lane_id meta = u16 (meta / 2 ^ 48)

unfoldable pub decode_trace_metadata : ℕ → ℕ × ℕ × ℕ × ℕ × ℕ
unfolding trace_thread_idx trace_block_idx trace_level trace_msg_len trace_lane_id
decode_trace_metadata meta = (
  trace_thread_idx meta,
  trace_block_idx meta,
  trace_level meta,
  trace_msg_len meta,
  trace_lane_id meta,
)

-- The three fields of a panic word come back from it, and the word fits 48 bits.
pub panic_metadata_fields :
    (thread_idx block_idx msg_len : ℕ)
    → thread_idx < 2 ^ 16
    → block_idx < 2 ^ 16
    → msg_len < 2 ^ 16
    → let meta = encode_panic_metadata thread_idx block_idx msg_len in
      (panic_thread_idx meta ≡ thread_idx)
      × (panic_block_idx meta ≡ block_idx)
      × (panic_msg_len meta ≡ msg_len)
      × (meta < 2 ^ 48)
unfolding encode_panic_metadata panic_thread_idx panic_block_idx panic_msg_len
panic_metadata_fields t b l ht hb hl = omega arith

-- A trace word of five fields in range decodes to those five fields, and fits a u64.
pub decode-encode_trace_metadata :
    (thread_idx block_idx level msg_len lane_id : ℕ)
    → thread_idx < 2 ^ 16
    → block_idx < 2 ^ 16
    → level < 2 ^ 8
    → msg_len < 2 ^ 8
    → lane_id < 2 ^ 16
    → let meta = encode_trace_metadata thread_idx block_idx level msg_len lane_id in
      (decode_trace_metadata meta ≡ (thread_idx, block_idx, level, msg_len, lane_id))
      × (meta < 2 ^ 64)
unfolding encode_trace_metadata decode_trace_metadata
decode-encode_trace_metadata t b l m n ht hb hl hm hn = (ground arith, omega arith)
