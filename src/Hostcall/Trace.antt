-- ===== src/Hostcall/Trace.antt =====
-- crates/core/gpu-runtime/src/hostcall.rs: gpu_hostcall_trace, which waits as a PRINT does.
use async_gpu.Prelude.{
  ℕ, ◌^◌, ◌<◌, ◌≤◌, ◌≡◌, ◌∙◌, refl, sym, ap, ◌==◌, ltb, if◌then◌else◌, List, Option, some, ◌>>=◌,
  length, take, take-eq_self, u8, u16, write_from, write_u64, read_u64, read_from,
  read_u64-write_from_out, read_from-write_from, read_u64-write_u64, inl, inr, arith, Bool-cases,
  ltb→le,
}
use async_gpu.Protocol.Services.{service_trace, gpu_max_spin}
use async_gpu.Protocol.Metadata.{
  trace_max_msg_len, encode_trace_metadata, decode_trace_metadata, decode-encode_trace_metadata,
}
use async_gpu.Protocol.Tagged.{null_index}
use async_gpu.Protocol.Errors.{pool_exhausted}
use async_gpu.Hostcall.Buffer.{Buffer, read_shard_info, get_free_stack_ptr, get_ready_stack_ptr}
use async_gpu.Hostcall.Stack.{hc_pop_free_from}
use async_gpu.Hostcall.Request.{Outcome, err, World, submit_and_wait, finish_print}

unfoldable pub trace_len : ℕ → ℕ
trace_len msg_len = if ltb trace_max_msg_len msg_len then trace_max_msg_len else msg_len

-- The metadata, the clock, and at most 48 message bytes from byte 16 on.
unfoldable pub trace_payload : World → ℕ → ℕ → ℕ → List ℕ → ℕ → (ℕ → ℕ) → ℕ → ℕ
trace_payload w lane timestamp level msg msg_len payload =
    let meta : ℕ =
      encode_trace_metadata (u16 w.thread_idx) (u16 w.block_idx) level (u8 (trace_len msg_len))
        (u16 lane) in
    let p₁ = write_u64 payload 0 meta in
    let p₂ = write_u64 p₁ 8 timestamp in write_from p₂ 16 (take (trace_len msg_len) msg)

-- `lane_id()` and the clock are given beside the world.
unfoldable pub gpu_hostcall_trace :
    World → ℕ → ℕ → ℕ → List ℕ → ℕ → Buffer → Option (Outcome (Unit {0}) × Buffer)
unfolding trace_payload
gpu_hostcall_trace w lane timestamp level msg msg_len b = do
  let (num_shards, _, _) = read_shard_info b
  let free_ptr = get_free_stack_ptr w.block_idx num_shards
  let ready_ptr = get_ready_stack_ptr w.block_idx num_shards
  (pkt_idx, b₁) ← hc_pop_free_from w.pop free_ptr b
  let go = (do
    waited ←
        submit_and_wait w ready_ptr service_trace (trace_payload w lane timestamp level msg msg_len)
          gpu_max_spin pkt_idx b₁
    finish_print w free_ptr pkt_idx waited)
  if pkt_idx == null_index then some (err pool_exhausted, b₁) else go

read_u64-write_u64_out : (f : ℕ → ℕ) (v : ℕ) → read_u64 (write_u64 f 8 v) 0 ≡ read_u64 f 0
unfolding write_u64
read_u64-write_u64_out f v = read_u64-write_from_out f 0 8 _ (inl (omega arith))

trace_len-le : (n : ℕ) → trace_len n ≤ 48
unfolding trace_len
trace_len-le n = ground arith

take-trace_len : (msg : List ℕ) → take (trace_len (length msg)) msg ≡ take 48 msg
unfolding trace_len
take-trace_len msg = elim (Bool-cases (ltb 48 (length msg))) [
  | inl long ↦ rw long refl
  | inr short ↦ rw short (
      take-eq_self (length msg) msg (omega arith)
      ∙ sym (take-eq_self 48 msg (ltb→le 48 (length msg) short)))
]

-- The payload of a trace request with a level of a byte decodes, slot 0 by the metadata functions, to
-- the thread, block and lane cast to 16 bits, the level, and the length of the message cut to 48
-- bytes, and has the message so cut from byte 16 on.
pub trace_payload_decodes :
    (w : World) (lane timestamp level : ℕ) (msg : List ℕ) (payload : ℕ → ℕ)
    → level < 2 ^ 8
    → let p = trace_payload w lane timestamp level msg (length msg) payload in
      (decode_trace_metadata (read_u64 p 0)
        ≡ (u16 w.thread_idx, u16 w.block_idx, level, trace_len (length msg), u16 lane))
      × (read_from p 16 (length (take 48 msg)) ≡ take 48 msg)
unfolding trace_payload
trace_payload_decodes w lane timestamp level msg payload h =
    let le = trace_len-le (length msg) in
    let small : u8 (trace_len (length msg)) ≡ trace_len (length msg) = omega arith in
    let (fields, fits) =
      decode-encode_trace_metadata (u16 w.thread_idx) (u16 w.block_idx) level
        (u8 (trace_len (length msg))) (u16 lane) (omega arith) (omega arith) h (omega arith)
        (omega arith) in
    let meta : ℕ =
      encode_trace_metadata (u16 w.thread_idx) (u16 w.block_idx) level (u8 (trace_len (length msg)))
        (u16 lane) in
    (
      ap decode_trace_metadata (
            read_u64-write_from_out _ 0 16 _ (inl (omega arith))
            ∙ read_u64-write_u64_out (write_u64 payload 0 meta) timestamp
            ∙ read_u64-write_u64 payload 0 meta fits)
          ∙ fields
          ∙ ap (λ (n : ℕ). (u16 w.thread_idx, u16 w.block_idx, level, n, u16 lane)) small,
      rw (take-trace_len msg) (read_from-write_from _ 16 (take 48 msg)),
    )
