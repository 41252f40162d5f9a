-- ===== src/Host/Traces.antt =====
-- From the payload that gpu_hostcall_trace fills to what handle_trace shows.
use async_gpu.Prelude.{
  ℕ, ◌^◌, ◌<◌, ◌≡◌, refl, sym, ap, ◌∙◌, inl, List, min, arith, length, length-take, take, u16,
  read_u64, read_u64-write_u64, read_u64-write_from_out,
}
use async_gpu.Protocol.Metadata.{decode_trace_metadata, trace_msg_len}
use async_gpu.Hostcall.Request.{World}
use async_gpu.Hostcall.Trace.{trace_len, trace_payload, trace_payload_decodes}
use async_gpu.Host.Os.{Os}
use async_gpu.Host.Console.{traced, level_str, valid_text, handle_trace}

trace_len-min : (n : ℕ) → min (trace_len n) 48 ≡ min 48 n
unfolding trace_len
trace_len-min n = ground arith

sent_time :
    (w : World) (lane timestamp level : ℕ) (msg : List ℕ) (payload : ℕ → ℕ)
    → timestamp < 2 ^ 64
    → read_u64 (trace_payload w lane timestamp level msg (length msg) payload) 8 ≡ timestamp
unfolding trace_payload
sent_time w lane timestamp level msg payload h =
    read_u64-write_from_out _ 8 16 _ (inl (omega arith)) ∙ read_u64-write_u64 _ 8 timestamp h

-- What the host shows of a TRACE that the GPU has filled in, with a level of a byte and a clock of 64
-- bits: the thread and the block cut to 16 bits, the name of the level, the clock, and the first 48
-- bytes of the message, if they are UTF-8.
pub handle_trace-trace_payload :
    {W Handle : Type 0} (sys : Os W Handle) (w : World) (lane timestamp level : ℕ) (msg : List ℕ)
    (payload : ℕ → ℕ)
    → level < 2 ^ 8
    → timestamp < 2 ^ 64
    → handle_trace sys (trace_payload w lane timestamp level msg (length msg) payload)
      ≡ traced
          (u16 w.thread_idx)
          (u16 w.block_idx)
          (level_str level)
          timestamp
          (valid_text sys (take 48 msg))
unfolding handle_trace decode_trace_metadata
handle_trace-trace_payload sys w lane timestamp level msg payload h k =
    let p = trace_payload w lane timestamp level msg (length msg) payload in
    let (fields, bytes) = trace_payload_decodes w lane timestamp level msg payload h in
    let len : min (trace_msg_len (read_u64 p 0)) 48 ≡ length (take 48 msg) =
      ap (λ n. min n 48) (ap (λ (m : ℕ × ℕ × ℕ × ℕ × ℕ). m.3) fields)
      ∙ trace_len-min (length msg)
      ∙ sym (length-take 48 msg) in
    rw
      (
        sent_time w lane timestamp level msg payload k,
        len,
        bytes,
        ap (λ (m : ℕ × ℕ × ℕ × ℕ × ℕ). m.0) fields,
        ap (λ (m : ℕ × ℕ × ℕ × ℕ × ℕ). m.1) fields,
        ap (λ (m : ℕ × ℕ × ℕ × ℕ × ℕ). m.2) fields,
      )
      refl
