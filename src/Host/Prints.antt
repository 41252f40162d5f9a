-- ===== src/Host/Prints.antt =====
-- From the payload that the GPU fills to what the host shows: gpu_hostcall_print and handle_print.
use async_gpu.Prelude.{
  ℕ, ◌^◌, ◌<◌, ◌≡◌, refl, sym, ◌∙◌, inl, inr, ltb, if◌then◌else◌, List, ◌++◌, min, arith,
  Bool-cases, ltb→le, length, length-take, take, take-eq_self, read_from, write_u32, read_u64,
  read_u32, read_u64-write_u64, read_u32-write_u32, read_u64-write_from_out,
  read_u32-write_from_out, read_from-write_from_out, read_from-write_from_len,
}
use async_gpu.Hostcall.Request.{World, print_payload}
use async_gpu.Host.Os.{Os}
use async_gpu.Host.Console.{printed, handle_print}

-- As many bytes as the GPU copies and the host reads are the first 56.
copied : (msg : List ℕ) → take (if ltb 56 (length msg) then 56 else length msg) msg ≡ take 56 msg
copied msg = elim (Bool-cases (ltb 56 (length msg))) [
  | inl long ↦ rw long refl
  | inr short ↦ rw short (
      take-eq_self (length msg) msg (omega arith)
      ∙ sym (take-eq_self 56 msg (ltb→le 56 (length msg) short)))
]

module _ (w : World) (msg : List ℕ) (payload : ℕ → ℕ) where
  abbrev sent : ℕ → ℕ
  sent = print_payload w msg (length msg) payload

  sent_len : length msg < 2 ^ 64 → read_u64 sent 0 ≡ length msg
  unfolding print_payload write_u32
  sent_len h =
      read_u64-write_from_out _ 0 68 _ (inl (omega arith))
      ∙ read_u64-write_from_out _ 0 64 _ (inl (omega arith))
      ∙ read_u64-write_from_out _ 0 8 _ (inl (omega arith))
      ∙ read_u64-write_u64 payload 0 (length msg) h

  sent_msg : read_from sent 8 (min (length msg) 56) ≡ take 56 msg
  unfolding print_payload write_u32
  sent_msg =
      read_from-write_from_out _ 8 _ 68 _ (inl (omega arith))
      ∙ read_from-write_from_out _ 8 _ 64 _ (inl (omega arith))
      ∙ rw (copied msg)
          (read_from-write_from_len _ 8 _ (take 56 msg) (omega (arith, length-take 56 msg)))

  sent_block : w.block_idx < 2 ^ 32 → read_u32 sent 64 ≡ w.block_idx
  unfolding print_payload write_u32
  sent_block h =
      read_u32-write_from_out _ 64 68 _ (inl (omega arith)) ∙ read_u32-write_u32 _ 64 w.block_idx h

  sent_thread : w.thread_idx < 2 ^ 32 → read_u32 sent 68 ≡ w.thread_idx
  unfolding print_payload
  sent_thread h = read_u32-write_u32 _ 68 w.thread_idx h

-- What the host shows of a PRINT that the GPU has filled in, with a length that is the message's and
-- below 2 ^ 64, and indices of 32 bits: the prefix of the block and the thread, and the first 56 bytes
-- of the message.
pub handle_print-print_payload :
    {W Handle : Type 0} (sys : Os W Handle) (w : World) (msg : List ℕ) (payload : ℕ → ℕ)
    → length msg < 2 ^ 64
    → w.block_idx < 2 ^ 32
    → w.thread_idx < 2 ^ 32
    → handle_print sys (print_payload w msg (length msg) payload)
      ≡ printed (sys.prefix w.block_idx w.thread_idx ++ take 56 msg)
unfolding handle_print
handle_print-print_payload sys w msg payload h k t =
    rw
      (
        sent_len w msg payload h,
        sent_block w msg payload k,
        sent_thread w msg payload t,
        sent_msg w msg payload,
      )
      refl
