-- ===== src/Sideband/PrintBuffer.antt =====
-- crates/core/gpu-runtime/src/print_buffer.rs: messages are gathered in a slot of the sideband buffer,
-- one slot a thread, and sent to the host together. `t` is the flat index of the thread.
use async_gpu.Prelude.{
  ℕ, ◌+◌, ◌*◌, ◌^◌, ◌==◌, ltb, if◌then◌else◌, List, Option, some, ◌>>=◌, length, u16, u32,
  write_from, write_u16, write_u32, write_u64, read_u32,
}
use async_gpu.Protocol.Services.{service_bulk_print, gpu_max_spin}
use async_gpu.Protocol.Tagged.{null_index}
use async_gpu.Protocol.Errors.{pool_exhausted, timeout}
use async_gpu.Hostcall.Buffer.{
  Buffer, StackPtr, read_shard_info, get_free_stack_ptr, get_ready_stack_ptr,
}
use async_gpu.Hostcall.Stack.{hc_pop_free_from, hc_push_with}
use async_gpu.Hostcall.Request.{
  Outcome, ok, err, World, Waited, answered, gave_up, submit_and_wait, gpu_hostcall_print,
}

abbrev pub slot_size : ℕ
slot_size = 512

abbrev pub slot_header : ℕ
slot_header = 8

abbrev pub slot_data_size : ℕ
slot_data_size = 504

-- `thread_idx` and `block_dim`, in u32 arithmetic.
unfoldable pub tid : ℕ → ℕ → ℕ → ℕ → ℕ → ℕ
tid x y z dx dy = u32 (u32 (x + u32 (y * dx)) + u32 (u32 (z * dx) * dy))

-- Where the slot begins in the data region.
abbrev pub slot_ptr : ℕ → ℕ
slot_ptr thread_id = thread_id * slot_size

-- The write offset and the count of messages are zeroed.
unfoldable pub clear : ℕ → (ℕ → ℕ) → ℕ → ℕ
clear t region = write_u32 (write_u32 region (slot_ptr t) 0) (slot_ptr t + 4) 0

unfoldable pub init : ℕ → (ℕ → ℕ) → ℕ → ℕ
unfolding clear
init t region = clear t region

-- The payload of a flush.
unfoldable pub flush_payload : World → ℕ → ℕ → (ℕ → ℕ) → ℕ → ℕ
flush_payload w t write_off payload =
    let p₁ = write_u64 payload 0 (t * slot_size + slot_header) in
    let p₂ = write_u64 p₁ 8 write_off in write_u64 p₂ 16 (w.block_idx * 2 ^ 32 + w.thread_idx)

-- The end of a flush. One that gives up keeps its packet and the messages.
unfoldable pub finish_flush :
    World → StackPtr → ℕ → ℕ → (ℕ → ℕ) → Waited → Option (Outcome (Unit {0}) × Buffer × (ℕ → ℕ))
unfolding clear
finish_flush w free_ptr pkt_idx t region (answered ctrl b) = do
  b' ← hc_push_with w.release free_ptr pkt_idx b
  some (ok tt, b', clear t region)
finish_flush w free_ptr pkt_idx t region (gave_up b) = some (err timeout, b, region)

-- The region is the data region of the sideband buffer.
unfoldable pub flush : World → ℕ → Buffer → (ℕ → ℕ) → Option (Outcome (Unit {0}) × Buffer × (ℕ → ℕ))
unfolding flush_payload finish_flush
flush w t b region =
    let write_off : ℕ = read_u32 region (slot_ptr t) in
    let (num_shards, _, _) = read_shard_info b in
    let free_ptr = get_free_stack_ptr w.block_idx num_shards in
    let ready_ptr = get_ready_stack_ptr w.block_idx num_shards in
    let go = (do
      (pkt_idx, b₁) ← hc_pop_free_from w.pop free_ptr b
      let wait = (do
        waited ←
            submit_and_wait w ready_ptr service_bulk_print (flush_payload w t write_off)
              gpu_max_spin pkt_idx b₁
        finish_flush w free_ptr pkt_idx t region waited)
      if pkt_idx == null_index then some (err pool_exhausted, b₁, region) else wait) in
    if write_off == 0 then some (ok tt, b, region) else go

-- The message goes behind those in the slot, its length in two bytes before it, and the offset and
-- the count go up.
unfoldable pub append : ℕ → List ℕ → (ℕ → ℕ) → ℕ → ℕ
append t msg region =
    let slot : ℕ = slot_ptr t in
    let write_off : ℕ = read_u32 region slot in
    let dst : ℕ = slot + slot_header + write_off in
    let r₁ = write_u16 region dst (u16 (length msg)) in
    let r₂ = write_from r₁ (dst + 2) msg in
    let r₃ = write_u32 r₂ slot (u32 (write_off + (2 + length msg))) in
    write_u32 r₃ (slot + 4) (u32 (read_u32 r₃ (slot + 4) + 1))

-- What `print` does after a flush that has not failed: a message too long for a slot goes to the host
-- by itself.
unfoldable pub print_into :
    World
    → ℕ
    → List ℕ
    → Outcome (Unit {0})
    → Buffer
    → (ℕ → ℕ)
    → Option (Outcome (Unit {0}) × Buffer × (ℕ → ℕ))
unfolding append
print_into w t msg (err e) b region = some (err e, b, region)
print_into w t msg (ok tt) b region =
    let direct = (do (r, b') ← gpu_hostcall_print w msg (length msg) b; some (r, b', region)) in
    if ltb slot_data_size (2 + length msg) then direct else some (ok tt, b, append t msg region)

-- `w` is the world of the flush, `v` that of a direct print.
unfoldable pub print :
    World → World → ℕ → List ℕ → Buffer → (ℕ → ℕ) → Option (Outcome (Unit {0}) × Buffer × (ℕ → ℕ))
unfolding flush print_into
print w v t msg b region =
    let write_off : ℕ = read_u32 region (slot_ptr t) in
    let flushed = flush w t b region in
    (do
      (r, b₁, region₁) ←
          if ltb slot_data_size (write_off + (2 + length msg))
          then flushed
          else some (ok tt, b, region)
      print_into v t msg r b₁ region₁)
