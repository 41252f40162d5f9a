-- ===== src/Hostcall/Request.antt =====
-- crates/core/gpu-runtime/src/hostcall.rs: a hostcall request from the pop of a packet to the answer.
use async_gpu.Prelude.{
  ℕ, zero, suc, ◌+◌, ◌-◌, ◌==◌, ltb, if◌then◌else◌, List, Option, some, ◌>>=◌, u64, has_bit, take,
  write_from, write_u64, write_u32, read_u64,
}
use async_gpu.Protocol.Services.{
  control_ready, control_error, control_filled, gpu_max_spin, service_print, print_max_msg_len,
}
use async_gpu.Protocol.Tagged.{null_index}
use async_gpu.Protocol.Errors.{GpuError, from_encoded, pool_exhausted, timeout}
use async_gpu.Hostcall.Buffer.{
  Packet, Buffer, StackPtr, with_packet, read_shard_info, get_free_stack_ptr, get_ready_stack_ptr,
}
use async_gpu.Hostcall.Stack.{Schedule, hc_pop_free_from, hc_push_with}

-- `Result<A, GpuError>`
pub data Outcome (A : Type 0) : Type 0 where
  ok : A → Outcome A
  err : GpuError → Outcome A

-- The surroundings of a request: the calling lane (`activemask()`, `block_idx_x()`,
-- `thread_idx_x()`), what other threads do in the gaps of its pop and its two pushes, and what the
-- host and the others do before the `k`-th load of the control word.
pub record World : Type 0 where
  pub activemask : ℕ
  pub block_idx : ℕ
  pub thread_idx : ℕ
  pub pop : Schedule
  pub submit : Schedule
  pub host : ℕ → Buffer → Buffer
  pub release : Schedule

-- The header and the payload, then `CONTROL_FILLED`. The packet is the caller's own meanwhile.
unfoldable pub fill_packet : ℕ → ℕ → ((ℕ → ℕ) → ℕ → ℕ) → Packet → Packet
fill_packet mask service fill_payload pkt =
    let claimed = record pkt { active_mask = mask; service = service; control = 0 } in
    record claimed { payload = fill_payload claimed.payload; control = control_filled }

unfoldable pub ring_doorbell : Buffer → Buffer
ring_doorbell b = record b { doorbell = u64 (b.doorbell + 1) }

-- How the wait for the answer ends: the control word with the ready bit, or no such word in time.
pub data Waited : Type 0 where
  answered : (ctrl : ℕ) → Buffer → Waited
  gave_up : Buffer → Waited

-- The spin loop with `left` rounds after this one, the `k`-th. The source gives up after round
-- `max 1 max_spin`, so `left` starts at `max_spin - 1`.
unfoldable pub spin : (ℕ → Buffer → Buffer) → ℕ → ℕ → ℕ → Buffer → Waited
spin host idx zero k b =
    let b' = host k b in
    let ctrl : ℕ = (b'.packets idx).control in
    if has_bit ctrl control_ready then answered ctrl b' else gave_up b'
spin host idx (suc left) k b =
    let b' = host k b in
    let ctrl : ℕ = (b'.packets idx).control in
    let later = spin host idx left (suc k) b' in
    if has_bit ctrl control_ready then answered ctrl b' else later

-- What a request does with the end of its wait. The packet is named by its index.
unfoldable pub finish : World → StackPtr → ℕ → Waited → Option (Outcome ℕ × Buffer)
finish w free_ptr pkt_idx (answered ctrl b) =
    let slot0 : ℕ = read_u64 (b.packets pkt_idx).payload 0 in
    let failed = (do
      b' ← hc_push_with w.release free_ptr pkt_idx b
      some (err (from_encoded slot0), b')) in
    if has_bit ctrl control_error then failed else some (ok pkt_idx, b)
finish w free_ptr pkt_idx (gave_up b) = do
  b' ← hc_push_with w.release free_ptr pkt_idx b
  some (err timeout, b')

-- From the filling of the packet to the end of the wait.
unfoldable pub submit_and_wait :
    World → StackPtr → ℕ → ((ℕ → ℕ) → ℕ → ℕ) → ℕ → ℕ → Buffer → Option Waited
unfolding fill_packet ring_doorbell
submit_and_wait w ready_ptr service fill_payload max_spin pkt_idx b = do
  let filled = with_packet pkt_idx (fill_packet w.activemask service fill_payload) b
  b' ← hc_push_with w.submit ready_ptr pkt_idx filled
  some (spin w.host pkt_idx (max_spin - 1) 0 (ring_doorbell b'))

-- The two stacks are those of the block's shard, found once, before the pop.
unfoldable pub gpu_hostcall_request_with_timeout :
    World → ℕ → ℕ → ((ℕ → ℕ) → ℕ → ℕ) → Buffer → Option (Outcome ℕ × Buffer)
gpu_hostcall_request_with_timeout w service max_spin fill_payload b = do
  let (num_shards, _, _) = read_shard_info b
  let free_ptr = get_free_stack_ptr w.block_idx num_shards
  let ready_ptr = get_ready_stack_ptr w.block_idx num_shards
  (pkt_idx, b₁) ← hc_pop_free_from w.pop free_ptr b
  let go = (do
    waited ← submit_and_wait w ready_ptr service fill_payload max_spin pkt_idx b₁
    finish w free_ptr pkt_idx waited)
  if pkt_idx == null_index then some (err pool_exhausted, b₁) else go

unfoldable pub gpu_hostcall_request :
    World → ℕ → ((ℕ → ℕ) → ℕ → ℕ) → Buffer → Option (Outcome ℕ × Buffer)
unfolding gpu_hostcall_request_with_timeout
gpu_hostcall_request w service fill_payload b =
    gpu_hostcall_request_with_timeout w service gpu_max_spin fill_payload b

-- The payload of a PRINT: the length, at most 56 message bytes from byte 8 on, and the block and the
-- thread in the first slot of lane 1.
unfoldable pub print_payload : World → List ℕ → ℕ → (ℕ → ℕ) → ℕ → ℕ
print_payload w msg msg_len payload =
    let copy_len : ℕ = if ltb print_max_msg_len msg_len then print_max_msg_len else msg_len in
    let p₁ = write_u64 payload 0 msg_len in
    let p₂ = write_from p₁ 8 (take copy_len msg) in
    write_u32 (write_u32 p₂ 64 w.block_idx) 68 w.thread_idx

-- A PRINT does not look at the error bit, and keeps its packet when it gives up.
unfoldable pub finish_print : World → StackPtr → ℕ → Waited → Option (Outcome (Unit {0}) × Buffer)
finish_print w free_ptr pkt_idx (answered ctrl b) = do
  b' ← hc_push_with w.release free_ptr pkt_idx b
  some (ok tt, b')
finish_print w free_ptr pkt_idx (gave_up b) = some (err timeout, b)

unfoldable pub gpu_hostcall_print :
    World → List ℕ → ℕ → Buffer → Option (Outcome (Unit {0}) × Buffer)
unfolding print_payload
gpu_hostcall_print w msg msg_len b = do
  let (num_shards, _, _) = read_shard_info b
  let free_ptr = get_free_stack_ptr w.block_idx num_shards
  let ready_ptr = get_ready_stack_ptr w.block_idx num_shards
  (pkt_idx, b₁) ← hc_pop_free_from w.pop free_ptr b
  let go = (do
    waited ←
        submit_and_wait w ready_ptr service_print (print_payload w msg msg_len) gpu_max_spin pkt_idx
          b₁
    finish_print w free_ptr pkt_idx waited)
  if pkt_idx == null_index then some (err pool_exhausted, b₁) else go
