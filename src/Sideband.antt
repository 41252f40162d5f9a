-- ===== src/Sideband.antt =====
-- crates/core/gpu-runtime/src/sideband.rs: the bump allocator of the sideband buffer, and the bulk
-- transfers that use it. Offsets are from the start of the data region.
pub mod Grants
pub mod Transfer
pub mod PrintBuffer
pub mod Buffered
use async_gpu.Prelude.{
  ℕ, ◌+◌, ◌==◌, ltb, if◌then◌else◌, ◌||◌, List, Option, none, some, ◌>>=◌, length, u64, u64_max,
  read_from, write_from, write_u64, read_u64,
}
use async_gpu.Protocol.Services.{service_bulk_write, service_bulk_read, file_error_sentinel}
use async_gpu.Hostcall.Buffer.{Packet, Buffer, pkt_offset}
use async_gpu.Hostcall.Stack.{Schedule, gpu_hostcall_release}
use async_gpu.Hostcall.Request.{Outcome, ok, err, World, gpu_hostcall_request}
use async_gpu.Host.Resources.{Sideband}

-- The pointer moves on even if the block does not fit; both sums wrap.
unfoldable pub sideband_alloc : ℕ → Sideband → ℕ × Sideband
sideband_alloc size sb =
    let old_offset : ℕ = sb.alloc in
    let moved = record sb { alloc = u64 (old_offset + size) } in
    (if ltb sb.capacity (u64 (old_offset + size)) then u64_max else old_offset, moved)

unfoldable pub sideband_reset : Sideband → Sideband
sideband_reset sb = record sb { alloc = 0 }

-- The payload of a bulk transfer.
unfoldable pub bulk_payload : ℕ → ℕ → ℕ → (ℕ → ℕ) → ℕ → ℕ
bulk_payload fd offset len payload = write_u64 (write_u64 (write_u64 payload 0 fd) 8 offset) 16 len

-- What follows an answer: slot 0 is read and the packet is released.
unfoldable pub transferred : Schedule → World → Outcome ℕ → Buffer → Option (ℕ × Buffer)
transferred others w (err e) b = some (0, b)
transferred others w (ok pkt_idx) b =
    let count : ℕ = read_u64 (b.packets pkt_idx).payload 0 in
    (do
      b' ← gpu_hostcall_release others w.block_idx (pkt_offset b pkt_idx) b
      some (if count == file_error_sentinel then 0 else count, b'))

-- `others` is what other threads do while the packet is released.
unfoldable pub gpu_bulk_write :
    Schedule → World → ℕ → List ℕ → Buffer → Sideband → Option (ℕ × Buffer × Sideband)
unfolding sideband_alloc bulk_payload transferred
gpu_bulk_write others w fd src b sb =
    let len : ℕ = length src in
    let (offset, moved) = sideband_alloc len sb in
    let copied = record moved { data_region = write_from moved.data_region offset src } in
    let go = (do
      (r, b₁) ← gpu_hostcall_request w service_bulk_write (bulk_payload fd offset len) b
      (written, b₂) ← transferred others w r b₁
      some (written, b₂, copied)) in
    if len == 0 then some (0, b, sb) else if offset == u64_max then some (0, b, moved) else go

-- `host` is what the host does to the sideband buffer meanwhile. The bytes that are read come back
-- as a list beside their number.
unfoldable pub gpu_bulk_read :
    Schedule
    → World
    → (Sideband → Sideband)
    → ℕ
    → ℕ
    → Buffer
    → Sideband
    → Option ((ℕ × List ℕ) × Buffer × Sideband)
unfolding sideband_alloc bulk_payload transferred
gpu_bulk_read others w host fd max_len b sb =
    let (offset, moved) = sideband_alloc max_len sb in
    let go = (do
      (r, b₁) ← gpu_hostcall_request w service_bulk_read (bulk_payload fd offset max_len) b
      (n, b₂) ← transferred others w r b₁
      let sb' = host moved
      some ((n, read_from sb'.data_region offset n), b₂, sb')) in
    if max_len == 0
    then some ((0, List.[]), b, sb)
    else if offset == u64_max
    then some ((0, List.[]), b, moved)
    else go
