-- ===== src/Hostcall/Buffer.antt =====
-- The shared buffer as typed memory: the header fields, the shard entries and the packets, each at
-- the offset that Protocol.Layout gives it. A store to one leaves the
-- others alone; for their places see Protocol.Regions. A packet is named by its index; the sizes are those of the
-- fields in crates/core/gpu-protocol/src/lib.rs.
use async_gpu.Prelude.{ℕ, ◌%◌, ◌≡◌, refl, ◌==◌, if◌then◌else◌, update, arith}
use async_gpu.Protocol.Layout.{buffer_header_size, packet_offset, packet_offset_sharded}

-- A packet: the fields at PKT_OFF_*, and the payload by the byte, slot `j` of lane `i` from byte
-- `64 * i + 8 * j` on.
pub record Packet : Type 0 where
  pub next : ℕ
  pub active_mask : ℕ
  pub service : ℕ
  pub control : ℕ
  pub payload : ℕ → ℕ

-- A shard entry: the fields at SHARD_OFF_*.
pub record Shard : Type 0 where
  pub free_stack : ℕ
  pub ready_stack : ℕ

-- The header fields at BUF_OFF_*, then the shard array and the packet pool.
pub record Buffer : Type 0 where
  pub free_stack : ℕ
  pub ready_stack : ℕ
  pub doorbell : ℕ
  pub shutdown : ℕ
  pub num_packets : ℕ
  pub warp_size : ℕ
  pub num_shards : ℕ
  pub pkts_per_shard : ℕ
  pub shard_array_off : ℕ
  pub shards : ℕ → Shard
  pub packets : ℕ → Packet

-- A pointer to a stack head, as `get_free_stack_ptr` and `get_ready_stack_ptr` make them.
pub data StackPtr : Type 0 where
  global_free global_ready : StackPtr
  shard_free shard_ready : ℕ → StackPtr

-- `sys_load_acquire_u64` of a stack head
unfoldable pub load : StackPtr → Buffer → ℕ
load global_free b = b.free_stack
load global_ready b = b.ready_stack
load (shard_free s) b = (b.shards s).free_stack
load (shard_ready s) b = (b.shards s).ready_stack

unfoldable pub store : StackPtr → ℕ → Buffer → Buffer
store global_free v b = record b { free_stack = v }
store global_ready v b = record b { ready_stack = v }
store (shard_free s) v b = record b {
  shards = update b.shards s (record (b.shards s) { free_stack = v });
}
store (shard_ready s) v b = record b {
  shards = update b.shards s (record (b.shards s) { ready_stack = v });
}

-- `sys_cas_u64`: the value found, and the memory after.
unfoldable pub sys_cas_u64 : StackPtr → ℕ → ℕ → Buffer → ℕ × Buffer
sys_cas_u64 p expected v b =
    let found : ℕ = load p b in (found, if found == expected then store p v b else b)

-- A store to fields of packet `idx`.
abbrev pub with_packet : ℕ → (Packet → Packet) → Buffer → Buffer
with_packet idx f b = record b { packets = update b.packets idx (f (b.packets idx)) }

-- `write_volatile(pkt.add(PKT_OFF_NEXT), v)`
unfoldable pub store_next : ℕ → ℕ → Buffer → Buffer
store_next idx v b = with_packet idx (λ pkt. record pkt { next = v }) b

-- The number of shards (0 is the legacy layout), the offset of the shard array, packets per shard.
unfoldable pub read_shard_info : Buffer → ℕ × ℕ × ℕ
read_shard_info b =
    if b.num_shards == 0
    then (0, buffer_header_size, 0)
    else (b.num_shards, b.shard_array_off, b.pkts_per_shard)

unfoldable pub pkt_offset : Buffer → ℕ → ℕ
unfolding read_shard_info
pkt_offset b idx =
    let (num_shards, shard_array_off, _) = read_shard_info b in
    if num_shards == 0
    then packet_offset idx
    else packet_offset_sharded idx shard_array_off num_shards

-- `block` is `block_idx_x()`.
unfoldable pub get_free_stack_ptr : ℕ → ℕ → StackPtr
get_free_stack_ptr block num_shards =
    if num_shards == 0 then global_free else shard_free (block % num_shards)

unfoldable pub get_ready_stack_ptr : ℕ → ℕ → StackPtr
get_ready_stack_ptr block num_shards =
    if num_shards == 0 then global_ready else shard_ready (block % num_shards)

pub load-store : (p : StackPtr) (v : ℕ) (b : Buffer) → load p (store p v b) ≡ v
unfolding load store
load-store global_free v b = refl
load-store global_ready v b = refl
load-store (shard_free s) v b = ground arith
load-store (shard_ready s) v b = ground arith

pub packets-store : (p : StackPtr) (v : ℕ) (b : Buffer) → (store p v b).packets ≡ b.packets
unfolding store
packets-store global_free v b = refl
packets-store global_ready v b = refl
packets-store (shard_free s) v b = refl
packets-store (shard_ready s) v b = refl

pub load-with_packet :
    (p : StackPtr) (idx : ℕ) (f : Packet → Packet) (b : Buffer)
    → load p (with_packet idx f b) ≡ load p b
unfolding load
load-with_packet global_free idx f b = refl
load-with_packet global_ready idx f b = refl
load-with_packet (shard_free s) idx f b = refl
load-with_packet (shard_ready s) idx f b = refl
