-- ===== src/Hostcall/Init.antt =====
-- crates/core/gpu-host/src/hostcall.rs: the sizes of a hostcall buffer, and how `init` and
-- `reinit_packets` link its packets into the free stacks. The allocations of the CUDA driver before
-- it are not modelled: `init` may find any memory.
use async_gpu.Prelude.{
  ℕ, zero, suc, ◌+◌, ◌*◌, ◌==◌, ltb, leb, if◌then◌else◌, Option, none, some, update, u16, u32,
}
use async_gpu.Protocol.Layout.{buffer_header_size, warp_size}
use async_gpu.Protocol.Tagged.{make_tagged, null_tagged}
use async_gpu.Hostcall.Buffer.{Packet, Buffer}

-- The fields of `HostcallBuffer` that say what the buffer holds.
pub record Config : Type 0 where
  pub num_packets : ℕ
  pub num_shards : ℕ
  pub pkts_per_shard : ℕ

unfoldable pub new : ℕ → Config
new num_packets = record { num_packets = num_packets; num_shards = 0; pkts_per_shard = 0 }

-- `none` is the failed assertion "too many packets". The product is a u32.
unfoldable pub new_sharded : ℕ → ℕ → Option Config
new_sharded num_shards pkts_per_shard =
    let total_packets : ℕ = u32 (num_shards * pkts_per_shard) in
    if leb total_packets 0xFFFE
    then some (record {
      num_packets = u16 total_packets;
      num_shards = num_shards;
      pkts_per_shard = pkts_per_shard;
    })
    else none

-- The loop over the `count` packets from `base` on, at round `i` with `left` rounds to go: each is
-- linked to the next one, the last to none, and its control word is cleared.
unfoldable pub link_packets : ℕ → ℕ → ℕ → ℕ → (ℕ → Packet) → ℕ → Packet
link_packets base count i zero packets = packets
link_packets base count i (suc left) packets =
    let pkt_idx : ℕ = u16 (base + i) in
    let next_tagged : ℕ =
      if ltb (i + 1) count then make_tagged 0 (u16 (base + i + 1)) else null_tagged in
    link_packets base count (suc i) left
      (update packets pkt_idx (record (packets pkt_idx) { next = next_tagged; control = 0 }))

-- The loop over the shards, at shard `s` with `left` shards to go: link the packets of the shard, and
-- set the heads of its two stacks.
unfoldable pub init_shards : ℕ → ℕ → ℕ → Buffer → Buffer
unfolding link_packets
init_shards pkts_per_shard s zero b = b
init_shards pkts_per_shard s (suc left) b =
    let base_pkt : ℕ = u32 (s * pkts_per_shard) in
    init_shards pkts_per_shard (suc s) left (record b {
      packets = link_packets base_pkt pkts_per_shard 0 pkts_per_shard b.packets;
      shards =
          update b.shards s
            (record { free_stack = make_tagged 0 (u16 base_pkt); ready_stack = null_tagged });
    })

-- The part that `init` and `reinit_packets` share: the stacks and the packets of both layouts.
unfoldable pub link_stacks : Config → Buffer → Buffer
unfolding init_shards
link_stacks c b =
    if c.num_shards == 0
    then record b {
      free_stack = make_tagged 0 0;
      ready_stack = null_tagged;
      packets = link_packets 0 c.num_packets 0 c.num_packets b.packets;
    }
    else init_shards c.pkts_per_shard 0 c.num_shards
        (record b { free_stack = null_tagged; ready_stack = null_tagged })

unfoldable pub init : Config → Buffer → Buffer
unfolding link_stacks
init c b = link_stacks c (record b {
  doorbell = 0;
  shutdown = 0;
  num_packets = c.num_packets;
  warp_size = warp_size;
  num_shards = c.num_shards;
  pkts_per_shard = c.pkts_per_shard;
  shard_array_off = buffer_header_size;
})

-- The sideband buffer's bump pointer, which it resets too, is the state of Sideband.
unfoldable pub reinit_packets : Config → Buffer → Buffer
unfolding link_stacks
reinit_packets c b = link_stacks c (record b { shutdown = 0 })
