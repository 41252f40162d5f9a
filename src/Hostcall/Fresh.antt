-- ===== src/Hostcall/Fresh.antt =====
-- What the stacks hold after `init` and `reinit_packets` of Init.
mod Shards
use async_gpu.Prelude.{
  ℕ, ◌+◌, ◌*◌, ◌≤◌, ◌<◌, ◌≡◌, ◌≢◌, ◌⊎◌, inl, inr, [], ◌==◌, ne→==, eq→==, range_from, arith, sym,
}
use async_gpu.Protocol.Tagged.{
  null_index, make_tagged, null_tagged, tagged_index-make_tagged, tagged_index-null_tagged,
}
use async_gpu.Protocol.Layout.{warp_size, buffer_header_size}
use async_gpu.Hostcall.Buffer.{
  Packet, Buffer, global_free, global_ready, shard_free, shard_ready, load,
}
use async_gpu.Hostcall.Chain.{Chain, Holds}
use async_gpu.Hostcall.Init.{Config, link_packets, link_stacks, init, reinit_packets}
use async_gpu.Hostcall.Links.{IsLinked, link_packets-in, Chain-all}
use Shards.{init_shards-Holds}

-- The buffer that `init` or `reinit_packets` leaves, of any memory that it finds.
abbrev pub IsFresh : Config → Buffer → Type 0
IsFresh c b' = (b : Buffer) × ((b' ≡ init c b) ⊎ (b' ≡ reinit_packets c b))

linked : (c : Config) {b' : Buffer} → IsFresh c b' → (b : Buffer) × (b' ≡ link_stacks c b)
unfolding init reinit_packets link_stacks
linked c (b, inl e) = (
  record b {
    doorbell = 0;
    shutdown = 0;
    num_packets = c.num_packets;
    warp_size = warp_size;
    num_shards = c.num_shards;
    pkts_per_shard = c.pkts_per_shard;
    shard_array_off = buffer_header_size;
  },
  e,
)
linked c (b, inr e) = (record b { shutdown = 0 }, e)

-- In the sharded layout with at least one packet to a shard and at most 65535 packets, after `init` or
-- `reinit_packets` the free stack of each shard holds exactly the packets of the shard, in order, its
-- ready stack is empty, and their control words are clear.
pub fresh_sharded :
    (c : Config) (b' : Buffer) (s : ℕ)
    → c.num_shards * c.pkts_per_shard ≤ null_index
    → 0 < c.pkts_per_shard
    → s < c.num_shards
    → IsFresh c b'
    → Holds b' (shard_free s) (range_from (s * c.pkts_per_shard) c.pkts_per_shard)
      × Holds b' (shard_ready s) []
      × ((j : ℕ) → j < c.pkts_per_shard → (b'.packets (s * c.pkts_per_shard + j)).control ≡ 0)
unfolding link_stacks
fresh_sharded c b' s h pos lt fresh =
    let (b, e) = linked c fresh in
    rw (e, ne→== c.num_shards 0 (omega arith))
      (init_shards-Holds c.pkts_per_shard c.num_shards
        (record b { free_stack = null_tagged; ready_stack = null_tagged }) s h pos lt)

-- The packets after the loop of the legacy layout.
legacy_links :
    (n : ℕ) (b : Buffer) (j : ℕ)
    → n ≤ null_index
    → j < n
    → IsLinked 0 n j (link_packets 0 n 0 n b.packets)
legacy_links n b j h lt =
    link_packets-in 0 n 0 n b.packets j (omega arith) (omega arith) (omega arith)

-- In the legacy layout with at least one and at most 65535 packets, after `init` or `reinit_packets` the
-- free stack holds exactly the packets of the pool, in order, the ready stack is empty, and the
-- control words are clear.
pub fresh_legacy :
    (c : Config) (b' : Buffer)
    → c.num_shards ≡ 0
    → c.num_packets ≤ null_index
    → 0 < c.num_packets
    → IsFresh c b'
    → Holds b' global_free (range_from 0 c.num_packets)
      × Holds b' global_ready []
      × ((j : ℕ) → j < c.num_packets → (b'.packets j).control ≡ 0)
unfolding link_stacks load
fresh_legacy c b' none_sharded h pos fresh =
    let (b, e) = linked c fresh in
    let n = c.num_packets in
    rw (e, eq→== c.num_shards 0 none_sharded)
      (
        Chain-all (link_packets 0 n 0 n b.packets) 0 n (make_tagged 0 0) (omega arith) pos
            (λ j lt. (legacy_links n b j h lt).0) (tagged_index-make_tagged 0 0 (omega arith)),
        tagged_index-null_tagged,
        λ j lt. let e₀ : 0 + j ≡ j = omega arith in rw e₀ at (legacy_links n b j h lt).1,
      )
