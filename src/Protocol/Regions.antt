-- ===== src/Protocol/Regions.antt =====
-- The blocks of bytes of crates/core/gpu-protocol/src/lib.rs: whether the parts of the hostcall buffer
-- overlap, and where they end.
use async_gpu.Prelude.{ℕ, ◌+◌, ◌≤◌, ◌<◌, ◌⊎◌, ◌≡◌, arith}
use async_gpu.Protocol.Layout.{
  warp_size, slots_per_lane, buffer_header_size, packet_size, shard_entry_size, pkt_off_payload,
  shard_entry_offset, packet_offset_sharded, buffer_size_sharded, packet_offset,
  payload_slot_offset, buffer_size,
}

-- Two blocks of bytes, each an offset and a size, share no byte.
abbrev pub Disjoint : ℕ → ℕ → ℕ → ℕ → Type 0
Disjoint a size_a b size_b = (a + size_a ≤ b) ⊎ (b + size_b ≤ a)

-- In the sharded layout, with the shard array behind the header: each shard entry lies behind the
-- header and before every packet, each packet lies inside the buffer, and two shard entries or two
-- packets of different index share no byte.
pub sharded_parts :
    (num_packets num_shards s t i j : ℕ)
    → s < num_shards
    → t < num_shards
    → i < num_packets
    → j < num_packets
    → let entry = shard_entry_offset buffer_header_size in
      let packet = λ (k : ℕ). packet_offset_sharded k buffer_header_size num_shards in
      (buffer_header_size ≤ entry s)
      × (entry s + shard_entry_size ≤ packet i)
      × (packet i + packet_size ≤ buffer_size_sharded num_packets num_shards)
      × ((s ≡ t) ⊎ Disjoint (entry s) shard_entry_size (entry t) shard_entry_size)
      × ((i ≡ j) ⊎ Disjoint (packet i) packet_size (packet j) packet_size)
unfolding shard_entry_offset packet_offset_sharded buffer_size_sharded
sharded_parts n m s t i j hs ht hi hj =
    (omega arith, omega arith, omega arith, grind arith, grind arith)

-- In the legacy layout each packet lies behind the header and inside the buffer, and two packets of
-- different index share no byte.
pub legacy_parts :
    (num_packets i j : ℕ)
    → i < num_packets
    → j < num_packets
    → (buffer_header_size ≤ packet_offset i)
      × (packet_offset i + packet_size ≤ buffer_size num_packets)
      × ((i ≡ j) ⊎ Disjoint (packet_offset i) packet_size (packet_offset j) packet_size)
unfolding packet_offset buffer_size
legacy_parts n i j hi hj = (omega arith, omega arith, grind arith)

-- Every 8-byte payload slot of a lane lies behind the packet header and inside the packet, and two
-- slots that differ in lane or in index share no byte.
pub payload_slots :
    (lane slot lane' slot' : ℕ)
    → lane < warp_size
    → slot < slots_per_lane
    → lane' < warp_size
    → slot' < slots_per_lane
    → (pkt_off_payload ≤ payload_slot_offset lane slot)
      × (payload_slot_offset lane slot + 8 ≤ packet_size)
      × (((lane ≡ lane') × (slot ≡ slot'))
          ⊎ Disjoint (payload_slot_offset lane slot) 8 (payload_slot_offset lane' slot') 8)
unfolding payload_slot_offset
payload_slots l s l' s' hl hs hl' hs' = (omega arith, omega arith, grind arith)
