-- ===== src/Protocol/Layout.antt =====
-- crates/core/gpu-protocol/src/lib.rs: where the header, the shard entries, the packets and their
-- payload slots lie in the hostcall buffer, in bytes from its base.
use async_gpu.Prelude.{ℕ, ◌+◌, ◌*◌}

abbrev pub warp_size : ℕ
warp_size = 32

abbrev pub slots_per_lane : ℕ
slots_per_lane = 8

abbrev pub buffer_header_size : ℕ
buffer_header_size = 64

abbrev pub packet_header_size : ℕ
packet_header_size = 32

abbrev pub packet_payload_size : ℕ
packet_payload_size = warp_size * slots_per_lane * 8

abbrev pub packet_size : ℕ
packet_size = 2112

abbrev pub shard_entry_size : ℕ
shard_entry_size = 16

abbrev pub pkt_off_payload : ℕ
pkt_off_payload = packet_header_size

-- The 16 bytes of a shard entry are its free and its ready stack.
unfoldable pub shard_entry_offset : ℕ → ℕ → ℕ
shard_entry_offset shard_array_offset shard_idx = shard_array_offset + shard_idx * shard_entry_size

unfoldable pub packet_offset_sharded : ℕ → ℕ → ℕ → ℕ
packet_offset_sharded index shard_array_offset num_shards =
    shard_array_offset + num_shards * shard_entry_size + index * packet_size

unfoldable pub buffer_size_sharded : ℕ → ℕ → ℕ
buffer_size_sharded num_packets num_shards =
    buffer_header_size + num_shards * shard_entry_size + num_packets * packet_size

unfoldable pub packet_offset : ℕ → ℕ
packet_offset index = buffer_header_size + index * packet_size

unfoldable pub payload_slot_offset : ℕ → ℕ → ℕ
payload_slot_offset lane slot = pkt_off_payload + lane * slots_per_lane * 8 + slot * 8

unfoldable pub buffer_size : ℕ → ℕ
buffer_size num_packets = buffer_header_size + num_packets * packet_size
