-- ===== src/Hostcall/Stack.antt =====
-- crates/core/gpu-runtime/src/hostcall.rs: pop and push on the tagged-pointer stacks. Between its
-- loads and its compare-and-swap a round of either loop can be overtaken: a schedule lists, round by
-- round, what the other threads do to the buffer in that gap. `none` means that the loop still goes
-- round when the schedule ends.
use async_gpu.Prelude.{
  ℕ, ◌+◌, ◌-◌, ◌*◌, ◌/◌, ◌==◌, if◌then◌else◌, List, [], ◌∷◌, Option, none, some, u16, wrapping_add,
}
use async_gpu.Protocol.Layout.{buffer_header_size, packet_size, shard_entry_size}
use async_gpu.Protocol.Tagged.{null_index, tagged_index, tagged_tag, make_tagged}
use async_gpu.Hostcall.Buffer.{
  Buffer, StackPtr, load, sys_cas_u64, store_next, read_shard_info, get_free_stack_ptr,
}

abbrev pub Schedule : Type 0
Schedule = List (Buffer → Buffer)

-- A schedule of one round with no other thread in its gap.
abbrev pub quiet : Schedule
quiet = (λ b. b) ∷ []

-- What a round of `hc_pop_free_from` has read before its compare-and-swap.
pub record Observed : Type 0 where
  pub old_head : ℕ
  pub next : ℕ

-- The loads of a round.
unfoldable pub observe : StackPtr → Buffer → Observed
observe p b =
    let old_head : ℕ = load p b in
    record { old_head = old_head; next = (b.packets (tagged_index old_head)).next }

-- The compare-and-swap of a round: the packet that it takes, if it wins.
unfoldable pub commit : StackPtr → Observed → Buffer → Option ℕ × Buffer
commit p o b =
    let (found, b') = sys_cas_u64 p o.old_head o.next b in
    (if found == o.old_head then some (tagged_index o.old_head) else none, b')

unfoldable pub hc_pop_free_from : Schedule → StackPtr → Buffer → Option (ℕ × Buffer)
hc_pop_free_from [] p b = none
hc_pop_free_from (others ∷ rest) p b =
    let o = observe p b in
    let (taken, b') = commit p o (others b) in
    let again = hc_pop_free_from rest p b' in
    if tagged_index o.old_head == null_index
    then some (null_index, b)
    else elim taken [ some idx ↦ some (idx, b') | none ↦ again ]

unfoldable pub hc_push_with : Schedule → StackPtr → ℕ → Buffer → Option Buffer
hc_push_with [] p pkt_idx b = none
hc_push_with (others ∷ rest) p pkt_idx b =
    let old_head : ℕ = load p b in
    let linked = others (store_next pkt_idx old_head b) in
    let new_tagged : ℕ = make_tagged (wrapping_add (tagged_tag old_head) 1) pkt_idx in
    let (found, b') = sys_cas_u64 p old_head new_tagged linked in
    let again = hc_push_with rest p pkt_idx b' in if found == old_head then some b' else again

unfoldable pub hc_pop_free : Schedule → ℕ → Buffer → Option (ℕ × Buffer)
hc_pop_free others block b =
    let (num_shards, _, _) = read_shard_info b in
    hc_pop_free_from others (get_free_stack_ptr block num_shards) b

-- The packet is given by its offset from the base of the buffer, `pkt - buf`.
unfoldable pub gpu_hostcall_release : Schedule → ℕ → ℕ → Buffer → Option Buffer
gpu_hostcall_release others block pkt_offset_bytes b =
    let (num_shards, shard_array_off, _) = read_shard_info b in
    let packet_base : ℕ =
      if num_shards == 0
      then buffer_header_size
      else shard_array_off + num_shards * shard_entry_size in
    let idx : ℕ = u16 ((pkt_offset_bytes - packet_base) / packet_size) in
    hc_push_with others (get_free_stack_ptr block num_shards) idx b
