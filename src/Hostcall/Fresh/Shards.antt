-- ===== src/Hostcall/Fresh/Shards.antt =====
-- The loop of `init` and `reinit_packets` over the shards.
use async_gpu.Prelude.{
  ℕ, zero, suc, ◌+◌, ◌*◌, ◌≤◌, ◌<◌, ◌≡◌, refl, ◌∙◌, ap, update, update_self, update_ne, range_from,
  arith, u16, u32, ℕ_discrete, [],
}
use async_gpu.Protocol.Tagged.{
  null_index, tagged_index, make_tagged, null_tagged, tagged_index-make_tagged,
  tagged_index-null_tagged,
}
use async_gpu.Hostcall.Buffer.{Packet, Shard, Buffer, shard_free, shard_ready, load}
use async_gpu.Hostcall.Chain.{Holds}
use async_gpu.Hostcall.Init.{link_packets, init_shards}
use async_gpu.Hostcall.Links.{IsLinked, link_packets-out, link_packets-in, Chain-all}

-- The buffer after the round for shard `s`.
abbrev shard_done : ℕ → ℕ → Buffer → Buffer
shard_done pps s b =
    let base_pkt : ℕ = u32 (s * pps) in
    record b {
      packets = link_packets base_pkt pps 0 pps b.packets;
      shards =
          update b.shards s
            (record { free_stack = make_tagged 0 (u16 base_pkt); ready_stack = null_tagged });
    }

packets-init_shards :
    (pps s left : ℕ) (b : Buffer) (j : ℕ)
    → (s + left) * pps ≤ null_index
    → j < s * pps
    → (init_shards pps s left b).packets j ≡ b.packets j
unfolding init_shards
packets-init_shards pps s zero b j h lt = refl
packets-init_shards pps s (suc left) b j h lt =
    packets-init_shards pps (suc s) left (shard_done pps s b) j (omega arith) (omega arith)
    ∙ link_packets-out (u32 (s * pps)) pps 0 pps b.packets j (omega arith) (omega arith)

shards-init_shards :
    (pps s left : ℕ) (b : Buffer) (t : ℕ) → t < s → (init_shards pps s left b).shards t ≡ b.shards t
unfolding init_shards
shards-init_shards pps s zero b t lt = refl
shards-init_shards pps s (suc left) b t lt =
    shards-init_shards pps (suc s) left (shard_done pps s b) t (omega arith)
    ∙ update_ne b.shards s t _ (omega arith)

-- Shard `t` is set up: its heads, and its packets linked and cleared.
record IsSetUp (pps t : ℕ) (b : Buffer) : Type 0 where
  heads :
      b.shards t ≡ record { free_stack = make_tagged 0 (u16 (t * pps)); ready_stack = null_tagged }
  linked : (j : ℕ) → j < pps → IsLinked (t * pps) pps j b.packets

-- The later rounds leave a shard that is set up alone.
round-IsSetUp :
    (pps s left : ℕ) (b : Buffer)
    → (s + suc left) * pps ≤ null_index
    → IsSetUp pps s (init_shards pps (suc s) left (shard_done pps s b))
round-IsSetUp pps s left b h = record {
  heads =
      shards-init_shards pps (suc s) left (shard_done pps s b) s (omega arith)
      ∙ update_self b.shards s _
      ∙ ap (λ (n : ℕ). record { free_stack = make_tagged 0 (u16 n); ready_stack = null_tagged })
          small;
  linked = λ j lt. (
    ap (λ (pkt : Packet). pkt.next) (kept j lt) ∙ (links j lt).0,
    ap (λ (pkt : Packet). pkt.control) (kept j lt) ∙ (links j lt).1,
  );
}
  where
    small : u32 (s * pps) ≡ s * pps
    small = omega arith

    links :
        (j : ℕ) → j < pps → IsLinked (s * pps) pps j (link_packets (s * pps) pps 0 pps b.packets)
    links j lt =
        link_packets-in (s * pps) pps 0 pps b.packets j (omega arith) (omega arith) (omega arith)

    kept :
        (j : ℕ)
        → j < pps
        → (init_shards pps (suc s) left (shard_done pps s b)).packets (s * pps + j)
          ≡ link_packets (s * pps) pps 0 pps b.packets (s * pps + j)
    kept j lt =
        packets-init_shards pps (suc s) left (shard_done pps s b) (s * pps + j) (omega arith)
          (omega arith)
        ∙ ap (λ (n : ℕ). link_packets n pps 0 pps b.packets (s * pps + j)) small

init_shards-IsSetUp :
    (pps s left : ℕ) (b : Buffer) (t : ℕ)
    → (s + left) * pps ≤ null_index
    → s ≤ t
    → t < s + left
    → IsSetUp pps t (init_shards pps s left b)
unfolding init_shards
init_shards-IsSetUp pps s zero b t h lo hi = absurd (omega arith)
init_shards-IsSetUp pps s (suc left) b t h lo hi = elim (ℕ_discrete s t) [
  | yes e ↦ rw (← e) (round-IsSetUp pps s left b h)
  | no ne ↦
      init_shards-IsSetUp pps (suc s) left (shard_done pps s b) t (omega arith) (omega arith)
        (omega arith)
]

-- A shard that is set up has all its packets on its free stack, and an empty ready stack.
pub init_shards-Holds :
    (pps n : ℕ) (b : Buffer) (t : ℕ)
    → n * pps ≤ null_index
    → 0 < pps
    → t < n
    → let b' = init_shards pps 0 n b in
      Holds b' (shard_free t) (range_from (t * pps) pps)
      × Holds b' (shard_ready t) []
      × ((j : ℕ) → j < pps → (b'.packets (t * pps + j)).control ≡ 0)
unfolding load
init_shards-Holds pps n b t h pos lt = (
  Chain-all (init_shards pps 0 n b).packets (t * pps) pps
      ((init_shards pps 0 n b).shards t).free_stack (omega (arith, room)) pos
      (λ j hj. (set_up.linked j hj).0)
      (ap (λ (sh : Shard). tagged_index sh.free_stack) set_up.heads
        ∙ tagged_index-make_tagged 0 (u16 (t * pps)) (omega arith)
        ∙ omega (arith, room)),
  ap (λ (sh : Shard). tagged_index sh.ready_stack) set_up.heads ∙ tagged_index-null_tagged,
  λ j hj. (set_up.linked j hj).1,
)
  where
    set_up : IsSetUp pps t (init_shards pps 0 n b)
    set_up = init_shards-IsSetUp pps 0 n b t (omega arith) (omega arith) (omega arith)

    room : t * pps + pps ≤ n * pps
    room = grind arith
