-- ===== src/Tests/Stacks.antt =====
-- The packet stacks of a small buffer.
use async_gpu.Prelude.{ℕ, ◌<◌, ◌≡◌, refl, inl, inr, [], ◌∷◌, some, range_from, arith, ◌+◌}
use async_gpu.Hostcall.Buffer.{Buffer, Packet, global_free, global_ready, shard_free, shard_ready}
use async_gpu.Hostcall.Stack.{quiet, hc_pop_free_from, hc_push_with}
use async_gpu.Hostcall.Chain.{Holds, Pops, push_refines, pop_refines}
use async_gpu.Hostcall.Init.{Config, init, reinit_packets}
use async_gpu.Hostcall.Fresh.{fresh_legacy, fresh_sharded}
use async_gpu.Hostcall.Aba.{start, aba_double_ownership}

abbrev blank_packet : Packet
blank_packet = record { next = 0; active_mask = 0; service = 0; control = 0; payload = λ _. 0 }

-- Memory before `init`.
abbrev pub memory : Buffer
memory = record {
  free_stack = 0;
  ready_stack = 0;
  doorbell = 0;
  shutdown = 0;
  num_packets = 0;
  warp_size = 0;
  num_shards = 0;
  pkts_per_shard = 0;
  shard_array_off = 0;
  shards = λ _. record { free_stack = 0; ready_stack = 0 };
  packets = λ _. blank_packet;
}

abbrev pub three : Config
three = record { num_packets = 3; num_shards = 0; pkts_per_shard = 0 }

abbrev two_shards : Config
two_shards = record { num_packets = 6; num_shards = 2; pkts_per_shard = 3 }

abbrev pub fresh : Buffer
fresh = init three memory

fresh_sharded_example :
    Holds (reinit_packets two_shards memory) (shard_free 1) (range_from 3 3)
    × Holds (reinit_packets two_shards memory) (shard_ready 1) []
    × ((j : ℕ) → j < 3 → ((reinit_packets two_shards memory).packets (3 + j)).control ≡ 0)
fresh_sharded_example =
    fresh_sharded two_shards (reinit_packets two_shards memory) 1 (omega arith) (omega arith)
      (omega arith) (memory, inr refl)

pub fresh_free : Holds fresh global_free (0 ∷ 1 ∷ 2 ∷ [])
fresh_free = (fresh_legacy three fresh refl (omega arith) (omega arith) (memory, inl refl)).0

fresh_ready : Holds fresh global_ready []
fresh_ready = (fresh_legacy three fresh refl (omega arith) (omega arith) (memory, inl refl)).1

pop_refines_example : Pops global_free fresh (0 ∷ 1 ∷ 2 ∷ [])
pop_refines_example = pop_refines global_free fresh (0 ∷ 1 ∷ 2 ∷ []) fresh_free

push_refines_example :
    (b' : Buffer) × (hc_push_with quiet global_ready 5 fresh ≡ some b')
    × Holds b' global_ready (5 ∷ [])
push_refines_example = push_refines global_ready 5 fresh [] (omega arith) tt fresh_ready

aba_double_ownership_example :
    (b₁ b₂ b₃ b₄ b₅ b₆ : Buffer) × (hc_pop_free_from quiet global_free
        (start global_free 0 1 2 fresh (omega arith) (omega arith) (omega arith) (omega arith))
      ≡ some (0, b₁))
    × (hc_pop_free_from quiet global_free b₁ ≡ some (1, b₂))
    × (hc_push_with quiet global_free 2 b₂ ≡ some b₃)
    × (hc_push_with quiet global_free 0 b₃ ≡ some b₄)
    × (hc_pop_free_from
          ((λ _. b₄) ∷ [])
          global_free
          (start global_free 0 1 2 fresh (omega arith) (omega arith) (omega arith) (omega arith))
        ≡ some (0, b₅))
    × (hc_pop_free_from quiet global_free b₅ ≡ some (1, b₆))
aba_double_ownership_example =
    aba_double_ownership global_free 0 1 2 fresh (omega arith) (omega arith) (omega arith)
      (omega arith)
