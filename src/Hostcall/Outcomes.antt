-- ===== src/Hostcall/Outcomes.antt =====
-- What a request can return, whatever the host and the other threads do.
use async_gpu.Prelude.{
  ℕ, zero, suc, ◌-◌, ◌≡◌, refl, true, if◌then◌else◌, [], ◌∷◌, some, Ensures, >>=-Ensures,
  Ensures-of_always, has_bit, Bool-cases, inl, inr,
}
use async_gpu.Protocol.Services.{control_ready}
use async_gpu.Protocol.Tagged.{null_index, tagged_index}
use async_gpu.Protocol.Errors.{pool_exhausted}
use async_gpu.Hostcall.Buffer.{
  Buffer, StackPtr, load, get_free_stack_ptr, get_ready_stack_ptr, read_shard_info,
}
use async_gpu.Hostcall.Stack.{Schedule, hc_pop_free_from, hc_push_with, observe}
use async_gpu.Hostcall.Chain.{Holds}
use async_gpu.Hostcall.Request.{
  err, World, Waited, answered, gave_up, spin, submit_and_wait, gpu_hostcall_request_with_timeout,
  ring_doorbell,
}

-- The free stack that a request of this block uses.
abbrev pub free_of : World → Buffer → StackPtr
free_of w b =
    let (num_shards, _, _) = read_shard_info b in get_free_stack_ptr w.block_idx num_shards

abbrev pub ready_of : World → Buffer → StackPtr
ready_of w b =
    let (num_shards, _, _) = read_shard_info b in get_ready_stack_ptr w.block_idx num_shards

pub pop_empty :
    (others : Buffer → Buffer) (rest : Schedule) (p : StackPtr) (b : Buffer)
    → tagged_index (load p b) ≡ null_index
    → hc_pop_free_from (others ∷ rest) p b ≡ some (null_index, b)
unfolding hc_pop_free_from observe
pop_empty others rest p b e = rw e

-- A request that finds the free stack empty returns `pool_exhausted` and leaves the buffer unchanged.
pub request_pool_exhausted :
    (w : World) (service max_spin : ℕ) (fill : (ℕ → ℕ) → ℕ → ℕ) (b : Buffer)
    (others : Buffer → Buffer) (rest : Schedule)
    → w.pop ≡ others ∷ rest
    → Holds b (free_of w b) []
    → gpu_hostcall_request_with_timeout w service max_spin fill b ≡ some (err pool_exhausted, b)
unfolding gpu_hostcall_request_with_timeout
request_pool_exhausted w service max_spin fill b others rest e h =
    rw (e, pop_empty others rest (free_of w b) b h)

-- What is known of the packet when a wait ends: an answer has the ready bit.
abbrev pub Ready : ℕ → Waited → Type 0
Ready idx (answered ctrl b) = ((b.packets idx).control ≡ ctrl) × (has_bit ctrl control_ready ≡ true)
Ready idx (gave_up b) = Unit

branch-Ready :
    (idx : ℕ) (b : Buffer) (later : Waited)
    → Ready idx later
    → let ctrl : ℕ = (b.packets idx).control in
      Ready idx (if has_bit ctrl control_ready then answered ctrl b else later)
branch-Ready idx b later h = elim (Bool-cases (has_bit (b.packets idx).control control_ready)) [
  | inl e ↦ rw e (refl, e)
  | inr e ↦ rw e h
]

spin-Ready :
    (host : ℕ → Buffer → Buffer) (idx left k : ℕ) (b : Buffer) → Ready idx (spin host idx left k b)
unfolding spin
spin-Ready host idx zero k b = branch-Ready idx (host k b) (gave_up (host k b)) tt
spin-Ready host idx (suc left) k b =
    branch-Ready idx (host k b) (spin host idx left (suc k) (host k b))
      (spin-Ready host idx left (suc k) (host k b))

pub submit-Ready :
    (w : World) (ready_ptr : StackPtr) (service max_spin : ℕ) (fill : (ℕ → ℕ) → ℕ → ℕ) (idx : ℕ)
    (b : Buffer)
    → Ensures (Ready idx) (submit_and_wait w ready_ptr service fill max_spin idx b)
unfolding submit_and_wait
submit-Ready w ready_ptr service max_spin fill idx b =
    >>=-Ensures (Ready idx) (hc_push_with w.submit ready_ptr idx _) _
      (Ensures-of_always (λ _. Unit {0}) _ (λ _. tt))
      (λ b' _. spin-Ready w.host idx (max_spin - 1) 0 (ring_doorbell b'))
