-- ===== src/Tests/Requests.antt =====
-- Requests on a small buffer: one that the host answers, and one that it does not.
use async_gpu.Prelude.{
  ℕ, ◌≡◌, refl, ◌==◌, if◌then◌else◌, [], ◌∷◌, none, some, Option, arith, write_u64,
}
use async_gpu.Protocol.Tagged.{tagged_index, tagged_tag, make_tagged, null_tagged}
use async_gpu.Protocol.Errors.{timeout}
use async_gpu.Hostcall.Buffer.{
  Buffer, load, store, store_next, sys_cas_u64, with_packet, read_shard_info, get_free_stack_ptr,
  get_ready_stack_ptr,
}
use async_gpu.Hostcall.Stack.{quiet, hc_pop_free_from, hc_push_with, observe, commit}
use async_gpu.Hostcall.Chain.{Holds}
use async_gpu.Hostcall.Init.{init, link_stacks, link_packets}
use async_gpu.Hostcall.Request.{
  Outcome, ok, err, World, spin, finish, submit_and_wait, fill_packet, ring_doorbell,
  gpu_hostcall_request_with_timeout,
}
use async_gpu.Hostcall.Outcomes.{free_of, ready_of}
use async_gpu.Hostcall.Returns.{Returned, request_returns_outcome}
use async_gpu.Hostcall.Timeout.{silent, timeout_corrupts_ready}
use async_gpu.Tests.Stacks.{memory, fresh, fresh_free}

-- The host sets the ready bit of packet 0 before the second load of the control word.
abbrev answering : ℕ → Buffer → Buffer
answering k b = if k == 1 then with_packet 0 (λ pkt. record pkt { control = 1 }) b else b

abbrev world : (ℕ → Buffer → Buffer) → World
world host = record {
  activemask = 1;
  block_idx = 0;
  thread_idx = 0;
  pop = quiet;
  submit = quiet;
  host = host;
  release = quiet;
}

abbrev payload : (ℕ → ℕ) → ℕ → ℕ
payload p = write_u64 p 0 42

abbrev answer : Option (Outcome ℕ × Buffer)
answer = gpu_hostcall_request_with_timeout (world answering) 1 5 payload fresh

-- The buffer after the request.
abbrev after : Option (Outcome ℕ × Buffer) → Buffer
after none = fresh
after (some (_, b)) = b

answered_run : answer ≡ some (ok 0, after answer)
unfolding gpu_hostcall_request_with_timeout submit_and_wait finish spin hc_pop_free_from
    hc_push_with observe commit sys_cas_u64 load store store_next read_shard_info get_free_stack_ptr
    get_ready_stack_ptr init link_stacks link_packets tagged_index tagged_tag make_tagged
    null_tagged fill_packet ring_doorbell
answered_run = refl

request_returns_outcome_example :
    (r : Outcome ℕ × Buffer) × (gpu_hostcall_request_with_timeout
        (world answering)
        1
        5
        payload
        fresh
      ≡ some r)
    × Returned (world answering) 1 5 payload fresh r
request_returns_outcome_example =
    request_returns_outcome (world answering) 1 5 payload fresh ([], [], refl) ([], [], refl)
      ([], [], refl)

abbrev drained : Buffer
drained = record memory { free_stack = null_tagged }

drained_empty : Holds drained (free_of (world silent) drained) []
unfolding load tagged_index null_tagged make_tagged read_shard_info get_free_stack_ptr
drained_empty = refl

fresh-free_of : Holds fresh (free_of (world silent) fresh) (0 ∷ 1 ∷ 2 ∷ [])
unfolding read_shard_info get_free_stack_ptr init link_stacks link_packets
fresh-free_of = fresh_free

timeout_corrupts_ready_example :
    (b' : Buffer) × (gpu_hostcall_request_with_timeout (world silent) 1 5 payload fresh
      ≡ some (err timeout, b'))
    × Holds b' (free_of (world silent) fresh) (0 ∷ 1 ∷ 2 ∷ [])
    × Holds b' (ready_of (world silent) fresh) (0 ∷ 1 ∷ 2 ∷ [])
timeout_corrupts_ready_example =
    timeout_corrupts_ready (world silent) 1 5 payload fresh 0 (1 ∷ 2 ∷ []) refl refl refl refl
      (omega arith) (omega arith) fresh-free_of
