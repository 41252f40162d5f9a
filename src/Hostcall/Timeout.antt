-- ===== src/Hostcall/Timeout.antt =====
-- What a request of Request that gives up leaves on the two stacks.
use async_gpu.Prelude.{
  ℕ, zero, suc, ◌-◌, ◌≡◌, ◌≢◌, refl, sym, ◌∙◌, ap, false, ◌==◌, List, ◌∷◌, some, All, arith,
  Bool-cases, inl, inr, has_bit, update, ne→==, ◌<◌,
}
use async_gpu.Protocol.Services.{control_ready}
use async_gpu.Protocol.Tagged.{null_index, tagged_index}
use async_gpu.Protocol.Errors.{timeout}
use async_gpu.Hostcall.Buffer.{
  Packet, Buffer, StackPtr, load, store, with_packet, store_next, get_free_stack_ptr,
  get_ready_stack_ptr, read_shard_info, load-with_packet,
}
use async_gpu.Hostcall.Stack.{Schedule, quiet, hc_pop_free_from}
use async_gpu.Hostcall.Chain.{
  Holds, Chain-update, Chain-cong, pushed, popped, Holds-pushed, Holds-popped, hc_push_with-quiet,
  hc_pop_quiet, index-pushed, packets-pushed,
}
use async_gpu.Hostcall.Request.{
  err, World, gave_up, fill_packet, ring_doorbell, spin, finish, submit_and_wait,
  gpu_hostcall_request_with_timeout,
}
use async_gpu.Hostcall.Outcomes.{free_of, ready_of}

-- A push on the ready stack of a block leaves the head of its free stack alone.
load_free-store_ready :
    (block n v : ℕ) (b : Buffer)
    → load (get_free_stack_ptr block n) (store (get_ready_stack_ptr block n) v b)
      ≡ load (get_free_stack_ptr block n) b
unfolding get_free_stack_ptr get_ready_stack_ptr load store
load_free-store_ready block n v b = elim (Bool-cases (n == 0)) [
  | inl e ↦ rw e
  | inr e ↦ rw e (ground arith)
]

load_ready-store_free :
    (block n v : ℕ) (b : Buffer)
    → load (get_ready_stack_ptr block n) (store (get_free_stack_ptr block n) v b)
      ≡ load (get_ready_stack_ptr block n) b
unfolding get_free_stack_ptr get_ready_stack_ptr load store
load_ready-store_free block n v b = elim (Bool-cases (n == 0)) [
  | inl e ↦ rw e
  | inr e ↦ rw e (ground arith)
]

load-ring_doorbell : (p : StackPtr) (b : Buffer) → load p (ring_doorbell b) ≡ load p b
unfolding load ring_doorbell
load-ring_doorbell StackPtr.global_free b = refl
load-ring_doorbell StackPtr.global_ready b = refl
load-ring_doorbell (StackPtr.shard_free s) b = refl
load-ring_doorbell (StackPtr.shard_ready s) b = refl

Holds-ring_doorbell :
    (p : StackPtr) (b : Buffer) (xs : List ℕ) → Holds b p xs → Holds (ring_doorbell b) p xs
unfolding ring_doorbell
Holds-ring_doorbell p b xs h = Chain-cong {packets = b.packets} xs refl (load-ring_doorbell p b) h

-- A host that never answers.
abbrev pub silent : ℕ → Buffer → Buffer
silent k b = b

spin-silent :
    (idx left k : ℕ) (b : Buffer)
    → has_bit (b.packets idx).control control_ready ≡ false
    → spin silent idx left k b ≡ gave_up b
unfolding spin
spin-silent idx zero k b e = rw e
spin-silent idx (suc left) k b e = rw e (spin-silent idx left (suc k) b e)

control-pushed :
    (p : StackPtr) (i j : ℕ) (b : Buffer)
    → ((pushed p i b).packets j).control ≡ (b.packets j).control
control-pushed p i j b =
    ap (λ (m : ℕ → Packet). (m j).control) (packets-pushed p i b) ∙ ground arith

-- A push on another stack, and a store to the packet pushed, leave a stack as it was.
Holds-with_packet :
    (p : StackPtr) (i : ℕ) (f : Packet → Packet) (b : Buffer) (xs : List ℕ)
    → All (λ x. i ≢ x) xs
    → Holds b p xs
    → Holds (with_packet i f b) p xs
Holds-with_packet p i f b xs out h =
    Chain-cong {packets = update b.packets i (f (b.packets i))} xs refl (load-with_packet p i f b)
      (Chain-update b.packets i (f (b.packets i)) (load p b) xs out h)

load_ready-pushed_free :
    (block n i : ℕ) (b : Buffer)
    → load (get_ready_stack_ptr block n) (pushed (get_free_stack_ptr block n) i b)
      ≡ load (get_ready_stack_ptr block n) b
unfolding pushed store_next
load_ready-pushed_free block n i b =
    load_ready-store_free block n _ _
    ∙ load-with_packet (get_ready_stack_ptr block n) i
        (λ pkt. record pkt { next = load (get_free_stack_ptr block n) b }) b

load_free-pushed_ready :
    (block n i : ℕ) (b : Buffer)
    → load (get_free_stack_ptr block n) (pushed (get_ready_stack_ptr block n) i b)
      ≡ load (get_free_stack_ptr block n) b
unfolding pushed store_next
load_free-pushed_ready block n i b =
    load_free-store_ready block n _ _
    ∙ load-with_packet (get_free_stack_ptr block n) i
        (λ pkt. record pkt { next = load (get_ready_stack_ptr block n) b }) b

Holds-pushed_other :
    (w : World) (b : Buffer) (x : ℕ) (xs : List ℕ) (c : Buffer)
    → All (λ y. x ≢ y) xs
    → Holds c (free_of w b) xs
    → Holds (pushed (ready_of w b) x c) (free_of w b) xs
Holds-pushed_other w b x xs c out h =
    Chain-cong xs (packets-pushed (ready_of w b) x c)
      (load_free-pushed_ready w.block_idx (read_shard_info b).0 x c)
      (Chain-update c.packets x (record (c.packets x) { next = load (ready_of w b) c })
        (load (free_of w b) c) xs out h)

module _ (w : World) (service max_spin : ℕ) (fill : (ℕ → ℕ) → ℕ → ℕ) (b : Buffer) (x : ℕ)
    (xs : List ℕ) (w_pop : w.pop ≡ quiet) (w_submit : w.submit ≡ quiet)
    (w_release : w.release ≡ quiet) (w_host : w.host ≡ silent) (small : x < null_index)
    (out : All (λ y. x ≢ y) xs) (free : Holds b (free_of w b) (x ∷ xs)) where
  abbrev free_ptr : StackPtr
  free_ptr = free_of w b

  abbrev ready_ptr : StackPtr
  ready_ptr = ready_of w b

  abbrev filled : Buffer
  filled = with_packet x (fill_packet w.activemask service fill) (popped free_ptr b)

  abbrev submitted : Buffer
  submitted = ring_doorbell (pushed ready_ptr x filled)

  -- The buffer after the request.
  abbrev pub given_up : Buffer
  given_up = pushed free_ptr x submitted

  not_ready : has_bit (submitted.packets x).control control_ready ≡ false
  unfolding ring_doorbell fill_packet
  not_ready = rw (control-pushed ready_ptr x x filled) (ground arith)

  taken : hc_pop_free_from w.pop free_ptr b ≡ some (x, popped free_ptr b)
  taken =
      ap (λ (s : Schedule). hc_pop_free_from s free_ptr b) w_pop
      ∙ hc_pop_quiet free_ptr b (λ e. free.1 (sym free.0 ∙ e))
      ∙ ap (λ (i : ℕ). some (i, popped free_ptr b)) free.0

  waited :
      submit_and_wait w ready_ptr service fill max_spin x (popped free_ptr b)
      ≡ some (gave_up submitted)
  unfolding submit_and_wait
  waited =
      rw (w_submit, w_host, hc_push_with-quiet ready_ptr x filled)
        (ap some (spin-silent x (max_spin - 1) 0 submitted not_ready))

  finished : finish w free_ptr x (gave_up submitted) ≡ some (err timeout, given_up)
  unfolding finish
  finished = rw (w_release, hc_push_with-quiet free_ptr x submitted)

  request_returns :
      gpu_hostcall_request_with_timeout w service max_spin fill b ≡ some (err timeout, given_up)
  unfolding gpu_hostcall_request_with_timeout
  request_returns = rw (taken, ne→== x null_index (omega arith), waited) finished

  free_submitted : Holds submitted free_ptr xs
  free_submitted = Holds-ring_doorbell free_ptr (pushed ready_ptr x filled) xs (
      Holds-pushed_other w b x xs filled out (
        Holds-with_packet free_ptr x (fill_packet w.activemask service fill) (popped free_ptr b) xs
          out (Holds-popped free_ptr b x xs free)))

  free_given_up : Holds given_up free_ptr (x ∷ xs)
  free_given_up = Holds-pushed free_ptr x submitted xs small out free_submitted

  ready_top : tagged_index (load ready_ptr given_up) ≡ x
  ready_top =
      ap tagged_index (
        load_ready-pushed_free w.block_idx (read_shard_info b).0 x submitted
        ∙ load-ring_doorbell ready_ptr (pushed ready_ptr x filled))
      ∙ index-pushed ready_ptr x filled (omega arith)

  -- Let a request run with no other thread in its gaps and a host that does not answer in time, on a
  -- buffer whose free stack holds `x` on top of `xs`. It returns the timeout, and leaves `x` on top of
  -- both stacks: the free stack holds `x` and `xs` again, and the ready stack now holds `x` and then
  -- the free packets `xs`, in place of the requests that were waiting on it.
  pub timeout_corrupts_ready :
      (b' : Buffer) × (gpu_hostcall_request_with_timeout w service max_spin fill b
        ≡ some (err timeout, b'))
      × Holds b' free_ptr (x ∷ xs)
      × Holds b' ready_ptr (x ∷ xs)
  timeout_corrupts_ready =
      (given_up, request_returns, free_given_up, (ready_top, free_given_up.1, free_given_up.2))
