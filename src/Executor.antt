-- ===== src/Executor.antt =====
-- crates/core/gpu-runtime/src/executor.rs: the memory of the executor, its work queue, its stack of
-- free slots and the waker's data. Other warps may act between the loads of a round and its
-- compare-and-swap, and between a won swap of the queue and the store that follows it: a schedule
-- says what they do there. `none` means that the loop still goes round when the schedule ends.
pub mod Run
pub mod Fifo
pub mod Calls
pub mod Slots
pub mod Steps
pub mod History
pub mod Drain
pub mod Complete
pub mod Wakers
pub mod Rescan
pub mod Parked
use async_gpu.Prelude.{
  ℕ, ◌+◌, ◌-◌, ◌*◌, ◌/◌, ◌%◌, ◌^◌, ◌==◌, leb, if◌then◌else◌, Bool, List, [], ◌∷◌, Option, none,
  some, update, u16, u32, wrapping_add, wrapping_sub,
}

abbrev pub max_tasks : ℕ
max_tasks = 256

abbrev pub task_future_max_size : ℕ
task_future_max_size = 512

abbrev pub empty_sentinel : ℕ
empty_sentinel = 0xFFFFFFFF

abbrev pub slot_free : ℕ
slot_free = 0

abbrev pub slot_queued : ℕ
slot_queued = 1

abbrev pub slot_running : ℕ
slot_running = 2

abbrev pub slot_parked : ℕ
slot_parked = 3

pub data ExecutorError : Type 0 where
  queue_full : ExecutorError
  no_free_slots : ExecutorError
  future_too_large : ExecutorError

pub data Result (A : Type 0) : Type 0 where
  ok : A → Result A
  err : ExecutorError → Result A

abbrev pub tagged_value : ℕ → ℕ → ℕ
tagged_value tag index = tag * 2 ^ 32 + index

abbrev pub tagged_tag : ℕ → ℕ
tagged_tag v = u32 (v / 2 ^ 32)

abbrev pub tagged_index : ℕ → ℕ
tagged_index v = u32 v

-- The word that a won swap of the queue leaves: both halves are one further, and wrap.
abbrev pub next_tagged : ℕ → ℕ
next_tagged old = tagged_value (wrapping_add (tagged_tag old) 1) (wrapping_add (tagged_index old) 1)

pub record WorkQueue : Type 0 where
  pub head : ℕ
  pub tail : ℕ
  pub buffer : ℕ → ℕ

-- `poll_fn` is the pointer of the function, and `future_bytes` the bytes of the future.
pub record TaskSlot : Type 0 where
  pub state : ℕ
  pub poll_fn : Option ℕ
  pub future_size : ℕ
  pub future_bytes : ℕ → ℕ

pub record GpuExecutor : Type 0 where
  pub work_queue : WorkQueue
  pub free_slots : ℕ
  pub tasks_active : ℕ
  pub shutdown : ℕ
  pub tasks_spawned : ℕ
  pub tasks_completed : ℕ
  pub slots : ℕ → TaskSlot

-- What the other warps do, round by round before the swap, and before the store after it.
pub record Schedule : Type 0 where
  pub rounds : List (GpuExecutor → GpuExecutor)
  pub before_store : GpuExecutor → GpuExecutor

abbrev pub quiet : Schedule
quiet = record { rounds = (λ e. e) ∷ []; before_store = λ e. e }

abbrev pub with_queue : (WorkQueue → WorkQueue) → GpuExecutor → GpuExecutor
with_queue f e = record e { work_queue = f e.work_queue }

abbrev pub with_slot : ℕ → (TaskSlot → TaskSlot) → GpuExecutor → GpuExecutor
with_slot i f e = record e { slots = update e.slots i (f (e.slots i)) }

unfoldable pub store_buffer : ℕ → ℕ → GpuExecutor → GpuExecutor
store_buffer slot id = with_queue (λ q. record q { buffer = update q.buffer slot id })

-- `WorkQueue::enqueue`: the rounds of the loop.
unfoldable pub enqueue_rounds :
    List (GpuExecutor → GpuExecutor)
    → (GpuExecutor → GpuExecutor)
    → ℕ
    → GpuExecutor
    → Option (Result Unit × GpuExecutor)
unfolding store_buffer
enqueue_rounds [] before_store task_id e = none
enqueue_rounds (others ∷ rest) before_store task_id e =
    let old_tail : ℕ = e.work_queue.tail in
    let tail_idx : ℕ = tagged_index old_tail in
    let head_idx : ℕ = tagged_index e.work_queue.head in
    let new_tail : ℕ = next_tagged old_tail in
    let e' = others e in
    let won = with_queue (λ q. record q { tail = new_tail }) e' in
    let again = enqueue_rounds rest before_store task_id e' in
    if leb max_tasks (wrapping_sub tail_idx head_idx)
    then some (err queue_full, e)
    else if e'.work_queue.tail == old_tail
    then some (ok tt, store_buffer (tail_idx % max_tasks) task_id (before_store won))
    else again

unfoldable pub enqueue : Schedule → ℕ → GpuExecutor → Option (Result Unit × GpuExecutor)
enqueue s = enqueue_rounds s.rounds s.before_store

-- `WorkQueue::dequeue`: the sentinel when the queue is empty.
unfoldable pub dequeue_rounds :
    List (GpuExecutor → GpuExecutor)
    → (GpuExecutor → GpuExecutor)
    → GpuExecutor
    → Option (ℕ × GpuExecutor)
unfolding store_buffer
dequeue_rounds [] before_store e = none
dequeue_rounds (others ∷ rest) before_store e =
    let old_head : ℕ = e.work_queue.head in
    let head_idx : ℕ = tagged_index old_head in
    let slot : ℕ = head_idx % max_tasks in
    let task_id : ℕ = e.work_queue.buffer slot in
    let new_head : ℕ = next_tagged old_head in
    let e' = others e in
    let won = with_queue (λ q. record q { head = new_head }) e' in
    let again = dequeue_rounds rest before_store e' in
    if head_idx == tagged_index e.work_queue.tail
    then some (empty_sentinel, e)
    else if task_id == empty_sentinel
    then again
    else if e'.work_queue.head == old_head
    then some (task_id, store_buffer slot empty_sentinel (before_store won))
    else again

unfoldable pub dequeue : Schedule → GpuExecutor → Option (ℕ × GpuExecutor)
dequeue s = dequeue_rounds s.rounds s.before_store

abbrev pub free_tagged : ℕ → ℕ → ℕ
free_tagged tag index = tag * 2 ^ 48 + index

abbrev pub free_tag : ℕ → ℕ
free_tag v = u16 (v / 2 ^ 48)

abbrev pub free_index : ℕ → ℕ
free_index v = u16 v

abbrev pub free_null : ℕ
free_null = 0xFFFF

-- The link that `FreeSlotStack::init` stores in slot `i` of `count`.
abbrev pub next_free : ℕ → ℕ → ℕ
next_free count i = if leb count (i + 1) then free_null else i + 1

-- `FreeSlotStack::pop`
unfoldable pub pop_slot : List (GpuExecutor → GpuExecutor) → GpuExecutor → Option (ℕ × GpuExecutor)
pop_slot [] e = none
pop_slot (others ∷ rest) e =
    let old_head : ℕ = e.free_slots in
    let idx : ℕ = free_index old_head in
    let next_idx : ℕ = u16 (e.slots idx).future_size in
    let new_head : ℕ = free_tagged (u16 (free_tag old_head + 1)) next_idx in
    let e' = others e in
    let again = pop_slot rest e' in
    if idx == free_null
    then some (free_null, e)
    else if e'.free_slots == old_head
    then some (idx, record e' { free_slots = new_head })
    else again

-- `FreeSlotStack::push`
unfoldable pub push_slot : List (GpuExecutor → GpuExecutor) → ℕ → GpuExecutor → Option GpuExecutor
push_slot [] slot_idx e = none
push_slot (others ∷ rest) slot_idx e =
    let old_head : ℕ = e.free_slots in
    let e' = others (with_slot slot_idx (λ s. record s { future_size = free_index old_head }) e) in
    let new_head : ℕ = free_tagged (u16 (free_tag old_head + 1)) slot_idx in
    let again = push_slot rest slot_idx e' in
    if e'.free_slots == old_head then some (record e' { free_slots = new_head }) else again

-- The masks `!0xFF` and `0xFF` on the 64 bits of a waker's data, as arithmetic.
unfoldable pub pack_waker_data : ℕ → ℕ → ℕ
pack_waker_data work_queue task_id = work_queue / 256 * 256 + task_id % 256

unfoldable pub unpack_waker_data : ℕ → ℕ × ℕ
unpack_waker_data packed = (packed / 256 * 256, packed % 256)

-- `wake_task_from_data`: the queue's answer is dropped. The queue is that of the memory, whose
-- address the data holds.
unfoldable pub wake_task_from_data : Schedule → ℕ → GpuExecutor → Option GpuExecutor
wake_task_from_data s packed e = elim (enqueue s (unpack_waker_data packed).1 e) [
  | none ↦ none
  | some (_, e') ↦ some e'
]
