-- ===== src/Executor/Run.antt =====
-- crates/core/gpu-runtime/src/executor.rs: init, spawn and the loop of a warp in `run`. Only lane 0
-- touches the memory, and its values are broadcast, so the model runs lane 0. A parameter says what a
-- poll function does to the memory and whether it is ready: its waker is determined by the task.
use async_gpu.Prelude.{
  ℕ, zero, suc, ◌+◌, ◌%◌, ◌==◌, ltb, leb, if◌then◌else◌, Bool, true, false, ◌||◌, List, ◌∷◌, [],
  Option, none, some, length, range_from, write_from, wrapping_add,
}
use async_gpu.Executor.{
  max_tasks, task_future_max_size, empty_sentinel, slot_free, slot_queued, slot_running,
  slot_parked, no_free_slots, future_too_large, Result, ok, err, tagged_value, next_tagged,
  tagged_index, GpuExecutor, Schedule, quiet, with_queue, with_slot, store_buffer, enqueue,
  free_tagged, free_null, next_free, pop_slot,
}

-- The state that `GpuExecutor::new` makes.
unfoldable pub fresh : GpuExecutor
fresh = record {
  work_queue = record {
    head = tagged_value 0 0;
    tail = tagged_value 0 0;
    buffer = λ _. empty_sentinel;
  };
  free_slots = free_tagged 0 free_null;
  tasks_active = 0;
  shutdown = 0;
  tasks_spawned = 0;
  tasks_completed = 0;
  slots = λ _. record { state = slot_free; poll_fn = none; future_size = 0; future_bytes = λ _. 0 };
}

-- A round of the loop of `FreeSlotStack::init`.
abbrev pub link_slot : ℕ → ℕ → GpuExecutor → GpuExecutor
link_slot count i =
    with_slot i (λ s. record s { future_size = next_free count i; state = slot_free })

unfoldable pub link_slots : ℕ → List ℕ → GpuExecutor → GpuExecutor
link_slots count [] e = e
link_slots count (i ∷ rest) e = link_slots count rest (link_slot count i e)

unfoldable pub init_slots : ℕ → GpuExecutor → GpuExecutor
init_slots count e = record (link_slots count (range_from 0 count) e) {
  free_slots = free_tagged 0 0;
}

unfoldable pub init : GpuExecutor → GpuExecutor
init e = record (init_slots max_tasks e) {
  tasks_active = 0;
  shutdown = 0;
  tasks_spawned = 0;
  tasks_completed = 0;
}

-- The future is copied into the slot, which is then marked as queued.
unfoldable pub store_future : ℕ → ℕ → List ℕ → GpuExecutor → GpuExecutor
store_future i poll_fn future = with_slot i (λ s. record {
  state = slot_queued;
  poll_fn = some poll_fn;
  future_size = length future;
  future_bytes = write_from s.future_bytes 0 future;
})

-- The end of `spawn`: the `?` returns an error of the queue, else the spawn is counted.
abbrev pub count_spawn : ℕ → Result Unit × GpuExecutor → Result ℕ × GpuExecutor
count_spawn i (err x, e) = (err x, e)
count_spawn i (ok u, e) = (ok i, record e { tasks_spawned = wrapping_add e.tasks_spawned 1 })

abbrev pub stored_spawn :
    Schedule → ℕ → List ℕ → Option (ℕ × GpuExecutor) → Option (Result ℕ × GpuExecutor)
stored_spawn s poll_fn future none = none
stored_spawn s poll_fn future (some (i, e)) =
    let queued : Option (Result ℕ × GpuExecutor) =
      elim (enqueue s i (store_future i poll_fn future e)) [
        | none ↦ none
        | some r ↦ some (count_spawn i r)
      ] in
    if i == free_null then some (err no_free_slots, e) else queued

-- `spawn` of a future with these bytes and this poll function.
unfoldable pub spawn :
    List (GpuExecutor → GpuExecutor)
    → Schedule
    → ℕ
    → List ℕ
    → GpuExecutor
    → Option (Result ℕ × GpuExecutor)
spawn pops s poll_fn future e =
    if ltb task_future_max_size (length future)
    then some (err future_too_large, e)
    else stored_spawn s poll_fn future (pop_slot pops e)

pub record ExecutorStats : Type 0 where
  pub tasks_executed : ℕ
  pub polls_total : ℕ

-- The single attempt of an iteration to dequeue.
unfoldable pub take_task :
    (GpuExecutor → GpuExecutor) → (GpuExecutor → GpuExecutor) → GpuExecutor → ℕ × GpuExecutor
unfolding store_buffer
take_task before_swap before_store e =
    let old_head : ℕ = e.work_queue.head in
    let head_idx : ℕ = tagged_index old_head in
    let slot : ℕ = head_idx % max_tasks in
    let tid : ℕ = e.work_queue.buffer slot in
    let new_head : ℕ = next_tagged old_head in
    let e' = before_swap e in
    let won = with_queue (λ q. record q { head = new_head }) e' in
    if (head_idx == tagged_index e.work_queue.tail) || (tid == empty_sentinel)
    then (empty_sentinel, e')
    else if e'.work_queue.head == old_head
    then (tid, store_buffer slot empty_sentinel (before_store won))
    else (empty_sentinel, e')

-- A parked task is queued again; an error of the queue is dropped.
unfoldable pub requeue : ℕ → GpuExecutor → GpuExecutor
requeue i e =
    let e' = with_slot i (λ s. record s { state = slot_queued }) e in
    elim (enqueue quiet i e') [ none ↦ e' | some (_, e'') ↦ e'' ]

-- The scan for parked tasks, with nothing between its steps: whether one was queued.
unfoldable pub requeue_parked : List ℕ → Bool × GpuExecutor → Bool × GpuExecutor
requeue_parked [] r = r
requeue_parked (i ∷ rest) (found, e) =
    requeue_parked rest
      (if (e.slots i).state == slot_parked then (true, requeue i e) else (found, e))

abbrev pub max_empty_spins : ℕ
max_empty_spins = 64

abbrev pub max_iterations : ℕ
max_iterations = 1088

-- An iteration without a task: whether the loop ends.
unfoldable pub idle : ℕ → GpuExecutor → Bool × GpuExecutor
idle empty_spins e =
    let (found, e') = requeue_parked (range_from 0 max_tasks) (false, e) in
    if e.tasks_spawned == e.tasks_completed
    then (true, e)
    else (if found then false else leb max_empty_spins empty_spins, e')

unfoldable pub complete_task : ℕ → GpuExecutor → GpuExecutor
complete_task i e = record (with_slot i (λ s. record s { state = slot_free }) e) {
  tasks_completed = wrapping_add e.tasks_completed 1;
}

unfoldable pub set_state : ℕ → ℕ → GpuExecutor → GpuExecutor
set_state i state = with_slot i (λ s. record s { state = state })

abbrev pub PollFn : Type 0
PollFn = ℕ → ℕ → GpuExecutor → Bool × GpuExecutor

-- The state after the poll of task `i`, by its result, with what the iteration counts.
abbrev pub settle : ℕ → ExecutorStats → Bool × GpuExecutor → ExecutorStats × GpuExecutor
settle i n (true, e) = (
  record { tasks_executed = n.tasks_executed + 1; polls_total = n.polls_total + 1 },
  complete_task i e,
)
settle i n (false, e) = (record n { polls_total = n.polls_total + 1 }, set_state i slot_parked e)

-- A slot without a poll function is freed, and the loop goes on.
abbrev pub poll_slot :
    PollFn → ℕ → ExecutorStats → Option ℕ → GpuExecutor → ExecutorStats × GpuExecutor
poll_slot call i n none e = (n, set_state i slot_free e)
poll_slot call i n (some f) e = settle i n (call f i e)

unfoldable pub poll_task : PollFn → ℕ → ExecutorStats → GpuExecutor → ExecutorStats × GpuExecutor
unfolding set_state complete_task
poll_task call i n e = poll_slot call i n (e.slots i).poll_fn (set_state i slot_running e)

-- `run`: what other warps do in an iteration is given by the number of the iterations left.
module _ (call : PollFn) (before_swap before_store : ℕ → GpuExecutor → GpuExecutor) where
  unfoldable pub run_loop : ℕ → ℕ → ExecutorStats → GpuExecutor → ExecutorStats × GpuExecutor
  run_loop zero spins n e = (n, e)
  run_loop (suc left) spins n e =
      let (task_id, e') = take_task (before_swap left) (before_store left) e in
      let (done, waiting) = idle spins e' in
      let (n', polled) = poll_task call task_id n e' in
      let again = run_loop left (spins + 1) n waiting in
      let next = run_loop left 0 n' polled in
      if task_id == empty_sentinel
      then if done then (n, waiting) else again
      else if leb max_tasks task_id
      then (n, e')
      else next

  unfoldable pub run : GpuExecutor → ExecutorStats × GpuExecutor
  run = run_loop max_iterations 0 (record { tasks_executed = 0; polls_total = 0 })
