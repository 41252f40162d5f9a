-- ===== src/Executor/Steps.antt =====
-- The loop of `run` takes no slot from the stack of free slots and gives none back, also when tasks
-- complete.
use async_gpu.Prelude.{
  ℕ, zero, suc, ◌+◌, ◌%◌, refl, inl, inr, ◌==◌, ◌||◌, leb, if◌then◌else◌, Bool, true, false,
  Bool-cases, List, [], ◌∷◌, Option, none, some, range_from, arith,
}
use async_gpu.Executor.{
  max_tasks, empty_sentinel, slot_free, slot_running, slot_parked, GpuExecutor, with_slot,
  with_queue, store_buffer, tagged_index, next_tagged,
}
use async_gpu.Executor.Run.{
  ExecutorStats, take_task, requeue, requeue_parked, idle, complete_task, set_state, PollFn, settle,
  poll_slot, poll_task, run_loop, run, max_iterations,
}
use async_gpu.Executor.Slots.{Keeps, Keeps-refl, Keeps-trans, enqueue-quiet}

if-Keeps :
    {A : Type 0} {e : GpuExecutor} (b : Bool) (x y : A × GpuExecutor)
    → Keeps e x.1
    → Keeps e y.1
    → Keeps e (if b then x else y).1
if-Keeps true x y h k = h
if-Keeps false x y h k = k

set_state-Keeps : (i state : ℕ) (e : GpuExecutor) → Keeps e (set_state i state e)
unfolding set_state
set_state-Keeps i state e = record { top = refl; links = λ j. ground arith }

complete_task-Keeps : (i : ℕ) (e : GpuExecutor) → Keeps e (complete_task i e)
unfolding complete_task
complete_task-Keeps i e = record { top = refl; links = λ j. ground arith }

requeue-Keeps : (i : ℕ) (e : GpuExecutor) → Keeps e (requeue i e)
unfolding requeue
requeue-Keeps i e =
    let e' = with_slot i (λ s. record s { state = 1 }) e in
    let (r, e'', q, kept) = enqueue-quiet i e' in
    let marked : Keeps e e' = record { top = refl; links = λ j. ground arith } in
    rw (q, requeue) (Keeps-trans marked kept)

requeue_parked-Keeps :
    (l : List ℕ) (found : Bool) (e : GpuExecutor) → Keeps e (requeue_parked l (found, e)).1
unfolding requeue_parked
requeue_parked-Keeps [] found e = Keeps-refl e
requeue_parked-Keeps (i ∷ l) found e = elim (Bool-cases ((e.slots i).state == slot_parked)) [
  | inl parked ↦
      rw (parked, requeue_parked)
        (Keeps-trans (requeue-Keeps i e) (requeue_parked-Keeps l true (requeue i e)))
  | inr other ↦ rw (other, requeue_parked) (requeue_parked-Keeps l found e)
]

idle-Keeps : (spins : ℕ) (e : GpuExecutor) → Keeps e (idle spins e).1
unfolding idle
idle-Keeps spins e = elim (Bool-cases (e.tasks_spawned == e.tasks_completed)) [
  | inl done ↦ rw (done, idle) (Keeps-refl e)
  | inr more ↦ rw (more, idle) (requeue_parked-Keeps (range_from 0 max_tasks) false e)
]

settle-Keeps :
    {e : GpuExecutor} (i : ℕ) (n : ExecutorStats) (r : Bool × GpuExecutor)
    → Keeps e r.1
    → Keeps e (settle i n r).1
settle-Keeps i n (true, e') k = Keeps-trans k (complete_task-Keeps i e')
settle-Keeps i n (false, e') k = Keeps-trans k (set_state-Keeps i slot_parked e')

module _ (call : PollFn) (before_swap before_store : ℕ → GpuExecutor → GpuExecutor) where
  -- Neither the polled futures nor the other warps spawn.
  pub record SpawnFree : Type 0 where
    pub by_call : (f i : ℕ) (e : GpuExecutor) → Keeps e (call f i e).1
    pub by_swap : (n : ℕ) (e : GpuExecutor) → Keeps e (before_swap n e)
    pub by_store : (n : ℕ) (e : GpuExecutor) → Keeps e (before_store n e)

  poll_slot-Keeps :
      (i : ℕ) (n : ExecutorStats) (p : Option ℕ) (e : GpuExecutor)
      → SpawnFree
      → Keeps e (poll_slot call i n p e).1
  poll_slot-Keeps i n none e h = set_state-Keeps i slot_free e
  poll_slot-Keeps i n (some f) e h = settle-Keeps i n (call f i e) (h.by_call f i e)

  poll_task-Keeps :
      (i : ℕ) (n : ExecutorStats) (e : GpuExecutor) → SpawnFree → Keeps e (poll_task call i n e).1
  unfolding poll_task
  poll_task-Keeps i n e h =
      Keeps-trans (set_state-Keeps i slot_running e)
        (poll_slot-Keeps i n (e.slots i).poll_fn (set_state i slot_running e) h)

  take_task-Keeps :
      (left : ℕ) (e : GpuExecutor)
      → SpawnFree
      → Keeps e (take_task (before_swap left) (before_store left) e).1
  unfolding take_task store_buffer
  take_task-Keeps left e h =
      let e' = before_swap left e in
      let head : ℕ = e.work_queue.head in
      let won = with_queue (λ q. record q { head = next_tagged head }) e' in
      let swapped : Keeps e' won = record { top = refl; links = λ j. refl } in
      let after = before_store left won in
      let slot : ℕ = tagged_index head % max_tasks in
      let task_id : ℕ = e.work_queue.buffer slot in
      let stored : Keeps after (store_buffer slot empty_sentinel after) = record {
        top = refl;
        links = λ j. refl;
      } in
      let s = h.by_swap left e in
      let all = Keeps-trans s (Keeps-trans swapped (Keeps-trans (h.by_store left won) stored)) in
      if-Keeps
        ((tagged_index head == tagged_index e.work_queue.tail) || (task_id == empty_sentinel))
        (empty_sentinel, e')
        (if e'.work_queue.head == head
          then (task_id, store_buffer slot empty_sentinel after)
          else (empty_sentinel, e'))
        s
        (if-Keeps (e'.work_queue.head == head) (task_id, store_buffer slot empty_sentinel after)
          (empty_sentinel, e') all s)

  run_loop-Keeps :
      (left spins : ℕ) (n : ExecutorStats) (e : GpuExecutor)
      → SpawnFree
      → Keeps e (run_loop call before_swap before_store left spins n e).1
  unfolding run_loop
  run_loop-Keeps zero spins n e h = Keeps-refl e
  run_loop-Keeps (suc left) spins n e h =
      let (task_id, e') = take_task (before_swap left) (before_store left) e in
      let t = take_task-Keeps left e h in
      let w = Keeps-trans t (idle-Keeps spins e') in
      let p = Keeps-trans t (poll_task-Keeps task_id n e' h) in
      let (done, waiting) = idle spins e' in
      let (n', polled) = poll_task call task_id n e' in
      let again = run_loop call before_swap before_store left (spins + 1) n waiting in
      let next = run_loop call before_swap before_store left 0 n' polled in
      if-Keeps (task_id == empty_sentinel) (if done then (n, waiting) else again)
        (if leb max_tasks task_id then (n, e') else next)
        (if-Keeps done (n, waiting) again w
          (Keeps-trans w (run_loop-Keeps left (spins + 1) n waiting h)))
        (if-Keeps (leb max_tasks task_id) (n, e') next t
          (Keeps-trans p (run_loop-Keeps left 0 n' polled h)))

  pub run-Keeps : (e : GpuExecutor) → SpawnFree → Keeps e (run call before_swap before_store e).1
  unfolding run
  run-Keeps e h =
      run_loop-Keeps max_iterations 0 (record { tasks_executed = 0; polls_total = 0 }) e h
