-- ===== src/Executor/Parked.antt =====
-- Parked tasks that the scan of `run` brings back.
use async_gpu.Prelude.{
  ℕ, zero, suc, ◌+◌, ◌^◌, ◌<◌, ◌≤◌, ◌≡◌, refl, ap, ◌∙◌, ltb, leb, lt→ltb, le→ltb, ne→==, dec_lt,
  ◌≢◌, ◌++◌, Bool, true, false, if◌then◌else◌, List, [], ◌∷◌, length, All, length-range_from,
  range_from, arith,
}
use async_gpu.Executor.{max_tasks, TaskSlot, GpuExecutor}
use async_gpu.Executor.Run.{PollFn, ExecutorStats, run_loop, idle, max_empty_spins}
use async_gpu.Executor.Fifo.{Queued}
use async_gpu.Executor.Drain.{
  Finishes, Pending, IsTask, polled, polled_in_turn, still, take_task_empty, run_loop-Pending,
}
use async_gpu.Executor.Rescan.{parked, rescanned, some_left, ScannedTo, requeue_parked-ScannedTo}

-- The parked tasks of the executor.
abbrev pub parked_tasks : GpuExecutor → List ℕ
parked_tasks e = parked e.slots (range_from 0 max_tasks)

module _ (start : ℕ) (e : GpuExecutor) where
  -- What the scan leaves: the parked tasks behind the queued ones.
  pub record Rescanned (ids : List ℕ) (e' : GpuExecutor) : Type 0 where
    pub queued : Queued start (ids ++ parked_tasks e) e'.work_queue
    pub slots :
        (j : ℕ) → e'.slots j ≡ (if ltb j max_tasks then rescanned (e.slots j) else e.slots j)
    pub spawned : e'.tasks_spawned ≡ e.tasks_spawned
    pub completed : e'.tasks_completed ≡ e.tasks_completed

  -- Where not all spawned tasks have completed and the queue has room for the parked ones: the scan
  -- of an idle warp puts each parked task behind the queued ones, once and in order, marks it as
  -- queued and leaves the other slots alone; the loop goes on if there was one, and else ends from
  -- the 65th idle iteration in a row on.
  pub idle-Rescanned :
      (spins : ℕ) (ids : List ℕ)
      → Queued start ids e.work_queue
      → e.tasks_spawned ≢ e.tasks_completed
      → length ids + length (parked_tasks e) ≤ max_tasks
      → (e' : GpuExecutor) × (idle spins e
          ≡ ((if some_left (parked_tasks e) then false else leb max_empty_spins spins), e'))
        × Rescanned ids e'
  unfolding idle
  idle-Rescanned spins ids h unfinished room =
      let begin : ScannedTo start e.slots e.tasks_spawned e.tasks_completed 0 ids e = record {
        queued = h;
        behind = λ j lt. absurd (omega arith);
        ahead = λ j le. refl;
        spawned_kept = refl;
        completed_kept = refl;
      } in
      let (e', scanned, done) =
        requeue_parked-ScannedTo start e.slots e.tasks_spawned e.tasks_completed 0 max_tasks ids
          false e (omega arith) room begin in
      (
        e',
        rw (scanned, ne→== _ _ unfinished) refl,
        record {
          queued = done.queued;
          slots = λ j. elim (dec_lt j max_tasks) [
            | yes lt ↦ rw (lt→ltb j max_tasks lt) (done.behind j lt)
            | no ge ↦ rw (le→ltb j max_tasks (omega arith)) (done.ahead j (omega arith))
          ];
          spawned = done.spawned_kept;
          completed = done.completed_kept;
        },
      )

length-parked : (slots : ℕ → TaskSlot) (is : List ℕ) → length (parked slots is) ≤ length is
length-parked slots [] = omega arith
length-parked slots (i ∷ is) = ground (arith, length-parked slots is)

rescanned_fn : (b : Bool) (s : TaskSlot) → (if b then rescanned s else s).poll_fn ≡ s.poll_fn
rescanned_fn b s = ground arith

some_left_pos : (is : List ℕ) → 0 < length is → some_left is ≡ true
some_left_pos [] h = absurd (omega arith)
some_left_pos (i ∷ is) h = refl

-- Where the queue is empty, all open tasks are parked, there is at least one, and from now on each
-- future is ready when it is polled, touches neither the queue nor the counts nor the poll functions,
-- and no other warp acts: a warp in the loop of `run`, with two iterations more left than there are
-- parked tasks, completes them all and leaves the loop. It leaves the memory as the scan for parked
-- tasks and then their own poll functions leave it, called once for each of them in order.
pub parked_tasks_complete :
    (call : PollFn) (start left spins : ℕ) (n : ExecutorStats) (e : GpuExecutor)
    → Finishes call
    → Queued start [] e.work_queue
    → 0 < length (parked_tasks e)
    → All (IsTask (λ j. (e.slots j).poll_fn)) (parked_tasks e)
    → e.tasks_spawned ≡ e.tasks_completed + length (parked_tasks e)
    → e.tasks_spawned < 2 ^ 32
    → length (parked_tasks e) + 2 ≤ left
    → (e₁ e' : GpuExecutor) × Rescanned start e [] e₁
      × (run_loop call still still left spins n e ≡ (polled (length (parked_tasks e)) n, e'))
      × (e'.tasks_spawned ≡ e.tasks_spawned)
      × (e'.tasks_completed ≡ e.tasks_spawned)
      × (e' ≡ polled_in_turn call (λ j. (e.slots j).poll_fn) (parked_tasks e) e₁)
unfolding run_loop
parked_tasks_complete call start zero spins n e finishes h some_parked tasks open_tasks counted
      enough =
    absurd (omega arith)
parked_tasks_complete call start (suc left) spins n e finishes h some_parked tasks open_tasks
      counted enough =
    let small : length (parked_tasks e) ≤ max_tasks =
      omega
        (arith, length-parked e.slots (range_from 0 max_tasks), length-range_from 0 max_tasks) in
    let (e₁, scanned, r) =
      idle-Rescanned start e spins [] h (omega (arith, open_tasks)) (omega (arith, small)) in
    let pending : Pending start (parked_tasks e) (λ j. (e.slots j).poll_fn) e₁ = record {
      queued = r.queued;
      fns_kept = λ j.
          ap (λ (s : TaskSlot). s.poll_fn) (r.slots j) ∙ rescanned_fn (ltb j max_tasks) (e.slots j);
      open_tasks = omega (arith, r.spawned, r.completed, open_tasks);
      counted = omega (arith, r.spawned, counted);
    } in
    let (e₂, ran, spawned, completed, in_turn) =
      run_loop-Pending call finishes (λ j. (e.slots j).poll_fn) start (parked_tasks e) left
        (spins + 1) n e₁ pending tasks (omega arith) in
    let goes_on = some_left_pos (parked_tasks e) some_parked in
    (
      e₁,
      e₂,
      r,
      rw (take_task_empty e h, scanned, goes_on) ran,
      spawned ∙ r.spawned,
      completed ∙ r.spawned,
      in_turn,
    )
