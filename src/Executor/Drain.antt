-- ===== src/Executor/Drain.antt =====
-- A single warp in `run`, with no other warp around and futures that finish at their first poll.
use async_gpu.Prelude.{
  ℕ, zero, suc, ◌+◌, ◌%◌, ◌^◌, ◌<◌, ◌≡◌, ◌≢◌, refl, sym, ap, ◌∙◌, subst, leb, eq→==, ne→==, Bool,
  true, false, List, [], ◌∷◌, length, All, Option, none, some, update, arith,
}
use async_gpu.Executor.{
  max_tasks, empty_sentinel, slot_running, GpuExecutor, with_queue, store_buffer,
}
use async_gpu.Executor.Run.{
  ExecutorStats, take_task, idle, complete_task, set_state, PollFn, settle, poll_slot, poll_task,
  run_loop,
}
use async_gpu.Executor.Fifo.{Queued, removed, removed-Queued}

abbrev pub still : ℕ → GpuExecutor → GpuExecutor
still n e = e

pub take_task-cons :
    {start : ℕ} (i : ℕ) (rest : List ℕ) (e : GpuExecutor)
    → Queued start (i ∷ rest) e.work_queue
    → take_task (still 0) (still 0) e ≡ (i, with_queue removed e)
unfolding take_task store_buffer
take_task-cons i rest e h =
    let first : e.work_queue.buffer (e.work_queue.head % 2 ^ 32 % 256) ≡ i =
      ap e.work_queue.buffer (omega (arith, h.head)) ∙ h.cells 0 (omega arith) in
    let apart : e.work_queue.head % 2 ^ 32 ≢ e.work_queue.tail % 2 ^ 32 =
      λ p. absurd (omega (arith, h.head, h.tail, h.fits)) in
    let real = h.real.0 in rw (ne→== _ _ apart, first, ne→== _ _ real) (ground arith)

pub take_task_empty :
    {start : ℕ} (e : GpuExecutor)
    → Queued start [] e.work_queue
    → take_task (still 0) (still 0) e ≡ (empty_sentinel, e)
unfolding take_task
take_task_empty e h =
    let same : e.work_queue.head % 2 ^ 32 ≡ e.work_queue.tail % 2 ^ 32 =
      omega (arith, h.head, h.tail) in
    rw (eq→== _ _ same)

-- A future is ready at its first poll, and the poll leaves the queue, the counts and the poll
-- functions alone.
pub record Finishes (call : PollFn) : Type 0 where
  pub ready : (f i : ℕ) (e : GpuExecutor) → (call f i e).0 ≡ true
  pub queue : (f i : ℕ) (e : GpuExecutor) → (call f i e).1.work_queue ≡ e.work_queue
  pub spawned : (f i : ℕ) (e : GpuExecutor) → (call f i e).1.tasks_spawned ≡ e.tasks_spawned
  pub completed : (f i : ℕ) (e : GpuExecutor) → (call f i e).1.tasks_completed ≡ e.tasks_completed
  pub fns :
      (f i : ℕ) (e : GpuExecutor) (j : ℕ) → ((call f i e).1.slots j).poll_fn ≡ (e.slots j).poll_fn

-- The memory between two iterations: these tasks are queued, and all others have completed.
pub record Pending (start : ℕ) (ids : List ℕ) (fns : ℕ → Option ℕ) (e : GpuExecutor) : Type 0 where
  pub queued : Queued start ids e.work_queue
  pub fns_kept : (j : ℕ) → (e.slots j).poll_fn ≡ fns j
  pub open_tasks : e.tasks_spawned ≡ e.tasks_completed + length ids
  pub counted : e.tasks_spawned < 2 ^ 32

-- A task that is in the arena and has a poll function.
abbrev pub IsTask : (ℕ → Option ℕ) → ℕ → Type 0
IsTask fns i = (i < max_tasks) × (f : ℕ) × (fns i ≡ some f)

abbrev pub one_more : ExecutorStats → ExecutorStats
one_more n = record { tasks_executed = n.tasks_executed + 1; polls_total = n.polls_total + 1 }

settle_ready :
    (i : ℕ) (n : ExecutorStats) (r : Bool × GpuExecutor)
    → r.0 ≡ true
    → settle i n r ≡ (one_more n, complete_task i r.1)
settle_ready i n (true, e) h = refl
settle_ready i n (false, e) h = cc

pub poll_task-ready :
    (call : PollFn) (f i : ℕ) (n : ExecutorStats) (e : GpuExecutor)
    → (e.slots i).poll_fn ≡ some f
    → (call f i (set_state i slot_running e)).0 ≡ true
    → poll_task call i n e ≡ (one_more n, complete_task i (call f i (set_state i slot_running e)).1)
unfolding poll_task
poll_task-ready call f i n e held ready =
    let e₁ = set_state i slot_running e in
    ap (λ p. poll_slot call i n p e₁) held ∙ settle_ready i n (call f i e₁) ready

pub complete_fn :
    (i j : ℕ) (e : GpuExecutor) → ((complete_task i e).slots j).poll_fn ≡ (e.slots j).poll_fn
unfolding complete_task
complete_fn i j e = ground arith

pub running_fn :
    (i j : ℕ) (e : GpuExecutor)
    → ((set_state i slot_running (with_queue removed e)).slots j).poll_fn ≡ (e.slots j).poll_fn
unfolding set_state
running_fn i j e = ground arith

-- The statistics after `k` more polls that each complete a task.
abbrev pub polled : ℕ → ExecutorStats → ExecutorStats
polled k n = record { tasks_executed = n.tasks_executed + k; polls_total = n.polls_total + k }

stats_zero : (n : ExecutorStats) → n ≡ polled 0 n
stats_zero n = ground arith

stats_suc : (n : ExecutorStats) (k : ℕ) → polled k (one_more n) ≡ polled (suc k) n
stats_suc n k = ground arith

-- What it is to poll task `i` once, with its poll function, and to complete it: it is taken off the
-- queue, runs, its function acts on the memory, its slot is freed and its completion counted.
abbrev pub polled_once : PollFn → Option ℕ → ℕ → GpuExecutor → GpuExecutor
polled_once call none i e = e
polled_once call (some f) i e =
    let taken = with_queue removed e in
    let started = record taken {
      slots = update taken.slots i (record (taken.slots i) { state = 2 });
    } in
    let acted = (call f i started).1 in
    record acted {
      slots = update acted.slots i (record (acted.slots i) { state = 0 });
      tasks_completed = (acted.tasks_completed + 1) % 2 ^ 32;
    }

-- The tasks one after the other, each with its function.
abbrev pub polled_in_turn : PollFn → (ℕ → Option ℕ) → List ℕ → GpuExecutor → GpuExecutor
polled_in_turn call fns [] e = e
polled_in_turn call fns (i ∷ rest) e = polled_in_turn call fns rest (polled_once call (fns i) i e)

idle_done :
    (spins : ℕ) (e : GpuExecutor) → e.tasks_spawned ≡ e.tasks_completed → idle spins e ≡ (true, e)
unfolding idle
idle_done spins e h = rw (eq→== _ _ h)

module _ (call : PollFn) (finishes : Finishes call) (fns : ℕ → Option ℕ) where
  pub poll_task-Pending :
      (start i : ℕ) (rest : List ℕ) (n : ExecutorStats) (e : GpuExecutor)
      → Pending start (i ∷ rest) fns e
      → IsTask fns i
      → (e' : GpuExecutor) × (poll_task call i n (with_queue removed e) ≡ (one_more n, e'))
        × Pending (suc start) rest fns e'
        × (e'.tasks_spawned ≡ e.tasks_spawned)
        × (e' ≡ polled_once call (fns i) i e)
  unfolding complete_task set_state
  poll_task-Pending start i rest n e h t =
      let e₁ = set_state i slot_running (with_queue removed e) in
      let f = t.1 in
      let e₂ = (call f i e₁).1 in
      let held : (e.slots i).poll_fn ≡ some f = h.fns_kept i ∙ t.2 in
      let spawned : e₂.tasks_spawned ≡ e.tasks_spawned = finishes.spawned f i e₁ in
      let completed : e₂.tasks_completed ≡ e.tasks_completed = finishes.completed f i e₁ in
      (
        complete_task i e₂,
        poll_task-ready call f i n (with_queue removed e) held (finishes.ready f i e₁),
        record {
          queued =
              subst (Queued (suc start) rest) (sym (finishes.queue f i e₁))
                (removed-Queued i rest h.queued);
          fns_kept =
              λ j. complete_fn i j e₂ ∙ finishes.fns f i e₁ j ∙ running_fn i j e ∙ h.fns_kept j;
          open_tasks = omega (arith, spawned, completed, h.open_tasks, h.counted);
          counted = omega (arith, spawned, h.counted);
        },
        spawned,
        sym (ap (λ o. polled_once call o i e) t.2),
      )

  -- With an iteration left for each queued task and one more, the loop polls them all and ends.
  pub run_loop-Pending :
      (start : ℕ) (ids : List ℕ) (left spins : ℕ) (n : ExecutorStats) (e : GpuExecutor)
      → Pending start ids fns e
      → All (IsTask fns) ids
      → length ids < left
      → (e' : GpuExecutor) × (run_loop call still still left spins n e
          ≡ (polled (length ids) n, e'))
        × (e'.tasks_spawned ≡ e.tasks_spawned)
        × (e'.tasks_completed ≡ e.tasks_spawned)
        × (e' ≡ polled_in_turn call fns ids e)
  unfolding run_loop
  run_loop-Pending start ids zero spins n e h t lt = absurd (omega arith)
  run_loop-Pending start [] (suc left) spins n e h t lt =
      let empty = take_task_empty e h.queued in
      let same : e.tasks_completed ≡ e.tasks_spawned = omega (arith, h.open_tasks) in
      (
        e,
        rw (empty, idle_done spins e (sym same)) (ap (λ m. (m, e)) (stats_zero n)),
        refl,
        same,
        refl,
      )
  run_loop-Pending start (i ∷ rest) (suc left) spins n e h t lt =
      let (e₁, once, h₁, spawned, is_once) = poll_task-Pending start i rest n e h t.0 in
      let (e₂, ran, s₂, c₂, in_turn) =
        run_loop-Pending (suc start) rest left 0 (one_more n) e₁ h₁ t.1 (omega arith) in
      let taken = take_task-cons i rest e h.queued in
      let in_arena : leb max_tasks i ≡ false = ground (arith, t.0.0) in
      (
        e₂,
        rw (taken, ne→== i empty_sentinel h.queued.real.0, in_arena, once, ran)
            (ap (λ m. (m, e₂)) (stats_suc n (length rest))),
        s₂ ∙ spawned,
        c₂ ∙ spawned,
        in_turn ∙ ap (polled_in_turn call fns rest) is_once,
      )
