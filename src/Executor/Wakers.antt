-- ===== src/Executor/Wakers.antt =====
-- Wakers: what their data decodes to, and a wake that comes after the task has completed.
use async_gpu.Prelude.{ℕ, ◌+◌, ◌%◌, ◌^◌, ◌<◌, ◌≡◌, refl, ap, ap₂, ◌∙◌, [], ◌∷◌, Option, some, arith}
use async_gpu.Executor.{
  max_tasks, Result, ok, enqueue, GpuExecutor, quiet, with_queue, pack_waker_data,
  unpack_waker_data, wake_task_from_data, slot_running,
}
use async_gpu.Executor.Run.{ExecutorStats, PollFn, complete_task, set_state, poll_task, take_task}
use async_gpu.Executor.Fifo.{removed, put-Queued, enqueue-room, with_put}
use async_gpu.Executor.Drain.{
  Finishes, Pending, IsTask, still, one_more, take_task-cons, poll_task-ready, poll_task-Pending,
}

-- The address of a queue that is a multiple of 256 and an index below 256 are found again in the
-- waker's data.
pub unpack-pack_waker_data :
    (work_queue task_id : ℕ)
    → work_queue % 256 ≡ 0
    → task_id < max_tasks
    → unpack_waker_data (pack_waker_data work_queue task_id) ≡ (work_queue, task_id)
unfolding pack_waker_data unpack_waker_data
unpack-pack_waker_data work_queue task_id aligned small =
    ap₂ (λ (a b : ℕ). (a, b)) (omega arith) (omega arith)

wake_task_lem :
    (packed i : ℕ) (r : Result Unit) (e e' : GpuExecutor)
    → (unpack_waker_data packed).1 ≡ i
    → enqueue quiet i e ≡ some (r, e')
    → wake_task_from_data quiet packed e ≡ some e'
unfolding wake_task_from_data
wake_task_lem packed i r e e' d q = rw (d, q, wake_task_from_data) refl

-- A queue at a multiple of 256 whose only id is that of a task: a warp polls the task, and it
-- completes. A wake by the waker of that poll then succeeds, the next iteration takes the task again
-- and its function is polled again: one more task has completed than was spawned. (The futures are
-- ready whenever polled and touch neither the queue nor the counts nor the poll functions.)
pub late_wake_polls_again :
    (call : PollFn) (fns : ℕ → Option ℕ) (start i work_queue : ℕ) (n : ExecutorStats)
    (e : GpuExecutor)
    → Finishes call
    → Pending start (i ∷ []) fns e
    → IsTask fns i
    → work_queue % 256 ≡ 0
    → (e₁ e₂ e₃ : GpuExecutor) × (poll_task call i n (take_task (still 0) (still 0) e).1
        ≡ (one_more n, e₁))
      × (e₁.tasks_completed ≡ e₁.tasks_spawned)
      × (wake_task_from_data quiet (pack_waker_data work_queue i) e₁ ≡ some e₂)
      × ((take_task (still 0) (still 0) e₂).0 ≡ i)
      × (poll_task call i (one_more n) (take_task (still 0) (still 0) e₂).1
          ≡ (one_more (one_more n), e₃))
      × (e₃.tasks_spawned ≡ e.tasks_spawned)
      × (e₃.tasks_completed ≡ (e.tasks_spawned + 1) % 2 ^ 32)
unfolding complete_task set_state
late_wake_polls_again call fns start i work_queue n e finishes h t aligned =
    let (e₁, first, h₁, spawned₁, _) = poll_task-Pending call finishes fns start i [] n e h t in
    let took = take_task-cons i [] e h.queued in
    let e₂ = with_put i e₁ in
    let data_read = ap (λ (p : ℕ × ℕ). p.1) (unpack-pack_waker_data work_queue i aligned t.0) in
    let room = enqueue-room {e = e₁} [] h₁.queued i (omega arith) in
    let q₂ = put-Queued [] i h₁.queued (h.queued.real.0) (omega arith) in
    let took₂ = take_task-cons i [] e₂ q₂ in
    let e₃ = with_queue removed e₂ in
    let running = set_state i slot_running e₃ in
    let f = t.1 in
    let polled =
      poll_task-ready call f i (one_more n) e₃ (h₁.fns_kept i ∙ t.2) (finishes.ready f i running) in
    let s₃ = finishes.spawned f i running in
    let c₃ = finishes.completed f i running in
    (
      e₁,
      e₂,
      complete_task i (call f i running).1,
      rw took first,
      omega (arith, h₁.open_tasks),
      wake_task_lem (pack_waker_data work_queue i) i (ok tt) e₁ e₂ data_read room,
      ap (λ (p : ℕ × GpuExecutor). p.0) took₂,
      rw took₂ polled,
      s₃ ∙ spawned₁,
      ap (λ c. (c + 1) % 2 ^ 32) (c₃ ∙ omega (arith, h₁.open_tasks, spawned₁)),
    )
