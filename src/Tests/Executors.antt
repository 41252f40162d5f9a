-- ===== src/Tests/Executors.antt =====
-- An executor with futures that are ready at once.
use async_gpu.Prelude.{
  ℕ, ◌==◌, ◌||◌, if◌then◌else◌, ◌≤◌, ◌≡◌, refl, true, List, [], ◌∷◌, length, Option, some, arith,
}
use async_gpu.Executor.{
  slot_parked, slot_free, max_tasks, empty_sentinel, ok, GpuExecutor, quiet, wake_task_from_data,
  pack_waker_data,
}
use async_gpu.Executor.Run.{fresh, init, take_task, poll_task, PollFn, run, run_loop, ExecutorStats}
use async_gpu.Executor.Fifo.{put, put-Queued}
use async_gpu.Executor.Calls.{
  Call, Answer, enqueues, dequeues, enqueued, dequeued, answers, expected, fresh-Queued,
  queue_refines,
}
use async_gpu.Executor.Slots.{Keeps-refl}
use async_gpu.Executor.Steps.{SpawnFree}
use async_gpu.Executor.History.{Op, spawns, runs, history, Rising, slots_run_out}
use async_gpu.Executor.Drain.{Finishes, Pending, still, one_more, polled_once}
use async_gpu.Executor.Complete.{StoredFuture, spawn_all, run_completes}
use async_gpu.Executor.Parked.{Rescanned, parked_tasks_complete}
use async_gpu.Executor.Wakers.{late_wake_polls_again}

abbrev calls : List Call
calls = enqueues 5 ∷ dequeues ∷ dequeues ∷ enqueues 6 ∷ []

abbrev replies : List Answer
replies = enqueued (ok tt) ∷ dequeued 5 ∷ dequeued empty_sentinel ∷ enqueued (ok tt) ∷ []

queue_refines_example : answers calls fresh ≡ some replies
unfolding expected
queue_refines_example = queue_refines calls (omega arith, (tt, (tt, (omega arith, tt))))

abbrev at_once : PollFn
at_once f i e = (true, e)

abbrev at_once-Finishes : Finishes at_once
at_once-Finishes = record {
  ready = λ f i e. refl;
  queue = λ f i e. refl;
  spawned = λ f i e. refl;
  completed = λ f i e. refl;
  fns = λ f i e j. refl;
}

abbrev at_once-SpawnFree : SpawnFree at_once still still
at_once-SpawnFree = record {
  by_call = λ f i e. Keeps-refl e;
  by_swap = λ n e. Keeps-refl e;
  by_store = λ n e. Keeps-refl e;
}

abbrev ops : List Op
ops = spawns 7 (1 ∷ 2 ∷ []) ∷ runs ∷ spawns 8 [] ∷ []

slots_run_out_example :
    (ids : List ℕ) × (history at_once still still ops (init fresh) ≡ some ids)
    × Rising 0 ids
    × (length ids ≤ max_tasks)
slots_run_out_example = slots_run_out at_once still still ops fresh at_once-SpawnFree

abbrev futures : List StoredFuture
futures = (7, 1 ∷ 2 ∷ []) ∷ (8, []) ∷ []

run_completes_example :
    (e e' : GpuExecutor) × (spawn_all futures (init fresh) ≡ some e)
    × (run at_once still still e ≡ (record { tasks_executed = 2; polls_total = 2 }, e'))
    × (e'.tasks_spawned ≡ 2)
    × (e'.tasks_completed ≡ 2)
    × (e' ≡ polled_once at_once (some 8) 1 (polled_once at_once (some 7) 0 e))
run_completes_example =
    run_completes at_once futures at_once-Finishes (omega arith) (omega arith, (omega arith, tt))

abbrev fns : ℕ → Option ℕ
fns j = some 7

abbrev one_task : GpuExecutor
one_task = record fresh {
  work_queue = put 0 fresh.work_queue;
  tasks_spawned = 1;
  tasks_completed = 0;
  slots = λ j. record { state = 1; poll_fn = fns j; future_size = 0; future_bytes = λ k. 0 };
}

abbrev one_task-Pending : Pending 0 (0 ∷ []) fns one_task
one_task-Pending = record {
  queued = put-Queued [] 0 fresh-Queued (omega arith) (omega arith);
  fns_kept = λ j. refl;
  open_tasks = omega arith;
  counted = omega arith;
}

abbrev none_yet : ExecutorStats
none_yet = record { tasks_executed = 0; polls_total = 0 }

late_wake_polls_again_example :
    (e₁ e₂ e₃ : GpuExecutor) × (poll_task at_once 0 none_yet
        (take_task (still 0) (still 0) one_task).1
      ≡ (one_more none_yet, e₁))
    × (e₁.tasks_completed ≡ e₁.tasks_spawned)
    × (wake_task_from_data quiet (pack_waker_data 512 0) e₁ ≡ some e₂)
    × ((take_task (still 0) (still 0) e₂).0 ≡ 0)
    × (poll_task at_once 0 (one_more none_yet) (take_task (still 0) (still 0) e₂).1
        ≡ (one_more (one_more none_yet), e₃))
    × (e₃.tasks_spawned ≡ 1)
    × (e₃.tasks_completed ≡ 2)
late_wake_polls_again_example =
    late_wake_polls_again at_once fns 0 0 512 none_yet one_task at_once-Finishes one_task-Pending
      (omega arith, 7, refl) (omega arith)

abbrev two_parked : GpuExecutor
two_parked = record fresh {
  tasks_spawned = 2;
  slots = λ j. record {
    state = if (j == 3) || (j == 7) then slot_parked else slot_free;
    poll_fn = some j;
    future_size = 0;
    future_bytes = λ _. 0;
  };
}

parked_tasks_complete_example :
    (e₁ e' : GpuExecutor) × Rescanned 0 two_parked [] e₁
    × (run_loop at_once still still 4 0 (record { tasks_executed = 0; polls_total = 2 }) two_parked
        ≡ (record { tasks_executed = 2; polls_total = 4 }, e'))
    × (e'.tasks_spawned ≡ 2)
    × (e'.tasks_completed ≡ 2)
    × (e' ≡ polled_once at_once (some 7) 7 (polled_once at_once (some 3) 3 e₁))
unfolding fresh
parked_tasks_complete_example =
    parked_tasks_complete at_once 0 4 0 (record { tasks_executed = 0; polls_total = 2 }) two_parked
      at_once-Finishes fresh-Queued (omega arith)
      ((omega arith, 3, refl), ((omega arith, 7, refl), tt)) refl (omega arith) (omega arith)
