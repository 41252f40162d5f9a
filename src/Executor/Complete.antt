-- ===== src/Executor/Complete.antt =====
-- From init to the end of `run`: a batch of futures is spawned, and one warp runs them.
use native.Mathlib.Nat.{zero-add, add-zero}
use async_gpu.Prelude.{
  ℕ, zero, suc, ◌+◌, ◌%◌, ◌^◌, ◌<◌, ◌≤◌, ◌≡◌, refl, sym, ap, ◌∙◌, subst, le→ltb, ne→==, ==→ne,
  ==_iff, ◌==◌, Bool-cases, inl, inr, List, [], ◌∷◌, ◌++◌, length, All, Option, none, some, ◌>>=◌,
  range_from, length-range_from, arith,
}
use async_gpu.Executor.{max_tasks, task_future_max_size, free_null, ok, err, GpuExecutor, quiet}
use async_gpu.Executor.Run.{
  fresh, init, store_future, spawn, ExecutorStats, PollFn, run, link_slots, init_slots, link_slot,
  max_iterations,
}
use async_gpu.Executor.Fifo.{Queued, put, with_put, put-Queued, enqueue-room}
use async_gpu.Executor.Slots.{Free, pops, popped, pop-Free, store_future-Free, init-Free}
use async_gpu.Executor.Drain.{
  Finishes, Pending, IsTask, still, polled, polled_once, polled_in_turn, run_loop-Pending,
}
use async_gpu.Executor.Calls.{fresh-Queued}

-- A future by its poll function and its bytes.
abbrev pub StoredFuture : Type 0
StoredFuture = ℕ × List ℕ

abbrev pub Fits : StoredFuture → Type 0
Fits (f, future) = length future ≤ task_future_max_size

-- The spawns one after another, all of which must succeed.
unfoldable pub spawn_all : List StoredFuture → GpuExecutor → Option GpuExecutor
spawn_all [] e = some e
spawn_all ((f, future) ∷ rest) e = do
  (r, e') ← spawn pops quiet f future e
  elim r [ ok i ↦ spawn_all rest e' | err x ↦ none ]

-- The poll function of each of the futures, by its place among them.
abbrev pub fn_of : List StoredFuture → ℕ → Option ℕ
fn_of [] j = none
fn_of ((f, future) ∷ rest) zero = some f
fn_of ((f, future) ∷ rest) (suc j) = fn_of rest j

fn_of-some :
    (futures : List StoredFuture) (j : ℕ)
    → j < length futures
    → (f : ℕ) × (fn_of futures j ≡ some f)
fn_of-some [] j lt = absurd (omega arith)
fn_of-some ((f, future) ∷ rest) zero lt = (f, refl)
fn_of-some ((f, future) ∷ rest) (suc j) lt = fn_of-some rest j (omega arith)

-- The memory after `k` successful spawns of these futures.
pub record Loaded (futures : List StoredFuture) (k : ℕ) (e : GpuExecutor) : Type 0 where
  pub queued : Queued 0 (range_from 0 k) e.work_queue
  pub free : Free k e
  pub fns : (j : ℕ) → j < k → (e.slots j).poll_fn ≡ fn_of futures j
  pub spawned : e.tasks_spawned ≡ k
  pub completed : e.tasks_completed ≡ 0

-- The memory after the next of them.
abbrev spawned : ℕ → ℕ → List ℕ → GpuExecutor → GpuExecutor
spawned k f future e =
    let e' = with_put k (store_future k f future (popped e)) in
    record e' { tasks_spawned = (e'.tasks_spawned + 1) % 2 ^ 32 }

range_from-suc : (a n : ℕ) → range_from a (suc n) ≡ range_from a n ++ (a + n) ∷ []
range_from-suc a zero = ap (λ m. m ∷ []) (omega arith)
range_from-suc a (suc n) =
    ap (λ l. a ∷ l)
      (range_from-suc (suc a) n ∙ ap (λ (m : ℕ). range_from (suc a) n ++ m ∷ []) (omega arith))

range_from_zero-suc : (k : ℕ) → range_from 0 (suc k) ≡ range_from 0 k ++ k ∷ []
range_from_zero-suc k = range_from-suc 0 k ∙ ap (λ (m : ℕ). range_from 0 k ++ m ∷ []) (omega arith)

spawn-Loaded :
    (futures : List StoredFuture) (k f : ℕ) (future : List ℕ) (e : GpuExecutor)
    → Loaded futures k e
    → fn_of futures k ≡ some f
    → k < max_tasks
    → length future ≤ task_future_max_size
    → (spawn pops quiet f future e ≡ some (ok k, spawned k f future e))
      × Loaded futures (suc k) (spawned k f future e)
unfolding spawn store_future
spawn-Loaded futures k f future e h is_fn lt small =
    let (taken, free) = pop-Free k e h.free lt in
    let stored = store_future k f future (popped e) in
    let put_there =
      enqueue-room {e = stored} (range_from 0 k) h.queued k
        (omega (arith, length-range_from 0 k)) in
    let kept = store_future-Free k f future (popped e) free in
    let fits = le→ltb task_future_max_size (length future) small in
    (
      rw (fits, taken, ne→== k free_null (omega arith), put_there) refl,
      record {
        queued =
            subst (λ l. Queued 0 l (put k e.work_queue)) (sym (range_from_zero-suc k))
              (put-Queued (range_from 0 k) k h.queued (omega arith)
                (omega (arith, length-range_from 0 k)));
        free = record { top = kept.top; links = kept.links };
        fns = λ j hj. elim (Bool-cases (k == j)) [
          | inl same ↦ rw same (sym is_fn ∙ ap (fn_of futures) ((==_iff k j).0 same))
          | inr other ↦ rw other (h.fns j (omega (arith, ==→ne k j other)))
        ];
        spawned = omega (arith, h.spawned);
        completed = h.completed;
      },
    )

spawn_all-Loaded :
    (all futures : List StoredFuture) (k : ℕ) (e : GpuExecutor)
    → Loaded all k e
    → ((j : ℕ) → fn_of all (k + j) ≡ fn_of futures j)
    → k + length futures ≤ max_tasks
    → All Fits futures
    → (e' : GpuExecutor) × (spawn_all futures e ≡ some e') × Loaded all (k + length futures) e'
unfolding spawn_all
spawn_all-Loaded all [] k e h fns room small =
    (e, refl, subst (λ m. Loaded all m e) (omega arith) h)
spawn_all-Loaded all ((f, future) ∷ rest) k e h fns room small =
    let is_fn = ap (fn_of all) (sym (add-zero k)) ∙ fns 0 in
    let (done, h') = spawn-Loaded all k f future e h is_fn (omega arith) small.0 in
    let later : (j : ℕ) → fn_of all (suc k + j) ≡ fn_of rest j =
      λ j. ap (fn_of all) (omega arith) ∙ fns (suc j) in
    let (e', ended, h'') =
      spawn_all-Loaded all rest (suc k) (spawned k f future e) h' later (omega arith) small.1 in
    (e', rw (done, ended) refl, subst (λ m. Loaded all m e') (omega arith) h'')

-- `init` links the slots and resets the counts, and leaves the queue alone.
queue-link_slots :
    (count : ℕ) (l : List ℕ) (e : GpuExecutor) → (link_slots count l e).work_queue ≡ e.work_queue
unfolding link_slots
queue-link_slots count [] e = refl
queue-link_slots count (i ∷ l) e = queue-link_slots count l (link_slot count i e)

init-Loaded : (futures : List StoredFuture) → Loaded futures 0 (init fresh)
unfolding init init_slots
init-Loaded futures = record {
  queued =
      subst (Queued 0 []) (sym (queue-link_slots max_tasks (range_from 0 max_tasks) fresh))
        fresh-Queued;
  free = init-Free fresh;
  fns = λ j h. absurd (omega arith);
  spawned = refl;
  completed = refl;
}

-- The ids from `a` on name tasks.
range-IsTask :
    (fns : ℕ → Option ℕ) (n a k : ℕ)
    → ((j : ℕ) → j < k → (f : ℕ) × (fns j ≡ some f))
    → a + n ≤ k
    → k ≤ max_tasks
    → All (IsTask fns) (range_from a n)
range-IsTask fns zero a k h le small = tt
range-IsTask fns (suc n) a k h le small =
    let (f, q) = h a (omega arith) in
    ((omega arith, f, q), range-IsTask fns n (suc a) k h (omega arith) small)

-- Only the functions of the tasks themselves count.
polled_in_turn-cong :
    (call : PollFn) (fns fns' : ℕ → Option ℕ) (n a : ℕ) (e : GpuExecutor)
    → ((j : ℕ) → j < a + n → fns j ≡ fns' j)
    → polled_in_turn call fns (range_from a n) e ≡ polled_in_turn call fns' (range_from a n) e
polled_in_turn-cong call fns fns' zero a e h = refl
polled_in_turn-cong call fns fns' (suc n) a e h =
    ap (λ o. polled_in_turn call fns (range_from (suc a) n) (polled_once call o a e))
      (h a (omega arith))
    ∙ polled_in_turn-cong call fns fns' n (suc a) (polled_once call (fns' a) a e)
        (λ j lt. h j (omega arith))

polled_from_zero :
    (m k : ℕ)
    → m ≡ k
    → polled m (record { tasks_executed = 0; polls_total = 0 })
      ≡ record { tasks_executed = k; polls_total = k }
polled_from_zero m k h = ground arith

-- Where each future is ready at its first poll and touches neither the queue nor the counts nor the
-- poll functions, and no other warp acts: on a new executor, at most 256 futures of at most 512 bytes
-- are all spawned, and one warp in `run` then returns. It leaves the memory as the futures' own poll
-- functions leave it, called once for each of the tasks 0, 1, 2 and so on, in the order of the spawns;
-- its statistics and the counts of spawned and completed tasks are the number of the futures.
pub run_completes :
    (call : PollFn) (futures : List StoredFuture)
    → Finishes call
    → length futures ≤ max_tasks
    → All Fits futures
    → (e e' : GpuExecutor) × (spawn_all futures (init fresh) ≡ some e)
      × (run call still still e
          ≡ (record { tasks_executed = length futures; polls_total = length futures }, e'))
      × (e'.tasks_spawned ≡ length futures)
      × (e'.tasks_completed ≡ length futures)
      × (e' ≡ polled_in_turn call (fn_of futures) (range_from 0 (length futures)) e)
unfolding run
run_completes call futures finishes room small =
    let k = length futures in
    let (e, all, h₀) =
      spawn_all-Loaded futures futures 0 (init fresh) (init-Loaded futures)
        (λ j. ap (fn_of futures) (zero-add j)) (omega arith) small in
    let h = subst (λ m. Loaded futures m e) (zero-add k) h₀ in
    let fns : ℕ → Option ℕ = λ j. (e.slots j).poll_fn in
    let ids = range_from 0 k in
    let pending : Pending 0 ids fns e = record {
      queued = h.queued;
      fns_kept = λ j. refl;
      open_tasks = omega (arith, length-range_from 0 k, h.spawned, h.completed);
      counted = omega (arith, h.spawned);
    } in
    let start : ExecutorStats = record { tasks_executed = 0; polls_total = 0 } in
    let tasks =
      range-IsTask fns k 0 k (λ j lt. let (f, q) = fn_of-some futures j lt in (f, h.fns j lt ∙ q))
        (omega arith) room in
    let (e', ran, spawned, completed, in_turn) =
      run_loop-Pending call finishes fns 0 ids max_iterations 0 start e pending tasks
        (omega (arith, length-range_from 0 k)) in
    let stats = ap (λ n. (n, e')) (polled_from_zero (length ids) k (length-range_from 0 k)) in
    (
      e,
      e',
      all,
      ran ∙ stats,
      spawned ∙ h.spawned,
      completed ∙ h.spawned,
      in_turn ∙ polled_in_turn-cong call fns (fn_of futures) k 0 e (λ j lt. h.fns j (omega arith)),
    )
