-- ===== src/Executor/History.antt =====
-- Which slots the spawns of a whole history get.
use async_gpu.Prelude.{
  ℕ, suc, ◌+◌, ◌<◌, ◌≤◌, ◌≡◌, refl, List, [], ◌∷◌, length, Option, some, ◌>>=◌, arith,
}
use async_gpu.Executor.{max_tasks, Result, ok, err, GpuExecutor, quiet}
use async_gpu.Executor.Run.{init, spawn, PollFn, run}
use async_gpu.Executor.Slots.{
  Free, Free-Keeps, init-Free, pops, Ends, took, lost, refused, spawn-Ends,
}
use async_gpu.Executor.Steps.{SpawnFree, run-Keeps}

pub data Op : Type 0 where
  spawns : (poll_fn : ℕ) (future : List ℕ) → Op
  runs : Op

abbrev pub got : Result ℕ → List ℕ → List ℕ
got (ok i) ids = i ∷ ids
got (err x) ids = ids

-- From `k` on, every id is higher than those before it, and names a slot.
abbrev pub Rising : ℕ → List ℕ → Type 0
Rising k [] = Unit
Rising k (i ∷ ids) = (k ≤ i) × (i < max_tasks) × Rising (suc i) ids

length-Rising : (k : ℕ) (ids : List ℕ) → k ≤ max_tasks → Rising k ids → k + length ids ≤ max_tasks
length-Rising k [] le r = omega arith
length-Rising k (i ∷ ids) le r = omega (arith, length-Rising (suc i) ids r.1 r.2)

Rising-le : (k m : ℕ) (ids : List ℕ) → k ≤ m → Rising m ids → Rising k ids
Rising-le k m [] le r = tt
Rising-le k m (i ∷ ids) le r = (omega arith, r.1, r.2)

module _ (call : PollFn) (before_swap before_store : ℕ → GpuExecutor → GpuExecutor) where
  -- The ids that the successful spawns of a history return.
  unfoldable pub history : List Op → GpuExecutor → Option (List ℕ)
  history [] e = some []
  history (spawns f future ∷ ops) e = do
    (r, e') ← spawn pops quiet f future e
    ids ← history ops e'
    some (got r ids)
  history (runs ∷ ops) e = history ops (run call before_swap before_store e).1

  -- What a history from `e` returns when the slots from `k` on are free.
  abbrev pub Bounded : ℕ → List Op → GpuExecutor → Type 0
  Bounded k ops e = (ids : List ℕ) × (history ops e ≡ some ids) × Rising k ids

  spawned-Rising :
      (ops : List Op) (k : ℕ) (e' : GpuExecutor) (r : Result ℕ)
      → k ≤ max_tasks
      → ((m : ℕ) → Free m e' → m ≤ max_tasks → Bounded m ops e')
      → Ends k e' r
      → (ids : List ℕ) × (history ops e' ≡ some ids) × Rising k (got r ids)
  spawned-Rising ops k e' (ok i) le ih (took lt f) =
      let (ids, q, up) = ih (suc k) f lt in (ids, q, (omega arith, lt, up))
  spawned-Rising ops k e' (err x) le ih (lost y lt f) =
      let (ids, q, up) = ih (suc k) f lt in (ids, q, Rising-le k (suc k) ids (omega arith) up)
  spawned-Rising ops k e' (err x) le ih (refused y f) = ih k f le

  history-Rising :
      (ops : List Op) (k : ℕ) (e : GpuExecutor)
      → SpawnFree call before_swap before_store
      → Free k e
      → k ≤ max_tasks
      → Bounded k ops e
  unfolding history
  history-Rising [] k e h f le = ([], refl, tt)
  history-Rising (runs ∷ ops) k e h f le =
      history-Rising ops k (run call before_swap before_store e).1 h
        (Free-Keeps (run-Keeps call before_swap before_store e h) f) le
  history-Rising (spawns p future ∷ ops) k e h f le =
      let (r, e', q, ends) = spawn-Ends k p future e f le in
      let (ids, rest, up) =
        spawned-Rising ops k e' r le (λ m f' le'. history-Rising ops m e' h f' le') ends in
      (got r ids, rw (q, rest) refl, up)

  -- When neither the polled futures nor the other warps spawn: in any history of spawns and runs
  -- after init, each spawn that succeeds gets a slot above all those given before, so that at most
  -- 256 of them succeed, whatever number of tasks has completed in between.
  pub slots_run_out :
      (ops : List Op) (e : GpuExecutor)
      → SpawnFree call before_swap before_store
      → (ids : List ℕ) × (history ops (init e) ≡ some ids) × Rising 0 ids × (length ids ≤ max_tasks)
  slots_run_out ops e h =
      let (ids, q, up) = history-Rising ops 0 (init e) h (init-Free e) (omega arith) in
      (ids, q, up, omega (arith, length-Rising 0 ids (omega arith) up))
