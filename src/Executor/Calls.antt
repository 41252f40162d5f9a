-- ===== src/Executor/Calls.antt =====
-- The work queue through the answers of its calls, against a bounded list.
use async_gpu.Prelude.{
  ℕ, suc, ◌≡◌, ◌≢◌, refl, inl, inr, ltb, ltb→le, ltb→lt, if◌then◌else◌, Bool-cases, List, [], ◌∷◌,
  ◌++◌, length, All, Option, some, ◌>>=◌, arith,
}
use async_gpu.Executor.{
  max_tasks, empty_sentinel, queue_full, Result, ok, err, GpuExecutor, quiet, with_queue, enqueue,
  dequeue,
}
use async_gpu.Executor.Run.{fresh}
use async_gpu.Executor.Fifo.{
  Queued, removed, with_put, put-Queued, removed-Queued, enqueue-room, enqueue_full, dequeue-cons,
  dequeue_empty,
}

pub data Call : Type 0 where
  enqueues : ℕ → Call
  dequeues : Call

pub data Answer : Type 0 where
  enqueued : Result Unit → Answer
  dequeued : ℕ → Answer

abbrev pub IsReal : Call → Type 0
IsReal (enqueues i) = i ≢ empty_sentinel
IsReal dequeues = Unit

abbrev pub perform : Call → GpuExecutor → Option (Answer × GpuExecutor)
perform (enqueues i) e = do (r, e') ← enqueue quiet i e; some (enqueued r, e')
perform dequeues e = do (i, e') ← dequeue quiet e; some (dequeued i, e')

-- The answers of the code to calls one after another.
unfoldable pub answers : List Call → GpuExecutor → Option (List Answer)
answers [] e = some []
answers (c ∷ cs) e = do (a, e') ← perform c e; rest ← answers cs e'; some (a ∷ rest)

-- The answers of a list that holds at most 256 ids.
unfoldable pub expected : List Call → List ℕ → List Answer
expected [] ids = []
expected (enqueues i ∷ cs) ids =
    if ltb (length ids) max_tasks
    then enqueued (ok tt) ∷ expected cs (ids ++ i ∷ [])
    else enqueued (err queue_full) ∷ expected cs ids
expected (dequeues ∷ cs) [] = dequeued empty_sentinel ∷ expected cs []
expected (dequeues ∷ cs) (i ∷ ids) = dequeued i ∷ expected cs ids

answers-Queued :
    (cs : List Call) (start : ℕ) (ids : List ℕ) (e : GpuExecutor)
    → All IsReal cs
    → Queued start ids e.work_queue
    → answers cs e ≡ some (expected cs ids)
unfolding answers expected
answers-Queued [] start ids e real h = refl
answers-Queued (enqueues i ∷ cs) start ids e real h =
    elim (Bool-cases (ltb (length ids) max_tasks)) [
      | inl t ↦
          let room = ltb→lt _ _ t in
          let ih =
            answers-Queued cs start (ids ++ i ∷ []) (with_put i e) real.1
              (put-Queued ids i h real.0 room) in
          rw (t, enqueue-room {e = e} ids h i room, ih) refl
      | inr f ↦
          let full : length ids ≡ max_tasks = omega (arith, ltb→le _ _ f, h.fits) in
          rw (f, enqueue_full {e = e} ids h i full, answers-Queued cs start ids e real.1 h) refl
    ]
answers-Queued (dequeues ∷ cs) start [] e real h =
    rw (dequeue_empty {e = e} [] h refl, answers-Queued cs start [] e real.1 h) refl
answers-Queued (dequeues ∷ cs) start (i ∷ ids) e real h =
    let ih =
      answers-Queued cs (suc start) ids (with_queue removed e) real.1 (removed-Queued i ids h) in
    rw (dequeue-cons {e = e} (i ∷ ids) h i ids refl, ih) refl

pub fresh-Queued : Queued 0 [] fresh.work_queue
unfolding fresh
fresh-Queued = record {
  head = refl;
  tail = refl;
  fits = omega arith;
  real = tt;
  cells = λ j h. refl;
}

-- From a new executor, and with no other warp in between, any calls of enqueue and dequeue on ids
-- other than the sentinel return, and answer as a first-in first-out list of at most 256 ids does:
-- an enqueue fails with QueueFull exactly when 256 are queued, a dequeue gives the oldest id, or the
-- sentinel when none is queued. The indices of the queue wrap at 2^32 and this does not show.
pub queue_refines : (cs : List Call) → All IsReal cs → answers cs fresh ≡ some (expected cs [])
queue_refines cs real = answers-Queued cs 0 [] fresh real fresh-Queued
