-- ===== src/Executor/Fifo.antt =====
-- The work queue as a list of task ids, oldest first. `start` counts the ids ever taken, so it does
-- not wrap, while the indices in the tagged words do.
use async_gpu.Prelude.{
  ℕ, zero, suc, ◌+◌, ◌-◌, ◌*◌, ◌/◌, ◌%◌, ◌^◌, ◌<◌, ◌≤◌, ◌≡◌, ◌≢◌, refl, sym, ap, ◌∙◌, inl, inr,
  ◌==◌, if◌then◌else◌, ==_iff, ==→ne, ne→==, eq→==, subst, Bool-cases, List, [], ◌∷◌, ◌++◌, length,
  length-append, get_or, All, some, update, update_self, update_ne, arith,
}
use async_gpu.Executor.{
  max_tasks, empty_sentinel, queue_full, ok, err, GpuExecutor, WorkQueue, quiet, with_queue,
  store_buffer, enqueue, enqueue_rounds, dequeue, dequeue_rounds,
}

abbrev pub Real : List ℕ → Type 0
Real ids = All (λ i. i ≢ empty_sentinel) ids

pub record Queued (start : ℕ) (ids : List ℕ) (q : WorkQueue) : Type 0 where
  pub head : q.head % 2 ^ 32 ≡ start % 2 ^ 32
  pub tail : q.tail % 2 ^ 32 ≡ (start + length ids) % 2 ^ 32
  pub fits : length ids ≤ max_tasks
  pub real : Real ids
  pub cells : (j : ℕ) → j < max_tasks → q.buffer ((start + j) % 256) ≡ get_or ids j empty_sentinel

get_or-append_end :
    (ids : List ℕ) (i j d : ℕ)
    → get_or (ids ++ i ∷ []) j d ≡ (if length ids == j then i else get_or ids j d)
get_or-append_end [] i zero d = refl
get_or-append_end [] i (suc j) d = ground arith
get_or-append_end (x ∷ ids) i zero d = ground arith
get_or-append_end (x ∷ ids) i (suc j) d = ground (arith, get_or-append_end ids i j d)

Real-append_end : (ids : List ℕ) (i : ℕ) → Real ids → i ≢ empty_sentinel → Real (ids ++ i ∷ [])
Real-append_end [] i h p = (p, tt)
Real-append_end (x ∷ ids) i h p = (h.0, Real-append_end ids i h.1 p)

get_or_far : (ids : List ℕ) (j d : ℕ) → length ids ≤ j → get_or ids j d ≡ d
get_or_far [] j d h = refl
get_or_far (x ∷ ids) zero d h = absurd (omega arith)
get_or_far (x ∷ ids) (suc j) d h = get_or_far ids j d (omega arith)

-- The queue after an enqueue, and after a dequeue.
abbrev pub put : ℕ → WorkQueue → WorkQueue
put i q = record q {
  tail = (q.tail / 2 ^ 32 % 2 ^ 32 + 1) % 2 ^ 32 * 2 ^ 32 + (q.tail % 2 ^ 32 + 1) % 2 ^ 32;
  buffer = update q.buffer (q.tail % 2 ^ 32 % 256) i;
}

abbrev pub removed : WorkQueue → WorkQueue
removed q = record q {
  head = (q.head / 2 ^ 32 % 2 ^ 32 + 1) % 2 ^ 32 * 2 ^ 32 + (q.head % 2 ^ 32 + 1) % 2 ^ 32;
  buffer = update q.buffer (q.head % 2 ^ 32 % 256) empty_sentinel;
}

module _ {start : ℕ} {q : WorkQueue} where
  pub put-Queued :
      (ids : List ℕ) (i : ℕ)
      → Queued start ids q
      → i ≢ empty_sentinel
      → length ids < max_tasks
      → Queued start (ids ++ i ∷ []) (put i q)
  put-Queued ids i h new room = record {
    head = h.head;
    tail = omega (arith, h.tail, length-append ids (i ∷ []));
    fits = omega (arith, length-append ids (i ∷ []));
    real = Real-append_end ids i h.real new;
    cells = λ j hj. elim (Bool-cases (length ids == j)) [
      | inl e ↦
          let same : length ids ≡ j = (==_iff (length ids) j).0 e in
          let place : (start + j) % 256 ≡ q.tail % 2 ^ 32 % 256 = omega (arith, h.tail) in
          rw (get_or-append_end ids i j empty_sentinel, e, place)
            (update_self q.buffer (q.tail % 2 ^ 32 % 256) i)
      | inr e ↦
          let place : q.tail % 2 ^ 32 % 256 ≢ (start + j) % 256 =
            λ p. absurd (==→ne (length ids) j e (omega (arith, h.tail, h.fits))) in
          rw (get_or-append_end ids i j empty_sentinel, e)
            (update_ne q.buffer _ _ i place ∙ h.cells j hj)
    ];
  }

  pub removed-Queued :
      (i : ℕ) (ids : List ℕ) → Queued start (i ∷ ids) q → Queued (suc start) ids (removed q)
  removed-Queued i ids h = record {
    head = omega (arith, h.head);
    tail = omega (arith, h.tail);
    fits = omega (arith, h.fits);
    real = h.real.1;
    cells = λ j hj. elim (Bool-cases (j == 255)) [
      | inl e ↦
          let last : j ≡ 255 = (==_iff j 255).0 e in
          let place : (suc start + j) % 256 ≡ q.head % 2 ^ 32 % 256 = omega (arith, h.head) in
          rw place (
            update_self q.buffer (q.head % 2 ^ 32 % 256) empty_sentinel
            ∙ sym (get_or_far ids j empty_sentinel (omega (arith, h.fits))))
      | inr e ↦
          let other : j ≢ 255 = ==→ne j 255 e in
          let place : q.head % 2 ^ 32 % 256 ≢ (suc start + j) % 256 =
            λ p. absurd (other (omega (arith, h.head))) in
          let shifted : (suc start + j) % 256 ≡ (start + suc j) % 256 = omega arith in
          update_ne q.buffer _ _ empty_sentinel place
          ∙ ap q.buffer shifted
          ∙ h.cells (suc j) (omega arith)
    ];
  }

abbrev pub with_put : ℕ → GpuExecutor → GpuExecutor
with_put i = with_queue (put i)

-- The indices differ by the number of queued ids.
indices_apart :
    {start : ℕ} {q : WorkQueue} (ids : List ℕ)
    → Queued start ids q
    → (q.tail % 2 ^ 32 + (2 ^ 32 - q.head % 2 ^ 32)) % 2 ^ 32 ≡ length ids
indices_apart ids h = omega (arith, h.head, h.tail, h.fits)

module _ {start : ℕ} {e : GpuExecutor} (ids : List ℕ) (h : Queued start ids e.work_queue) where
  pub enqueue-room :
      (i : ℕ) → length ids < max_tasks → enqueue quiet i e ≡ some (ok tt, with_put i e)
  unfolding enqueue enqueue_rounds store_buffer
  enqueue-room i room = let apart = indices_apart ids h in rw (apart) (ground arith)

  pub enqueue_full : (i : ℕ) → length ids ≡ max_tasks → enqueue quiet i e ≡ some (err queue_full, e)
  unfolding enqueue enqueue_rounds
  enqueue_full i full = rw (indices_apart ids h) (ground arith)

  pub dequeue-cons :
      (i : ℕ) (rest : List ℕ) → ids ≡ i ∷ rest → dequeue quiet e ≡ some (i, with_queue removed e)
  unfolding dequeue dequeue_rounds store_buffer
  dequeue-cons i rest full =
      let h' = subst (λ l. Queued start l e.work_queue) full h in
      let first : e.work_queue.buffer (e.work_queue.head % 2 ^ 32 % 256) ≡ i =
        ap e.work_queue.buffer (omega (arith, h'.head)) ∙ h'.cells 0 (omega arith) in
      let apart : e.work_queue.head % 2 ^ 32 ≢ e.work_queue.tail % 2 ^ 32 =
        λ p. absurd (omega (arith, h'.head, h'.tail, h'.fits)) in
      let real = h'.real.0 in rw (ne→== _ _ apart, first, ne→== _ _ real) (ground arith)

  pub dequeue_empty : ids ≡ [] → dequeue quiet e ≡ some (empty_sentinel, e)
  unfolding dequeue dequeue_rounds
  dequeue_empty none_left =
      let h' = subst (λ l. Queued start l e.work_queue) none_left h in
      let same : e.work_queue.head % 2 ^ 32 ≡ e.work_queue.tail % 2 ^ 32 =
        omega (arith, h'.head, h'.tail) in
      rw (eq→== _ _ same)
