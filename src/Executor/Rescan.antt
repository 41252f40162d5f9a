-- ===== src/Executor/Rescan.antt =====
-- The scan of `run` for parked tasks, when the queue has given none.
use async_gpu.Prelude.{
  ℕ, zero, suc, ◌+◌, ◌<◌, ◌≤◌, ◌≡◌, refl, sym, ap, ◌∙◌, inl, inr, ◌==◌, subst, Bool-cases, Bool,
  true, false, ◌||◌, if◌then◌else◌, List, [], ◌∷◌, ◌++◌, length, length-append, range_from, Option,
  some, none, update_self, update_ne, arith, dec_lt,
}
use async_gpu.Executor.{
  max_tasks, slot_queued, slot_parked, TaskSlot, GpuExecutor, Result, with_slot,
}
use async_gpu.Executor.Run.{requeue, requeue_parked}
use async_gpu.Executor.Fifo.{Queued, with_put, put-Queued, enqueue-room}

-- The parked ones of some tasks, in order.
abbrev pub parked : (ℕ → TaskSlot) → List ℕ → List ℕ
parked slots [] = []
parked slots (i ∷ is) =
    let rest = parked slots is in if (slots i).state == slot_parked then i ∷ rest else rest

-- A slot as the scan leaves it.
abbrev pub rescanned : TaskSlot → TaskSlot
rescanned s = if s.state == slot_parked then record s { state = slot_queued } else s

abbrev pub some_left : List ℕ → Bool
some_left [] = false
some_left (i ∷ is) = true

append-empty : (xs : List ℕ) → xs ++ [] ≡ xs
append-empty [] = refl
append-empty (x ∷ xs) = ap (λ l. x ∷ l) (append-empty xs)

append-cons : (xs : List ℕ) (i : ℕ) (ys : List ℕ) → (xs ++ i ∷ []) ++ ys ≡ xs ++ i ∷ ys
append-cons [] i ys = refl
append-cons (x ∷ xs) i ys = ap (λ l. x ∷ l) (append-cons xs i ys)

abbrev marked : ℕ → GpuExecutor → GpuExecutor
marked i = with_slot i (λ s. record s { state = slot_queued })

requeue-room :
    {start : ℕ} (e : GpuExecutor) (ids : List ℕ) (i : ℕ)
    → Queued start ids e.work_queue
    → length ids < max_tasks
    → requeue i e ≡ with_put i (marked i e)
unfolding requeue
requeue-room e ids i h room =
    ap
      (λ (r : Option (Result Unit × GpuExecutor)). elim r [
        | none ↦ marked i e
        | some (_, e'') ↦ e''
      ])
      (enqueue-room {e = marked i e} ids h i room)

or_false : (found : Bool) → (found || false) ≡ found
or_false true = refl
or_false false = refl

or_true : (found : Bool) → (found || true) ≡ true
or_true true = refl
or_true false = refl

requeue_parked-hit :
    (i : ℕ) (is : List ℕ) (found : Bool) (e : GpuExecutor)
    → ((e.slots i).state == slot_parked) ≡ true
    → requeue_parked (i ∷ is) (found, e) ≡ requeue_parked is (true, requeue i e)
unfolding requeue_parked
requeue_parked-hit i is found e h = rw h refl

requeue_parked-miss :
    (i : ℕ) (is : List ℕ) (found : Bool) (e : GpuExecutor)
    → ((e.slots i).state == slot_parked) ≡ false
    → requeue_parked (i ∷ is) (found, e) ≡ requeue_parked is (found, e)
unfolding requeue_parked
requeue_parked-miss i is found e h = rw h refl

parked-hit :
    (slots : ℕ → TaskSlot) (i : ℕ) (is : List ℕ)
    → ((slots i).state == slot_parked) ≡ true
    → parked slots (i ∷ is) ≡ i ∷ parked slots is
parked-hit slots i is h = rw h refl

parked-miss :
    (slots : ℕ → TaskSlot) (i : ℕ) (is : List ℕ)
    → ((slots i).state == slot_parked) ≡ false
    → parked slots (i ∷ is) ≡ parked slots is
parked-miss slots i is h = rw h refl

module _ (start : ℕ) (slots : ℕ → TaskSlot) (spawned completed : ℕ) where
  -- The memory when the scan has come to task `a`.
  pub record ScannedTo (a : ℕ) (ids : List ℕ) (e : GpuExecutor) : Type 0 where
    pub queued : Queued start ids e.work_queue
    pub behind : (j : ℕ) → j < a → e.slots j ≡ rescanned (slots j)
    pub ahead : (j : ℕ) → a ≤ j → e.slots j ≡ slots j
    pub spawned_kept : e.tasks_spawned ≡ spawned
    pub completed_kept : e.tasks_completed ≡ completed

  passed-ScannedTo :
      (a : ℕ) (ids : List ℕ) (e : GpuExecutor)
      → ((slots a).state == slot_parked) ≡ false
      → ScannedTo a ids e
      → ScannedTo (suc a) ids e
  passed-ScannedTo a ids e other h = record {
    queued = h.queued;
    behind = λ j lt. elim (dec_lt j a) [
      | yes before ↦ h.behind j before
      | no not_before ↦
          let at : a ≡ j = omega arith in
          subst (λ j. e.slots j ≡ rescanned (slots j)) at (h.ahead a (omega arith) ∙ rw other refl)
    ];
    ahead = λ j le. h.ahead j (omega arith);
    spawned_kept = h.spawned_kept;
    completed_kept = h.completed_kept;
  }

  requeued-ScannedTo :
      (a : ℕ) (ids : List ℕ) (e : GpuExecutor)
      → ((slots a).state == slot_parked) ≡ true
      → a < max_tasks
      → length ids < max_tasks
      → ScannedTo a ids e
      → ScannedTo (suc a) (ids ++ a ∷ []) (with_put a (marked a e))
  requeued-ScannedTo a ids e same small room h =
      let there = h.ahead a (omega arith) in
      record {
        queued = put-Queued ids a h.queued (omega arith) room;
        behind = λ j lt. elim (dec_lt j a) [
          | yes before ↦ update_ne e.slots a j _ (omega arith) ∙ h.behind j before
          | no not_before ↦
              let at : a ≡ j = omega arith in
              subst (λ j. (marked a e).slots j ≡ rescanned (slots j)) at
                (update_self e.slots a _
                  ∙ ap (λ (s : TaskSlot). record s { state = slot_queued }) there
                  ∙ rw same refl)
        ];
        ahead = λ j le. update_ne e.slots a j _ (omega arith) ∙ h.ahead j (omega arith);
        spawned_kept = h.spawned_kept;
        completed_kept = h.completed_kept;
      }

  pub requeue_parked-ScannedTo :
      (a k : ℕ) (ids : List ℕ) (found : Bool) (e : GpuExecutor)
      → a + k ≤ max_tasks
      → length ids + length (parked slots (range_from a k)) ≤ max_tasks
      → ScannedTo a ids e
      → (e' : GpuExecutor) × (requeue_parked (range_from a k) (found, e)
          ≡ (found || some_left (parked slots (range_from a k)), e'))
        × ScannedTo (a + k) (ids ++ parked slots (range_from a k)) e'
  unfolding requeue_parked
  requeue_parked-ScannedTo a zero ids found e small room h = (
    e,
    ap (λ b. (b, e)) (sym (or_false found)),
    subst (λ l. ScannedTo (a + 0) l e) (sym (append-empty ids))
        (subst (λ n. ScannedTo n ids e) (omega arith) h),
  )
  requeue_parked-ScannedTo a (suc k) ids found e small room h =
      let is = range_from (suc a) k in
      let state : (e.slots a).state ≡ (slots a).state =
        ap (λ (s : TaskSlot). s.state) (h.ahead a (omega arith)) in
      let test = ap (λ n. n == slot_parked) state in
      let next : suc a + k ≡ a + suc k = omega arith in
      elim (Bool-cases ((slots a).state == slot_parked)) [
        | inl same ↦
            let hit = parked-hit slots a is same in
            let size = ap length hit in
            let requeued = requeue-room e ids a h.queued (omega (arith, size)) in
            let h' = requeued-ScannedTo a ids e same (omega arith) (omega (arith, size)) h in
            let (e', scanned, done) =
              requeue_parked-ScannedTo (suc a) k (ids ++ a ∷ []) true (with_put a (marked a e))
                (omega arith) (omega (arith, size, length-append ids (a ∷ []))) h' in
            (
              e',
              requeue_parked-hit a is found e (test ∙ same)
                  ∙ ap (λ m. requeue_parked is (true, m)) requeued
                  ∙ scanned
                  ∙ ap (λ b. (b, e')) (sym (ap (λ l. found || some_left l) hit ∙ or_true found)),
              subst (λ l. ScannedTo (a + suc k) (ids ++ l) e') (sym hit)
                  (subst (λ l. ScannedTo (a + suc k) l e') (append-cons ids a (parked slots is))
                    (subst (λ n. ScannedTo n ((ids ++ a ∷ []) ++ parked slots is) e') next done)),
            )
        | inr other ↦
            let miss = parked-miss slots a is other in
            let (e', scanned, done) =
              requeue_parked-ScannedTo (suc a) k ids found e (omega arith)
                (omega (arith, ap length miss)) (passed-ScannedTo a ids e other h) in
            (
              e',
              requeue_parked-miss a is found e (test ∙ other)
                  ∙ scanned
                  ∙ ap (λ l. (found || some_left l, e')) (sym miss),
              subst (λ l. ScannedTo (a + suc k) (ids ++ l) e') (sym miss)
                  (subst (λ n. ScannedTo n (ids ++ parked slots is) e') next done),
            )
      ]
