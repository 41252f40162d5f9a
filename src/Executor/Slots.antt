-- ===== src/Executor/Slots.antt =====
-- The stack of free slots after `init`, and a spawn with no other warp in between.
use async_gpu.Prelude.{
  ℕ, zero, suc, ◌+◌, ◌%◌, ◌^◌, ◌<◌, ◌≤◌, ◌≡◌, ◌≢◌, refl, ap, ◌∙◌, inl, inr, ◌==◌, leb, ltb, lt→ltb,
  if◌then◌else◌, Bool-cases, List, [], ◌∷◌, length, some, update_ne, range_from, wrapping_sub, u16,
  arith, dec_lt, ==_iff, ==→ne, ne→==, eq→==, subst,
}
use async_gpu.Executor.{
  max_tasks, task_future_max_size, queue_full, no_free_slots, future_too_large, Result, ok, err,
  ExecutorError, free_tag, GpuExecutor, TaskSlot, quiet, enqueue, enqueue_rounds, store_buffer,
  free_tagged, free_index, tagged_index, free_null, next_free, pop_slot,
}
use async_gpu.Executor.Fifo.{with_put}
use async_gpu.Executor.Run.{
  link_slot, link_slots, init_slots, init, store_future, count_spawn, spawn,
}

-- What `FreeSlotStack` needs of the memory is as it was.
pub record Keeps (e e' : GpuExecutor) : Type 0 where
  pub top : e'.free_slots ≡ e.free_slots
  pub links : (j : ℕ) → (e'.slots j).future_size ≡ (e.slots j).future_size

pub Keeps-refl : (e : GpuExecutor) → Keeps e e
Keeps-refl e = record { top = refl; links = λ j. refl }

pub Keeps-trans : {e f g : GpuExecutor} → Keeps e f → Keeps f g → Keeps e g
Keeps-trans h k = record { top = k.top ∙ h.top; links = λ j. k.links j ∙ h.links j }

-- The free slots are those from `k` on, lowest first.
pub record Free (k : ℕ) (e : GpuExecutor) : Type 0 where
  pub top : free_index e.free_slots ≡ (if ltb k max_tasks then k else free_null)
  pub links : (j : ℕ) → k ≤ j → j < max_tasks → (e.slots j).future_size ≡ next_free max_tasks j

pub Free-Keeps : {k : ℕ} {e e' : GpuExecutor} → Keeps e e' → Free k e → Free k e'
Free-Keeps h f = record { top = rw (h.top) f.top; links = λ j lo hi. h.links j ∙ f.links j lo hi }

pub enqueue-quiet :
    (i : ℕ) (e : GpuExecutor)
    → (r : Result Unit) × (e' : GpuExecutor) × (enqueue quiet i e ≡ some (r, e')) × Keeps e e'
unfolding enqueue enqueue_rounds store_buffer
enqueue-quiet i e =
    let q = e.work_queue in
    elim (Bool-cases (leb max_tasks (wrapping_sub (tagged_index q.tail) (tagged_index q.head)))) [
      | inl full ↦ (err queue_full, e, rw full refl, Keeps-refl e)
      | inr room ↦
          (ok tt, with_put i e, rw room (ground arith), record { top = refl; links = λ j. refl })
    ]

link_slots_before :
    (count a n j : ℕ) (e : GpuExecutor)
    → j < a
    → ((link_slots count (range_from a n) e).slots j).future_size ≡ (e.slots j).future_size
unfolding link_slots
link_slots_before count a zero j e lo = refl
link_slots_before count a (suc n) j e lo =
    link_slots_before count (suc a) n j (link_slot count a e) (omega arith)
    ∙ ap (λ (s : TaskSlot). s.future_size) (update_ne e.slots a j _ (omega arith))

linked :
    (count a n j : ℕ) (e : GpuExecutor)
    → a ≤ j
    → j < a + n
    → ((link_slots count (range_from a n) e).slots j).future_size ≡ next_free count j
unfolding link_slots
linked count a zero j e lo hi = absurd (omega arith)
linked count a (suc n) j e lo hi = elim (Bool-cases (a == j)) [
  | inl same ↦
      let i : a ≡ j = (==_iff a j).0 same in
      link_slots_before count (suc a) n j (link_slot count a e) (omega arith) ∙ rw (same, i) refl
  | inr other ↦
      let ne : a ≢ j = ==→ne a j other in
      linked count (suc a) n j (link_slot count a e) (omega arith) (omega arith)
]

pub init-Free : (e : GpuExecutor) → Free 0 (init e)
unfolding init init_slots
init-Free e = record { top = refl; links = λ j lo hi. linked max_tasks 0 max_tasks j e lo hi }

abbrev pub pops : List (GpuExecutor → GpuExecutor)
pops = (λ e. e) ∷ []

next_free-lt : (k : ℕ) → next_free max_tasks k < 2 ^ 16
next_free-lt k = ground arith

-- The memory after a pop.
abbrev pub popped : GpuExecutor → GpuExecutor
popped e = record e {
  free_slots =
      free_tagged (u16 (free_tag e.free_slots + 1))
        (u16 (e.slots (free_index e.free_slots)).future_size);
}

pub pop-Free :
    (k : ℕ) (e : GpuExecutor)
    → Free k e
    → k < max_tasks
    → (pop_slot pops e ≡ some (k, popped e)) × Free (suc k) (popped e)
unfolding pop_slot
pop-Free k e f lt =
    let top : e.free_slots % 2 ^ 16 ≡ k = f.top ∙ rw (lt→ltb _ _ lt) refl in
    let next : (e.slots (e.free_slots % 2 ^ 16)).future_size ≡ next_free max_tasks k =
      rw top (f.links k (omega arith) lt) in
    let some_left : e.free_slots % 2 ^ 16 ≢ free_null = λ p. absurd (omega (arith, top)) in
    (
      rw (ne→== _ _ some_left, eq→== e.free_slots e.free_slots refl)
          (ap (λ (i : ℕ). some (i, popped e)) top),
      record {
        top = ground (arith, next_free-lt k);
        links = λ j lo hi. f.links j (omega arith) hi;
      },
    )

pop_exhausted : (e : GpuExecutor) → Free max_tasks e → pop_slot pops e ≡ some (free_null, e)
unfolding pop_slot
pop_exhausted e f = rw (f.top) refl

pub store_future-Free :
    (k poll_fn : ℕ) (future : List ℕ) (e : GpuExecutor)
    → Free (suc k) e
    → Free (suc k) (store_future k poll_fn future e)
unfolding store_future
store_future-Free k poll_fn future e f = record {
  top = f.top;
  links = λ j lo hi.
      ap (λ (s : TaskSlot). s.future_size) (update_ne e.slots k j _ (omega arith))
      ∙ f.links j lo hi;
}

-- How a spawn ends: with slot `k`, or with an error, and which slots are then free.
pub data Ends (k : ℕ) (e' : GpuExecutor) : Result ℕ → Type 0 where
  took : k < max_tasks → Free (suc k) e' → Ends k e' (ok k)
  lost : (x : ExecutorError) → k < max_tasks → Free (suc k) e' → Ends k e' (err x)
  refused : (x : ExecutorError) → Free k e' → Ends k e' (err x)

counted-Ends :
    (k : ℕ) (r : Result Unit) (e : GpuExecutor)
    → k < max_tasks
    → Free (suc k) e
    → Ends k (count_spawn k (r, e)).1 (count_spawn k (r, e)).0
counted-Ends k (ok u) e lt f = took lt (record { top = f.top; links = f.links })
counted-Ends k (err x) e lt f = lost x lt f

pub spawn-Ends :
    (k poll_fn : ℕ) (future : List ℕ) (e : GpuExecutor)
    → Free k e
    → k ≤ max_tasks
    → (r : Result ℕ) × (e' : GpuExecutor) × (spawn pops quiet poll_fn future e ≡ some (r, e'))
      × Ends k e' r
unfolding spawn
spawn-Ends k poll_fn future e f le = elim (Bool-cases (ltb task_future_max_size (length future))) [
  | inl big ↦ (err future_too_large, e, rw big refl, refused future_too_large f)
  | inr fits ↦ elim (dec_lt k max_tasks) [
    | yes lt ↦
        let e₁ = popped e in
        let (taken, f₁) = pop-Free k e f lt in
        let stored = store_future k poll_fn future e₁ in
        let (r, e₂, queued, kept) = enqueue-quiet k stored in
        let f₂ = Free-Keeps kept (store_future-Free k poll_fn future e₁ f₁) in
        let real : k ≢ free_null = λ p. absurd (omega arith) in
        (
          (count_spawn k (r, e₂)).0,
          (count_spawn k (r, e₂)).1,
          rw (fits, taken, queued, ne→== _ _ real) refl,
          counted-Ends k r e₂ lt f₂,
        )
    | no full ↦
        let all : k ≡ max_tasks = omega arith in
        let f' = subst (λ n. Free n e) all f in
        (err no_free_slots, e, rw (fits, pop_exhausted e f') refl, refused no_free_slots f)
  ]
]
