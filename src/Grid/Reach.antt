-- ===== src/Grid/Reach.antt =====
-- The steps of the coordinator and the worker in any order, under the conditions that grid_work.rs
-- states for the coordinator's calls, and what the coordinator can read.
use async_gpu.Prelude.{
  ℕ, ◌≡◌, refl, sym, ap, subst, ◌∙◌, ◌⊎◌, inl, inr, ◌==◌, if◌then◌else◌, Bool, true, false,
  Bool-cases, arith, ==_iff,
}
use async_gpu.Grid.{
  slot_idle, slot_work_available, slot_completed, slot_cancelled, Args, BlockWorkSlot, init_slot,
  dispatch_work, cancel_slot, reset_slot, Worker, polling, running, stopped, Grid, poll, finish,
}

abbrev pub on_slot : (BlockWorkSlot → BlockWorkSlot) → Grid → Grid
on_slot f g = record g { slot = f g.slot }

-- Work is dispatched to an idle or completed slot, a slot is cancelled at any time, and it is reset
-- when completed, or when cancelled and no worker runs.
pub data Step (call : ℕ → Args → ℕ) : Grid → Grid → Type 0 where
  polls : (g : Grid) → g.worker ≡ polling → Step call g (poll g)
  finishes :
      (g : Grid) (single_shot : Bool) (f : ℕ) (a : Args)
      → g.worker ≡ running f a
      → Step call g (finish call single_shot f a g)
  starts : (g : Grid) → g.worker ≡ stopped → Step call g (record g { worker = polling })
  dispatches :
      (g : Grid) (f : ℕ) (a : Args)
      → (g.slot.status ≡ slot_idle) ⊎ (g.slot.status ≡ slot_completed)
      → Step call g (on_slot (dispatch_work f a) g)
  cancels : (g : Grid) → Step call g (on_slot cancel_slot g)
  resets_completed :
      (g : Grid) → g.slot.status ≡ slot_completed → Step call g (on_slot reset_slot g)
  resets_stopped :
      (g : Grid)
      → g.slot.status ≡ slot_cancelled
      → g.worker ≡ stopped
      → Step call g (on_slot reset_slot g)

pub data Reach (call : ℕ → Args → ℕ) (s : Grid) : Grid → Type 0 where
  here : Reach call s s
  next : {t u : Grid} → Reach call s t → Step call t u → Reach call s u

-- What the worker runs is what the slot names, and the slot is still dispatched or cancelled.
abbrev pub Runs : Worker → BlockWorkSlot → Type 0
Runs polling slot = Unit
Runs (running f a) slot =
    (slot.work_fn ≡ f)
    × (slot.args ≡ a)
    × ((slot.status ≡ slot_work_available) ⊎ (slot.status ≡ slot_cancelled))
Runs stopped slot = Unit

pub record Consistent (call : ℕ → Args → ℕ) (g : Grid) : Type 0 where
  pub runs : Runs g.worker g.slot
  pub completed : g.slot.status ≡ slot_completed → g.slot.result ≡ call g.slot.work_fn g.slot.args

-- A worker whose slot is idle or completed runs nothing.
quiet_Runs :
    (w : Worker) (slot slot' : BlockWorkSlot)
    → (slot.status ≡ slot_idle) ⊎ (slot.status ≡ slot_completed)
    → Runs w slot
    → Runs w slot'
quiet_Runs polling slot slot' h r = tt
quiet_Runs stopped slot slot' h r = tt
quiet_Runs (running f a) slot slot' h r = absurd (omega (arith, h, r.2))

cancelled-Runs : (w : Worker) (slot : BlockWorkSlot) → Runs w slot → Runs w (cancel_slot slot)
unfolding cancel_slot
cancelled-Runs polling slot r = tt
cancelled-Runs stopped slot r = tt
cancelled-Runs (running f a) slot r = (r.0, r.1, inr refl)

idle-Runs :
    (single_shot : Bool) (slot : BlockWorkSlot)
    → Runs (if single_shot then stopped else polling) slot
idle-Runs true slot = tt
idle-Runs false slot = tt

cancelled-completed :
    {A : Type 0} (slot : BlockWorkSlot) → (cancel_slot slot).status ≡ slot_completed → A
unfolding cancel_slot
cancelled-completed slot e = absurd (omega arith)

module _ (call : ℕ → Args → ℕ) where
  poll-Consistent : (g : Grid) → Consistent call g → Consistent call (poll g)
  unfolding poll
  poll-Consistent g c = elim (Bool-cases (g.slot.status == slot_cancelled)) [
    | inl e ↦ rw e (record { runs = tt; completed = c.completed })
    | inr e ↦ rw e (elim (Bool-cases (g.slot.status == slot_work_available)) [
      | inl f ↦ rw f (record {
        runs = (refl, refl, inl ((==_iff g.slot.status slot_work_available).0 f));
        completed = c.completed;
      })
      | inr f ↦ rw f c
    ])
  ]

  finish-Consistent :
      (g : Grid) (single_shot : Bool) (f : ℕ) (a : Args)
      → g.worker ≡ running f a
      → Consistent call g
      → Consistent call (finish call single_shot f a g)
  unfolding finish
  finish-Consistent g single_shot f a e c =
      let r : Runs (running f a) g.slot = subst (λ w. Runs w g.slot) e c.runs in
      record {
        runs = idle-Runs single_shot _;
        completed = λ _. sym (ap (λ n. call n g.slot.args) r.0 ∙ ap (call f) r.1);
      }

  Step-Consistent : {g g' : Grid} → Step call g g' → Consistent call g → Consistent call g'
  unfolding dispatch_work reset_slot
  Step-Consistent (polls g e) c = poll-Consistent g c
  Step-Consistent (finishes g single_shot f a e) c = finish-Consistent g single_shot f a e c
  Step-Consistent (starts g e) c = record { runs = tt; completed = c.completed }
  Step-Consistent (dispatches g f a h) c = record {
    runs = quiet_Runs g.worker g.slot _ h c.runs;
    completed = λ e. absurd (omega arith);
  }
  Step-Consistent (cancels g) c = record {
    runs = cancelled-Runs g.worker g.slot c.runs;
    completed = cancelled-completed g.slot;
  }
  Step-Consistent (resets_completed g h) c = record {
    runs = quiet_Runs g.worker g.slot _ (inr h) c.runs;
    completed = λ e. absurd (omega arith);
  }
  Step-Consistent (resets_stopped g h e) c = record {
    runs = subst (λ w. Runs w (reset_slot g.slot)) (sym e) tt;
    completed = λ e. absurd (omega arith);
  }

  Reach-Consistent : {g g' : Grid} → Reach call g g' → Consistent call g → Consistent call g'
  Reach-Consistent here c = c
  Reach-Consistent (next r s) c = Step-Consistent s (Reach-Consistent r c)

  -- From a slot as init_work_slots leaves it, with a worker that is about to poll, and through any
  -- steps of both sides: when the status is SLOT_COMPLETED, the result in the slot is what the work
  -- function that the slot names returns for the arguments in the slot.
  pub completed_result :
      (slot : BlockWorkSlot) (g : Grid)
      → Reach call (record { slot = init_slot slot; worker = polling }) g
      → g.slot.status ≡ slot_completed
      → g.slot.result ≡ call g.slot.work_fn g.slot.args
  unfolding init_slot
  completed_result slot g r =
      (Reach-Consistent r (record { runs = tt; completed = λ e. absurd (omega arith) })).completed
