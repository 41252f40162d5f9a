-- ===== src/Grid/Cancel.antt =====
-- A dispatch from end to end, and a cancellation that comes while the worker runs.
use async_gpu.Prelude.{
  ℕ, zero, suc, ◌≡◌, refl, ap, ◌∙◌, true, false, if◌then◌else◌, List, [], ◌∷◌, map, some, Bool,
}
use async_gpu.Grid.{
  slot_completed, Args, cancel_slot, Worker, polling, running, stopped, Grid, poll, finish,
  wait_slot_done,
}
use async_gpu.Grid.Reach.{on_slot}

-- The worker polls so many times.
abbrev pub poll_times : ℕ → Grid → Grid
poll_times zero g = g
poll_times (suc n) g = poll_times n (poll g)

-- What the worker does when it has its turn, by where it is.
abbrev pub worker_step : (ℕ → Args → ℕ) → Bool → Worker → Grid → Grid
worker_step call single_shot polling g = poll g
worker_step call single_shot (running f a) g = finish call single_shot f a g
worker_step call single_shot stopped g = g

-- Between two loads of the waiting loop the worker makes a step or makes none.
abbrev pub turn : (ℕ → Args → ℕ) → Bool → Bool → Grid → Grid
turn call single_shot true g = worker_step call single_shot g.worker g
turn call single_shot false g = g

abbrev pub steps : List Bool → ℕ
steps [] = 0
steps (true ∷ turns) = suc (steps turns)
steps (false ∷ turns) = steps turns

-- The wait ends with SLOT_COMPLETED, the result of the call, and the worker where its loop leaves it.
abbrev pub Completes : (ℕ → Args → ℕ) → Bool → ℕ → Args → List Bool → Grid → Type 0
Completes call single_shot f a turns g =
    (g' : Grid) × (wait_slot_done (map (turn call single_shot) turns) g ≡ some (slot_completed, g'))
    × (g'.slot.result ≡ call f a)
    × (g'.worker ≡ (if single_shot then stopped else polling))

poll-completed : (g : Grid) → g.slot.status ≡ slot_completed → poll g ≡ g
unfolding poll
poll-completed g h = rw h refl

stuck :
    (n : ℕ) (g : Grid) → g.worker ≡ polling → g.slot.status ≡ slot_completed → poll_times n g ≡ g
stuck zero g e h = refl
stuck (suc n) g e h = ap (poll_times n) (poll-completed g h) ∙ stuck n g e h

-- A slot is cancelled while its worker runs in grid_worker_loop_continuous. When the call returns, the
-- worker stores SLOT_COMPLETED over SLOT_CANCELLED, and however often it polls after that, it stays in
-- its loop, and the status is SLOT_COMPLETED still.
pub cancel_lost :
    (call : ℕ → Args → ℕ) (f : ℕ) (a : Args) (g : Grid) (n : ℕ)
    → g.worker ≡ running f a
    → let g' = poll_times n (finish call false f a (on_slot cancel_slot g)) in
      (g'.worker ≡ polling) × (g'.slot.status ≡ slot_completed)
unfolding finish cancel_slot
cancel_lost call f a g n e =
    let ended = finish call false f a (on_slot cancel_slot g) in
    let same = stuck n ended refl refl in
    (ap (λ (x : Grid). x.worker) same, ap (λ (x : Grid). x.slot.status) same)
