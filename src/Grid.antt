-- ===== src/Grid.antt =====
-- crates/core/gpu-runtime/src/grid_work.rs: one work slot in global memory, between the coordinator
-- block, which dispatches work and reads results, and a worker block, which polls the slot. A work
-- function is named by its pointer, and a parameter says what it returns.
pub mod Reach
pub mod Cancel
use async_gpu.Prelude.{ℕ, ◌==◌, if◌then◌else◌, Bool, ◌||◌, List, [], ◌∷◌, Option, none, some}

abbrev pub slot_idle : ℕ
slot_idle = 0

abbrev pub slot_work_available : ℕ
slot_work_available = 1

abbrev pub slot_completed : ℕ
slot_completed = 2

abbrev pub slot_cancelled : ℕ
slot_cancelled = 3

-- `[u64; 4]`
abbrev pub Args : Type 0
Args = ℕ × ℕ × ℕ × ℕ

pub record BlockWorkSlot : Type 0 where
  pub status : ℕ
  pub work_fn : ℕ
  pub args : Args
  pub result : ℕ

-- The body of `init_work_slots` for one slot.
unfoldable pub init_slot : BlockWorkSlot → BlockWorkSlot
init_slot slot = record { status = slot_idle; work_fn = 0; args = (0, 0, 0, 0); result = 0 }

unfoldable pub dispatch_work : ℕ → Args → BlockWorkSlot → BlockWorkSlot
dispatch_work work_fn args slot = record {
  status = slot_work_available;
  work_fn = work_fn;
  args = args;
  result = 0;
}

unfoldable pub cancel_slot : BlockWorkSlot → BlockWorkSlot
cancel_slot slot = record slot { status = slot_cancelled }

unfoldable pub reset_slot : BlockWorkSlot → BlockWorkSlot
reset_slot slot = record { status = slot_idle; work_fn = 0; args = (0, 0, 0, 0); result = 0 }

-- Where the worker is in its loop: before the load of the status, in the call of a work function with
-- what it has read, or out of the loop.
pub data Worker : Type 0 where
  polling : Worker
  running : (work_fn : ℕ) (args : Args) → Worker
  stopped : Worker

pub record Grid : Type 0 where
  pub slot : BlockWorkSlot
  pub worker : Worker

-- A round of either loop up to the call.
unfoldable pub poll : Grid → Grid
poll g =
    if g.slot.status == slot_cancelled
    then record g { worker = stopped }
    else if g.slot.status == slot_work_available
    then record g { worker = running g.slot.work_fn g.slot.args }
    else g

-- The end of the call: the result and the status are stored. The single-shot loop
-- (grid_worker_loop) then returns, grid_worker_loop_continuous goes on.
unfoldable pub finish : (ℕ → Args → ℕ) → Bool → ℕ → Args → Grid → Grid
finish call single_shot work_fn args g = record {
  slot = record g.slot { status = slot_completed; result = call work_fn args };
  worker = if single_shot then stopped else polling;
}

-- `wait_slot_done`, with what the worker does before each load; `none` if it still waits at the end.
unfoldable pub wait_slot_done : List (Grid → Grid) → Grid → Option (ℕ × Grid)
wait_slot_done [] g = none
wait_slot_done (others ∷ rest) g =
    let g' = others g in
    let s : ℕ = g'.slot.status in
    let later = wait_slot_done rest g' in
    if (s == slot_completed) || (s == slot_cancelled) then some (s, g') else later
