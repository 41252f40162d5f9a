-- ===== src/Tests/Grids.antt =====
-- A work slot with a function that adds its first two arguments.
use async_gpu.Prelude.{ℕ, ◌+◌, ◌≡◌, refl, inl, false}
use async_gpu.Grid.{
  slot_completed, Args, BlockWorkSlot, init_slot, dispatch_work, cancel_slot, polling, Grid, poll,
  finish,
}
use async_gpu.Grid.Reach.{on_slot, polls, finishes, dispatches, Reach, here, next, completed_result}
use async_gpu.Grid.Cancel.{poll_times, cancel_lost}

abbrev add : ℕ → Args → ℕ
add f a = a.0 + a.1

abbrev blank : BlockWorkSlot
blank = record { status = 9; work_fn = 9; args = (9, 9, 9, 9); result = 9 }

abbrev started : Grid
started = record { slot = init_slot blank; worker = polling }

abbrev dispatched : Grid
dispatched = on_slot (dispatch_work 7 (1, 2, 0, 0)) started

abbrev ended : Grid
ended = finish add false 7 (1, 2, 0, 0) (poll dispatched)

ended-Reach : Reach add started ended
unfolding init_slot dispatch_work poll
ended-Reach =
    next (next (next here (dispatches started 7 (1, 2, 0, 0) (inl refl))) (polls dispatched refl))
      (finishes (poll dispatched) false 7 (1, 2, 0, 0) refl)

completed_result_example : ended.slot.result ≡ 3
unfolding init_slot dispatch_work poll finish
completed_result_example = completed_result add blank ended ended-Reach refl

cancel_lost_example :
    let g' =
      poll_times 3 (finish add false 7 (1, 2, 0, 0) (on_slot cancel_slot (poll dispatched))) in
    (g'.worker ≡ polling) × (g'.slot.status ≡ slot_completed)
unfolding init_slot dispatch_work poll
cancel_lost_example = cancel_lost add 7 (1, 2, 0, 0) (poll dispatched) 3 refl
