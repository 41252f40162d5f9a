-- ===== src/Tests/Tables.antt =====
-- A hash map of four slots.
use async_gpu.Prelude.{ℕ, ◌≡◌, refl, true, false, ◌==◌, if◌then◌else◌, some, arith}
use async_gpu.Collections.{
  GpuHashMap, init, init_slots, insert, insert_loop, get, hash, log2_n, log2_loop, fill_slot,
}
use async_gpu.Collections.Probe.{alone}
use async_gpu.Collections.Laws.{IsProbed}
use async_gpu.Collections.Map.{init-IsProbed, get-insert}

abbrev memory : GpuHashMap
memory = record { keys = λ i. 7; values = λ i. 7; len = 7 }

abbrev cleared : GpuHashMap
cleared = init 4 memory

inserted : (insert alone 4 42 100 cleared).0 ≡ true
unfolding insert insert_loop hash log2_n log2_loop init init_slots
inserted = refl

get-insert_example :
    IsProbed 4 (insert alone 4 42 100 cleared).1
    × (get 4 42 (insert alone 4 42 100 cleared).1 ≡ some 100)
get-insert_example =
    get-insert 4 cleared 42 100 42 (omega arith) (omega arith) (init-IsProbed 4 memory)
      (omega arith) inserted

-- Every slot has key 7.
refused : insert alone 4 42 100 memory ≡ (false, memory)
unfolding insert insert_loop hash log2_n log2_loop
refused = refl

-- Another thread takes each slot that is found free, with key 9.
abbrev taking : ℕ → GpuHashMap → GpuHashMap
taking left m = if left == 3 then fill_slot 3 9 1 m else m

abbrev raced : GpuHashMap
raced = (insert taking 4 42 100 cleared).1

raced_run : insert taking 4 42 100 cleared ≡ (true, raced)
unfolding insert insert_loop hash log2_n log2_loop init init_slots
raced_run = refl
