-- ===== src/Tests/Locks.antt =====
-- Two threads at a mutex that holds a number.
use async_gpu.Prelude.{ℕ, suc, ◌≡◌, refl, [], ◌∷◌}
use async_gpu.Lock.{lock_round, cas_lock, new}
use async_gpu.Lock.Steps.{
  System, spinning, inside, loaded, starts, rounds, loads, stores, Reach, here, next, moved,
}
use async_gpu.Lock.Exclusive.{initial, mutual_exclusion, no_lost_update}

abbrev waiting : System ℕ
waiting = moved 4 (spinning 0) (initial 5).mutex (initial 5)

abbrev entered : System ℕ
entered = moved 4 inside (lock_round 0 waiting.mutex).1 waiting

abbrev read : System ℕ
read = moved 4 (loaded entered.mutex.value) entered.mutex entered

abbrev written : System ℕ
written = record (moved 4 inside (record read.mutex { value = suc read.mutex.value }) read) {
  writes = suc ∷ [];
}

entered-Reach : Reach (initial 5) entered
unfolding lock_round cas_lock new
entered-Reach = next (next here (starts (initial 5) 4 refl)) (rounds waiting 4 0 refl)

written-Reach : Reach (initial 5) written
unfolding lock_round cas_lock new
written-Reach =
    next (next entered-Reach (loads entered 4 refl)) (stores read 4 read.mutex.value suc refl)

mutual_exclusion_example : ◌≡◌ {A = ℕ} 4 4
mutual_exclusion_example = mutual_exclusion 5 entered 4 4 entered-Reach tt tt

no_lost_update_example : written.mutex.value ≡ 6
no_lost_update_example = no_lost_update 5 written written-Reach
