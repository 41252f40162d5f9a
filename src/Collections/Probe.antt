-- ===== src/Collections/Probe.antt =====
-- The scan that `insert` and `get` share: the slot of a key, or the free slot that ends the search.
use async_gpu.Prelude.{
  ℕ, zero, suc, ◌+◌, ◌%◌, ◌<◌, ◌≡◌, ◌≢◌, refl, Bool, true, false, ◌==◌, if◌then◌else◌, Option, none,
  some, update, arith,
}
use native.Mathlib.Nat.{mod-lt}
use async_gpu.Collections.{GpuHashMap, empty_key, set_value, fill_slot, insert_loop, get_loop}

pub data Found : Type 0 where
  at free : ℕ → Found
  full : Found

unfoldable pub find : ℕ → ℕ → ℕ → ℕ → (ℕ → ℕ) → Found
find capacity zero idx key keys = full
find capacity (suc left) idx key keys =
    let rest = find capacity left ((idx + 1) % capacity) key keys in
    if keys idx == key then at idx else if keys idx == empty_key then free idx else rest

abbrev pub placed : ℕ → ℕ → GpuHashMap → Found → Bool × GpuHashMap
placed key value m (at i) = (true, set_value i value m)
placed key value m (free i) = (true, fill_slot i key value m)
placed key value m full = (false, m)

abbrev pub looked_up : GpuHashMap → Found → Option ℕ
looked_up m (at i) = some (m.values i)
looked_up m (free i) = none
looked_up m full = none

-- No other thread.
abbrev pub alone : ℕ → GpuHashMap → GpuHashMap
alone left m = m

pub insert_loop-find :
    (capacity left idx key value : ℕ) (m : GpuHashMap)
    → insert_loop alone capacity left idx key value m
      ≡ placed key value m (find capacity left idx key m.keys)
unfolding insert_loop find
insert_loop-find capacity zero idx key value m = refl
insert_loop-find capacity (suc left) idx key value m =
    ground (arith, insert_loop-find capacity left ((idx + 1) % capacity) key value m)

pub get_loop-find :
    (capacity left idx key : ℕ) (m : GpuHashMap)
    → get_loop capacity left idx key m ≡ looked_up m (find capacity left idx key m.keys)
unfolding get_loop find
get_loop-find capacity zero idx key m = refl
get_loop-find capacity (suc left) idx key m =
    ground (arith, get_loop-find capacity left ((idx + 1) % capacity) key m)

-- What the scan found is there.
pub find-at :
    (capacity left idx key i : ℕ) (keys : ℕ → ℕ)
    → 0 < capacity
    → idx < capacity
    → find capacity left idx key keys ≡ at i
    → (keys i ≡ key) × (i < capacity)
unfolding find
find-at capacity zero idx key i keys pos h e = absurd (cc)
find-at capacity (suc left) idx key i keys pos h e =
    ground
      (arith, mod-lt (idx + 1) pos, find-at capacity left ((idx + 1) % capacity) key i keys pos)

pub find-free :
    (capacity left idx key i : ℕ) (keys : ℕ → ℕ)
    → find capacity left idx key keys ≡ free i
    → keys i ≡ empty_key
unfolding find
find-free capacity zero idx key i keys e = absurd (cc)
find-free capacity (suc left) idx key i keys e =
    ground (arith, find-free capacity left ((idx + 1) % capacity) key i keys)

-- A scan that found its key does not see a free slot being filled.
pub find-update_at :
    (capacity left idx key i j new : ℕ) (keys : ℕ → ℕ)
    → key ≢ empty_key
    → keys j ≡ empty_key
    → find capacity left idx key keys ≡ at i
    → find capacity left idx key (update keys j new) ≡ at i
unfolding find
find-update_at capacity zero idx key i j new keys ne h e = e
find-update_at capacity (suc left) idx key i j new keys ne h e =
    ground (arith, find-update_at capacity left ((idx + 1) % capacity) key i j new keys)

-- A scan that ended at a free slot finds its key there once it is filled with it.
pub find-update_free :
    (capacity left idx key i : ℕ) (keys : ℕ → ℕ)
    → find capacity left idx key keys ≡ free i
    → find capacity left idx key (update keys i key) ≡ at i
unfolding find
find-update_free capacity zero idx key i keys e = absurd (cc)
find-update_free capacity (suc left) idx key i keys e = ground (
  arith,
  find-free capacity left ((idx + 1) % capacity) key i keys,
  find-update_free capacity left ((idx + 1) % capacity) key i keys,
)
