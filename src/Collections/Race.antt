-- ===== src/Collections/Race.antt =====
-- Inserts that other threads overtake.
use async_gpu.Prelude.{
  ℕ, zero, suc, ◌+◌, ◌%◌, ◌^◌, ◌<◌, ◌≤◌, ◌≡◌, refl, Bool, true, false, ◌==◌, if◌then◌else◌,
  update_self, arith, ==_iff, Bool-cases, inl, inr,
}
use mathlib.Core.Path.{subst}
use native.Mathlib.Nat.{mod-lt}
use async_gpu.Collections.{GpuHashMap, empty_key, hash, insert, insert_loop, set_value, fill_slot}
use async_gpu.Collections.Hash.{hash-lt}

-- Some slot of the map has the key and the value.
abbrev pub Stored : ℕ → ℕ → ℕ → GpuHashMap → Type 0
Stored capacity key value m = (i : ℕ) × (i < capacity) × (m.keys i ≡ key) × (m.values i ≡ value)

abbrev Kept : ℕ → ℕ → ℕ → Bool × GpuHashMap → Type 0
Kept capacity key value (true, m) = Stored capacity key value m
Kept capacity key value (false, m) = Unit

-- The branches of a round.
round-Kept :
    (capacity key value : ℕ) (found vacant won same : Bool) (r₁ r₂ r₃ rest : Bool × GpuHashMap)
    → (found ≡ true → Kept capacity key value r₁)
    → (won ≡ true → Kept capacity key value r₂)
    → (same ≡ true → Kept capacity key value r₃)
    → Kept capacity key value rest
    → Kept capacity key value (
        if found
        then r₁
        else if vacant
        then if won then r₂ else if same then r₃ else rest
        else rest)
round-Kept capacity key value true vacant won same r₁ r₂ r₃ rest a b c k = a refl
round-Kept capacity key value false false won same r₁ r₂ r₃ rest a b c k = k
round-Kept capacity key value false true true same r₁ r₂ r₃ rest a b c k = b refl
round-Kept capacity key value false true false true r₁ r₂ r₃ rest a b c k = c refl
round-Kept capacity key value false true false false r₁ r₂ r₃ rest a b c k = k

insert_loop-Kept :
    (others : ℕ → GpuHashMap → GpuHashMap) (capacity left idx key value : ℕ) (m : GpuHashMap)
    → idx < capacity
    → Kept capacity key value (insert_loop others capacity left idx key value m)
unfolding insert_loop
insert_loop-Kept others capacity zero idx key value m h = tt
insert_loop-Kept others capacity (suc left) idx key value m h =
    let m' : GpuHashMap = if m.keys idx == empty_key then others left m else m in
    round-Kept capacity key value (m.keys idx == key) (m.keys idx == empty_key)
      (m'.keys idx == empty_key) (m'.keys idx == key) (true, set_value idx value m)
      (true, fill_slot idx key value m') (true, set_value idx value m') _
      (λ e. (idx, h, (==_iff (m.keys idx) key).0 e, update_self m.values idx value))
      (λ e. (idx, h, update_self m'.keys idx key, update_self m'.values idx value))
      (λ e. (idx, h, (==_iff (m'.keys idx) key).0 e, update_self m'.values idx value))
      (insert_loop-Kept others capacity left ((idx + 1) % capacity) key value m'
        (mod-lt (idx + 1) (omega arith)))

insert-Kept :
    (others : ℕ → GpuHashMap → GpuHashMap) (capacity key value : ℕ) (m : GpuHashMap)
    → 0 < capacity
    → capacity ≤ 2 ^ 32
    → Kept capacity key value (insert others capacity key value m)
unfolding insert
insert-Kept others capacity key value m pos small = elim (Bool-cases (key == empty_key)) [
  | inl e ↦ rw e tt
  | inr e ↦ rw e (
      insert_loop-Kept others capacity capacity (hash capacity key) key value m
        (hash-lt capacity pos small key))
]

-- Whatever other threads do to the table between the reads and the compare-and-swaps of an `insert`
-- in a table of 1 to 2³² slots, if it returns true, some slot has the key and the value when it does.
pub insert_stores :
    (others : ℕ → GpuHashMap → GpuHashMap) (capacity key value : ℕ) (m : GpuHashMap)
    {m' : GpuHashMap}
    → 0 < capacity
    → capacity ≤ 2 ^ 32
    → insert others capacity key value m ≡ (true, m')
    → Stored capacity key value m'
insert_stores others capacity key value m pos small e =
    subst (Kept capacity key value) e (insert-Kept others capacity key value m pos small)
