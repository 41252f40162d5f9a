-- ===== src/Collections/Full.antt =====
-- When an insert of Collections fails.
use async_gpu.Prelude.{
  ℕ, zero, suc, ◌+◌, ◌-◌, ◌%◌, ◌^◌, ◌<◌, ◌≤◌, ◌≡◌, ◌≢◌, ◌∙◌, sym, ap, inl, inr, Bool, false, arith,
  dec_lt,
}
use native.Mathlib.Nat.{mod-lt, mod-eq_of_lt, mod-add-mod, add-zero, add-mod_right}
use async_gpu.Collections.{GpuHashMap, empty_key, hash, insert}
use async_gpu.Collections.Probe.{full, find, placed, alone}
use async_gpu.Collections.Laws.{scan, insert-scan, Found-cases}
use async_gpu.Collections.Hash.{hash-lt}

-- Every slot that the scan passed has another key.
find-full :
    (capacity left idx key j : ℕ) (keys : ℕ → ℕ)
    → idx < capacity
    → find capacity left idx key keys ≡ full
    → j < left
    → (keys ((idx + j) % capacity) ≢ empty_key) × (keys ((idx + j) % capacity) ≢ key)
unfolding find
find-full capacity zero idx key j keys h e lt = absurd (omega (arith, lt))
find-full capacity (suc left) idx key zero keys h e lt =
    rw (add-zero idx, mod-eq_of_lt h) (ground arith)
find-full capacity (suc left) idx key (suc j) keys h e lt =
    let step : (idx + suc j) % capacity ≡ ((idx + 1) % capacity + j) % capacity =
      ap (λ (n : ℕ). n % capacity) (omega arith) ∙ sym (mod-add-mod (idx + 1) capacity j) in
    rw step (
      ground (
        arith,
        find-full capacity left ((idx + 1) % capacity) key j keys (mod-lt (idx + 1) (omega arith)),
      ))

-- The scan from `idx` reaches every slot.
reached :
    (capacity idx i : ℕ)
    → idx < capacity
    → i < capacity
    → (j : ℕ) × (j < capacity) × ((idx + j) % capacity ≡ i)
reached capacity idx i h k = elim (dec_lt i idx) [
  | no p ↦
      let e : idx + (i - idx) ≡ i = omega arith in (i - idx, omega arith, rw e (mod-eq_of_lt k))
  | yes p ↦
      let e : idx + (i + capacity - idx) ≡ i + capacity = omega arith in
      (i + capacity - idx, omega arith, rw (e, add-mod_right i capacity) (mod-eq_of_lt k))
]

-- An `insert` of a key other than 0 in a table of 1 to 2³² slots that returns false, with no other
-- thread in its gaps, leaves the table as it was, and every slot has a key other than 0 and other
-- than the one given.
pub insert_full :
    (capacity : ℕ) (m : GpuHashMap) (key value : ℕ) {m' : GpuHashMap}
    → 0 < capacity
    → capacity ≤ 2 ^ 32
    → key ≢ empty_key
    → insert alone capacity key value m ≡ (false, m')
    → (m' ≡ m) × ((i : ℕ) → i < capacity → (m.keys i ≢ empty_key) × (m.keys i ≢ key))
insert_full capacity m key value pos small ne e =
    let run = sym (insert-scan capacity key value m ne) ∙ e in
    elim (Found-cases (scan capacity key m.keys)) [
      | inl (i, f) ↦ absurd (let r = sym (ap (placed key value m) f) ∙ run in (cc))
      | inr (inl (i, f)) ↦ absurd (let r = sym (ap (placed key value m) f) ∙ run in (cc))
      | inr (inr f) ↦
          let r = sym (ap (placed key value m) f) ∙ run in
          (
            ap (λ (p : Bool × GpuHashMap). p.1) (sym r),
            λ i lt.
                let start = hash-lt capacity pos small key in
                let (j, far, here) = reached capacity (hash capacity key) i start lt in
                rw here at
                  (find-full capacity capacity (hash capacity key) key j m.keys start f far),
          )
    ]
