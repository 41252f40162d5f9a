-- ===== src/Collections/Map.antt =====
-- Collections with no other thread in its gaps: inserts and look-ups.
use async_gpu.Prelude.{
  ℕ, zero, suc, ◌^◌, ◌<◌, ◌≤◌, ◌≡◌, ◌≢◌, ◌∙◌, refl, sym, ap, Bool, true, false, ◌==◌, ne→==,
  if◌then◌else◌, Option, none, some, arith, ℕ_discrete,
}
use async_gpu.Collections.{GpuHashMap, empty_key, init_slots, init, insert, get}
use async_gpu.Collections.Probe.{full, placed, alone}
use async_gpu.Collections.Laws.{
  IsProbed, scan, insert-scan, get-scan, placed-IsProbed, placed-lookup,
}
use async_gpu.Collections.Hash.{hash-lt}

init_slots-free : (n : ℕ) (m : GpuHashMap) (i : ℕ) → i < n → (init_slots n m).keys i ≡ empty_key
unfolding init_slots
init_slots-free zero m i h = absurd (omega (arith, h))
init_slots-free (suc n) m i h = ground (arith, init_slots-free n m i)

-- `init` of any memory makes a table in which every look-up finds nothing.
pub init-IsProbed : (capacity : ℕ) (m : GpuHashMap) → IsProbed capacity (init capacity m)
unfolding init
init-IsProbed capacity m = record {
  found = λ i key h e ne. absurd (ne (sym e ∙ init_slots-free capacity m i h));
}

-- `get` of key 0 finds nothing.
get-zero : (capacity : ℕ) (m : GpuHashMap) → get capacity 0 m ≡ none
unfolding get
get-zero capacity m = refl

-- In a table of 1 to 2³² slots in which every key is where its scan finds it, an `insert` of a key
-- other than 0 that returns true, with no other thread in its gaps, keeps that invariant; a `get` of
-- the key then finds the value, new or overwritten, and a `get` of any other key what it found
-- before.
pub get-insert :
    (capacity : ℕ) (m : GpuHashMap) (key value other : ℕ)
    → 0 < capacity
    → capacity ≤ 2 ^ 32
    → IsProbed capacity m
    → key ≢ empty_key
    → (insert alone capacity key value m).0 ≡ true
    → let m' = (insert alone capacity key value m).1 in
      IsProbed capacity m'
      × (get capacity other m' ≡ (if other == key then some value else get capacity other m))
get-insert capacity m key value other pos small w ne ok =
    let bound = hash-lt capacity pos small in
    let run = insert-scan capacity key value m ne in
    let f = scan capacity key m.keys in
    let nf : f ≢ full = λ e.
      true_ne (sym ok ∙ ap (λ (r : Bool × GpuHashMap). r.0) (run ∙ ap (placed key value m) e)) in
    rw run (
      placed-IsProbed pos bound m key value f w refl,
      elim (ℕ_discrete other 0) [
        | yes z ↦ rw (z, get-zero, get-zero capacity m, ne→== 0 key (λ q. ne (sym q))) refl
        | no nz ↦
            get-scan capacity other _ nz
            ∙ placed-lookup pos bound m key value other f w nz refl nf
            ∙ ap (λ (o : Option ℕ). if other == key then some value else o)
                (sym (get-scan capacity other m nz))
      ],
    )
  where
    true_ne : true ≢ false
    true_ne e = cc
