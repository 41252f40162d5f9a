-- ===== src/Collections/Laws.antt =====
-- The invariant of Collections, and what an insert does to scans.
use async_gpu.Prelude.{
  ℕ, ◌<◌, ◌≡◌, ◌≢◌, ◌∙◌, refl, sym, ap, ◌⊎◌, inl, inr, ◌==◌, eq→==, ne→==, if◌then◌else◌, none,
  some, update, update_self, update_ne, ℕ_discrete,
}
use async_gpu.Collections.{GpuHashMap, empty_key, set_value, fill_slot, hash, insert, get}
use async_gpu.Collections.Probe.{
  Found, at, free, full, find, placed, looked_up, alone, insert_loop-find, get_loop-find, find-at,
  find-free, find-update_at, find-update_free,
}

-- Where the scan for a key ends.
abbrev pub scan : ℕ → ℕ → (ℕ → ℕ) → Found
scan capacity key keys = find capacity capacity (hash capacity key) key keys

-- Every key is where its scan finds it.
pub record IsProbed (capacity : ℕ) (m : GpuHashMap) : Type 0 where
  pub found :
      (i key : ℕ)
      → i < capacity
      → m.keys i ≡ key
      → key ≢ empty_key
      → scan capacity key m.keys ≡ at i

pub Found-cases : (f : Found) → ((i : ℕ) × (f ≡ at i)) ⊎ ((i : ℕ) × (f ≡ free i)) ⊎ (f ≡ full)
Found-cases (at i) = inl (i, refl)
Found-cases (free i) = inr (inl (i, refl))
Found-cases full = inr (inr refl)

pub insert-scan :
    (capacity key value : ℕ) (m : GpuHashMap)
    → key ≢ empty_key
    → insert alone capacity key value m ≡ placed key value m (scan capacity key m.keys)
unfolding insert
insert-scan capacity key value m ne =
    rw (ne→== key 0 ne) (insert_loop-find capacity capacity (hash capacity key) key value m)

pub get-scan :
    (capacity key : ℕ) (m : GpuHashMap)
    → key ≢ empty_key
    → get capacity key m ≡ looked_up m (scan capacity key m.keys)
unfolding get
get-scan capacity key m ne =
    rw (ne→== key 0 ne) (get_loop-find capacity capacity (hash capacity key) key m)

module _ {capacity : ℕ} (pos : 0 < capacity)
    (bound : (key : ℕ) → hash capacity key < capacity) where
  -- A scan that does not find its key says that no slot has it.
  absent :
      (m : GpuHashMap) (key : ℕ)
      → IsProbed capacity m
      → key ≢ empty_key
      → ((i : ℕ) → scan capacity key m.keys ≢ at i)
      → (i : ℕ) → i < capacity
      → m.keys i ≢ key
  absent m key w ne never i h e = never i (w.found i key h e ne)

  fill_slot-IsProbed :
      (m : GpuHashMap) (key value i : ℕ)
      → IsProbed capacity m
      → scan capacity key m.keys ≡ free i
      → IsProbed capacity (fill_slot i key value m)
  fill_slot-IsProbed m key value i w e =
      let vacant = find-free capacity capacity (hash capacity key) key i m.keys e in
      record {
        found = λ j other h at_j ne. elim (ℕ_discrete j i) [
          | yes same ↦
              let k : other ≡ key =
                sym at_j ∙ ap (update m.keys i key) same ∙ update_self m.keys i key in
              rw (same, k) (find-update_free capacity capacity (hash capacity key) key i m.keys e)
          | no apart ↦
              find-update_at capacity capacity (hash capacity other) other j i key m.keys ne vacant
                (w.found j other h (sym (update_ne m.keys i j key (λ q. apart (sym q))) ∙ at_j) ne)
        ];
      }

  -- Setting a value moves no key.
  set_value-IsProbed :
      (m : GpuHashMap) (value i : ℕ) → IsProbed capacity m → IsProbed capacity (set_value i value m)
  set_value-IsProbed m value i w = record { found = w.found }

  pub placed-IsProbed :
      (m : GpuHashMap) (key value : ℕ) (f : Found)
      → IsProbed capacity m
      → scan capacity key m.keys ≡ f
      → IsProbed capacity (placed key value m f).1
  placed-IsProbed m key value (at i) w e = set_value-IsProbed m value i w
  placed-IsProbed m key value (free i) w e = fill_slot-IsProbed m key value i w e
  placed-IsProbed m key value full w e = w

  keys-at :
      (keys : ℕ → ℕ) (key i : ℕ) → scan capacity key keys ≡ at i → (keys i ≡ key) × (i < capacity)
  keys-at keys key i e = find-at capacity capacity (hash capacity key) key i keys pos (bound key) e

  looked_up-never : (m : GpuHashMap) (f : Found) → ((i : ℕ) → f ≢ at i) → looked_up m f ≡ none
  looked_up-never m (at i) never = absurd (never i refl)
  looked_up-never m (free i) never = refl
  looked_up-never m full never = refl

  -- A look-up does not see the value of another key's slot being set.
  set_value-other :
      (m : GpuHashMap) (key value other i : ℕ)
      → other ≢ key
      → m.keys i ≡ key
      → looked_up (set_value i value m) (scan capacity other m.keys)
        ≡ looked_up m (scan capacity other m.keys)
  set_value-other m key value other i ne k = elim (Found-cases (scan capacity other m.keys)) [
    | inl (j, e) ↦
        let apart : i ≢ j = λ q. ne (sym (keys-at m.keys other j e).0 ∙ ap m.keys (sym q) ∙ k) in
        rw (e, update_ne m.values i j value apart) refl
    | inr (inl (j, e)) ↦ rw e refl
    | inr (inr e) ↦ rw e refl
  ]

  -- Nor a free slot being filled with another key.
  fill_slot-other :
      (m : GpuHashMap) (key value other i : ℕ)
      → IsProbed capacity m
      → other ≢ key
      → other ≢ empty_key
      → m.keys i ≡ empty_key
      → looked_up (fill_slot i key value m) (scan capacity other (update m.keys i key))
        ≡ looked_up m (scan capacity other m.keys)
  fill_slot-other m key value other i w ne nz vacant =
      elim (Found-cases (scan capacity other m.keys)) [
        | inl (j, e) ↦
            let apart : i ≢ j =
              λ q. nz (sym (keys-at m.keys other j e).0 ∙ ap m.keys (sym q) ∙ vacant) in
            rw
              (
                find-update_at capacity capacity (hash capacity other) other j i key m.keys nz
                    vacant e,
                e,
                update_ne m.values i j value apart,
              )
              refl
        | inr r ↦
            let never : (j : ℕ) → scan capacity other m.keys ≢ at j = elim r [
              | inl (j, e) ↦ (λ k q. cc)
              | inr e ↦ (λ k q. cc)
            ] in
            looked_up-never (fill_slot i key value m) _ (λ j e.
              let (k, lt) = keys-at (update m.keys i key) other j e in
              let apart : i ≢ j =
                λ q. ne (sym k ∙ ap (update m.keys i key) (sym q) ∙ update_self m.keys i key) in
              absent m other w nz never j lt (sym (update_ne m.keys i j key apart) ∙ k))
            ∙ sym (looked_up-never m _ never)
      ]

  -- What a look-up of `other` finds once the scan for `key` ended at `f` and the value was placed.
  pub placed-lookup :
      (m : GpuHashMap) (key value other : ℕ) (f : Found)
      → IsProbed capacity m
      → other ≢ empty_key
      → scan capacity key m.keys ≡ f
      → f ≢ full
      → let m' = (placed key value m f).1 in
        looked_up m' (scan capacity other m'.keys)
        ≡ (if other == key then some value else looked_up m (scan capacity other m.keys))
  placed-lookup m key value other (at i) w nz e nf = elim (ℕ_discrete other key) [
    | yes q ↦ rw (q, eq→== key key refl, e, update_self m.values i value) refl
    | no ne ↦
        rw (ne→== other key ne) (set_value-other m key value other i ne (keys-at m.keys key i e).0)
  ]
  placed-lookup m key value other (free i) w nz e nf = elim (ℕ_discrete other key) [
    | yes q ↦
        rw
          (
            q,
            eq→== key key refl,
            find-update_free capacity capacity (hash capacity key) key i m.keys e,
            update_self m.values i value,
          )
          refl
    | no ne ↦ rw (ne→== other key ne) (
        fill_slot-other m key value other i w ne nz
          (find-free capacity capacity (hash capacity key) key i m.keys e))
  ]
  placed-lookup m key value other full w nz e nf = absurd (nf refl)
