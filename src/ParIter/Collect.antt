-- ===== src/ParIter/Collect.antt =====
-- What the warps write in `collect_into`.
use native.Mathlib.Nat.{add-mod_right, mod-eq_of_lt, mod-le, mod-lt}
use async_gpu.Channel.Ring.{places_ne}
use async_gpu.Prelude.{
  ℕ, zero, suc, ◌+◌, ◌-◌, ◌%◌, ◌<◌, ◌≤◌, ◌≡◌, ◌≢◌, refl, sym, ap, ◌∙◌, ◌⊎◌, inl, inr, ◌==◌, ltb,
  lt→ltb, le→ltb, Bool-cases, ==_iff, ==→ne, eq→==, if◌then◌else◌, range_from, some, update,
  update_self, update_ne, arith, dec_lt,
}
use async_gpu.ParIter.{
  GpuParallelIterator, warp_loop, total_warps, collect_warps, default_collect_into,
}

module _ {A : Type 0} (it : GpuParallelIterator A) (n : ℕ) (pos : 0 < n) where
  abbrev store_step : (ℕ → A) → ℕ → ℕ → A
  store_step out i = update out i (it.get_unchecked i)

  next_place : (i j : ℕ) → i < j → i % n ≡ j % n → i + n ≤ j
  next_place i j lt same = elim (dec_lt j (i + n)) [
    | no far ↦ omega arith
    | yes near ↦
        let there : i + (j - i) ≡ j = omega arith in
        let here : i ≡ i + 0 = omega arith in
        absurd (
          places_ne n i 0 (j - i) pos pos (omega arith) (omega arith)
            (ap (λ x. x % n) (sym here) ∙ same ∙ ap (λ x. x % n) (sym there)))
  ]

  -- A place that the loop does not come to is none of its next ones either.
  abbrev Off : ℕ → ℕ → Type 0
  Off i j = (j < i) ⊎ ((it.len ≤ j) ⊎ (i % n ≢ j % n))

  later : (i j : ℕ) → Off i j → Off (i + n) j
  later i j (inl below) = inl (omega arith)
  later i j (inr (inl out)) = inr (inl out)
  later i j (inr (inr other)) = inr (inr (λ same. other (sym (add-mod_right i n) ∙ same)))

  apart : (i j : ℕ) → i < it.len → Off i j → i ≢ j
  apart i j more (inl below) = omega arith
  apart i j more (inr (inl out)) = omega arith
  apart i j more (inr (inr other)) = λ same. other (ap (λ x. x % n) same)

  -- It leaves every other place alone.
  warp_keeps :
      (fuel i j : ℕ) (out : ℕ → A) → Off i j → warp_loop fuel it.len n store_step i out j ≡ out j
  unfolding warp_loop
  warp_keeps zero i j out off = refl
  warp_keeps (suc fuel) i j out off = elim (dec_lt i it.len) [
    | no done ↦ rw (le→ltb i it.len (omega arith)) refl
    | yes more ↦ rw (lt→ltb i it.len more) (
        warp_keeps fuel (i + n) j (store_step out i) (later i j off)
        ∙ update_ne out i j (it.get_unchecked i) (apart i j more off))
  ]

  -- The loop from `i` on writes the element at `j`, if it comes to `j`.
  warp_writes :
      (fuel i j : ℕ) (out : ℕ → A)
      → it.len ≤ i + fuel
      → i ≤ j
      → j < it.len
      → i % n ≡ j % n
      → warp_loop fuel it.len n store_step i out j ≡ it.get_unchecked j
  unfolding warp_loop
  warp_writes zero i j out enough le lt same = absurd (omega arith)
  warp_writes (suc fuel) i j out enough le lt same = elim (Bool-cases (i == j)) [
    | inl here ↦
        let at : i ≡ j = (==_iff i j).0 here in
        rw (lt→ltb i it.len (omega arith)) (
          warp_keeps fuel (i + n) j (store_step out i) (inl (omega arith))
          ∙ ap (λ k. update out k (it.get_unchecked k) j) at
          ∙ update_self out j (it.get_unchecked j))
    | inr there ↦
        let further = next_place i j (omega (arith, ==→ne i j there)) same in
        rw (lt→ltb i it.len (omega arith)) (
          warp_writes fuel (i + n) j (store_step out i) (omega arith) further lt
            (add-mod_right i n ∙ same))
  ]

  -- After warp `a`, the place of a later warp is still to come, and any other has its element.
  after_warp :
      (a j : ℕ) (out : ℕ → A)
      → a < n
      → j < it.len
      → (a ≤ j % n) ⊎ (out j ≡ it.get_unchecked j)
      → (suc a ≤ j % n) ⊎ (warp_loop it.len it.len n store_step a out j ≡ it.get_unchecked j)
  after_warp a j out small lt h = elim (Bool-cases (a == j % n)) [
    | inl mine ↦
        let at : a ≡ j % n = (==_iff a (j % n)).0 mine in
        inr (
          warp_writes it.len a j out (omega arith) (omega (arith, mod-le j n)) lt
            (mod-eq_of_lt small ∙ at))
    | inr other ↦
        let ne = ==→ne a (j % n) other in
        elim h [
          | inl le ↦ inl (omega arith)
          | inr done ↦ inr (
              warp_keeps it.len a j out (inr (inr (λ same. ne (sym (mod-eq_of_lt small) ∙ same))))
              ∙ done)
        ]
  ]

  -- The warps from `a` on, of which there are `k`.
  collect_from :
      (a k j : ℕ) (out : ℕ → A)
      → a + k ≡ n
      → j < it.len
      → (a ≤ j % n) ⊎ (out j ≡ it.get_unchecked j)
      → collect_warps it n (range_from a k) out j ≡ it.get_unchecked j
  unfolding collect_warps
  collect_from a zero j out all lt (inl later_warp) = absurd (omega (arith, mod-lt j pos))
  collect_from a zero j out all lt (inr done) = done
  collect_from a (suc k) j out all lt h =
      collect_from (suc a) k j _ (omega arith) lt (after_warp a j out (omega arith) lt h)

  collect_beyond :
      (a k j : ℕ) (out : ℕ → A) → it.len ≤ j → collect_warps it n (range_from a k) out j ≡ out j
  unfolding collect_warps
  collect_beyond a zero j out le = refl
  collect_beyond a (suc k) j out le =
      collect_beyond (suc a) k j _ le ∙ warp_keeps it.len a j out (inr (inl le))

-- The output after the warps of a block.
abbrev stored : {A : Type 0} → ℕ → GpuParallelIterator A → (ℕ → A) → ℕ → A
stored num_warps it out =
    if it.len == 0
    then out
    else collect_warps it (total_warps num_warps) (range_from 0 (total_warps num_warps)) out

stored-elements :
    {A : Type 0} (num_warps j : ℕ) (it : GpuParallelIterator A) (out : ℕ → A)
    → stored num_warps it out j ≡ (if ltb j it.len then it.get_unchecked j else out j)
stored-elements num_warps j it out =
    let n = total_warps num_warps in
    let pos : 0 < n = ground arith in
    elim (Bool-cases (it.len == 0)) [
      | inl empty ↦
          let none_left : it.len ≡ 0 = (==_iff it.len 0).0 empty in
          rw (empty, le→ltb j it.len (omega arith)) refl
      | inr more ↦ elim (dec_lt j it.len) [
        | yes lt ↦
            rw (more, lt→ltb j it.len lt)
              (collect_from it n pos 0 n j out (omega arith) lt (inl (omega arith)))
        | no beyond ↦
            rw (more, le→ltb j it.len (omega arith))
              (collect_beyond it n pos 0 n j out (omega arith))
      ]
    ]

-- With an output as long as the iterator and any number of warps, `collect_into` returns; it has
-- stored each element at its own index, and nothing behind the last.
pub collect_into_all :
    {A : Type 0} (num_warps j : ℕ) (it : GpuParallelIterator A) (out : ℕ → A)
    → (out' : ℕ → A) × (default_collect_into num_warps it out it.len ≡ some out')
      × (out' j ≡ (if ltb j it.len then it.get_unchecked j else out j))
unfolding default_collect_into
collect_into_all num_warps j it out = (
  stored num_warps it out,
  rw (eq→== it.len it.len refl) refl,
  stored-elements num_warps j it out,
)
