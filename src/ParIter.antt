-- ===== src/ParIter.antt =====
-- crates/core/gpu-runtime/src/par_iter.rs: parallel iterators over the warps of a block. The trait is
-- a record of its two operations; a memory region is a function of the index. The warps of
-- `spawn_all` run one after another here, on places that are their own. An item has at most 8 bytes,
-- as the source asserts of a fold.
pub mod Stride
pub mod Fold
pub mod Collect
use async_gpu.Prelude.{
  ℕ, zero, suc, ◌+◌, ◌==◌, ltb, leb, if◌then◌else◌, Bool, List, [], ◌∷◌, Option, none, some, update,
  range_from,
}

pub record GpuParallelIterator (A : Type 0) : Type 0 where
  pub len : ℕ
  pub get_unchecked : ℕ → A

module _ {A : Type 0} where
  -- `GpuSlice::par_iter`
  unfoldable pub par_iter : (ℕ → A) → ℕ → GpuParallelIterator A
  par_iter region len = record { len = len; get_unchecked = region }

  unfoldable pub enumerate : GpuParallelIterator A → GpuParallelIterator (ℕ × A)
  enumerate it = record { len = it.len; get_unchecked = λ i. (i, it.get_unchecked i) }

-- The loop of a warp: from `i` on in steps of `n_warps`, with the number of the elements as fuel.
unfoldable pub warp_loop : {S : Type 0} → ℕ → ℕ → ℕ → (S → ℕ → S) → ℕ → S → S
warp_loop zero len n_warps step i s = s
warp_loop (suc fuel) len n_warps step i s =
    let rest = warp_loop fuel len n_warps step (i + n_warps) (step s i) in
    if ltb i len then rest else s

unfoldable pub map_iter : {A B : Type 0} → (A → B) → GpuParallelIterator A → GpuParallelIterator B
map_iter f it = record { len = it.len; get_unchecked = λ i. f (it.get_unchecked i) }

unfoldable pub zip_iter :
    {A B : Type 0} → GpuParallelIterator A → GpuParallelIterator B → GpuParallelIterator (A × B)
zip_iter a b = record { len = a.len; get_unchecked = λ i. (a.get_unchecked i, b.get_unchecked i) }

-- The number of warps that take part, by NUM_WARPS.
abbrev pub total_warps : ℕ → ℕ
total_warps n = if n == 0 then 1 else n

module _ {A : Type 0} where
  -- `WARP_RESULT`, where each warp has stored the partial result of its loop.
  unfoldable pub partials : ℕ → ℕ → (A → ℕ → A) → A → ℕ → A
  unfolding warp_loop
  partials len n_warps step identity wid = warp_loop len len n_warps step wid identity

  -- Warp 0 combines the partial results.
  unfoldable pub combine : (A → A → A) → (ℕ → A) → List ℕ → A → A
  combine fold_op results [] combined = combined
  combine fold_op results (w ∷ ws) combined =
      combine fold_op results ws (fold_op combined (results w))

  unfoldable pub default_fold : ℕ → GpuParallelIterator A → A → (A → A → A) → A
  unfolding partials combine
  default_fold num_warps it identity fold_op =
      let total = total_warps num_warps in
      let step = λ (acc : A) (i : ℕ). fold_op acc (it.get_unchecked i) in
      if it.len == 0
      then identity
      else combine fold_op (partials it.len total step identity) (range_from 0 total) identity

  -- `GpuFilter::fold`
  unfoldable pub filter_fold : ℕ → GpuParallelIterator A → (A → Bool) → A → (A → A → A) → A
  unfolding partials combine
  filter_fold num_warps it predicate identity fold_op =
      let total = total_warps num_warps in
      let step = λ (acc : A) (i : ℕ).
        if predicate (it.get_unchecked i) then fold_op acc (it.get_unchecked i) else acc in
      if it.len == 0
      then identity
      else combine fold_op (partials it.len total step identity) (range_from 0 total) identity

  -- The loops of the warps in `collect_into`.
  unfoldable pub collect_warps : GpuParallelIterator A → ℕ → List ℕ → (ℕ → A) → ℕ → A
  unfolding warp_loop
  collect_warps it total [] output = output
  collect_warps it total (w ∷ ws) output =
      let step = λ (out : ℕ → A) (i : ℕ). update out i (it.get_unchecked i) in
      collect_warps it total ws (warp_loop it.len it.len total step w output)

  -- `collect_into` panics when the lengths differ.
  unfoldable pub default_collect_into : ℕ → GpuParallelIterator A → (ℕ → A) → ℕ → Option (ℕ → A)
  unfolding collect_warps
  default_collect_into num_warps it output output_len =
      let total = total_warps num_warps in
      if it.len == output_len
      then some (if it.len == 0 then output else collect_warps it total (range_from 0 total) output)
      else none
