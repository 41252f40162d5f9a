-- ===== src/Tests/Iterators.antt =====
-- Five elements and two warps.
use native.Mathlib.Nat.{add_assoc, add_comm, add-zero}
use async_gpu.Prelude.{ℕ, ◌+◌, ◌*◌, ◌≡◌, ltb, Bool, some}
use async_gpu.ParIter.{GpuParallelIterator, default_fold, default_collect_into}
use async_gpu.ParIter.Stride.{Commutes}
use async_gpu.ParIter.Fold.{default_fold-foldl}
use async_gpu.ParIter.Collect.{collect_into_all}

abbrev squares : GpuParallelIterator ℕ
squares = record { len = 5; get_unchecked = λ i. i * i }

abbrev addition-Commutes : Commutes (λ (a b : ℕ). a + b) 0
addition-Commutes = record { assoc = add_assoc; comm = add_comm; neutral = add-zero }

abbrev big : ℕ → Bool
big x = ltb 3 x

default_fold-foldl_example : default_fold 2 squares 0 (λ a b. a + b) ≡ 30
default_fold-foldl_example = default_fold-foldl (λ (a b : ℕ). a + b) 0 addition-Commutes 2 squares

collect_into_all_example :
    (out' : ℕ → ℕ) × (default_collect_into 2 squares (λ i. 9) 5 ≡ some out') × (out' 3 ≡ 9)
collect_into_all_example = collect_into_all 2 3 squares (λ i. 9)
