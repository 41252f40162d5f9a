-- ===== src/Fusion/Counts.antt =====
-- The number of uses of a tensor on a tape, and what the two tests of neighbours come to.
use async_gpu.Prelude.{
  ℕ, zero, suc, ◌+◌, ◌≤◌, ◌≡◌, refl, ap, ◌∙◌, ◌==◌, if◌then◌else◌, true, List, [], ◌∷◌, ◌++◌,
  Option, none, some, arith,
}
use async_gpu.Fusion.{
  TapeEntry, Tape, RefCounts, count_use, count_uses, count_entries, compute_ref_counts,
  single_consumer, contains, data_flows,
}

abbrev pub uses_in : ℕ → List ℕ → ℕ
uses_in id [] = 0
uses_in id (x ∷ xs) = (if x == id then 1 else 0) + uses_in id xs

abbrev pub uses : ℕ → Tape → ℕ
uses id [] = 0
uses id (entry ∷ tape) = uses_in id entry.inputs + uses id tape

-- A map has no entry for what is never used.
abbrev as_count : ℕ → Option ℕ
as_count zero = none
as_count (suc n) = some (suc n)

count_use-count :
    (counts : RefCounts) (x id n : ℕ)
    → counts id ≡ as_count n
    → count_use counts x id ≡ as_count ((if x == id then 1 else 0) + n)
count_use-count counts x id zero h = ground arith
count_use-count counts x id (suc n) h = ground arith

count_uses-count :
    (counts : RefCounts) (ids : List ℕ) (id n : ℕ)
    → counts id ≡ as_count n
    → count_uses counts ids id ≡ as_count (uses_in id ids + n)
unfolding count_uses
count_uses-count counts [] id n h = h ∙ ap as_count (omega arith)
count_uses-count counts (x ∷ ids) id n h =
    count_uses-count (count_use counts x) ids id _ (count_use-count counts x id n h)
    ∙ ap as_count (omega arith)

count_entries-count :
    (counts : RefCounts) (tape : Tape) (id n : ℕ)
    → counts id ≡ as_count n
    → count_entries counts tape id ≡ as_count (uses id tape + n)
unfolding count_entries
count_entries-count counts [] id n h = h ∙ ap as_count (omega arith)
count_entries-count counts (entry ∷ tape) id n h =
    count_entries-count (count_uses counts entry.inputs) tape id _
      (count_uses-count counts entry.inputs id n h)
    ∙ ap as_count (omega arith)

pub compute_ref_counts-uses :
    (tape : Tape) (id : ℕ) → compute_ref_counts tape id ≡ as_count (uses id tape)
unfolding compute_ref_counts
compute_ref_counts-uses tape id =
    count_entries-count (λ i. none) tape id 0 refl ∙ ap as_count (omega arith)

contains-uses : (id : ℕ) (ids : List ℕ) → contains id ids ≡ true → 1 ≤ uses_in id ids
unfolding contains
contains-uses id [] h = cc
contains-uses id (x ∷ ids) h = ground (arith, contains-uses id ids)

pub uses-append : (id : ℕ) (xs ys : Tape) → uses id (xs ++ ys) ≡ uses id xs + uses id ys
uses-append id [] ys = omega arith
uses-append id (x ∷ xs) ys = omega (arith, uses-append id xs ys)

-- `y` reads the output of `x`, and nothing else on the tape does.
abbrev pub OnlyReader : Tape → TapeEntry → TapeEntry → Type 0
OnlyReader tape x y = (1 ≤ uses_in x.output y.inputs) × (uses x.output tape ≡ 1)

single-count :
    (x : TapeEntry) (counts : RefCounts) (n : ℕ)
    → counts x.output ≡ as_count n
    → single_consumer x counts ≡ true
    → 1 ≤ n
    → n ≡ 1
unfolding single_consumer
single-count x counts zero h single pos = absurd (omega arith)
single-count x counts (suc n) h single pos = ground arith

pub tests-OnlyReader :
    (tape : Tape) (x y : TapeEntry)
    → uses_in x.output y.inputs ≤ uses x.output tape
    → data_flows x y ≡ true
    → single_consumer x (compute_ref_counts tape) ≡ true
    → OnlyReader tape x y
unfolding data_flows
tests-OnlyReader tape x y there flows single =
    let reads = contains-uses x.output y.inputs flows in
    let counted = compute_ref_counts-uses tape x.output in
    (reads, single-count x (compute_ref_counts tape) _ counted single (omega arith))
