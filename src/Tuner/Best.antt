-- ===== src/Tuner/Best.antt =====
-- What the search for a block size finds.
use async_gpu.Prelude.{
  ℕ, zero, suc, ◌+◌, ◌*◌, ◌<◌, ◌≤◌, ◌≡◌, ◌≢◌, refl, sym, ap, subst, ◌∙◌, ◌⊎◌, inl, inr, leb, ne→==,
  Bool, true, false, length, map, range_from, List, [], ◌∷◌, Option, none, some, All, Bool-cases,
  Option-cases, arith, u32, div_ceil,
}
use async_gpu.Tuner.{KernelResources}
use async_gpu.Tuner.Target.{div_ceil-covers}
use async_gpu.Tuner.Median.{IsMedian, successes, measure-successes, median-IsMedian}
use async_gpu.Tuner.Search.{
  TuningResult, AutoTunerConfig, viable, filter, generate_candidates, measure, median, tune_loop,
  better, min_by_time, chosen, tune_block_size,
}

module _ {A : Type 0} where
  abbrev pub Member : A → List A → Type 0
  Member a [] = ⊥
  Member a (x ∷ xs) = (a ≡ x) ⊎ Member a xs

  All-at : (P : A → Type 0) (xs : List A) (a : A) → All P xs → Member a xs → P a
  All-at P [] a h m = absurd m
  All-at P (x ∷ xs) a h (inl e) = rw e h.0
  All-at P (x ∷ xs) a h (inr m) = All-at P xs a h.1 m

-- The first of the least times.
abbrev Least : List (ℕ × ℕ) → ℕ × ℕ → Type 0
Least results best = Member best results × All (λ p. best.1 ≤ p.1) results

All-le :
    (t t' : ℕ) (results : List (ℕ × ℕ))
    → t ≤ t'
    → All (λ p. t' ≤ p.1) results
    → All (λ p. t ≤ p.1) results
All-le t t' [] h k = tt
All-le t t' (p ∷ rest) h k = (omega arith, All-le t t' rest h k.1)

better-Least :
    (p best : ℕ × ℕ) (rest : List (ℕ × ℕ))
    → Least rest best
    → Least (p ∷ rest) (better p (some best))
better-Least (size, t) (size', t') rest (m, l) = elim (Bool-cases (leb t t')) [
  | inl le ↦
      let e : (size, t) ≡ better (size, t) (some (size', t')) = rw le refl in
      subst (Least ((size, t) ∷ rest)) e
        (inl refl, (omega arith, All-le t t' rest (ground arith) l))
  | inr gt ↦
      let e : (size', t') ≡ better (size, t) (some (size', t')) = rw gt refl in
      subst (Least ((size, t) ∷ rest)) e (inr m, (ground arith, l))
]

min_by_time-Least :
    (p : ℕ × ℕ) (rest : List (ℕ × ℕ))
    → (best : ℕ × ℕ) × (min_by_time (p ∷ rest) ≡ some best) × Least (p ∷ rest) best
unfolding min_by_time
min_by_time-Least p [] = (p, refl, (inl refl, (omega arith, tt)))
min_by_time-Least p (q ∷ rest) =
    let (best, e, l) = min_by_time-Least q rest in
    (better p (some best), ap (λ o. some (better p o)) e, better-Least p best (q ∷ rest) l)

true-ne : {A : Type 0} → ◌≡◌ {A = Option Bool} (some true) (some false) → A
true-ne e = cc

some-ne : {t : ℕ} → ◌≢◌ {A = Option ℕ} (some t) none
some-ne e = cc

-- A candidate of which a measured run succeeds has a median.
next_run :
    (bench : ℕ → Option ℕ) (k j t : ℕ) → k ≤ j → bench k ≡ none → bench j ≡ some t → suc k ≤ j
next_run bench k j t h g e = elim (Bool-cases (leb (suc k) j)) [
  | inl le ↦ ground arith
  | inr gt ↦ let same : k ≡ j = ground arith in absurd (some-ne (sym e ∙ ap bench (sym same) ∙ g))
]

measure-ne :
    (bench : ℕ → Option ℕ) (n k j t : ℕ)
    → k ≤ j
    → j < k + n
    → bench j ≡ some t
    → measure bench n k ≢ []
unfolding measure
measure-ne bench zero k j t h l e = absurd (omega arith)
measure-ne bench (suc n) k j t h l e = elim (Option-cases (bench k)) [
  | inr (s, g) ↦ rw g (λ f. cc)
  | inl g ↦ rw g (measure-ne bench n (suc k) j t (next_run bench k j t h g e) (omega arith) e)
]

median-some : (times : List ℕ) → times ≢ [] → (t : ℕ) × (median times ≡ some t)
unfolding median
median-some [] h = absurd (h refl)
median-some (t ∷ ts) h = (_, refl)

All-weaken : {P Q : ℕ → Type 0} (xs : List ℕ) → ((x : ℕ) → P x → Q x) → All P xs → All Q xs
All-weaken [] k h = tt
All-weaken (x ∷ xs) k h = (k x h.0, All-weaken xs k h.1)

-- Where the test does not panic on any of them, what is left are those that pass.
filter-lem :
    (p : ℕ → Option Bool) (xs : List ℕ)
    → All (λ x. (b : Bool) × (p x ≡ some b)) xs
    → (ys : List ℕ) × (filter p xs ≡ some ys)
      × All (λ x. Member x xs × (p x ≡ some true)) ys
      × ((x : ℕ) → Member x xs → p x ≡ some true → Member x ys)
filter-lem p [] h = ([], refl, tt, λ x m e. m)
filter-lem p (x ∷ xs) ((b, is), h) =
    let (ys, done, sound, complete) = filter-lem p xs h in
    let later = All-weaken ys (λ y k. (inr k.0, k.1)) sound in
    elim (Bool-cases b) [
      | inl keep ↦ (
        x ∷ ys,
        rw (is, done, keep) refl,
        ((inl refl, is ∙ ap some keep), later),
        λ y m e. elim m [ inl at ↦ inl at | inr there ↦ inr (complete y there e) ],
      )
      | inr drop ↦ (
        ys,
        rw (is, done, drop) refl,
        later,
        λ y m e. elim m [
          | inl at ↦ absurd (true-ne (sym e ∙ ap p at ∙ is ∙ ap some drop))
          | inr there ↦ complete y there e
        ],
      )
    ]

-- A result is of a candidate with enough occupancy, and has the median time of its measured runs.
abbrev pub IsResult : AutoTunerConfig → Option KernelResources → (ℕ → ℕ → Option ℕ) → ℕ × ℕ → Type 0
IsResult config kr bench (size, t) =
    Member size config.candidate_block_sizes
    × (viable config kr size ≡ some true)
    × IsMedian t (
        successes
          (map (bench size) (range_from config.warmup_iterations config.measure_iterations)))

module _ (config : AutoTunerConfig) (kr : Option KernelResources) (bench : ℕ → ℕ → Option ℕ) where
  tune_loop-IsResult :
      (sizes : List ℕ)
      → All (λ x. Member x config.candidate_block_sizes × (viable config kr x ≡ some true)) sizes
      → All (IsResult config kr bench) (tune_loop config bench sizes)
  unfolding tune_loop
  tune_loop-IsResult [] h = tt
  tune_loop-IsResult (size ∷ sizes) h =
      let times = measure (bench size) config.measure_iterations config.warmup_iterations in
      let runs =
        measure-successes (bench size) config.measure_iterations config.warmup_iterations in
      elim (Option-cases (median times)) [
        | inl e ↦ rw e (tune_loop-IsResult sizes h.1)
        | inr (t, e) ↦ rw e (
          (h.0.0, h.0.1, subst (IsMedian t) runs (median-IsMedian times t e)),
          tune_loop-IsResult sizes h.1,
        )
      ]

  -- A candidate of which a measured run succeeds has a result.
  tune_loop-Member :
      (sizes : List ℕ) (size j t : ℕ)
      → Member size sizes
      → config.warmup_iterations ≤ j
      → j < config.warmup_iterations + config.measure_iterations
      → bench size j ≡ some t
      → (u : ℕ) × Member (size, u) (tune_loop config bench sizes)
  unfolding tune_loop
  tune_loop-Member [] size j t m h l s = absurd m
  tune_loop-Member (x ∷ sizes) size j t (inl e) h l s =
      let (u, f) = median-some _ (
        measure-ne (bench x) config.measure_iterations config.warmup_iterations j t h l
          (ap (λ (y : ℕ). bench y j) (sym e) ∙ s)) in
      (u, rw f (inl (ap (λ (y : ℕ). (y, u)) e)))
  tune_loop-Member (x ∷ sizes) size j t (inr m) h l s =
      let (u, found) = tune_loop-Member sizes size j t m h l s in
      elim (Option-cases
        (median (measure (bench x) config.measure_iterations config.warmup_iterations))) [
          | inl e ↦ (u, rw e found)
          | inr (v, e) ↦ (u, rw e (inr found))
        ]

Member-ne : (a : ℕ × ℕ) (results : List (ℕ × ℕ)) → Member a results → results ≢ []
Member-ne a [] m = absurd m
Member-ne a (x ∷ xs) m = λ e. cc

nonempty-Least :
    (results : List (ℕ × ℕ))
    → results ≢ []
    → (best : ℕ × ℕ) × (min_by_time results ≡ some best) × Least results best
nonempty-Least [] h = absurd (h refl)
nonempty-Least (p ∷ rest) h = min_by_time-Least p rest

-- The candidates are positive block sizes on none of which the occupancy divides by zero, and a
-- candidate with enough occupancy has a measured run that succeeds. Then the search returns a result.
-- Its list has an entry for that candidate, and each entry is a candidate with enough occupancy, with
-- the median of its successful measured runs. The best is an entry with the least median, and the
-- grid covers the problem size cut to 32 bits by less than one block too many.
pub tune_block_size_lem :
    (config : AutoTunerConfig) (problem_size : ℕ) (kr : Option KernelResources)
    (bench : ℕ → ℕ → Option ℕ) (size j t : ℕ)
    → All (λ x. 1 ≤ x) config.candidate_block_sizes
    → All (λ x. (b : Bool) × (viable config kr x ≡ some b)) config.candidate_block_sizes
    → Member size config.candidate_block_sizes
    → viable config kr size ≡ some true
    → config.warmup_iterations ≤ j
    → j < config.warmup_iterations + config.measure_iterations
    → bench size j ≡ some t
    → (r : TuningResult) × (tune_block_size config problem_size kr bench ≡ some (some r))
      × ((u : ℕ) × Member (size, u) r.all_results)
      × All (IsResult config kr bench) r.all_results
      × Member (r.block_x, r.best_time) r.all_results
      × All (λ p. r.best_time ≤ p.1) r.all_results
      × (u32 problem_size ≤ r.grid_x * r.block_x)
      × (r.grid_x * r.block_x < u32 problem_size + r.block_x)
unfolding tune_block_size generate_candidates chosen
tune_block_size_lem config problem_size kr bench size j t positive defined m v h l s =
    let (sizes, kept, sound, complete) =
      filter-lem (viable config kr) config.candidate_block_sizes defined in
    let results = tune_loop config bench sizes in
    let (u, has) = tune_loop-Member config kr bench sizes size j t (complete size m v) h l s in
    let (best, e, (mem, le)) = nonempty-Least results (Member-ne (size, u) results has) in
    let ok = tune_loop-IsResult config kr bench sizes sound in
    let pos : 1 ≤ best.0 =
      All-at (λ x. 1 ≤ x) config.candidate_block_sizes best.0 positive
        (All-at (IsResult config kr bench) results best ok mem).0 in
    let covers = div_ceil-covers (u32 problem_size) best.0 pos in
    (
      record {
        grid_x = div_ceil (u32 problem_size) best.0;
        block_x = best.0;
        best_time = best.1;
        candidates_tested = length results;
        all_results = results;
      },
      rw (kept, e, ne→== best.0 0 (λ z. absurd (omega arith))) refl,
      (u, has),
      ok,
      mem,
      le,
      covers.0,
      covers.1,
    )
