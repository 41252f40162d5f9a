-- ===== src/Tuner/Search.antt =====
-- crates/core/gpu-host/src/auto_tune.rs: the search for a block size, and the cache of its results.
-- Times are numbers; `bench size k` is the `k`-th run at a block size, `none` if it fails.
use async_gpu.Prelude.{
  ℕ, zero, suc, ◌/◌, ◌^◌, ◌==◌, leb, if◌then◌else◌, Bool, true, false, ◌&&◌, List, [], ◌∷◌, Option,
  none, some, ◌>>=◌, length, get_or, u32, u64, div_ceil,
}
use async_gpu.Tuner.{SmConfig, sm_75, KernelResources, occupancy}

-- The least power of two from `2 ^ k` on that is no less than `size`, looking at `fuel` of them.
unfoldable pub next_power : ℕ → ℕ → ℕ → ℕ
next_power zero k size = 2 ^ k
next_power (suc fuel) k size =
    let rest = next_power fuel (suc k) size in if leb size (2 ^ k) then 2 ^ k else rest

-- `next_power_of_two` of a u64, which wraps to 0 past the last one.
unfoldable pub bucket_size : ℕ → ℕ
unfolding next_power
bucket_size size = if leb size 32 then 32 else u64 (next_power 64 0 size)

pub record TuningKey : Type 0 where
  pub kernel_name : List ℕ
  pub size_bucket : ℕ
  pub device_id : ℕ

unfoldable pub new : List ℕ → ℕ → ℕ → TuningKey
unfolding bucket_size
new kernel_name problem_size device_id = record {
  kernel_name = kernel_name;
  size_bucket = bucket_size problem_size;
  device_id = device_id;
}

-- The best block size with its grid and its time, and all medians.
pub record TuningResult : Type 0 where
  pub grid_x : ℕ
  pub block_x : ℕ
  pub best_time : ℕ
  pub candidates_tested : ℕ
  pub all_results : List (ℕ × ℕ)

pub record AutoTunerConfig : Type 0 where
  pub candidate_block_sizes : List ℕ
  pub warmup_iterations : ℕ
  pub measure_iterations : ℕ
  pub min_occupancy_pct : ℕ
  pub sm_config : SmConfig

unfoldable pub default_config : AutoTunerConfig
unfolding sm_75
default_config = record {
  candidate_block_sizes = 32 ∷ 64 ∷ 128 ∷ 256 ∷ 512 ∷ 1024 ∷ [];
  warmup_iterations = 3;
  measure_iterations = 7;
  min_occupancy_pct = 12;
  sm_config = sm_75;
}

-- `none` is a panic of `occupancy`.
unfoldable pub viable : AutoTunerConfig → Option KernelResources → ℕ → Option Bool
unfolding occupancy
viable config none bs = some true
viable config (some kr) bs = do
  occ ← occupancy kr config.sm_config bs
  some (leb config.min_occupancy_pct occ)

abbrev pub filter : (ℕ → Option Bool) → List ℕ → Option (List ℕ)
filter p [] = some []
filter p (x ∷ xs) = do keep ← p x; rest ← filter p xs; some (if keep then x ∷ rest else rest)

unfoldable pub generate_candidates : AutoTunerConfig → Option KernelResources → Option (List ℕ)
unfolding viable
generate_candidates config kr = filter (viable config kr) config.candidate_block_sizes

-- The measured runs, from the `k`-th on, that do not fail.
abbrev pub pushed : Option ℕ → List ℕ → List ℕ
pushed none times = times
pushed (some elapsed) times = elapsed ∷ times

unfoldable pub measure : (ℕ → Option ℕ) → ℕ → ℕ → List ℕ
measure bench zero k = []
measure bench (suc n) k = pushed (bench k) (measure bench n (suc k))

-- `times.sort()`
abbrev pub insert : ℕ → List ℕ → List ℕ
insert x [] = x ∷ []
insert x (y ∷ ys) = if leb x y then x ∷ y ∷ ys else y ∷ insert x ys

unfoldable pub sort : List ℕ → List ℕ
sort [] = []
sort (x ∷ xs) = insert x (sort xs)

-- The median of the times, if there are any.
unfoldable pub median : List ℕ → Option ℕ
unfolding sort
median [] = none
median (t ∷ ts) = let times = sort (t ∷ ts) in some (get_or times (length times / 2) 0)

abbrev pub with_median : ℕ → Option ℕ → List (ℕ × ℕ) → List (ℕ × ℕ)
with_median size none rest = rest
with_median size (some t) rest = (size, t) ∷ rest

-- The loop over the candidates; the warm-up runs come first.
unfoldable pub tune_loop : AutoTunerConfig → (ℕ → ℕ → Option ℕ) → List ℕ → List (ℕ × ℕ)
unfolding measure median
tune_loop config bench [] = []
tune_loop config bench (size ∷ sizes) =
    let times = measure (bench size) config.measure_iterations config.warmup_iterations in
    with_median size (median times) (tune_loop config bench sizes)

-- `min_by_key`: the first of the least times.
abbrev pub better : ℕ × ℕ → Option (ℕ × ℕ) → ℕ × ℕ
better a none = a
better (size, t) (some (size', t')) = if leb t t' then (size, t) else (size', t')

unfoldable pub min_by_time : List (ℕ × ℕ) → Option (ℕ × ℕ)
min_by_time [] = none
min_by_time (a ∷ rest) = some (better a (min_by_time rest))

-- The grid for the best block size; the problem size is cut to 32 bits. A block size of zero panics
-- in `div_ceil`.
unfoldable pub chosen : ℕ → List (ℕ × ℕ) → ℕ × ℕ → Option TuningResult
chosen problem_size all_results (size, t) =
    if size == 0
    then none
    else some (record {
      grid_x = div_ceil (u32 problem_size) size;
      block_x = size;
      best_time = t;
      candidates_tested = length all_results;
      all_results = all_results;
    })

-- The outer `none` is a panic, the inner one that no candidate could be measured.
abbrev pub with_best : ℕ → List (ℕ × ℕ) → Option (ℕ × ℕ) → Option (Option TuningResult)
with_best problem_size all_results none = some none
with_best problem_size all_results (some best) = do
  r ← chosen problem_size all_results best
  some (some r)

unfoldable pub tune_block_size :
    AutoTunerConfig → ℕ → Option KernelResources → (ℕ → ℕ → Option ℕ) → Option (Option TuningResult)
unfolding generate_candidates tune_loop min_by_time chosen
tune_block_size config problem_size kr bench = do
  sizes ← generate_candidates config kr
  let all_results = tune_loop config bench sizes
  with_best problem_size all_results (min_by_time all_results)

-- The cache: its entries, the last inserted first.
abbrev pub TuningCache : Type 0
TuningCache = List (TuningKey × TuningResult)

abbrev pub same_name : List ℕ → List ℕ → Bool
same_name [] [] = true
same_name [] (y ∷ ys) = false
same_name (x ∷ xs) [] = false
same_name (x ∷ xs) (y ∷ ys) = (x == y) && same_name xs ys

unfoldable pub same_key : TuningKey → TuningKey → Bool
same_key a b =
    (a.size_bucket == b.size_bucket)
    && (a.device_id == b.device_id)
    && same_name a.kernel_name b.kernel_name

unfoldable pub get : TuningCache → TuningKey → Option TuningResult
unfolding same_key
get [] key = none
get ((k, r) ∷ rest) key = let found = get rest key in if same_key k key then some r else found

unfoldable pub get_config : TuningCache → List ℕ → ℕ → ℕ → Option TuningResult
unfolding get new
get_config cache name problem_size device_id = get cache (new name problem_size device_id)

unfoldable pub insert_config : TuningCache → List ℕ → ℕ → ℕ → TuningResult → TuningCache
unfolding new
insert_config cache name problem_size device_id result =
    (new name problem_size device_id, result) ∷ cache

-- The outer `none` is again a panic.
unfoldable pub tuned :
    TuningCache
    → List ℕ
    → ℕ
    → ℕ
    → Option (Option TuningResult)
    → Option (Option TuningResult × TuningCache)
unfolding insert_config
tuned cache name size device none = none
tuned cache name size device (some none) = some (none, cache)
tuned cache name size device (some (some r)) = some (some r, insert_config cache name size device r)

-- A hit returns what is cached; a miss tunes and caches a result.
unfoldable pub after_lookup :
    AutoTunerConfig
    → TuningCache
    → List ℕ
    → ℕ
    → ℕ
    → Option KernelResources
    → (ℕ → ℕ → Option ℕ)
    → Option TuningResult
    → Option (Option TuningResult × TuningCache)
unfolding tune_block_size tuned
after_lookup config cache name size device kr bench (some cached) = some (some cached, cache)
after_lookup config cache name size device kr bench none =
    tuned cache name size device (tune_block_size config size kr bench)

unfoldable pub tune_or_cached :
    AutoTunerConfig
    → TuningCache
    → List ℕ
    → ℕ
    → ℕ
    → Option KernelResources
    → (ℕ → ℕ → Option ℕ)
    → Option (Option TuningResult × TuningCache)
unfolding after_lookup get_config
tune_or_cached config cache name size device kr bench =
    after_lookup config cache name size device kr bench (get_config cache name size device)
