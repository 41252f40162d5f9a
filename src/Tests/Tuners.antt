-- ===== src/Tests/Tuners.antt =====
-- The tuner with a benchmark that takes 100 more than the block size.
use async_gpu.Prelude.{
  ℕ, ◌+◌, ◌*◌, ◌<◌, ◌≤◌, ◌≡◌, refl, inl, inr, ◌⊎◌, true, [], ◌∷◌, Option, none, some, All, arith,
}
use async_gpu.Tuner.{sm_75, next_occupancy_target_regs}
use async_gpu.Tuner.Search.{
  TuningResult, TuningCache, bucket_size, next_power, get, get_config, viable, default_config,
  generate_candidates, measure, sort, median, tune_loop, min_by_time, chosen, tune_block_size,
  tune_or_cached,
}
use async_gpu.Tuner.Target.{IsDevice, IsMost, next_occupancy_target_regs-IsMost}
use async_gpu.Tuner.Best.{Member, IsResult, tune_block_size_lem}
use async_gpu.Tuner.Cached.{tune_or_cached_again}

sm_75-IsDevice : IsDevice sm_75
unfolding sm_75
sm_75-IsDevice = record {
  warps = omega arith;
  warps_small = omega arith;
  granules = omega arith;
  granules_small = omega arith;
  threads = omega arith;
}

next_occupancy_target_regs-IsMost_example :
    (o : Option (ℕ × ℕ)) × (next_occupancy_target_regs sm_75 256 25 ≡ some o)
    × (((25 < 100) × IsMost sm_75 256 50 255 o) ⊎ ((100 ≤ 25) × (o ≡ none)))
next_occupancy_target_regs-IsMost_example =
    next_occupancy_target_regs-IsMost sm_75 256 25 sm_75-IsDevice (omega arith)

abbrev bench : ℕ → ℕ → Option ℕ
bench size k = some (100 + size)

tune_block_size_lem_example :
    (r : TuningResult) × (tune_block_size default_config 600 none bench ≡ some (some r))
    × ((u : ℕ) × Member (256, u) r.all_results)
    × All (IsResult default_config none bench) r.all_results
    × Member (r.block_x, r.best_time) r.all_results
    × All (λ p. r.best_time ≤ p.1) r.all_results
    × (600 ≤ r.grid_x * r.block_x)
    × (r.grid_x * r.block_x < 600 + r.block_x)
unfolding default_config viable
tune_block_size_lem_example =
    tune_block_size_lem default_config 600 none bench 256 3 356
      (omega arith, (omega arith, (omega arith, (omega arith, (omega arith, (omega arith, tt))))))
      (
        (true, refl),
        ((true, refl), ((true, refl), ((true, refl), ((true, refl), ((true, refl), tt))))),
      )
      (inr (inr (inr (inl refl)))) refl (omega arith) (omega arith) refl

-- 19 blocks of 32 threads.
abbrev for_600 : TuningResult
for_600 = record {
  grid_x = 19;
  block_x = 32;
  best_time = 132;
  candidates_tested = 6;
  all_results = (32, 132) ∷ (64, 164) ∷ (128, 228) ∷ (256, 356) ∷ (512, 612) ∷ (1024, 1124) ∷ [];
}

run_600 : tune_block_size default_config 600 none bench ≡ some (some for_600)
unfolding tune_block_size default_config generate_candidates viable tune_loop measure median sort
    min_by_time chosen
run_600 = refl

tune_or_cached_again_example :
    (cache' : TuningCache) × (tune_or_cached default_config [] [] 600 0 none bench
      ≡ some (some for_600, cache'))
    × (tune_or_cached default_config cache' [] 1000 0 none bench ≡ some (some for_600, cache'))
unfolding get_config get bucket_size next_power
tune_or_cached_again_example =
    tune_or_cached_again default_config default_config [] [] 600 1000 0 none none bench bench
      for_600 refl run_600 refl
