-- ===== src/Tuner/Cached.antt =====
-- What the cache of the tuner returns for another problem size of the same bucket.
use async_gpu.Prelude.{ℕ, ◌≡◌, refl, ap, ◌∙◌, true, List, [], ◌∷◌, Option, none, some, eq→==}
use async_gpu.Tuner.{KernelResources}
use async_gpu.Tuner.Search.{
  TuningResult, AutoTunerConfig, TuningCache, bucket_size, new, same_name, same_key, get,
  get_config, insert_config, after_lookup, tune_block_size, tuned, tune_or_cached,
}

same_name_self : (name : List ℕ) → same_name name name ≡ true
same_name_self [] = refl
same_name_self (x ∷ xs) = rw (eq→== x x refl, same_name_self xs) refl

same_bucket :
    (name : List ℕ) (n n' device : ℕ)
    → bucket_size n' ≡ bucket_size n
    → same_key (new name n device) (new name n' device) ≡ true
unfolding same_key new
same_bucket name n n' device e =
    rw
      (e, eq→== (bucket_size n) (bucket_size n) refl, eq→== device device refl, same_name_self name)
      refl

first_lookup :
    (config : AutoTunerConfig) (cache : TuningCache) (name : List ℕ) (n device : ℕ)
    (kr : Option KernelResources) (bench : ℕ → ℕ → Option ℕ) (r : TuningResult)
    → get_config cache name n device ≡ none
    → tune_block_size config n kr bench ≡ some (some r)
    → tune_or_cached config cache name n device kr bench
      ≡ some (some r, insert_config cache name n device r)
unfolding tune_or_cached after_lookup tuned
first_lookup config cache name n device kr bench r miss found =
    ap (after_lookup config cache name n device kr bench) miss
    ∙ ap (tuned cache name n device) found

get_config-insert_config :
    (cache : TuningCache) (name : List ℕ) (n n' device : ℕ) (r : TuningResult)
    → bucket_size n' ≡ bucket_size n
    → get_config (insert_config cache name n device r) name n' device ≡ some r
unfolding get_config insert_config get
get_config-insert_config cache name n n' device r e = rw (same_bucket name n n' device e) refl

hit :
    (config : AutoTunerConfig) (cache : TuningCache) (name : List ℕ) (n device : ℕ)
    (kr : Option KernelResources) (bench : ℕ → ℕ → Option ℕ) (r : TuningResult)
    → get_config cache name n device ≡ some r
    → tune_or_cached config cache name n device kr bench ≡ some (some r, cache)
unfolding tune_or_cached after_lookup
hit config cache name n device kr bench r e =
    ap (after_lookup config cache name n device kr bench) e

-- A miss that is tuned leaves a cache in which every problem size of the bucket, with the same kernel
-- and device, gets the result that was found for the first one, its grid included, whatever the
-- benchmark and the resources are then.
pub tune_or_cached_again :
    (config config' : AutoTunerConfig) (cache : TuningCache) (name : List ℕ) (n n' device : ℕ)
    (kr kr' : Option KernelResources) (bench bench' : ℕ → ℕ → Option ℕ) (r : TuningResult)
    → get_config cache name n device ≡ none
    → tune_block_size config n kr bench ≡ some (some r)
    → bucket_size n' ≡ bucket_size n
    → (cache' : TuningCache) × (tune_or_cached config cache name n device kr bench
        ≡ some (some r, cache'))
      × (tune_or_cached config' cache' name n' device kr' bench' ≡ some (some r, cache'))
tune_or_cached_again config config' cache name n n' device kr kr' bench bench' r miss found same = (
  insert_config cache name n device r,
  first_lookup config cache name n device kr bench r miss found,
  hit config' (insert_config cache name n device r) name n' device kr' bench' r
      (get_config-insert_config cache name n n' device r same),
)
