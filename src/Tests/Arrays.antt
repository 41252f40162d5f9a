-- ===== src/Tests/Arrays.antt =====
-- Arrays of numbers over a driver that never fails.
use async_gpu.Prelude.{
  ℕ, suc, ◌*◌, ◌≡◌, ◌≢◌, refl, ap, [], ◌∷◌, none, some, List, Option, length, map,
}
use async_gpu.Array.{
  Residency, mapped, device_mem, GpuArray, ok, Driver, from_vec, deref, ensure_device, ensure_for,
  first_upload, should_use_mapped, stored,
}
use async_gpu.Array.View.{IsValid, from_vec-IsValid}
use async_gpu.Array.Update.{launched, kernel_result_read}

abbrev uploaded : List ℕ → Option (ℕ × List ℕ)
uploaded xs = some (4096, xs)

abbrev copied : List ℕ → Option (List ℕ)
copied xs = some xs

uploaded_exact : (xs : List ℕ) {p : ℕ} {ys : List ℕ} → uploaded xs ≡ some (p, ys) → ys ≡ xs
uploaded_exact xs e = cc

copied_exact : (xs : List ℕ) {ys : List ℕ} → copied xs ≡ some ys → ys ≡ xs
copied_exact xs e = cc

-- The allocations are at 4096.
abbrev driver : Driver ℕ
driver = record {
  new_zeroed = λ _. some 4096;
  htod_sync_copy = uploaded;
  htod_sync_copy_into = λ xs _. copied xs;
  dtoh_sync_copy = copied;
  htod_exact = uploaded_exact;
  htod_into_exact = λ xs _ e. copied_exact xs e;
  dtoh_exact = copied_exact;
}

works : (xs : List ℕ) → driver.dtoh_sync_copy xs ≢ none
works xs e = cc

abbrev two : GpuArray ℕ
two = from_vec (5 ∷ 6 ∷ [])

two-IsValid : IsValid two
two-IsValid = (from_vec-IsValid (5 ∷ 6 ∷ [])).0

-- A large array on the device, which a kernel has written.
abbrev written : GpuArray ℕ
written = record {
  host = 5 ∷ 6 ∷ [];
  device = some (device_mem 4096 (7 ∷ 8 ∷ []));
  residency = Residency.device_only;
  len = 2;
}

written-IsValid : IsValid written
written-IsValid = record { sized = refl; backed = refl }

abbrev doubled : List ℕ → List ℕ
doubled xs = map (λ n. n * 2) xs

length-doubled : (xs : List ℕ) → length (doubled xs) ≡ length xs
length-doubled [] = refl
length-doubled (x ∷ xs) = ap suc (length-doubled xs)

-- `two` after its upload to mapped memory.
abbrev two_uploaded : GpuArray ℕ
two_uploaded = record two { device = some (mapped 4096 (5 ∷ 6 ∷ [])); residency = Residency.synced }

two_upload : ensure_device driver 4 two ≡ ok (4096, two_uploaded)
unfolding ensure_device ensure_for first_upload should_use_mapped stored from_vec
two_upload = refl

two_length : ◌≡◌ {A = ℕ} 2 (length two_uploaded.host)
unfolding from_vec
two_length = refl

kernel_result_read_example :
    (b : GpuArray ℕ) × (deref driver (launched (9 ∷ 9 ∷ []) (mapped 4096 (5 ∷ 6 ∷ [])) two_uploaded)
      ≡ ok b)
    × IsValid b
    × (b.host ≡ 9 ∷ 9 ∷ [])
kernel_result_read_example =
    kernel_result_read driver 4 two (9 ∷ 9 ∷ []) works two-IsValid two_upload refl two_length

abbrev none_yet : GpuArray ℕ
none_yet = record { host = []; device = none; residency = Residency.host_only; len = 0 }
