-- ===== src/Array/Faults.antt =====
-- `ensure_device` of a GpuArray whose residency promises storage that was never made.
use async_gpu.Prelude.{ℕ, ◌≡◌, refl, List, none, eq→==}
use async_gpu.Array.{
  Residency, GpuArray, ok, panic, Driver, from_vec, deref_mut, ensure_device, ensure_for, reupload,
  pointer, sync_for, edited,
}

module _ {A : Type 0} (d : Driver A) (size_of : ℕ) where
  -- An array made by `from_vec` and then written through `DerefMut`, before it ever was on the
  -- device, makes `ensure_device` panic, whatever the data, the edit and the driver.
  pub deref_mut_first_panics :
      (edit : List A → List A) (xs : List A)
      → (a : GpuArray A) × (deref_mut d edit (from_vec xs) ≡ ok a)
        × (a.host ≡ edit xs)
        × (ensure_device d size_of a ≡ panic)
  unfolding deref_mut from_vec sync_for ensure_device ensure_for reupload
  deref_mut_first_panics edit xs = (edited edit (from_vec xs), refl, refl, refl)

  -- The first `ensure_device` of an empty array succeeds with pointer 0, and the second, on the
  -- array that the first left, panics.
  pub empty_second_ensure_panics :
      (a : GpuArray A)
      → a.residency ≡ Residency.host_only
      → a.device ≡ none
      → a.len ≡ 0
      → (a' : GpuArray A) × (ensure_device d size_of a ≡ ok (0, a'))
        × (ensure_device d size_of a' ≡ panic)
  unfolding ensure_device ensure_for pointer
  empty_second_ensure_panics a r bare l = (
    record a { residency = Residency.synced },
    rw (r, ensure_for) (rw (eq→== a.len 0 l) refl),
    rw (bare, pointer) refl,
  )
