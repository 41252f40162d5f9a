-- ===== src/Array.antt =====
-- crates/core/gpu-host/src/gpu_array.rs: GpuArray, data that may live on the host, on the device or on
-- both, with a residency that says which copy counts. A pointer of the device is a number.
pub mod View
pub mod Update
pub mod Faults
use async_gpu.Prelude.{
  ℕ, ◌*◌, ◌^◌, ◌≡◌, Bool, true, false, ◌==◌, ltb, if◌then◌else◌, List, Option, none, some, length,
}

pub data Residency : Type 0 where
  host_only synced device_only host_dirty : Residency

-- The device's copy, in pinned memory that the host sees too or in memory of its own.
pub data DeviceStorage (A : Type 0) : Type 0 where
  mapped device_mem : (ptr : ℕ) → (contents : List A) → DeviceStorage A

pub record GpuArray (A : Type 0) : Type 0 where
  pub host : List A
  pub device : Option (DeviceStorage A)
  pub residency : Residency
  pub len : ℕ

-- `Result<B, GpuHostError>`, and the panics of `expect` and of slice copies of unequal length.
pub data Attempt (B : Type 0) : Type 0 where
  ok : B → Attempt B
  err : Attempt B
  panic : Attempt B

-- The driver's allocations and copies, which may fail. What a copy yields is what it was given.
pub record Driver (A : Type 0) : Type 0 where
  pub new_zeroed : ℕ → Option ℕ
  pub htod_sync_copy : List A → Option (ℕ × List A)
  pub htod_sync_copy_into : List A → List A → Option (List A)
  pub dtoh_sync_copy : List A → Option (List A)
  pub htod_exact : (xs : List A) {p : ℕ} {ys : List A} → htod_sync_copy xs ≡ some (p, ys) → ys ≡ xs
  pub htod_into_exact :
      (xs old : List A) {ys : List A} → htod_sync_copy_into xs old ≡ some ys → ys ≡ xs
  pub dtoh_exact : (xs : List A) {ys : List A} → dtoh_sync_copy xs ≡ some ys → ys ≡ xs

abbrev pub size_threshold_bytes : ℕ
size_threshold_bytes = 64 * 1024

-- `Result::expect`
abbrev pub expect : {B : Type 0} → Attempt B → Attempt B
expect (ok b) = ok b
expect err = panic
expect panic = panic

-- The rest of a method behind a call that may fail, `?`.
abbrev pub map_ok : {B C : Type 0} → (B → C) → Attempt B → Attempt C
map_ok f (ok b) = ok (f b)
map_ok f err = err
map_ok f panic = panic

unfoldable pub dirty : Residency → Residency
dirty Residency.synced = Residency.device_only
dirty r = r

module _ {A : Type 0} where
  abbrev pub contents : DeviceStorage A → List A
  contents (mapped _ xs) = xs
  contents (device_mem _ xs) = xs

  abbrev pub dev_ptr : DeviceStorage A → ℕ
  dev_ptr (mapped p _) = p
  dev_ptr (device_mem p _) = p

  unfoldable pub from_vec : List A → GpuArray A
  from_vec xs = record {
    host = xs;
    device = none;
    residency = Residency.host_only;
    len = length xs;
  }

  unfoldable pub should_use_mapped : ℕ → GpuArray A → Bool
  should_use_mapped size_of a = ltb (a.len * size_of) size_threshold_bytes

  -- The debug assertion on the state is not part of a release build.
  unfoldable pub mark_device_dirty : GpuArray A → GpuArray A
  unfolding dirty
  mark_device_dirty a = record a { residency = dirty a.residency }

  abbrev pub edited : (List A → List A) → GpuArray A → GpuArray A
  edited edit a = record a { host = edit a.host; residency = Residency.host_dirty }

  abbrev pub in_device_mem : ℕ → Option (List A) → Option (DeviceStorage A)
  in_device_mem p none = none
  in_device_mem p (some xs) = some (device_mem p xs)

  module _ (d : Driver A) where
    -- What `sync_to_host_fallible` reads back from the device's copy.
    unfoldable pub read_back : GpuArray A → Option (DeviceStorage A) → Attempt (GpuArray A)
    read_back a none = panic
    read_back a (some (mapped _ xs)) =
        if length a.host == length xs
        then ok (record a { host = xs; residency = Residency.synced })
        else panic
    read_back a (some (device_mem _ xs)) = elim (d.dtoh_sync_copy xs) [
      | some ys ↦ ok (record a { host = ys; residency = Residency.synced })
      | none ↦ err
    ]

    unfoldable pub sync_to_host_fallible : GpuArray A → Attempt (GpuArray A)
    unfolding read_back
    sync_to_host_fallible a = read_back a a.device

    -- `sync_to_host` panics where `sync_to_host_fallible` fails.
    unfoldable pub sync_to_host : GpuArray A → Attempt (GpuArray A)
    unfolding sync_to_host_fallible
    sync_to_host a = expect (sync_to_host_fallible a)

    unfoldable pub sync_for : Residency → GpuArray A → Attempt (GpuArray A)
    unfolding sync_to_host
    sync_for Residency.device_only a = sync_to_host a
    sync_for _ a = ok a

    unfoldable pub try_sync_for : Residency → GpuArray A → Attempt (GpuArray A)
    unfolding sync_to_host_fallible
    try_sync_for Residency.device_only a = sync_to_host_fallible a
    try_sync_for _ a = ok a

    -- The slice that it returns is the field `host` of the result.
    unfoldable pub try_sync_to_host : GpuArray A → Attempt (GpuArray A)
    unfolding try_sync_for
    try_sync_to_host a = try_sync_for a.residency a

    -- The host's view through `Deref` is the field `host` of the result.
    unfoldable pub deref : GpuArray A → Attempt (GpuArray A)
    unfolding sync_for
    deref a = sync_for a.residency a

    -- `DerefMut`, with what the holder of the slice then does to it.
    unfoldable pub deref_mut : (List A → List A) → GpuArray A → Attempt (GpuArray A)
    unfolding sync_for
    deref_mut edit a = map_ok (edited edit) (sync_for a.residency a)

  module _ (d : Driver A) (size_of : ℕ) where
    -- The first upload: the new storage.
    unfoldable pub first_upload : GpuArray A → Option (DeviceStorage A)
    unfolding should_use_mapped
    first_upload a =
        if should_use_mapped size_of a
        then elim (d.new_zeroed a.len) [ some p ↦ some (mapped p a.host) | none ↦ none ]
        else elim (d.htod_sync_copy a.host) [ some (p, xs) ↦ some (device_mem p xs) | none ↦ none ]

    -- An upload into storage that is there.
    unfoldable pub upload_into : GpuArray A → DeviceStorage A → Option (DeviceStorage A)
    upload_into a (mapped p old) = some (mapped p a.host)
    upload_into a (device_mem p old) = in_device_mem p (d.htod_sync_copy_into a.host old)

    unfoldable pub stored : GpuArray A → Option (DeviceStorage A) → Attempt (ℕ × GpuArray A)
    stored a none = err
    stored a (some st) =
        ok (dev_ptr st, record a { device = some st; residency = Residency.synced })

    unfoldable pub reupload : GpuArray A → Option (DeviceStorage A) → Attempt (ℕ × GpuArray A)
    unfolding upload_into stored
    reupload a none = panic
    reupload a (some st) = stored a (upload_into a st)

    unfoldable pub pointer : GpuArray A → Option (DeviceStorage A) → Attempt (ℕ × GpuArray A)
    pointer a none = panic
    pointer a (some st) = ok (dev_ptr st, a)

    unfoldable pub ensure_for : Residency → GpuArray A → Attempt (ℕ × GpuArray A)
    unfolding first_upload stored reupload pointer
    ensure_for Residency.host_only a =
        if a.len == 0
        then ok (0, record a { residency = Residency.synced })
        else stored a (first_upload a)
    ensure_for Residency.host_dirty a = reupload a a.device
    ensure_for Residency.synced a = pointer a a.device
    ensure_for Residency.device_only a = pointer a a.device

    -- The device pointer, and the array after.
    unfoldable pub ensure_device : GpuArray A → Attempt (ℕ × GpuArray A)
    unfolding ensure_for
    ensure_device a = ensure_for a.residency a
