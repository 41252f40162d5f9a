-- ===== src/Array/Update.antt =====
-- Edits, uploads and kernel writes of a GpuArray, on its value.
use async_gpu.Prelude.{
  ℕ, ◌≡◌, ◌≢◌, refl, sym, ap, ◌∙◌, List, Option, none, some, length, Bool-cases, inl, inr, ◌==◌,
  Option-cases, Ensures, ==_iff,
}
use async_gpu.Array.{
  Residency, DeviceStorage, mapped, device_mem, GpuArray, ok, map_ok, edited, Driver, contents,
  deref, deref_mut, dirty, mark_device_dirty, ensure_device, should_use_mapped, first_upload,
  stored, upload_into, reupload, pointer, ensure_for,
}
use async_gpu.Array.View.{
  value_of-host, view, Backed, IsValid, array, Succeeds, of-Succeeds, deref_reads,
}

module _ {A : Type 0} where
  -- An edit of the same length keeps a device copy of the right size, and there is no copy on a host
  -- that alone has the data.
  Backed-edit :
      (r : Residency) (h h' : List A) (dev : Option (DeviceStorage A))
      → length h' ≡ length h
      → Backed r h dev
      → Backed Residency.host_dirty h' dev
  Backed-edit Residency.host_only h h' none e b = tt
  Backed-edit Residency.host_only h h' (some st) e b = elim b [ ]
  Backed-edit Residency.synced h h' none e b = tt
  Backed-edit Residency.synced h h' (some st) e b = ap length b ∙ sym e
  Backed-edit Residency.device_only h h' none e b = elim b [ ]
  Backed-edit Residency.device_only h h' (some st) e b = b ∙ sym e
  Backed-edit Residency.host_dirty h h' none e b = tt
  Backed-edit Residency.host_dirty h h' (some st) e b = b ∙ sym e

  module _ (d : Driver A) where
    -- If the driver's copies to the host succeed, `DerefMut` of a valid array and an edit of its slice
    -- that keeps the length (as every edit of a slice does) leave a valid array that is marked dirty
    -- and stands for the edit of the old value: nothing that a kernel wrote is lost.
    pub deref_mut_edits :
        (edit : List A → List A) (a : GpuArray A)
        → ((xs : List A) → length (edit xs) ≡ length xs)
        → ((xs : List A) → d.dtoh_sync_copy xs ≢ none)
        → IsValid a
        → (a' : GpuArray A) × (deref_mut d edit a ≡ ok a')
          × IsValid a'
          × (view a' ≡ edit (view a))
          × (a'.residency ≡ Residency.host_dirty)
    unfolding deref_mut deref
    deref_mut_edits edit a keeps works v =
        let (s, e, valid, host, value, kept) = deref_reads d a works v in
        (
          edited edit s,
          ap (map_ok (edited edit)) e,
          record {
            sized = keeps s.host ∙ valid.sized;
            backed =
                Backed-edit s.residency s.host (edit s.host) s.device (keeps s.host) valid.backed;
          },
          ap edit host,
          refl,
        )

  -- The device has the data: a copy of it, or no copy and nothing to copy.
  abbrev pub Uploaded : List A → Option (DeviceStorage A) → Type 0
  Uploaded xs none = length xs ≡ 0
  Uploaded xs (some st) = contents st ≡ xs

  -- What `ensure_device` leaves of an array: a valid one of the same value, with that value on the
  -- device, and the pointer of its storage (0 if there is none).
  pub record Ensured (a : GpuArray A) (r : ℕ × GpuArray A) : Type 0 where
    pub valid : IsValid r.1
    pub value : view r.1 ≡ view a
    pub uploaded : Uploaded (view a) r.1.device
    pub settled : dirty r.1.residency ≡ Residency.device_only

  module _ (d : Driver A) (size_of : ℕ) where
    first_upload-contents :
        (a : GpuArray A) → Ensures (λ st. contents st ≡ a.host) (first_upload d size_of a)
    unfolding first_upload
    first_upload-contents a = elim (Bool-cases (should_use_mapped size_of a)) [
      | inl e ↦
          rw e
            (elim (Option-cases (d.new_zeroed a.len)) [ inl f ↦ rw f tt | inr (p, f) ↦ rw f refl ])
      | inr e ↦ rw e (elim (Option-cases (d.htod_sync_copy a.host)) [
        | inl f ↦ rw f tt
        | inr (r, f) ↦ rw f (d.htod_exact a.host f)
      ])
    ]

    upload_into-contents :
        (a : GpuArray A) (st : DeviceStorage A)
        → Ensures (λ st'. contents st' ≡ a.host) (upload_into d size_of a st)
    unfolding upload_into
    upload_into-contents a (mapped p old) = refl
    upload_into-contents a (device_mem p old) =
        elim (Option-cases (d.htod_sync_copy_into a.host old)) [
          | inl f ↦ rw f tt
          | inr (r, f) ↦ rw f (d.htod_into_exact a.host old f)
        ]

    stored-Ensured :
        (h : List A) (dev : Option (DeviceStorage A)) (r : Residency) (n : ℕ)
        (st : Option (DeviceStorage A))
        → length h ≡ n
        → r ≢ Residency.device_only
        → Ensures (λ st'. contents st' ≡ h) st
        → Succeeds (Ensured (array h dev r n)) (stored d size_of (array h dev r n) st)
    unfolding stored dirty
    stored-Ensured h dev r n none l ne c = tt
    stored-Ensured h dev r n (some st) l ne c = record {
      valid = record { sized = l; backed = c };
      value = value_of-host r h dev ne;
      uploaded = c ∙ value_of-host r h dev ne;
      settled = refl;
    }

    ensure_for-Ensured :
        (r : Residency) (h : List A) (dev : Option (DeviceStorage A)) (n : ℕ)
        → length h ≡ n
        → Backed r h dev
        → Succeeds (Ensured (array h dev r n)) (ensure_for d size_of r (array h dev r n))
    unfolding ensure_for reupload pointer dirty
    ensure_for-Ensured Residency.host_only h (some st) n l b = elim b [ ]
    ensure_for-Ensured Residency.host_only h none n l b = elim (Bool-cases (n == 0)) [
      | inl e ↦ rw e (record {
        valid = record { sized = l; backed = l ∙ (==_iff n 0).0 e };
        value = refl;
        uploaded = l ∙ (==_iff n 0).0 e;
        settled = refl;
      })
      | inr e ↦ rw e (
          stored-Ensured h none Residency.host_only n _ l (λ e. cc)
            (first_upload-contents (array h none Residency.host_only n)))
    ]
    ensure_for-Ensured Residency.host_dirty h none n l b = tt
    ensure_for-Ensured Residency.host_dirty h (some st) n l b =
        stored-Ensured h (some st) Residency.host_dirty n _ l (λ e. cc)
          (upload_into-contents (array h (some st) Residency.host_dirty n) st)
    ensure_for-Ensured Residency.synced h none n l b = tt
    ensure_for-Ensured Residency.synced h (some st) n l b = record {
      valid = record { sized = l; backed = b };
      value = refl;
      uploaded = b;
      settled = refl;
    }
    ensure_for-Ensured Residency.device_only h none n l b = elim b [ ]
    ensure_for-Ensured Residency.device_only h (some st) n l b = record {
      valid = record { sized = l; backed = b };
      value = refl;
      uploaded = refl;
      settled = refl;
    }

    -- If `ensure_device` of a valid array returns, the array stays valid and keeps its value, the
    -- device has that value (or no copy of it, if it is empty).
    pub ensure_device_uploads :
        (a : GpuArray A) {p : ℕ} {a' : GpuArray A}
        → IsValid a
        → ensure_device d size_of a ≡ ok (p, a')
        → IsValid a' × (view a' ≡ view a) × Uploaded (view a) a'.device
    unfolding ensure_device
    ensure_device_uploads a v e =
        let r =
          of-Succeeds (Ensured a) (ensure_device d size_of a)
            (ensure_for-Ensured a.residency a.host a.device a.len v.sized v.backed) e in
        (r.valid, r.value, r.uploaded)

  -- A kernel that overwrites the storage which it was given with `ys`.
  abbrev pub kernel_writes : List A → DeviceStorage A → DeviceStorage A
  kernel_writes ys (mapped p xs) = mapped p ys
  kernel_writes ys (device_mem p xs) = device_mem p ys

  contents-kernel_writes :
      (ys : List A) (st : DeviceStorage A) → contents (kernel_writes ys st) ≡ ys
  contents-kernel_writes ys (mapped p xs) = refl
  contents-kernel_writes ys (device_mem p xs) = refl

  abbrev pub launched : List A → DeviceStorage A → GpuArray A → GpuArray A
  launched ys st a = mark_device_dirty (record a { device = some (kernel_writes ys st) })

  launched-IsValid :
      (ys : List A) (st : DeviceStorage A) (a : GpuArray A)
      → IsValid a
      → dirty a.residency ≡ Residency.device_only
      → length ys ≡ length a.host
      → IsValid (launched ys st a) × (view (launched ys st a) ≡ ys)
  unfolding mark_device_dirty
  launched-IsValid ys st a v s same = rw s (
    record { sized = v.sized; backed = ap length (contents-kernel_writes ys st) ∙ same },
    contents-kernel_writes ys st,
  )

  module _ (d : Driver A) (size_of : ℕ) where
    -- If `ensure_device` of a valid array returns an array with storage, a kernel overwrites that
    -- storage with `ys` of the array's length, the launch marks the device's copy dirty, and the
    -- driver's copies to the host succeed, then `Deref` succeeds and its slice is `ys`.
    pub kernel_result_read :
        (a : GpuArray A) (ys : List A) {p : ℕ} {a' : GpuArray A} {st : DeviceStorage A}
        → ((xs : List A) → d.dtoh_sync_copy xs ≢ none)
        → IsValid a
        → ensure_device d size_of a ≡ ok (p, a')
        → a'.device ≡ some st
        → length ys ≡ length a'.host
        → (b : GpuArray A) × (deref d (launched ys st a') ≡ ok b) × IsValid b × (b.host ≡ ys)
    unfolding ensure_device
    kernel_result_read a ys {a'} {st} works v e has same =
        let r =
          of-Succeeds (Ensured a) (ensure_device d size_of a)
            (ensure_for-Ensured d size_of a.residency a.host a.device a.len v.sized v.backed) e in
        let (w, x) = launched-IsValid ys st a' r.valid r.settled same in
        let (b, q, valid, host, _, _) = deref_reads d (launched ys st a') works w in
        (b, q, valid, host ∙ x)
