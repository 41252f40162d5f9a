-- ===== src/Array/View.antt =====
-- The value that a GpuArray stands for, in whichever copy it lives, its invariant, and reads.
use async_gpu.Prelude.{
  ℕ, ◌≡◌, ◌≢◌, refl, sym, ap, ◌∙◌, List, Option, none, some, length, Bool-cases, inl, inr,
  Option-cases, eq→==, ◌==◌,
}
use mathlib.Core.Path.{subst}
use async_gpu.Array.{
  Residency, DeviceStorage, mapped, device_mem, GpuArray, Attempt, ok, err, panic, Driver, contents,
  from_vec, deref, read_back, sync_to_host, sync_for, sync_to_host_fallible, expect, try_sync_for,
  try_sync_to_host,
}

-- What holds of the array that a call leaves, if it returns one.
abbrev pub Succeeds : {B : Type 0} → (B → Type 0) → Attempt B → Type 0
Succeeds P (ok b) = P b
Succeeds P err = Unit
Succeeds P panic = Unit

pub of-Succeeds :
    {B : Type 0} (P : B → Type 0) (m : Attempt B) {b : B} → Succeeds P m → m ≡ ok b → P b
of-Succeeds P m h e = subst (Succeeds P) e h

module _ {A : Type 0} where
  -- The copy that counts.
  abbrev pub value_of : Residency → List A → Option (DeviceStorage A) → List A
  value_of Residency.device_only h (some st) = contents st
  value_of _ h _ = h

  abbrev pub view : GpuArray A → List A
  view a = value_of a.residency a.host a.device

  -- What the residency says of the device's copy. A dirty array may have none: see Faults.
  abbrev pub Backed : Residency → List A → Option (DeviceStorage A) → Type 0
  Backed Residency.host_only h none = Unit
  Backed Residency.host_only h (some st) = ⊥
  Backed Residency.synced h none = length h ≡ 0
  Backed Residency.synced h (some st) = contents st ≡ h
  Backed Residency.device_only h none = ⊥
  Backed Residency.device_only h (some st) = length (contents st) ≡ length h
  Backed Residency.host_dirty h none = Unit
  Backed Residency.host_dirty h (some st) = length (contents st) ≡ length h

  pub record IsValid (a : GpuArray A) : Type 0 where
    pub sized : length a.host ≡ a.len
    pub backed : Backed a.residency a.host a.device

  pub from_vec-IsValid : (xs : List A) → IsValid (from_vec xs) × (view (from_vec xs) ≡ xs)
  unfolding from_vec
  from_vec-IsValid xs = (record { sized = refl; backed = tt }, refl)

  abbrev pub array : List A → Option (DeviceStorage A) → Residency → ℕ → GpuArray A
  array h dev r n = record { host = h; device = dev; residency = r; len = n }

  -- What a read leaves of an array: a valid one of the same value, with that value on the host.
  pub record Read (a a' : GpuArray A) : Type 0 where
    pub valid : IsValid a'
    pub host : a'.host ≡ view a
    pub value : view a' ≡ view a
    pub kept : a'.device ≡ a.device

  pub value_of-host :
      (r : Residency) (h : List A) (dev : Option (DeviceStorage A))
      → r ≢ Residency.device_only
      → h ≡ value_of r h dev
  value_of-host Residency.device_only h dev ne = absurd (ne refl)
  value_of-host Residency.host_only h dev ne = refl
  value_of-host Residency.synced h dev ne = refl
  value_of-host Residency.host_dirty h dev ne = refl

  unmoved :
      {h : List A} {dev : Option (DeviceStorage A)} {r : Residency} {n : ℕ}
      → length h ≡ n
      → Backed r h dev
      → r ≢ Residency.device_only
      → Read (array h dev r n) (array h dev r n)
  unmoved {h} {dev} {r} l b ne = record {
    valid = record { sized = l; backed = b };
    host = value_of-host r h dev ne;
    value = refl;
    kept = refl;
  }

  module _ (d : Driver A) where
    pub sync_for-Read :
        (r : Residency) (h : List A) (dev : Option (DeviceStorage A)) (n : ℕ)
        → length h ≡ n
        → Backed r h dev
        → Succeeds (Read (array h dev r n)) (sync_for d r (array h dev r n))
    unfolding sync_for sync_to_host sync_to_host_fallible read_back
    sync_for-Read Residency.device_only h none n l b = elim b [ ]
    sync_for-Read Residency.device_only h (some (mapped p xs)) n l b =
        elim (Bool-cases (length h == length xs)) [
          | inl e ↦ rw e (record {
            valid = record { sized = b ∙ l; backed = refl };
            host = refl;
            value = refl;
            kept = refl;
          })
          | inr e ↦ rw e tt
        ]
    sync_for-Read Residency.device_only h (some (device_mem p xs)) n l b =
        elim (Option-cases (d.dtoh_sync_copy xs)) [
          | inl e ↦ rw e tt
          | inr (ys, e) ↦
              let q = d.dtoh_exact xs e in
              rw e (record {
                valid = record { sized = ap length q ∙ b ∙ l; backed = sym q };
                host = q;
                value = q;
                kept = refl;
              })
        ]
    sync_for-Read Residency.host_only h none n l b = unmoved l b (λ e. cc)
    sync_for-Read Residency.host_only h (some st) n l b = elim b [ ]
    sync_for-Read Residency.synced h none n l b = unmoved l b (λ e. cc)
    sync_for-Read Residency.synced h (some st) n l b = unmoved l b (λ e. cc)
    sync_for-Read Residency.host_dirty h none n l b = unmoved l b (λ e. cc)
    sync_for-Read Residency.host_dirty h (some st) n l b = unmoved l b (λ e. cc)

    pub deref-Read : (a : GpuArray A) → IsValid a → Succeeds (Read a) (deref d a)
    unfolding deref
    deref-Read a v = sync_for-Read a.residency a.host a.device a.len v.sized v.backed

    sync_for-expect :
        (r : Residency) (a : GpuArray A) → sync_for d r a ≡ expect (try_sync_for d r a)
    unfolding sync_for sync_to_host try_sync_for
    sync_for-expect Residency.host_only a = refl
    sync_for-expect Residency.synced a = refl
    sync_for-expect Residency.device_only a = refl
    sync_for-expect Residency.host_dirty a = refl

    -- `Deref` does what `try_sync_to_host` does, but panics where that fails.
    pub deref-expect : (a : GpuArray A) → deref d a ≡ expect (try_sync_to_host d a)
    unfolding deref try_sync_to_host
    deref-expect a = sync_for-expect a.residency a

    sync_for-ok :
        (r : Residency) (h : List A) (dev : Option (DeviceStorage A)) (n : ℕ)
        → ((xs : List A) → d.dtoh_sync_copy xs ≢ none)
        → Backed r h dev
        → (a' : GpuArray A) × (sync_for d r (array h dev r n) ≡ ok a')
    unfolding sync_for sync_to_host sync_to_host_fallible read_back
    sync_for-ok Residency.device_only h none n works b = elim b [ ]
    sync_for-ok Residency.device_only h (some (mapped p xs)) n works b = (
      record { host = xs; device = some (mapped p xs); residency = Residency.synced; len = n },
      rw (eq→== (length h) (length xs) (sym b)),
    )
    sync_for-ok Residency.device_only h (some (device_mem p xs)) n works b =
        elim (Option-cases (d.dtoh_sync_copy xs)) [
          | inl e ↦ absurd (works xs e)
          | inr (ys, e) ↦ (
            record {
              host = ys;
              device = some (device_mem p xs);
              residency = Residency.synced;
              len = n;
            },
            rw e,
          )
        ]
    sync_for-ok Residency.host_only h dev n works b = (_, refl)
    sync_for-ok Residency.synced h dev n works b = (_, refl)
    sync_for-ok Residency.host_dirty h dev n works b = (_, refl)

    -- If the driver's copies to the host succeed, `Deref` of a valid array succeeds: the host's slice
    -- then is the array's value, and the array stays valid and keeps its value and its device copy.
    pub deref_reads :
        (a : GpuArray A)
        → ((xs : List A) → d.dtoh_sync_copy xs ≢ none)
        → IsValid a
        → (a' : GpuArray A) × (deref d a ≡ ok a')
          × IsValid a'
          × (a'.host ≡ view a)
          × (view a' ≡ view a)
          × (a'.device ≡ a.device)
    unfolding deref
    deref_reads a works v =
        let (a', e) = sync_for-ok a.residency a.host a.device a.len works v.backed in
        let r = of-Succeeds (Read a) (deref d a) (deref-Read a v) e in
        (a', e, r.valid, r.host, r.value, r.kept)
