-- ===== src/Lock/Exclusive.antt =====
-- What holds however the threads of Steps interleave.
use async_gpu.Prelude.{
  ℕ, ◌+◌, ◌≡◌, ◌≢◌, refl, ap, ◌∙◌, inl, inr, ◌==◌, ==_iff, ==→ne, leb, Bool-cases, List, [], ◌∷◌,
  update, arith, subst,
}
use async_gpu.Lock.{
  unlocked, locked, mutex_max_spin, Mutex, new, cas_lock, lock_round, try_lock, unlock,
}
use async_gpu.Lock.Steps.{
  Thread, outside, spinning, inside, loaded, stopped, System, after_round, after_try, moved, Step,
  starts, rounds, tries, loads, stores, leaves, Reach, here, next, Holds, Sees,
}

module _ {A : Type 0} where
  -- The functions one after another, the last in the list first.
  abbrev pub apply_all : List (A → A) → A → A
  apply_all [] a = a
  apply_all (f ∷ fs) a = f (apply_all fs a)

  pub record Safe (first : A) (s : System A) : Type 0 where
    pub shut : (i : ℕ) → Holds (s.threads i) → s.mutex.lock_word ≡ locked
    pub one : (i j : ℕ) → Holds (s.threads i) → Holds (s.threads j) → i ≡ j
    pub sees : (i : ℕ) → Sees s.mutex.value (s.threads i)
    pub serial : s.mutex.value ≡ apply_all s.writes first

  Sees-out : (a : A) (t : Thread A) → (Holds t → ⊥) → Sees a t
  Sees-out a outside h = tt
  Sees-out a (spinning spins) h = tt
  Sees-out a inside h = tt
  Sees-out a (loaded v) h = absurd (h tt)
  Sees-out a stopped h = tt

  -- What holds of each thread after thread `i` has moved.
  moved_all :
      (P : ℕ → Thread A → Type 0) (threads : ℕ → Thread A) (i : ℕ) (t : Thread A)
      → P i t
      → ((j : ℕ) → i ≢ j → P j (threads j))
      → (j : ℕ) → P j (update threads i t j)
  moved_all P threads i t p h j = elim (Bool-cases (i == j)) [
    | inl e ↦ rw e (subst (λ k. P k t) ((==_iff i j).0 e) p)
    | inr e ↦ rw e (h j (==→ne i j e))
  ]

  -- Thread `i` moves to `t`, the mutex becomes `m` and the writes `w`.
  moved-Safe :
      (first : A) (s : System A) (i : ℕ) (t : Thread A) (m : Mutex A) (w : List (A → A))
      → Safe first s
      → (Holds t → m.lock_word ≡ locked)
      → ((j : ℕ) → i ≢ j → Holds (s.threads j) → m.lock_word ≡ locked)
      → ((j : ℕ) → Holds t → i ≢ j → Holds (s.threads j) → ⊥)
      → Sees m.value t
      → ((j : ℕ) → i ≢ j → Sees m.value (s.threads j))
      → m.value ≡ apply_all w first
      → Safe first (record (moved i t m s) { writes = w })
  moved-Safe first s i t m w safe shut_i shut_j alone sees_i sees_j serial = record {
    shut = moved_all (λ j u. Holds u → m.lock_word ≡ locked) s.threads i t shut_i shut_j;
    one = λ a b.
        moved_all (λ a' u. Holds u → Holds (update s.threads i t b) → a' ≡ b) s.threads i t
          (λ ht.
            moved_all (λ b' u. Holds u → i ≡ b') s.threads i t (λ h. refl)
              (λ j ne hj. absurd (alone j ht ne hj)) b)
          (λ a' ne ha.
            moved_all (λ b' u. Holds u → a' ≡ b') s.threads i t (λ ht. absurd (alone a' ht ne ha))
              (λ j ne' hj. safe.one a' j ha hj) b)
          a;
    sees = moved_all (λ j u. Sees m.value u) s.threads i t sees_i sees_j;
    serial = serial;
  }

  -- A move to a place outside the section that leaves the mutex alone.
  moved_out :
      (first : A) (s : System A) (i : ℕ) (t : Thread A)
      → Safe first s
      → (Holds t → ⊥)
      → Safe first (moved i t s.mutex s)
  moved_out first s i t safe out =
      moved-Safe first s i t s.mutex s.writes safe (λ h. absurd (out h)) (λ j ne. safe.shut j)
        (λ j h. absurd (out h)) (Sees-out s.mutex.value t out) (λ j ne. safe.sees j) safe.serial

  -- A move into the section of a thread that found the word unlocked.
  moved_in :
      (first : A) (s : System A) (i : ℕ)
      → Safe first s
      → s.mutex.lock_word ≡ unlocked
      → Safe first (moved i inside (record s.mutex { lock_word = locked }) s)
  moved_in first s i safe free =
      moved-Safe first s i inside (record s.mutex { lock_word = locked }) s.writes safe (λ h. refl)
        (λ j ne h. refl) (λ j h ne hj. absurd (omega (arith, safe.shut j hj))) tt
        (λ j ne. safe.sees j) safe.serial

  -- The thread that is in the section stays there.
  moved_within :
      (first : A) (s : System A) (i : ℕ) (t : Thread A) (a : A) (w : List (A → A))
      → Safe first s
      → Holds (s.threads i)
      → Sees a t
      → a ≡ apply_all w first
      → Safe first (record (moved i t (record s.mutex { value = a }) s) { writes = w })
  moved_within first s i t a w safe holds sees serial =
      let others : (j : ℕ) → i ≢ j → Holds (s.threads j) → ⊥ =
        λ j ne hj. ne (safe.one i j holds hj) in
      moved-Safe first s i t (record s.mutex { value = a }) w safe (λ h. safe.shut i holds)
        (λ j ne h. safe.shut j h) (λ j h ne hj. others j ne hj) sees
        (λ j ne. Sees-out a (s.threads j) (others j ne)) serial

  round-Safe :
      (first : A) (s : System A) (i spins : ℕ)
      → Safe first s
      → Safe first
          (moved i (after_round (lock_round spins s.mutex).0) (lock_round spins s.mutex).1 s)
  unfolding lock_round cas_lock
  round-Safe first s i spins safe = elim (Bool-cases (s.mutex.lock_word == unlocked)) [
    | inl free ↦ rw free (moved_in first s i safe ((==_iff s.mutex.lock_word unlocked).0 free))
    | inr taken ↦ elim (Bool-cases (leb mutex_max_spin (spins + 1))) [
      | inl over ↦ rw (taken, over) (moved_out first s i stopped safe (λ h. h))
      | inr more ↦ rw (taken, more) (moved_out first s i (spinning (spins + 1)) safe (λ h. h))
    ]
  ]

  try-Safe :
      (first : A) (s : System A) (i : ℕ)
      → Safe first s
      → Safe first (moved i (after_try (try_lock s.mutex).0) (try_lock s.mutex).1 s)
  unfolding try_lock cas_lock
  try-Safe first s i safe = elim (Bool-cases (s.mutex.lock_word == unlocked)) [
    | inl free ↦ rw free (moved_in first s i safe ((==_iff s.mutex.lock_word unlocked).0 free))
    | inr taken ↦ rw taken (moved_out first s i outside safe (λ h. h))
  ]

  Step-Safe : (first : A) {s t : System A} → Step s t → Safe first s → Safe first t
  unfolding unlock
  Step-Safe first (starts s i at) safe = moved_out first s i (spinning 0) safe (λ h. h)
  Step-Safe first (rounds s i spins at) safe = round-Safe first s i spins safe
  Step-Safe first (tries s i at) safe = try-Safe first s i safe
  Step-Safe first (loads s i at) safe =
      moved_within first s i (loaded s.mutex.value) s.mutex.value s.writes safe (rw at tt) refl
        safe.serial
  Step-Safe first (stores s i v f at) safe =
      let current : v ≡ s.mutex.value = subst (Sees s.mutex.value) at (safe.sees i) in
      moved_within first s i inside (f v) (f ∷ s.writes) safe (rw at tt) tt
        (ap f (current ∙ safe.serial))
  Step-Safe first (leaves s i at) safe =
      let holds : Holds (s.threads i) = rw at tt in
      let others : (j : ℕ) → i ≢ j → Holds (s.threads j) → ⊥ =
        λ j ne hj. ne (safe.one i j holds hj) in
      moved-Safe first s i outside (unlock s.mutex) s.writes safe (λ h. absurd h)
        (λ j ne h. absurd (others j ne h)) (λ j h. absurd h) tt (λ j ne. safe.sees j) safe.serial

  Reach-Safe : (first : A) {s t : System A} → Reach s t → Safe first s → Safe first t
  Reach-Safe first here safe = safe
  Reach-Safe first (next r step) safe = Step-Safe first step (Reach-Safe first r safe)

  -- A new mutex with every thread outside.
  abbrev pub initial : A → System A
  initial first = record { mutex = new first; threads = λ i. outside; writes = [] }

  initial-Safe : (first : A) → Safe first (initial first)
  unfolding new
  initial-Safe first = record {
    shut = λ i h. absurd h;
    one = λ i j h. absurd h;
    sees = λ i. tt;
    serial = refl;
  }

  -- From a new mutex with every thread outside, through any steps of any threads: two threads that
  -- hold the guard are the same.
  pub mutual_exclusion :
      (first : A) (s : System A) (i j : ℕ)
      → Reach (initial first) s
      → Holds (s.threads i)
      → Holds (s.threads j)
      → i ≡ j
  mutual_exclusion first s i j r = (Reach-Safe first r (initial-Safe first)).one i j

  -- From a new mutex with every thread outside, through any steps of any threads: the value is the
  -- first one changed by all the stored functions one after another, although each was applied to a
  -- value loaded some steps before its store.
  pub no_lost_update :
      (first : A) (s : System A)
      → Reach (initial first) s
      → s.mutex.value ≡ apply_all s.writes first
  no_lost_update first s r = (Reach-Safe first r (initial-Safe first)).serial
