-- ===== src/Lock/Steps.antt =====
-- Any number of threads at one mutex, their steps in any order: `lock` round by round, `try_lock`,
-- the load and the store of the value through the guard, and the drop of the guard.
use async_gpu.Prelude.{ℕ, ◌≡◌, Bool, true, false, List, ◌∷◌, update}
use async_gpu.Lock.{Mutex, Round, acquired, again, trapped, lock_round, try_lock, unlock}

-- A thread outside the section, in the loop of `lock` with its count, in the section without and
-- with the value that it has loaded, or stopped by a trap.
pub data Thread (A : Type 0) : Type 0 where
  outside : Thread A
  spinning : (spins : ℕ) → Thread A
  inside : Thread A
  loaded : A → Thread A
  stopped : Thread A

-- `writes` lists the functions by which values were changed, the last first: no thread reads it.
pub record System (A : Type 0) : Type 0 where
  pub mutex : Mutex A
  pub threads : ℕ → Thread A
  pub writes : List (A → A)

module _ {A : Type 0} where
  abbrev pub after_round : Round → Thread A
  after_round acquired = inside
  after_round (again spins) = spinning spins
  after_round trapped = stopped

  abbrev pub after_try : Bool → Thread A
  after_try true = inside
  after_try false = outside

  abbrev pub moved : ℕ → Thread A → Mutex A → System A → System A
  moved i t m s = record s { mutex = m; threads = update s.threads i t }

  pub data Step : System A → System A → Type 0 where
    starts :
        (s : System A) (i : ℕ) → s.threads i ≡ outside → Step s (moved i (spinning 0) s.mutex s)
    rounds :
        (s : System A) (i spins : ℕ)
        → s.threads i ≡ spinning spins
        → Step s (moved i (after_round (lock_round spins s.mutex).0) (lock_round spins s.mutex).1 s)
    tries :
        (s : System A) (i : ℕ)
        → s.threads i ≡ outside
        → Step s (moved i (after_try (try_lock s.mutex).0) (try_lock s.mutex).1 s)
    loads :
        (s : System A) (i : ℕ)
        → s.threads i ≡ inside
        → Step s (moved i (loaded s.mutex.value) s.mutex s)
    stores :
        (s : System A) (i : ℕ) (v : A) (f : A → A)
        → s.threads i ≡ loaded v
        → Step s
            (record (moved i inside (record s.mutex { value = f v }) s) { writes = f ∷ s.writes })
    leaves :
        (s : System A) (i : ℕ) → s.threads i ≡ inside → Step s (moved i outside (unlock s.mutex) s)

  pub data Reach (s : System A) : System A → Type 0 where
    here : Reach s s
    next : {t u : System A} → Reach s t → Step t u → Reach s u

  -- Whether a thread holds the guard.
  abbrev pub Holds : Thread A → Type 0
  Holds outside = ⊥
  Holds (spinning spins) = ⊥
  Holds inside = Unit
  Holds (loaded v) = Unit
  Holds stopped = ⊥

  -- A loaded value is the current one.
  abbrev pub Sees : A → Thread A → Type 0
  Sees a outside = Unit
  Sees a (spinning spins) = Unit
  Sees a inside = Unit
  Sees a (loaded v) = v ≡ a
  Sees a stopped = Unit
