-- ===== src/Lock.antt =====
-- crates/core/gpu-runtime/src/sync.rs: the spinlock Mutex. A trap of the device ends a thread.
pub mod Steps
pub mod Exclusive
use async_gpu.Prelude.{ℕ, ◌+◌, ◌==◌, leb, if◌then◌else◌, Bool, true, false}

abbrev pub unlocked : ℕ
unlocked = 0

abbrev pub locked : ℕ
locked = 1

abbrev pub mutex_max_spin : ℕ
mutex_max_spin = 10000000

pub record Mutex (A : Type 0) : Type 0 where
  pub lock_word : ℕ
  pub value : A

-- How a round of the loop of `lock` ends.
pub data Round : Type 0 where
  acquired : Round
  again : (spins : ℕ) → Round
  trapped : Round

module _ {A : Type 0} where
  unfoldable pub new : A → Mutex A
  new value = record { lock_word = unlocked; value = value }

  -- `sys_cas_u32(lock_ptr, UNLOCKED, LOCKED)`: the old word.
  unfoldable pub cas_lock : Mutex A → ℕ × Mutex A
  cas_lock m = (m.lock_word, if m.lock_word == unlocked then record m { lock_word = locked } else m)

  unfoldable pub lock_round : ℕ → Mutex A → Round × Mutex A
  unfolding cas_lock
  lock_round spins m =
      let (old, m') = cas_lock m in
      if old == unlocked
      then (acquired, m')
      else if leb mutex_max_spin (spins + 1)
      then (trapped, m')
      else (again (spins + 1), m')

  unfoldable pub try_lock : Mutex A → Bool × Mutex A
  unfolding cas_lock
  try_lock m = let (old, m') = cas_lock m in if old == unlocked then (true, m') else (false, m')

  -- `unlock`, by the drop of the guard.
  unfoldable pub unlock : Mutex A → Mutex A
  unlock m = record m { lock_word = unlocked }
