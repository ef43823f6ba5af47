-- ===== src/Locks.antt =====
-- include/osal_lock.h: what a lock promises, whichever implementation it has.
pub mod Exclusion
pub mod Sections
use osal.Base.{Bool, true, false, Option, some, none, ◌≡◌}

-- The operations of a lock that is there. `lock` is none where the caller sleeps; `try_lock` says
-- whether its answer is success.
pub record LockOps (L : Type 0) : Type 0 where
  pub lock : L → Option L
  pub try_lock : L → Bool × L
  pub unlock : L → L

-- A lock is free or held; a held one is not taken again, and the operations move it as they say.
pub record IsLock {L : Type 0} (ops : LockOps L) (IsFree IsHeld : L → Type 0) : Type 0 where
  pub lock_free : (l : L) → IsFree l → (l' : L) × (ops.lock l ≡ some l') × IsHeld l'
  pub lock_held : (l : L) → IsHeld l → ops.lock l ≡ none
  pub try_free : (l : L) → IsFree l → ((ops.try_lock l).0 ≡ true) × IsHeld (ops.try_lock l).1
  pub try_held : (l : L) → IsHeld l → ((ops.try_lock l).0 ≡ false) × IsHeld (ops.try_lock l).1
  pub unlock : (l : L) → IsHeld l → IsFree (ops.unlock l)
