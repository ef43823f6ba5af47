-- ===== src/Kernel/IrqLock.antt =====
-- linux_kernel/src/osal_irqlock.c: interrupt locks over the kernel's spin locks. A lock is a number.
pub mod Nested
mod Tests
use osal.Base.{ℕ, Option, none, some}
use osal.Types.{OsalResult, success}

-- The kernel's calls; `S` is the type of the flags that a caller keeps. `spin_lock_irqsave` is none
-- where the caller spins.
pub record SpinApi (S W : Type 0) : Type 0 where
  pub spin_lock_init : ℕ → W → W
  pub spin_lock_irqsave : ℕ → W → Option (S × W)
  pub spin_unlock_irqrestore : ℕ → S → W → W

module _ {S W : Type 0} (k : SpinApi S W) where
  pub os_irqlock_init : (lock : ℕ) → W → OsalResult × W
  os_irqlock_init lock w = (success, k.spin_lock_init lock w)

  -- What is stored in `state`, once the lock is there.
  unfoldable pub acquired : Option (S × W) → Option (OsalResult × S × W)
  acquired none = none
  acquired (some (state, w)) = some (success, state, w)

  unfoldable pub os_irqlock_acquire : (lock : ℕ) → W → Option (OsalResult × S × W)
  unfolding acquired
  os_irqlock_acquire lock w = acquired (k.spin_lock_irqsave lock w)

  unfoldable pub os_irqlock_release : (lock : ℕ) (state : S) → W → OsalResult × W
  os_irqlock_release lock state w = (success, k.spin_unlock_irqrestore lock state w)

  pub os_irqlock_destroy : (lock : ℕ) → W → OsalResult × W
  os_irqlock_destroy lock w = (success, w)
