-- ===== src/User/IrqLock.antt =====
-- linux_user/src/osal_irqlock.c: interrupt locks over pthread mutexes. No interrupt comes to user
-- space, and the caller's local variable is not used.
use osal.Base.{ℕ, Option, none, some}
use osal.Types.{OsalResult, success}
use osal.User.Lock.{PthreadApi, as_result}

module _ {M : Type 0} (p : PthreadApi M) where
  pub os_irqlock_init : M → OsalResult × M
  unfolding as_result
  os_irqlock_init m = (as_result p.init.0, p.init.1)

  unfoldable pub acquired : Option (ℕ × M) → Option (OsalResult × M)
  unfolding as_result
  acquired none = none
  acquired (some (r, m)) = some (as_result r, m)

  unfoldable pub os_irqlock_acquire : M → Option (OsalResult × M)
  unfolding acquired
  os_irqlock_acquire m = acquired (p.lock m)

  unfoldable pub os_irqlock_release : M → OsalResult × M
  unfolding as_result
  os_irqlock_release m = let r = p.unlock m in (as_result r.0, r.1)

  pub os_irqlock_destroy : M → OsalResult × M
  os_irqlock_destroy m = (success, (p.destroy m).1)
