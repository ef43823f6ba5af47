-- ===== src/Kernel/Lock.antt =====
-- linux_kernel/src/osal_sema.c and linux_kernel/src/osal_lock.c: locks over the kernel's semaphore.
-- A pointer is false for NULL, with the semaphore beside it.
pub mod Exclusive
mod Tests
use osal.Base.{ℕ, Bool, true, false, Option, none, some, ◌==◌, if◌then◌else◌}
use osal.Types.{OsalResult, success, error, invalid_param}

-- The kernel's calls on a `struct semaphore`. `down` is none where the caller sleeps, and
-- `down_trylock` is 0 when it took the semaphore.
pub record SemaApi (K : Type 0) : Type 0 where
  pub sema_init : (initial : ℕ) → K
  pub down : K → Option K
  pub down_trylock : K → ℕ × K
  pub up : K → K

-- The kernel's calls on a `struct mutex`; mutex_trylock is 0 when it did not take the mutex.
pub record MutexApi (M : Type 0) : Type 0 where
  pub mutex_init : M
  pub mutex_lock : M → Option M
  pub mutex_trylock : M → ℕ × M
  pub mutex_unlock : M → M
  pub mutex_destroy : M → M

-- Whether an allocation succeeds, and the release of one block.
pub record MemApi (W : Type 0) : Type 0 where
  pub alloc : W → Bool × W
  pub free : W → W

module _ {K : Type 0} (k : SemaApi K) where
  unfoldable pub os_sema_init : (p_sema : Bool) (initial : ℕ) → K → OsalResult × K
  os_sema_init false initial sema = (invalid_param, sema)
  os_sema_init true initial sema = (success, k.sema_init initial)

  -- With the field sema_static_init_cnt.
  pub os_sema_init_pre_inited : (p_sema : Bool) (initial : ℕ) → ℕ × K → OsalResult × (ℕ × K)
  os_sema_init_pre_inited false initial sema = (invalid_param, sema)
  os_sema_init_pre_inited true initial (static_cnt, sema) =
      (success, (if static_cnt == 0 then (1, k.sema_init initial) else (static_cnt, sema)))

  unfoldable pub os_sema_get : K → Option K
  os_sema_get sema = k.down sema

  unfoldable pub os_sema_tryget : K → ℕ × K
  os_sema_tryget sema = k.down_trylock sema

  unfoldable pub os_sema_put : K → K
  os_sema_put sema = k.up sema

  -- What os_lock answers, once it does not sleep.
  unfoldable pub got : Option K → Option (ℕ × K)
  got none = none
  got (some sema) = some (1, sema)

  unfoldable pub os_lock : (lock : Bool) → K → Option (ℕ × K)
  unfolding got os_sema_get
  os_lock false sema = some (1, sema)
  os_lock true sema = got (os_sema_get sema)

  unfoldable pub os_try_lock : (lock : Bool) → K → ℕ × K
  unfolding os_sema_tryget
  os_try_lock false sema = (1, sema)
  os_try_lock true sema = os_sema_tryget sema

  unfoldable pub os_unlock : (lock : Bool) → K → ℕ × K
  unfolding os_sema_put
  os_unlock false sema = (1, sema)
  os_unlock true sema = (1, os_sema_put sema)

  module _ {W : Type 0} (memory : MemApi W) (garbage : K) where
    -- The semaphore is allocated for a lock that is; `garbage` is what its memory holds.
    unfoldable pub sema_allocated : Bool × W → Option K × W
    unfolding os_sema_init
    sema_allocated (false, w) = (none, memory.free w)
    sema_allocated (true, w) = (some (os_sema_init true 1 garbage).1, w)

    unfoldable pub lock_allocated : Bool × W → Option K × W
    unfolding sema_allocated
    lock_allocated (false, w) = (none, w)
    lock_allocated (true, w) = sema_allocated (memory.alloc w)

    -- none for NULL.
    unfoldable pub os_create_lock : W → Option K × W
    unfolding lock_allocated
    os_create_lock w = lock_allocated (memory.alloc w)

    unfoldable pub os_destroy_lock : (lock : Bool) → W → ℕ × W
    os_destroy_lock false w = (1, w)
    os_destroy_lock true w = (1, memory.free (memory.free w))

module _ {M : Type 0} (k : MutexApi M) where
  unfoldable pub os_mutex_init : (mtx : Bool) → M → OsalResult × M
  os_mutex_init false m = (invalid_param, m)
  os_mutex_init true m = (success, k.mutex_init)

  unfoldable pub mutex_got : Option M → Option (OsalResult × M)
  mutex_got none = none
  mutex_got (some m) = some (success, m)

  unfoldable pub os_mutex_lock : (mtx : Bool) → M → Option (OsalResult × M)
  unfolding mutex_got
  os_mutex_lock false m = some (invalid_param, m)
  os_mutex_lock true m = mutex_got (k.mutex_lock m)

  unfoldable pub os_mutex_trylock : (mtx : Bool) → M → OsalResult × M
  os_mutex_trylock false m = (invalid_param, m)
  os_mutex_trylock true m =
      let r = k.mutex_trylock m in ((if r.0 == 0 then error else success), r.1)

  unfoldable pub os_mutex_unlock : (mtx : Bool) → M → OsalResult × M
  os_mutex_unlock false m = (invalid_param, m)
  os_mutex_unlock true m = (success, k.mutex_unlock m)

  pub os_mutex_destroy : (mtx : Bool) → M → OsalResult × M
  os_mutex_destroy false m = (invalid_param, m)
  os_mutex_destroy true m = (success, k.mutex_destroy m)
