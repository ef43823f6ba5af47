-- ===== src/User/Lock.antt =====
-- linux_user/src/lock.c: locks over a pthread mutex. A pointer is false for NULL, with the mutex
-- beside it.
pub mod Exclusive
mod Tests
use osal.Base.{ℕ, Bool, true, false, Option, none, some, ◌==◌, if◌then◌else◌, ℤ, pos, negsuc}
use osal.Types.{OsalResult, success, error, invalid_param}

-- The calls of the thread library, which return 0 or an error's number. `lock` is none where the
-- caller sleeps.
pub record PthreadApi (M : Type 0) : Type 0 where
  pub init : ℕ × M
  pub lock : M → Option (ℕ × M)
  pub trylock : M → ℕ × M
  pub unlock : M → ℕ × M
  pub destroy : M → ℕ × M

-- Whether an allocation succeeds, and the release of one block.
pub record MemApi (W : Type 0) : Type 0 where
  pub alloc : W → Bool × W
  pub free : W → W

unfoldable pub as_result : ℕ → OsalResult
as_result r = if r == 0 then success else error

module _ {M : Type 0} (p : PthreadApi M) where
  unfoldable pub os_lock : M → Option (ℕ × M)
  os_lock m = p.lock m

  unfoldable pub os_try_lock : (lock : Bool) → M → ℤ × M
  os_try_lock false m = (negsuc 0, m)
  os_try_lock true m = let r = p.trylock m in (pos r.0, r.1)

  unfoldable pub os_unlock : M → ℕ × M
  os_unlock m = p.unlock m

  module _ {W : Type 0} (memory : MemApi W) where
    unfoldable pub mutex_allocated : Bool × W → Option M × W
    mutex_allocated (false, w) = (none, w)
    mutex_allocated (true, w) = (some p.init.1, w)

    -- none for NULL; what the initialisation returns is not tested.
    unfoldable pub os_create_lock : W → Option M × W
    unfolding mutex_allocated
    os_create_lock w = mutex_allocated (memory.alloc w)

    unfoldable pub os_destroy_lock : M → W → (ℕ × M) × W
    os_destroy_lock m w = let r = p.destroy m in (r, (if r.0 == 0 then memory.free w else w))

  unfoldable pub os_mutex_init : (mtx : Bool) → M → OsalResult × M
  unfolding as_result
  os_mutex_init false m = (invalid_param, m)
  os_mutex_init true m = (as_result p.init.0, p.init.1)

  unfoldable pub os_mutex_destroy : (mtx : Bool) → M → OsalResult × M
  unfolding as_result
  os_mutex_destroy false m = (invalid_param, m)
  os_mutex_destroy true m = let r = p.destroy m in (as_result r.0, r.1)

  unfoldable pub mutex_got : Option (ℕ × M) → Option (OsalResult × M)
  unfolding as_result
  mutex_got none = none
  mutex_got (some (r, m)) = some (as_result r, m)

  unfoldable pub os_mutex_lock : (mtx : Bool) → M → Option (OsalResult × M)
  unfolding mutex_got
  os_mutex_lock false m = some (invalid_param, m)
  os_mutex_lock true m = mutex_got (p.lock m)

  unfoldable pub os_mutex_trylock : (mtx : Bool) → M → OsalResult × M
  unfolding as_result
  os_mutex_trylock false m = (invalid_param, m)
  os_mutex_trylock true m = let r = p.trylock m in (as_result r.0, r.1)

  unfoldable pub os_mutex_unlock : (mtx : Bool) → M → OsalResult × M
  unfolding as_result
  os_mutex_unlock false m = (invalid_param, m)
  os_mutex_unlock true m = let r = p.unlock m in (as_result r.0, r.1)
