-- ===== src/Kernel/Lock/Exclusive.antt =====
-- The kernel's locks exclude each other's owners, as include/osal_lock.h has it.
use osal.Base.{
  ℕ, suc, ◌≡◌, sym, ap, ◌∙◌, Bool, true, false, Option, none, some, ◌==◌, if◌then◌else◌,
}
use mathlib.Core.Option.{some-injective}
use osal.Types.{OsalResult, success, error}
use osal.Locks.{LockOps, IsLock}
use osal.Locks.Exclusion.{State, Reach, Exclusive, Reach-Exclusive}
use osal.Kernel.Lock.{
  SemaApi, MutexApi, MemApi, os_lock, os_try_lock, os_unlock, got, lock_allocated, sema_allocated,
  os_create_lock, os_mutex_init, os_mutex_lock, os_mutex_trylock, os_mutex_unlock, os_sema_get,
  os_sema_tryget, os_sema_put, os_sema_init, mutex_got,
}

-- What the kernel documents of a semaphore with a count.
pub record IsSema {K : Type 0} (k : SemaApi K) (count : K → ℕ) : Type 0 where
  pub sema_init : (n : ℕ) → count (k.sema_init n) ≡ n
  pub down_zero : (s : K) → count s ≡ 0 → k.down s ≡ none
  pub down_suc :
      (s : K) (n : ℕ) → count s ≡ suc n → (s' : K) × (k.down s ≡ some s') × (count s' ≡ n)
  pub trylock_zero :
      (s : K) → count s ≡ 0 → ((k.down_trylock s).0 ≡ 1) × (count (k.down_trylock s).1 ≡ 0)
  pub trylock_suc :
      (s : K) (n : ℕ)
      → count s ≡ suc n
      → ((k.down_trylock s).0 ≡ 0) × (count (k.down_trylock s).1 ≡ n)
  pub up : (s : K) → count (k.up s) ≡ suc (count s)

-- What the kernel documents of a mutex that is locked or not.
pub record IsMutex {M : Type 0} (k : MutexApi M) (locked : M → Bool) : Type 0 where
  pub mutex_init : locked k.mutex_init ≡ false
  pub lock_false :
      (m : M) → locked m ≡ false → (m' : M) × (k.mutex_lock m ≡ some m') × (locked m' ≡ true)
  pub lock_true : (m : M) → locked m ≡ true → k.mutex_lock m ≡ none
  pub trylock_false :
      (m : M)
      → locked m ≡ false
      → ((k.mutex_trylock m).0 ≡ 1) × (locked (k.mutex_trylock m).1 ≡ true)
  pub trylock_true :
      (m : M)
      → locked m ≡ true
      → ((k.mutex_trylock m).0 ≡ 0) × (locked (k.mutex_trylock m).1 ≡ true)
  pub unlock : (m : M) → locked m ≡ true → locked (k.mutex_unlock m) ≡ false

abbrev state_of : {R L : Type 0} → Option (R × L) → Option L
state_of none = none
state_of (some r) = some r.1

abbrev is_success : OsalResult → Bool
is_success success = true
is_success r = false

-- The operations on a lock that os_create_lock made.
abbrev pub lock_ops : {K : Type 0} → SemaApi K → LockOps K
lock_ops k = record {
  lock = λ s. state_of (os_lock k true s);
  try_lock = λ s. ((os_try_lock k true s).0 == 0, (os_try_lock k true s).1);
  unlock = λ s. (os_unlock k true s).1;
}

-- The operations on a mutex that os_mutex_init initialised.
abbrev pub mutex_ops : {M : Type 0} → MutexApi M → LockOps M
mutex_ops k = record {
  lock = λ m. state_of (os_mutex_lock k true m);
  try_lock = λ m. (is_success (os_mutex_trylock k true m).0, (os_mutex_trylock k true m).1);
  unlock = λ m. (os_mutex_unlock k true m).1;
}

module _ {K : Type 0} (k : SemaApi K) (count : K → ℕ) (law : IsSema k count) where
  lock-IsLock : IsLock (lock_ops k) (λ s. count s ≡ 1) (λ s. count s ≡ 0)
  unfolding os_lock os_try_lock os_unlock got os_sema_get os_sema_tryget os_sema_put
  lock-IsLock = record {
    lock_free = λ s f. let d = law.down_suc s 0 f in (d.0, ap (λ o. state_of (got k o)) d.1, d.2);
    lock_held = λ s h. ap (λ o. state_of (got k o)) (law.down_zero s h);
    try_free = λ s f. let d = law.trylock_suc s 0 f in (ap (λ n. n == 0) d.0, d.1);
    try_held = λ s h. let d = law.trylock_zero s h in (ap (λ n. n == 0) d.0, d.1);
    unlock = λ s h. law.up s ∙ ap suc h;
  }

  -- A lock that is made is free.
  sema_allocated-free :
      {W : Type 0} (memory : MemApi W) (garbage l : K) (p : Bool × W)
      → (sema_allocated k memory garbage p).0 ≡ some l
      → count l ≡ 1
  unfolding sema_allocated os_sema_init
  sema_allocated-free memory garbage l (false, w) e = cc e
  sema_allocated-free memory garbage l (true, w) e =
      ap count (sym (some-injective _ _ e)) ∙ law.sema_init 1

  lock_allocated-free :
      {W : Type 0} (memory : MemApi W) (garbage l : K) (p : Bool × W)
      → (lock_allocated k memory garbage p).0 ≡ some l
      → count l ≡ 1
  unfolding lock_allocated
  lock_allocated-free memory garbage l (false, w) e = cc e
  lock_allocated-free memory garbage l (true, w) e =
      sema_allocated-free memory garbage l (memory.alloc w) e

module _ {M : Type 0} (k : MutexApi M) (locked : M → Bool) (law : IsMutex k locked) where
  mutex-IsLock : IsLock (mutex_ops k) (λ m. locked m ≡ false) (λ m. locked m ≡ true)
  unfolding os_mutex_lock os_mutex_trylock os_mutex_unlock mutex_got
  mutex-IsLock = record {
    lock_free =
        λ m f. let d = law.lock_false m f in (d.0, ap (λ o. state_of (mutex_got k o)) d.1, d.2);
    lock_held = λ m h. ap (λ o. state_of (mutex_got k o)) (law.lock_true m h);
    try_free = λ m f.
        let d = law.trylock_false m f in
        (ap (λ n. is_success (if n == 0 then error else success)) d.0, d.1);
    try_held = λ m h.
        let d = law.trylock_true m h in
        (ap (λ n. is_success (if n == 0 then error else success)) d.0, d.1);
    unlock = law.unlock;
  }

-- Whatever threads do with a lock from os_create_lock, by os_lock, os_try_lock and os_unlock of a
-- lock that they have, and with a mutex from os_mutex_init, by its operations: at every moment at
-- most one thread has it, a try succeeds just when none has it, and a thread that locks it sleeps
-- just when one has it.
pub lock_mutex-Exclusive :
    {K M W : Type 0} (k : SemaApi K) (count : K → ℕ) (law : IsSema k count) (memory : MemApi W)
    (garbage : K) (w : W) (l : K) (s : State K) (m : MutexApi M) (locked : M → Bool)
    (mutex_law : IsMutex m locked) (unset : M) (t : State M)
    → (os_create_lock k memory garbage w).0 ≡ some l
    → Reach (lock_ops k) l s
    → Reach (mutex_ops m) (os_mutex_init m true unset).1 t
    → Exclusive (lock_ops k) s × Exclusive (mutex_ops m) t
unfolding os_create_lock os_mutex_init
lock_mutex-Exclusive k count law memory garbage w l s m locked mutex_law unset t e r q = (
  Reach-Exclusive (lock_ops k) _ _ (lock-IsLock k count law)
      (lock_allocated-free k count law memory garbage l (memory.alloc w) e) r,
  Reach-Exclusive (mutex_ops m) _ _ (mutex-IsLock m locked mutex_law) mutex_law.mutex_init q,
)
