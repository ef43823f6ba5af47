-- ===== src/User/Lock/Exclusive.antt =====
-- User space's locks exclude each other's owners, as include/osal_lock.h has it.
use osal.Base.{◌≡◌, sym, ap, ◌∙◌, Bool, true, false, Option, none, some, ◌==◌, ℤ, pos, negsuc}
use mathlib.Core.Option.{some-injective}
use osal.Types.{OsalResult, success}
use osal.Locks.{LockOps, IsLock}
use osal.Locks.Exclusion.{State, Reach, Exclusive, Reach-Exclusive}
use osal.User.Lock.{
  PthreadApi, MemApi, as_result, os_lock, os_try_lock, os_unlock, mutex_allocated, os_create_lock,
  os_mutex_init, os_mutex_lock, os_mutex_trylock, os_mutex_unlock, mutex_got,
}

-- What the thread library documents of a mutex that is locked or not, with EBUSY as 16.
pub record IsMutex {M : Type 0} (p : PthreadApi M) (locked : M → Bool) : Type 0 where
  pub init : p.init.0 ≡ 0 → locked p.init.1 ≡ false
  pub lock_false :
      (m : M) → locked m ≡ false → (m' : M) × (p.lock m ≡ some (0, m')) × (locked m' ≡ true)
  pub lock_true : (m : M) → locked m ≡ true → p.lock m ≡ none
  pub trylock_false :
      (m : M) → locked m ≡ false → ((p.trylock m).0 ≡ 0) × (locked (p.trylock m).1 ≡ true)
  pub trylock_true :
      (m : M) → locked m ≡ true → ((p.trylock m).0 ≡ 16) × (locked (p.trylock m).1 ≡ true)
  pub unlock : (m : M) → locked m ≡ true → ((p.unlock m).0 ≡ 0) × (locked (p.unlock m).1 ≡ false)

abbrev state_of : {R M : Type 0} → Option (R × M) → Option M
state_of none = none
state_of (some r) = some r.1

abbrev is_zero : ℤ → Bool
is_zero (pos n) = n == 0
is_zero (negsuc n) = false

abbrev is_success : OsalResult → Bool
is_success success = true
is_success r = false

-- The operations on a lock that os_create_lock made.
abbrev pub lock_ops : {M : Type 0} → PthreadApi M → LockOps M
lock_ops p = record {
  lock = λ m. state_of (os_lock p m);
  try_lock = λ m. (is_zero (os_try_lock p true m).0, (os_try_lock p true m).1);
  unlock = λ m. (os_unlock p m).1;
}

-- The operations on a mutex that os_mutex_init initialised.
abbrev pub mutex_ops : {M : Type 0} → PthreadApi M → LockOps M
mutex_ops p = record {
  lock = λ m. state_of (os_mutex_lock p true m);
  try_lock = λ m. (is_success (os_mutex_trylock p true m).0, (os_mutex_trylock p true m).1);
  unlock = λ m. (os_mutex_unlock p true m).1;
}

module _ {M : Type 0} (p : PthreadApi M) (locked : M → Bool) (law : IsMutex p locked) where
  lock-IsLock : IsLock (lock_ops p) (λ m. locked m ≡ false) (λ m. locked m ≡ true)
  unfolding os_lock os_try_lock os_unlock
  lock-IsLock = record {
    lock_free = λ m f. let d = law.lock_false m f in (d.0, ap state_of d.1, d.2);
    lock_held = λ m h. ap state_of (law.lock_true m h);
    try_free = λ m f. let d = law.trylock_false m f in (ap (λ n. n == 0) d.0, d.1);
    try_held = λ m h. let d = law.trylock_true m h in (ap (λ n. n == 0) d.0, d.1);
    unlock = λ m h. (law.unlock m h).1;
  }

  mutex-IsLock : IsLock (mutex_ops p) (λ m. locked m ≡ false) (λ m. locked m ≡ true)
  unfolding os_mutex_lock os_mutex_trylock os_mutex_unlock mutex_got as_result
  mutex-IsLock = record {
    lock_free =
        λ m f. let d = law.lock_false m f in (d.0, ap (λ o. state_of (mutex_got p o)) d.1, d.2);
    lock_held = λ m h. ap (λ o. state_of (mutex_got p o)) (law.lock_true m h);
    try_free =
        λ m f. let d = law.trylock_false m f in (ap (λ n. is_success (as_result n)) d.0, d.1);
    try_held = λ m h. let d = law.trylock_true m h in (ap (λ n. is_success (as_result n)) d.0, d.1);
    unlock = λ m h. (law.unlock m h).1;
  }

  allocated-free :
      {W : Type 0} (memory : MemApi W) (l : M) (r : Bool × W)
      → p.init.0 ≡ 0
      → (mutex_allocated p memory r).0 ≡ some l
      → locked l ≡ false
  unfolding mutex_allocated
  allocated-free memory l (false, w) i e = cc e
  allocated-free memory l (true, w) i e = ap locked (sym (some-injective _ _ e)) ∙ law.init i

-- Whatever threads do with a lock from os_create_lock, by os_lock, os_try_lock and os_unlock of a
-- lock that they have, and with a mutex from os_mutex_init, by its operations: at every moment at
-- most one thread has it, a try succeeds just when none has it, and a thread that locks it sleeps
-- just when one has it. This is where pthread_mutex_init succeeds, which os_create_lock does not test.
pub locks-Exclusive :
    {M W : Type 0} (p : PthreadApi M) (locked : M → Bool) (law : IsMutex p locked)
    (memory : MemApi W) (w : W) (l unset : M) (s t : State M)
    → p.init.0 ≡ 0
    → (os_create_lock p memory w).0 ≡ some l
    → Reach (lock_ops p) l s
    → Reach (mutex_ops p) (os_mutex_init p true unset).1 t
    → Exclusive (lock_ops p) s × Exclusive (mutex_ops p) t
unfolding os_create_lock os_mutex_init
locks-Exclusive p locked law memory w l unset s t i e r q = (
  Reach-Exclusive (lock_ops p) _ _ (lock-IsLock p locked law)
      (allocated-free p locked law memory l (memory.alloc w) i e) r,
  Reach-Exclusive (mutex_ops p) _ _ (mutex-IsLock p locked law) (law.init i) q,
)
