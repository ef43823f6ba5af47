-- ===== src/Kernel/Lock/Tests.antt =====
-- A semaphore that is its count and a mutex that is a Boolean, each taken by thread 1.
use osal.Base.{
  ℕ, zero, suc, ◌+◌, ◌-◌, ◌≡◌, refl, ap, Bool, true, false, Option, none, some, [], ◌∷◌,
}
use osal.Locks.Exclusion.{State, Reach, Exclusive, locked, refused, start, more}
use osal.Kernel.Lock.{
  SemaApi, MutexApi, MemApi, os_create_lock, os_mutex_init, os_lock, os_try_lock, os_mutex_lock,
  mutex_got, got, os_sema_get, os_sema_tryget,
}
use osal.Kernel.Lock.Exclusive.{IsSema, IsMutex, lock_ops, mutex_ops, lock_mutex-Exclusive}

abbrev lower : ℕ → Option ℕ
lower zero = none
lower (suc n) = some n

abbrev try_lower : ℕ → ℕ × ℕ
try_lower zero = (1, 0)
try_lower (suc n) = (0, n)

abbrev semaphore : SemaApi ℕ
semaphore = record { sema_init = λ n. n; down = lower; down_trylock = try_lower; up = λ n. suc n }

semaphore-IsSema : IsSema semaphore (λ n. n)
semaphore-IsSema = record {
  sema_init = λ n. refl;
  down_zero = λ s e. ap lower e;
  down_suc = λ s n e. (n, ap lower e, refl);
  trylock_zero = λ s e. (ap (λ c. (try_lower c).0) e, ap (λ c. (try_lower c).1) e);
  trylock_suc = λ s n e. (ap (λ c. (try_lower c).0) e, ap (λ c. (try_lower c).1) e);
  up = λ s. refl;
}

abbrev take : Bool → Option Bool
take true = none
take false = some true

abbrev try_take : Bool → ℕ × Bool
try_take true = (0, true)
try_take false = (1, true)

abbrev mutex : MutexApi Bool
mutex = record {
  mutex_init = false;
  mutex_lock = take;
  mutex_trylock = try_take;
  mutex_unlock = λ m. false;
  mutex_destroy = λ m. m;
}

mutex-IsMutex : IsMutex mutex (λ m. m)
mutex-IsMutex = record {
  mutex_init = refl;
  lock_false = λ m e. (true, ap take e, refl);
  lock_true = λ m e. ap take e;
  trylock_false = λ m e. (ap (λ b. (try_take b).0) e, ap (λ b. (try_take b).1) e);
  trylock_true = λ m e. (ap (λ b. (try_take b).0) e, ap (λ b. (try_take b).1) e);
  unlock = λ m e. refl;
}

abbrev memory : MemApi ℕ
memory = record { alloc = λ w. (true, w + 1); free = λ w. w - 1 }

abbrev sema_owned : State ℕ
sema_owned = record { lock = 0; owners = 1 ∷ [] }

abbrev owned : State Bool
owned = record { lock = true; owners = 1 ∷ [] }

made : (os_create_lock semaphore memory 77 0).0 ≡ some 1
unfolding os_create_lock
made = refl

lock-Reach : Reach (lock_ops semaphore) 1 sema_owned
unfolding os_lock os_try_lock got os_sema_get os_sema_tryget
lock-Reach = more (more start (locked 1 0 refl)) (refused refl)

mutex-Reach : Reach (mutex_ops mutex) (os_mutex_init mutex true true).1 owned
unfolding os_mutex_lock mutex_got os_mutex_init
mutex-Reach = more start (locked 1 true refl)

lock_mutex-Exclusive_example :
    Exclusive (lock_ops semaphore) sema_owned × Exclusive (mutex_ops mutex) owned
lock_mutex-Exclusive_example =
    lock_mutex-Exclusive semaphore (λ n. n) semaphore-IsSema memory 77 0 1 sema_owned mutex (λ m. m)
      mutex-IsMutex true owned made lock-Reach mutex-Reach
