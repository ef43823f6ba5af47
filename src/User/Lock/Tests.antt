-- ===== src/User/Lock/Tests.antt =====
-- A mutex that is a Boolean, locked by thread 1 and tried by another.
use osal.Base.{ℕ, ◌+◌, ◌-◌, ◌≡◌, refl, ap, Bool, true, false, Option, none, some, [], ◌∷◌}
use osal.Locks.Exclusion.{State, Reach, Exclusive, locked, refused, start, more}
use osal.User.Lock.{
  PthreadApi, MemApi, os_create_lock, os_mutex_init, os_lock, os_try_lock, os_mutex_lock, mutex_got,
}
use osal.User.Lock.Exclusive.{IsMutex, lock_ops, mutex_ops, locks-Exclusive}

abbrev take : Bool → Option (ℕ × Bool)
take true = none
take false = some (0, true)

abbrev try_take : Bool → ℕ × Bool
try_take true = (16, true)
try_take false = (0, true)

abbrev pthread : PthreadApi Bool
pthread = record {
  init = (0, false);
  lock = take;
  trylock = try_take;
  unlock = λ m. (0, false);
  destroy = λ m. (0, m);
}

pthread-IsMutex : IsMutex pthread (λ m. m)
pthread-IsMutex = record {
  init = λ e. refl;
  lock_false = λ m e. (true, ap take e, refl);
  lock_true = λ m e. ap take e;
  trylock_false = λ m e. (ap (λ b. (try_take b).0) e, ap (λ b. (try_take b).1) e);
  trylock_true = λ m e. (ap (λ b. (try_take b).0) e, ap (λ b. (try_take b).1) e);
  unlock = λ m e. (refl, refl);
}

abbrev memory : MemApi ℕ
memory = record { alloc = λ w. (true, w + 1); free = λ w. w - 1 }

abbrev owned : State Bool
owned = record { lock = true; owners = 1 ∷ [] }

made : (os_create_lock pthread memory 0).0 ≡ some false
unfolding os_create_lock
made = refl

lock-Reach : Reach (lock_ops pthread) false owned
unfolding os_lock os_try_lock
lock-Reach = more (more start (locked 1 true refl)) (refused refl)

mutex-Reach : Reach (mutex_ops pthread) (os_mutex_init pthread true true).1 owned
unfolding os_mutex_lock mutex_got os_mutex_init
mutex-Reach = more start (locked 1 true refl)

locks-Exclusive_example : Exclusive (lock_ops pthread) owned × Exclusive (mutex_ops pthread) owned
locks-Exclusive_example =
    locks-Exclusive pthread (λ m. m) pthread-IsMutex memory 0 false true owned owned refl made
      lock-Reach mutex-Reach
