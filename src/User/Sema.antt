-- ===== src/User/Sema.antt =====
-- linux_user/src/osal_sema.c: a counting semaphore on a mutex and a condition variable. The count is an
-- `int`, of which the model has the 32 bits as a natural number: from 2 ^ 31 on the count is negative,
-- and where it goes beyond the largest `int` it wraps around, as gcc's instructions do.
pub mod Wakeups
mod Tests
use osal.Base.{
  ◌%◌, ◌^◌, ◌||◌, ℕ, suc, ◌+◌, ◌-◌, ◌≡◌, ◌<◌, Bool, true, false, Option, none, some, ◌==◌,
  if◌then◌else◌,
}
use osal.Types.{OsalResult, success, invalid_param}

-- `os_sema_t` with those who use it: `waiting` threads are in pthread_cond_wait, `woken` ones have
-- come out of it and wait for the mutex, and `signals` calls of os_sema_put have given back the mutex
-- and come to pthread_cond_signal. `usable` says whether the mutex and the condition variable are
-- initialised and not destroyed. `gets` and `puts` count the calls that have changed the count, and
-- `overflowed` says whether one of the puts found the largest `int`.
pub record Sema : Type 0 where
  pub sema_static_init_cnt : ℕ
  pub usable : Bool
  pub count : ℕ
  pub waiting : ℕ
  pub woken : ℕ
  pub signals : ℕ
  pub gets : ℕ
  pub puts : ℕ
  pub overflowed : Bool

-- A new mutex and condition variable, with nobody on them.
abbrev pub fresh : (init_cnt initial : ℕ) → Sema
fresh init_cnt initial = record {
  sema_static_init_cnt = init_cnt;
  usable = true;
  count = initial % 2 ^ 32;
  waiting = 0;
  woken = 0;
  signals = 0;
  gets = 0;
  puts = 0;
  overflowed = false;
}

unfoldable pub os_sema_init : Option Sema → (initial : ℕ) → OsalResult × Option Sema
os_sema_init none initial = (invalid_param, none)
os_sema_init (some s) initial = (success, some (fresh s.sema_static_init_cnt initial))

unfoldable pub os_sema_init_pre_inited : Option Sema → (initial : ℕ) → OsalResult × Option Sema
os_sema_init_pre_inited none initial = (invalid_param, none)
os_sema_init_pre_inited (some s) initial =
    if s.sema_static_init_cnt == 0 then (success, some (fresh 1 initial)) else (success, some s)

unfoldable pub os_sema_destroy : Option Sema → Option Sema
os_sema_destroy none = none
os_sema_destroy (some s) = some (record s { usable = false })

-- The test of the loop in os_sema_get, with the mutex held: the thread goes to wait, or takes one.
unfoldable pub sema_tested : Sema → Sema
sema_tested s =
    if s.count == 0
    then record s { waiting = s.waiting + 1 }
    else record s { count = s.count - 1; gets = s.gets + 1 }

-- A thread that was woken has the mutex again and comes back to the test.
unfoldable pub sema_retested : Sema → Sema
unfolding sema_tested
sema_retested s = sema_tested (record s { woken = s.woken - 1 })

-- A thread comes out of pthread_cond_wait.
unfoldable pub sema_awakened : Sema → Sema
sema_awakened s = record s { waiting = s.waiting - 1; woken = s.woken + 1 }

-- The locked part of os_sema_put.
unfoldable pub sema_put_counted : Sema → Sema
sema_put_counted s = record s {
  count = (s.count + 1) % 2 ^ 32;
  puts = s.puts + 1;
  signals = s.signals + 1;
  overflowed = s.overflowed || (s.count == 2 ^ 31 - 1);
}

-- Its pthread_cond_signal, which wakes a waiting thread if there is one.
unfoldable pub sema_put_signaled : Sema → Sema
unfolding sema_awakened
sema_put_signaled s =
    let t = record s { signals = s.signals - 1 } in if s.waiting == 0 then t else sema_awakened t

-- Any number of threads call os_sema_get and os_sema_put; a wake-up may come without a signal.
pub data Step (s : Sema) : Sema → Type 0 where
  get : Step s (sema_tested s)
  retry : 0 < s.woken → Step s (sema_retested s)
  put : Step s (sema_put_counted s)
  signal : 0 < s.signals → Step s (sema_put_signaled s)
  spurious : 0 < s.waiting → Step s (sema_awakened s)

-- What os_sema_init leads to.
pub data Reach (initial : ℕ) : Sema → Type 0 where
  inited :
      (m : Sema) {s : Sema} → os_sema_init (some m) initial ≡ (success, some s) → Reach initial s
  next : {s t : Sema} → Reach initial s → Step s t → Reach initial t
