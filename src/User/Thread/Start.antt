-- ===== src/User/Thread/Start.antt =====
-- How os_thread_resume and __osal_thread_wrapper of linux_user/src/osal_thread.c meet.
use osal.Base.{
  ◌≡◌, refl, Bool, true, false, ◌&&◌, ◌||◌, Option, none, some, arith, if◌then◌else◌, ◌⊎◌,
}

-- Where the new thread stands.
pub data Worker : Type 0 where
  starting : Worker  -- before pthread_mutex_lock
  testing : Worker  -- before the test of `state`
  suspending : Worker  -- before pthread_cond_wait
  waiting : Worker  -- in pthread_cond_wait
  signaled : Worker  -- woken, before it has the mutex again
  unlocking : Worker  -- before pthread_mutex_unlock
  running : Worker  -- in the caller's function

-- Where the thread that calls os_thread_resume stands.
pub data Resumer : Type 0 where
  calling : Resumer  -- before the test of `state`
  locking : Resumer  -- before pthread_mutex_lock
  setting : Resumer  -- before `state` is set
  signaling : Resumer  -- before pthread_cond_signal
  releasing : Resumer  -- before pthread_mutex_unlock
  resumed : Resumer  -- returned OSAL_SUCCESS
  refused : Resumer  -- returned OSAL_NOT_IMPLEMENTED

-- `suspended` is whether `state` is OS_THREAD_CREATE_SUSPENDED, as os_thread_create leaves it.
pub record State : Type 0 where
  pub worker : Worker
  pub resumer : Resumer
  pub suspended : Bool
  pub locked : Bool

worker_turn : Worker → State → Option State
worker_turn starting s =
    if s.locked then none else some (record s { worker = testing; locked = true })
worker_turn testing s =
    if s.suspended
    then some (record s { worker = suspending })
    else some (record s { worker = unlocking })
worker_turn suspending s = some (record s { worker = waiting; locked = false })
worker_turn waiting s = none
worker_turn signaled s =
    if s.locked then none else some (record s { worker = unlocking; locked = true })
worker_turn unlocking s = some (record s { worker = running; locked = false })
worker_turn running s = none

unfoldable pub osal_thread_wrapper : State → Option State
unfolding worker_turn
osal_thread_wrapper s = worker_turn s.worker s

wake : Worker → Worker
wake waiting = signaled
wake w = w

resumer_turn : Resumer → State → Option State
unfolding wake
resumer_turn calling s =
    if s.suspended
    then some (record s { resumer = locking })
    else some (record s { resumer = refused })
resumer_turn locking s =
    if s.locked then none else some (record s { resumer = setting; locked = true })
resumer_turn setting s = some (record s { resumer = signaling; suspended = false })
resumer_turn signaling s = some (record s { resumer = releasing; worker = wake s.worker })
resumer_turn releasing s = some (record s { resumer = resumed; locked = false })
resumer_turn resumed s = none
resumer_turn refused s = none

unfoldable pub os_thread_resume : State → Option State
unfolding resumer_turn
os_thread_resume s = resumer_turn s.resumer s

pub data Step (s : State) : State → Type 0 where
  worker : {t : State} → osal_thread_wrapper s ≡ some t → Step s t
  resumer : {t : State} → os_thread_resume s ≡ some t → Step s t

abbrev pub created : State
created = record { worker = starting; resumer = calling; suspended = true; locked = false }

pub data Reach : State → Type 0 where
  here : Reach created
  next : {s t : State} → Reach s → Step s t → Reach t

abbrev worker_holds : Worker → Bool
worker_holds testing = true
worker_holds suspending = true
worker_holds unlocking = true
worker_holds w = false

abbrev resumer_holds : Resumer → Bool
resumer_holds setting = true
resumer_holds signaling = true
resumer_holds releasing = true
resumer_holds r = false

-- The worker has seen that it may go on.
abbrev released : Worker → Bool
released signaled = true
released unlocking = true
released running = true
released w = false

abbrev before_signal : Resumer → Bool
before_signal calling = true
before_signal locking = true
before_signal setting = true
before_signal signaling = true
before_signal r = false

abbrev before_set : Resumer → Bool
before_set calling = true
before_set locking = true
before_set setting = true
before_set r = false

abbrev is_waiting : Worker → Bool
is_waiting waiting = true
is_waiting w = false

abbrev is_suspending : Worker → Bool
is_suspending suspending = true
is_suspending w = false

abbrev is_refused : Resumer → Bool
is_refused refused = true
is_refused r = false

record Inv (s : State) : Type 0 where
  owned : s.locked ≡ worker_holds s.worker || resumer_holds s.resumer
  exclusive : worker_holds s.worker && resumer_holds s.resumer ≡ false
  set : s.suspended ≡ before_set s.resumer
  gate : released s.worker ≡ true → s.suspended ≡ false
  wakes : is_waiting s.worker ≡ true → before_signal s.resumer ≡ true
  suspends : is_suspending s.worker ≡ true → s.suspended ≡ true
  called : is_refused s.resumer ≡ false

worker_turn-Inv :
    (w : Worker) (s t : State) → s.worker ≡ w → worker_turn w s ≡ some t → Inv s → Inv t
unfolding worker_turn
worker_turn-Inv starting s t e h v = ground arith
worker_turn-Inv _ s t e h v = ground arith

resumer_turn-Inv :
    (r : Resumer) (s t : State) → s.resumer ≡ r → resumer_turn r s ≡ some t → Inv s → Inv t
unfolding resumer_turn
resumer_turn-Inv calling s t e h v = ground arith
resumer_turn-Inv _ s t e h v = ground arith

Reach-Inv : {s : State} → Reach s → Inv s
Reach-Inv here = ground arith
Reach-Inv (next {s} r (worker {t} h)) =
    worker_turn-Inv s.worker s t refl (unfold osal_thread_wrapper in h) (Reach-Inv r)
Reach-Inv (next {s} r (resumer {t} h)) =
    resumer_turn-Inv s.resumer s t refl (unfold os_thread_resume in h) (Reach-Inv r)

worker_blocked :
    (w : Worker) (s : State)
    → worker_turn w s ≡ none
    → (s.locked ≡ true) ⊎ ((w ≡ waiting) ⊎ (w ≡ running))
unfolding worker_turn
worker_blocked starting s h = ground arith
worker_blocked _ s h = ground arith

-- The resumption of a suspended thread is never lost: in a reachable state where os_thread_resume has
-- returned success and the new thread can go no further, it is in its function.
pub Reach-resumed :
    {s : State} → Reach s → s.resumer ≡ resumed → osal_thread_wrapper s ≡ none → s.worker ≡ running
unfolding osal_thread_wrapper
Reach-resumed {s} r e h = ground (arith, Reach-Inv r, worker_blocked s.worker s h)

-- A thread that was created suspended is in its function only after `state` was set, and
-- os_thread_resume has not refused it.
pub Reach-running :
    {s : State} → Reach s → s.worker ≡ running → (s.suspended ≡ false) × ¬ (s.resumer ≡ refused)
Reach-running {s} r e = (ground (arith, Reach-Inv r), λ q. ground (arith, Reach-Inv r))
