-- ===== src/User/Event.antt =====
-- linux_user/src/osal_event.c: events on a condition variable. An operation is none where an assertion
-- of the source fails.
pub mod Laws
pub mod Waiters
use osal.Base.{
  ℕ, ◌+◌, ◌-◌, ◌*◌, ◌/◌, ◌%◌, Bool, true, false, Option, none, some, ◌==◌, ltb, if◌then◌else◌,
}
use osal.Types.{
  OsalResult, success, timeout, not_done, error, OsalState, initialized, uninitialized, destroying,
  destroyed,
}

-- `os_event_t`; `lock` says whether os_create_lock returned one.
pub record Event : Type 0 where
  pub signaled : Bool
  pub manual_reset : Bool
  pub lock : Bool
  pub state : OsalState

-- What pthread_cond_wait and pthread_cond_timedwait return: 0, ETIMEDOUT, another error.
pub data CondResult : Type 0 where
  woken timed_out failed : CondResult

unfoldable pub osal_event_construct : (lock : Bool) → Event → Event
osal_event_construct lock e = record e { lock = lock; state = uninitialized }

-- `memory` is what `p_event` points at.
unfoldable pub os_event_create :
    (lock : Bool) (manual_reset : ℕ) (memory : Event) → OsalResult × Event
unfolding osal_event_construct
os_event_create lock manual_reset memory =
    let e = osal_event_construct lock memory in
    (success, record e { signaled = false; manual_reset = ltb 0 manual_reset; state = initialized })

-- Every value of the enumeration is valid. The Boolean says whether the condition variable is
-- broadcast and destroyed.
pub os_event_destroy : Event → OsalResult × Event × Bool
os_event_destroy e = elim e.state [
  | initialized ↦ (success, record e { state = uninitialized }, true)
  | _ ↦ (success, record e { state = uninitialized }, false)
]

is_initialized : OsalState → Bool
is_initialized initialized = true
is_initialized s = false

unfoldable pub os_event_set : Event → Option (OsalResult × Event)
unfolding is_initialized
os_event_set e =
    if is_initialized e.state then some (success, record e { signaled = true }) else none

unfoldable pub os_event_reset : Event → Option (OsalResult × Event)
unfolding is_initialized
os_event_reset e =
    if is_initialized e.state then some (success, record e { signaled = false }) else none

-- `timeout`, in seconds and nanoseconds, from the time of day in seconds and microseconds.
unfoldable pub deadline : (sec usec wait_ms : ℕ) → ℕ × ℕ
deadline sec usec wait_ms =
    let tv_sec = sec + wait_ms / 1000 in
    let tv_nsec = (usec + wait_ms % 1000 * 1000) * 1000 in
    if ltb tv_nsec 1000000000 then (tv_sec, tv_nsec) else (tv_sec + 1, tv_nsec - 1000000000)

abbrev pub event_no_timeout : ℕ
event_no_timeout = 0xFFFFFFFF

-- What the wait on the condition variable comes to. The first argument of `asleep` is the deadline, if
-- there is one, and its last result the event as it is when the lock is held again.
wait_forever : CondResult × Event → OsalResult × Event
wait_forever (woken, e) = (success, e)
wait_forever (r, e) = (not_done, e)

wait_until : CondResult × Event → OsalResult × Event
wait_until (woken, e) = (success, e)
wait_until (timed_out, e) = (timeout, e)
wait_until (failed, e) = (not_done, e)

wait_timed :
    (wait_ms : ℕ) (now : Option (ℕ × ℕ)) (asleep : Option (ℕ × ℕ) → Event → CondResult × Event)
    → Event
    → OsalResult × Event
unfolding wait_until deadline
wait_timed wait_ms none asleep e = (error, e)
wait_timed wait_ms (some (sec, usec)) asleep e =
    wait_until (asleep (some (deadline sec usec wait_ms)) e)

-- What the end of a wait leaves of the event.
unfoldable pub clear : OsalResult × Event → OsalResult × Event
clear (r, e) = if e.manual_reset then (r, e) else (r, record e { signaled = false })

-- `now` is what gettimeofday returns.
unfoldable pub os_event_wait :
    (wait_ms : ℕ) (now : Option (ℕ × ℕ)) (asleep : Option (ℕ × ℕ) → Event → CondResult × Event)
    → Event
    → Option (OsalResult × Event)
unfolding is_initialized wait_forever wait_timed clear
os_event_wait wait_ms now asleep e =
    if is_initialized e.state
    then if e.signaled
      then some (clear (success, e))
      else if wait_ms == 0
      then some (timeout, e)
      else if wait_ms == event_no_timeout
      then some (clear (wait_forever (asleep none e)))
      else some (clear (wait_timed wait_ms now asleep e))
    else none

pub os_event_hardwait :
    (wait_ms : ℕ) (now : Option (ℕ × ℕ)) (asleep : Option (ℕ × ℕ) → Event → CondResult × Event)
    → Event
    → Option (OsalResult × Event)
unfolding os_event_wait
os_event_hardwait = os_event_wait
