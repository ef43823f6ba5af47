-- ===== src/User/Event/Waiters.antt =====
-- Any number of threads that share an event of linux_user/src/osal_event.c: each part of an operation
-- that holds the event's lock is one step.
pub mod Auto
pub mod Manual
mod Tests
use osal.Base.{ℕ, ◌+◌, ◌-◌, ◌≡◌, ◌<◌, Bool, true, false, some, ◌==◌, if◌then◌else◌}
use osal.Types.{OsalResult, success, timeout, initialized}
use osal.User.Event.{Event, clear, os_event_create, os_event_set, os_event_reset}

-- The event with its threads: `waiting` are asleep on the condition variable, `woken` have been woken
-- by a signal and wait for the lock, and `late` wait for it after their timeout. `sets` and `successes`
-- count the calls of os_event_set and the waits that returned OSAL_SUCCESS, and `slept` those of the
-- waits that had slept.
pub record Waiters : Type 0 where
  pub event : Event
  pub waiting : ℕ
  pub woken : ℕ
  pub late : ℕ
  pub sets : ℕ
  pub successes : ℕ
  pub slept : ℕ

-- os_event_wait with a timeout that is not 0, up to where it sleeps or returns. A wait that returns
-- because gettimeofday fails leaves everything as it is.
unfoldable pub wait_entered : Waiters → Waiters
unfolding clear
wait_entered s =
    if s.event.signaled
    then record s { event = (clear (success, s.event)).1; successes = s.successes + 1 }
    else record s { waiting = s.waiting + 1 }

-- The rest of it, when pthread_cond_wait or pthread_cond_timedwait returns 0.
unfoldable pub wait_woken : Waiters → Waiters
unfolding clear
wait_woken s = record s {
  event = (clear (success, s.event)).1;
  woken = s.woken - 1;
  successes = s.successes + 1;
  slept = s.slept + 1;
}

-- The same for ETIMEDOUT or another error.
unfoldable pub wait_late : Waiters → Waiters
unfolding clear
wait_late s = record s { event = (clear (timeout, s.event)).1; late = s.late - 1 }

-- pthread_cond_signal wakes a waiting thread if there is one.
unfoldable pub cond_signaled : Waiters → Waiters
cond_signaled s =
    if s.waiting == 0 then s else record s { waiting = s.waiting - 1; woken = s.woken + 1 }

-- The threads wait, set and reset. No wake-up comes without a signal.
pub data Step (s : Waiters) : Waiters → Type 0 where
  enter : Step s (wait_entered s)
  set :
      {e : Event}
      → os_event_set s.event ≡ some (success, e)
      → Step s (cond_signaled (record s { event = e; sets = s.sets + 1 }))
  reset : {e : Event} → os_event_reset s.event ≡ some (success, e) → Step s (record s { event = e })
  wake : 0 < s.woken → Step s (wait_woken s)
  time_out : 0 < s.waiting → Step s (record s { waiting = s.waiting - 1; late = s.late + 1 })
  give_up : 0 < s.late → Step s (wait_late s)

-- An event that nobody has used yet.
abbrev pub created : Event → Waiters
created e = record {
  event = e;
  waiting = 0;
  woken = 0;
  late = 0;
  sets = 0;
  successes = 0;
  slept = 0;
}

-- What os_event_create leads to.
pub data Reach (manual_reset : ℕ) : Waiters → Type 0 where
  here :
      (memory : Event) {e : Event}
      → os_event_create true manual_reset memory ≡ (success, e)
      → Reach manual_reset (created e)
  next : {s t : Waiters} → Reach manual_reset s → Step s t → Reach manual_reset t
