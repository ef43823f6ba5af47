-- ===== src/Kernel/Event/Waiters.antt =====
-- Any number of tasks that share an event of linux_kernel/src/osal_event.c. Each part of an operation that
-- holds the spin lock is one step, and so is each call of the wait queue outside of it.
pub mod Queue
pub mod Timers
mod Tests
use osal.Base.{ℕ, ◌+◌, ◌-◌, ◌≡◌, ◌<◌, Bool, true, false, ◌==◌, if◌then◌else◌}
use osal.Types.{OsalResult, success}
use osal.Kernel.Event.{
  Event, Wake, Entry, done, sleep, event_no_timeout, os_event_create, os_event_set, os_event_reset,
  prepare_to_wait, finish_wait, wait_tested, wait_leave,
}

-- The event with its tasks. `entering` have called prepare_to_wait and come to the lock, still on the
-- queue or, `missed`, taken off it. `asleep` and `timed` sleep, without and with a timer; `woken` and
-- `woken_timed` are those of them that a wake-up took off the queue, and `expired` those whose timer
-- has run out. `finishing` have their result from the locked part and come to finish_wait, and
-- `departing` leave after a signal of the process, off the queue, as do `departing_timed`, whose timer is
-- not cleared yet. `sets` and `successes` count calls of os_event_set and waits that returned OSAL_SUCCESS.
pub record Waiters : Type 0 where
  pub event : Event
  pub entering : ℕ
  pub missed : ℕ
  pub asleep : ℕ
  pub timed : ℕ
  pub woken : ℕ
  pub woken_timed : ℕ
  pub expired : ℕ
  pub finishing : ℕ
  pub departing : ℕ
  pub departing_timed : ℕ
  pub sets : ℕ
  pub successes : ℕ

-- The entries that prepare_to_wait makes are not exclusive: wake_up wakes every task on the queue and
-- takes it off.
unfoldable pub wake_up : Waiters → Waiters
wake_up s = record s {
  event = record s.event { waiting = 0 };
  entering = 0;
  missed = s.missed + s.entering;
  asleep = 0;
  timed = 0;
  woken = s.woken + s.asleep;
  woken_timed = s.woken_timed + s.timed;
  finishing = 0;
}

-- A wait has its result.
unfoldable pub returned : OsalResult × Event → Waiters → Waiters
returned (success, e) s = record s { event = e; successes = s.successes + 1 }
returned (r, e) s = record s { event = e }

-- The wait goes on after its locked part: a task that was woken already does not sleep.
unfoldable pub scheduled : (queued : Bool) (wait_ms : ℕ) → Entry → Waiters → Waiters
unfolding returned
scheduled true wait_ms (done r e) s = returned (r, e) (record s { finishing = s.finishing + 1 })
scheduled false wait_ms (done r e) s = returned (r, e) s
scheduled true wait_ms (sleep e) s =
    if wait_ms == event_no_timeout
    then record s { event = e; asleep = s.asleep + 1 }
    else record s { event = e; timed = s.timed + 1 }
scheduled false wait_ms (sleep e) s =
    if wait_ms == event_no_timeout
    then record s { event = e; woken = s.woken + 1 }
    else record s { event = e; woken_timed = s.woken_timed + 1 }

unfoldable pub set_event : OsalResult × Event × Bool → Waiters → Waiters
unfolding wake_up
set_event (r, e, wakes) s =
    let t = record s { event = e; sets = s.sets + 1 } in if wakes then wake_up t else t

-- timeout_handler: the task's timer has run out, and its queue is woken.
unfoldable pub timeout_handler : Waiters → Waiters
unfolding wake_up
timeout_handler s =
    let t = wake_up s in record t { woken_timed = t.woken_timed - 1; expired = t.expired + 1 }

-- How a task comes out of `schedule`, after finish_wait.
abbrev pub by_wake_up : Wake
by_wake_up = record { queued = false; signal = false; timedout = false }

abbrev pub by_timer : Wake
by_timer = record { queued = false; signal = false; timedout = true }

abbrev pub by_signal : Wake
by_signal = record { queued = false; signal = true; timedout = false }

-- The tasks wait, set and reset.
pub data Step (s : Waiters) : Waiters → Type 0 where
  prepare : Step s (record s { event = prepare_to_wait s.event; entering = s.entering + 1 })
  enter :
      (wait_ms : ℕ)
      → 0 < s.entering
      → Step s (
          scheduled true wait_ms
            (wait_tested s.event wait_ms)
            (record s { entering = s.entering - 1 }))
  enter_missed :
      (wait_ms : ℕ)
      → 0 < s.missed
      → Step s (
          scheduled false wait_ms
            (wait_tested s.event wait_ms)
            (record s { missed = s.missed - 1 }))
  set : Step s (set_event (os_event_set s.event) s)
  reset : Step s (record s { event = (os_event_reset s.event).1 })
  expire : 0 < s.timed + s.woken_timed → Step s (timeout_handler s)
  leave :
      0 < s.woken
      → Step s (
          returned
            (wait_leave event_no_timeout true by_wake_up s.event)
            (record s { woken = s.woken - 1 }))
  leave_timed :
      (wait_ms : ℕ)
      → 0 < s.woken_timed
      → Step s (
          returned
            (wait_leave wait_ms true by_wake_up s.event)
            (record s { woken_timed = s.woken_timed - 1 }))
  leave_expired :
      (wait_ms : ℕ)
      → (wait_ms == event_no_timeout) ≡ false
      → 0 < s.expired
      → Step s (
          returned
            (wait_leave wait_ms true by_timer s.event)
            (record s { expired = s.expired - 1 }))
  finish :
      0 < s.finishing
      → Step s (record s { event = finish_wait true s.event; finishing = s.finishing - 1 })
  interrupted :
      0 < s.asleep
      → Step s (record s {
        event = finish_wait true s.event;
        asleep = s.asleep - 1;
        departing = s.departing + 1;
      })
  interrupted_timed :
      0 < s.timed
      → Step s (record s {
        event = finish_wait true s.event;
        timed = s.timed - 1;
        departing_timed = s.departing_timed + 1;
      })
  interrupted_woken :
      0 < s.woken → Step s (record s { woken = s.woken - 1; departing = s.departing + 1 })
  interrupted_woken_timed :
      0 < s.woken_timed
      → Step s
          (record s { woken_timed = s.woken_timed - 1; departing_timed = s.departing_timed + 1 })
  interrupted_expired :
      0 < s.expired → Step s (record s { expired = s.expired - 1; departing = s.departing + 1 })
  expire_departing :
      0 < s.departing_timed
      → Step s (record (wake_up s) {
        departing_timed = s.departing_timed - 1;
        departing = s.departing + 1;
      })
  depart :
      (wait_ms : ℕ)
      → 0 < s.departing
      → Step s (
          returned
            (wait_leave wait_ms true by_signal s.event)
            (record s { departing = s.departing - 1 }))
  depart_timed :
      (wait_ms : ℕ)
      → 0 < s.departing_timed
      → Step s (
          returned
            (wait_leave wait_ms true by_signal s.event)
            (record s { departing_timed = s.departing_timed - 1 }))

-- What os_event_create leads to.
abbrev pub created : (manual_reset : ℕ) → Waiters
created manual_reset = record {
  event = (os_event_create manual_reset).1;
  entering = 0;
  missed = 0;
  asleep = 0;
  timed = 0;
  woken = 0;
  woken_timed = 0;
  expired = 0;
  finishing = 0;
  departing = 0;
  departing_timed = 0;
  sets = 0;
  successes = 0;
}

pub data Reach (manual_reset : ℕ) : Waiters → Type 0 where
  here : Reach manual_reset (created manual_reset)
  next : {s t : Waiters} → Reach manual_reset s → Step s t → Reach manual_reset t
