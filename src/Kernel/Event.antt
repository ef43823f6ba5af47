-- ===== src/Kernel/Event.antt =====
-- linux_kernel/src/osal_event.c: events on a wait queue.
pub mod Laws
pub mod Waiters
use osal.Base.{
  ℕ, ◌+◌, ◌-◌, ◌*◌, ◌/◌, ◌%◌, ◌^◌, Bool, true, false, not, ◌&&◌, ◌==◌, ltb, if◌then◌else◌,
}
use osal.Types.{
  OsalResult, success, timeout, not_done, error, OsalState, initialized, uninitialized,
}

-- `os_event_t`. Of the wait queue the model keeps the number of entries.
pub record Event : Type 0 where
  pub signaled : Bool
  pub manual_reset : Bool
  pub waiting : ℕ
  pub state : OsalState

abbrev pub event_no_timeout : ℕ
event_no_timeout = 0xFFFFFFFF

-- What `schedule` comes back with: whether this task's entry is still on the queue (a wake-up takes it
-- off), whether a signal is pending, and whether the timer has run out.
pub record Wake : Type 0 where
  pub queued : Bool
  pub signal : Bool
  pub timedout : Bool

-- `t->timer.expires` of set_timeout. `milliseconds` and the product are 32 bits wide.
pub set_timeout : (jiffies hz milliseconds : ℕ) → ℕ
set_timeout jiffies hz milliseconds = jiffies + milliseconds % 2 ^ 32 * hz % 2 ^ 32 / 1000

unfoldable pub os_event_create : (manual_reset : ℕ) → OsalResult × Event
os_event_create manual_reset = (
  success,
  record { signaled = false; manual_reset = ltb 0 manual_reset; waiting = 0; state = initialized },
)

unfoldable pub os_event_destroy : Event → OsalResult × Event
os_event_destroy e = (success, record e { state = uninitialized })

-- The Boolean says whether `wake_up` is called.
unfoldable pub os_event_set : Event → OsalResult × Event × Bool
os_event_set e =
    if ltb 0 e.waiting
    then (success, record e { signaled = e.manual_reset }, true)
    else (success, record e { signaled = true }, false)

unfoldable pub os_event_reset : Event → OsalResult × Event
os_event_reset e = (success, record e { signaled = false })

unfoldable pub prepare_to_wait : Event → Event
prepare_to_wait e = record e { waiting = e.waiting + 1 }

unfoldable pub finish_wait : Bool → Event → Event
finish_wait queued e = record e { waiting = if queued then e.waiting - 1 else e.waiting }

-- The way into a wait: done at once, or to sleep.
pub data Entry : Type 0 where
  done : OsalResult → Event → Entry
  sleep : Event → Entry

-- The part that holds the spin lock.
unfoldable pub wait_tested : Event → (wait_ms : ℕ) → Entry
wait_tested e wait_ms =
    if e.signaled
    then done success (record e { signaled = e.manual_reset })
    else if wait_ms == 0
    then done timeout e
    else sleep e

-- A wait that does not come to sleeping leaves the queue.
unfoldable pub finish_entry : Entry → Entry
unfolding finish_wait
finish_entry (done r e) = done r (finish_wait true e)
finish_entry (sleep e) = sleep e

-- All of it, for a task that is not disturbed outside of the lock.
unfoldable pub wait_enter : Event → (wait_ms : ℕ) → Entry
unfolding prepare_to_wait wait_tested finish_entry
wait_enter e wait_ms = finish_entry (wait_tested (prepare_to_wait e) wait_ms)

-- The way out, with what `schedule` came back with.
wait_status : (wait_ms : ℕ) (interruptible : Bool) → Wake → OsalResult
wait_status wait_ms interruptible w =
    if interruptible && w.signal
    then not_done
    else if (not (wait_ms == event_no_timeout)) && w.timedout
    then timeout
    else success

unfoldable pub wait_leave : (wait_ms : ℕ) (interruptible : Bool) → Wake → Event → OsalResult × Event
unfolding finish_wait wait_status os_event_reset
wait_leave wait_ms interruptible w e =
    let e = finish_wait w.queued e in
    let r = wait_status wait_ms interruptible w in
    if e.manual_reset then (r, e) else (r, (os_event_reset e).1)

-- `asleep` is what happens to the event between `schedule` and its return.
unfoldable pub do_os_event_wait :
    (wait_ms : ℕ) (interruptible : Bool) → (Event → Wake × Event) → Event → OsalResult × Event
unfolding wait_enter wait_leave
do_os_event_wait wait_ms interruptible asleep e = elim (wait_enter e wait_ms) [
  | done r e' ↦ (r, e')
  | sleep e' ↦ let (w, e'') = asleep e' in wait_leave wait_ms interruptible w e''
]

unfoldable pub os_event_wait : (wait_ms : ℕ) → (Event → Wake × Event) → Event → OsalResult × Event
unfolding do_os_event_wait
os_event_wait wait_ms = do_os_event_wait wait_ms true

unfoldable pub os_event_hardwait :
    (wait_ms : ℕ) → (Event → Wake × Event) → Event → OsalResult × Event
unfolding do_os_event_wait
os_event_hardwait wait_ms = do_os_event_wait wait_ms false
