-- ===== src/Kernel/Thread.antt =====
-- linux_kernel/src/osal_thread.c: kernel threads, each with an event that is set at its end.
pub mod Finish
mod Tests
use osal.Base.{
  ◌-◌, ltb, ◌*◌, ℕ, ◌+◌, ◌/◌, ◌%◌, ◌^◌, ℤ, pos, negsuc, Bool, true, false, ◌&&◌, Option, none, some,
  List, [], ◌∷◌, ◌++◌, ◌==◌, leb, if◌then◌else◌,
}
use osal.Base.Text.{codes, decimal}
use osal.Types.{
  OsalResult, success, invalid_param, OsalState, uninitialized, initialized, destroying, destroyed,
}
use osal.Kernel.Event.{
  Event, Wake, os_event_create, os_event_set, os_event_hardwait, os_event_destroy, event_no_timeout,
}

-- `os_thread_t` but for the task and the queue, which is not used. Function and context are addresses,
-- 0 for NULL.
pub record Thread : Type 0 where
  pub pfn_callback : ℕ
  pub kill_event : Event
  pub context : ℕ
  pub state : OsalState
  pub priority : ℤ

-- `realtime` is whether the policy is other than SCHED_NORMAL.
pub validate_priority : (realtime : Bool) → ℤ → OsalResult
validate_priority false (pos n) = if n == 0 then success else invalid_param
validate_priority false (negsuc n) = invalid_param
validate_priority true (pos n) = if leb 1 n && leb n 99 then success else invalid_param
validate_priority true (negsuc n) = invalid_param

-- The name that kthread_run is given; `cnt` is `thread_cnt` as it is already counted up, which is printed
-- with %d and so as negative from 2 ^ 31 on.
unfoldable pub thread_name : Option (List ℕ) → (cnt : ℕ) → List ℕ
thread_name none cnt =
    codes "OSAL thread "
    ++ (if ltb cnt (2 ^ 31) then decimal 10 cnt [] else b'-' ∷ decimal 10 (2 ^ 32 - cnt) [])
thread_name (some name) cnt = name

-- The flags are two bits, of which the first is not used. The last results are `thread_cnt` and the name
-- for kthread_run, if it is called; what that returns is not tested.
unfoldable pub os_thread_create :
    Thread
    → (func arg : ℕ) → ℤ
    → (flags : ℕ) → Option (List ℕ)
    → (thread_cnt : ℕ) → OsalResult × Thread × ℕ × Option (List ℕ)
unfolding validate_priority os_event_create
os_thread_create thread func arg priority flags name thread_cnt =
    if flags / 4 == 0
    then elim (validate_priority (flags / 2 % 2 == 1) priority) [
      | success ↦
          let cnt = (thread_cnt + 1) % 2 ^ 32 in
          (
            success,
            record {
              pfn_callback = func;
              kill_event = (os_event_create 0).1;
              context = arg;
              state = initialized;
              priority = priority;
            },
            cnt,
            some (thread_name name cnt),
          )
      | r ↦ (r, thread, thread_cnt, none)
    ]
    else (invalid_param, thread, thread_cnt, none)

abbrev is_zero : ℤ → Bool
is_zero (pos n) = n == 0
is_zero (negsuc n) = false

-- The thread's own function, when the caller's has returned. The first result is the priority that
-- sched_setscheduler is called with, if it is; what that returns is only printed.
unfoldable pub thread_wrapper : Thread → Option ℤ × Thread
unfolding os_event_set
thread_wrapper t = (
  (if is_zero t.priority then none else some t.priority),
  record t { kill_event = (os_event_set t.kill_event).1 },
)

is_initialized : OsalState → Bool
is_initialized initialized = true
is_initialized s = false

-- os_event_hardwait, with what happens to the event while the caller sleeps: `asleep` is given the
-- timeout that the sleep has, as the timer is set for it.
unfoldable pub hardwait :
    (wait_ms : ℕ) → (asleep : ℕ → Event → Wake × Event) → Event → OsalResult × Event
unfolding os_event_hardwait
hardwait wait_ms asleep e = os_event_hardwait wait_ms (asleep wait_ms) e

-- One thread of os_thread_wait.
unfoldable pub wait_one : (asleep : ℕ → Event → Wake × Event) → Thread → Thread
unfolding hardwait is_initialized
wait_one asleep t =
    if is_initialized t.state
    then record t { kill_event = (hardwait event_no_timeout asleep t.kill_event).1 }
    else t

wait_all : (asleep : Thread → ℕ → Event → Wake × Event) → List Thread → List Thread
unfolding wait_one
wait_all asleep [] = []
wait_all asleep (t ∷ ts) = wait_one (asleep t) t ∷ wait_all asleep ts

unfoldable pub os_thread_wait :
    (asleep : Thread → ℕ → Event → Wake × Event) → List Thread → OsalResult × List Thread
unfolding wait_all
os_thread_wait asleep ts = (success, wait_all asleep ts)

unfoldable pub os_thread_exit : Thread → Thread
unfolding os_event_set is_initialized
os_thread_exit t =
    if is_initialized t.state then record t { kill_event = (os_event_set t.kill_event).1 } else t

unfoldable pub os_thread_destroy : Thread → OsalResult × Thread
unfolding os_event_destroy is_initialized
os_thread_destroy t =
    let u = if is_initialized t.state then record t { pfn_callback = 0; context = 0 } else t in
    (success, record u { kill_event = (os_event_destroy u.kill_event).1 })

pub os_thread_get_state : Thread → OsalResult × OsalState
os_thread_get_state t = (success, t.state)

-- The ticks that schedule_timeout is called with, for `hz` ticks in a second.
pub os_thread_yield : (hz : ℕ) → ℕ
os_thread_yield hz = 1 * hz / 1000

-- The milliseconds that msleep is called with.
pub os_sleep : (delay_in_ms : ℕ) → ℕ
os_sleep delay_in_ms = delay_in_ms
