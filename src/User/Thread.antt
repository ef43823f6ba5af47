-- ===== src/User/Thread.antt =====
-- linux_user/src/osal_thread.c. What the pthread calls return is given to each operation.
pub mod Start
pub mod Joins
pub mod Laws
mod Tests
use osal.Base.{
  ℕ, ◌+◌, ◌/◌, ◌%◌, ℤ, pos, negsuc, Bool, true, false, ◌&&◌, Option, none, some, List, [], ◌∷◌,
  ◌==◌, leb, if◌then◌else◌,
}
use osal.Types.{
  OsalResult, success, error, invalid_param, not_implemented, OsalState, uninitialized, initialized,
  destroying, destroyed,
}

-- The values of the field `state`: OS_THREAD_CREATE_SUSPENDED and the THREAD_* of
-- include/osal_thread.h.
pub data ThreadState : Type 0 where
  create_suspended thread_suspended thread_active thread_inactive : ThreadState

-- `os_thread_t`: `osd_state` is `osd.state`. Function and context are addresses.
pub record Thread : Type 0 where
  pub osd_state : OsalState
  pub pfn_callback : ℕ
  pub context : ℕ
  pub state : ThreadState

-- `realtime` is whether the policy is other than SCHED_OTHER.
pub validate_priority : (realtime : Bool) → ℤ → OsalResult
validate_priority false (pos n) = if n == 0 then success else invalid_param
validate_priority false (negsuc n) = invalid_param
validate_priority true (pos n) = if leb 1 n && leb n 99 then success else invalid_param
validate_priority true (negsuc n) = invalid_param

-- `flags & ~(OS_THREAD_CREATE_SUSPENDED | OS_THREAD_REALTIME)`, then the two bits.
abbrev pub invalid_flags : ℕ → ℕ
invalid_flags flags = flags / 4

abbrev pub wants_suspended : ℕ → Bool
wants_suspended flags = flags % 2 == 1

abbrev pub wants_realtime : ℕ → Bool
wants_realtime flags = flags / 2 % 2 == 1

unfoldable pub os_thread_resume : Option Thread → OsalResult × Option Thread
os_thread_resume none = (invalid_param, none)
os_thread_resume (some t) = elim t.state [
  | create_suspended ↦ (success, some (record t { state = thread_active }))
  | _ ↦ (not_implemented, some t)
]

-- The fields as they are set before the thread is created.
prepared : Thread → (func arg : ℕ) → Thread
prepared t func arg = record t {
  osd_state = uninitialized;
  pfn_callback = func;
  context = arg;
  state = create_suspended;
}

settled : Thread → OsalResult × Option Thread → OsalResult × Thread
settled t (r, none) = (r, t)
settled t (r, some t') = (r, t')

-- After pthread_create, where the result so far is success.
pub created : (flags : ℕ) → Thread → OsalResult × Thread
unfolding settled os_thread_resume
created flags t =
    let t' = record t { osd_state = initialized } in
    if wants_suspended flags then (success, t') else settled t' (os_thread_resume (some t'))

-- `inherits` is false if pthread_attr_setinheritsched returns ENOTSUP, and `creates` is whether
-- pthread_create returns 0.
unfoldable pub os_thread_create :
    Thread → (func arg : ℕ) → ℤ → (flags : ℕ) → (inherits creates : Bool) → OsalResult × Thread
unfolding prepared created validate_priority
os_thread_create t func arg priority flags inherits creates =
    if invalid_flags flags == 0
    then elim (validate_priority (wants_realtime flags) priority) [
      | success ↦
          if inherits
          then if creates then created flags (prepared t func arg) else (error, prepared t func arg)
          else (error, t)
      | r ↦ (r, t)
    ]
    else (invalid_param, t)

-- A thread's scheduling as pthread_getschedparam reports it.
pub record Sched : Type 0 where
  pub realtime : Bool
  pub priority : ℤ

-- `current` is none if pthread_getschedparam fails; `accepted` is whether pthread_setschedparam
-- returns 0. The second result is the scheduling that it is called with, if it is.
unfoldable pub os_thread_set_priority :
    Option Thread → ℤ → (current : Option Sched) (accepted : Bool) → OsalResult × Option Sched
unfolding validate_priority
os_thread_set_priority none priority current accepted = (invalid_param, none)
os_thread_set_priority (some t) priority none accepted = (error, none)
os_thread_set_priority (some t) priority (some sched) accepted =
    elim (validate_priority sched.realtime priority) [
      | success ↦
          if accepted
          then (success, some (record sched { priority = priority }))
          else (error, some (record sched { priority = priority }))
      | r ↦ (r, none)
    ]

-- The priority and the flags.
unfoldable pub os_thread_get_priority :
    Option Thread → (current : Option Sched) → OsalResult × Option (ℤ × ℕ)
os_thread_get_priority none current = (invalid_param, none)
os_thread_get_priority (some t) none = (error, none)
os_thread_get_priority (some t) (some sched) =
    (success, some (sched.priority, if sched.realtime then 2 else 0))

-- One thread of os_thread_wait; the Boolean says whether it is joined.
unfoldable pub wait_one : Thread → Bool × Thread
wait_one t = elim t.osd_state [
  | initialized ↦ (true, record t { osd_state = uninitialized })
  | _ ↦ (false, t)
]

-- The loop over the array, with the result so far; the last result counts the joins.
unfoldable pub wait_loop : OsalResult → List Thread → OsalResult × List Thread × ℕ
unfolding wait_one
wait_loop r [] = (r, [], 0)
wait_loop r (t ∷ ts) =
    let (joined, t') = wait_one t in
    let (r', ts', n) = wait_loop (if joined then r else error) ts in
    (r', t' ∷ ts', if joined then n + 1 else n)

-- The array has `num_threads` elements; NULL is none.
unfoldable pub os_thread_wait : Option (List Thread) → OsalResult × List Thread × ℕ
unfolding wait_loop
os_thread_wait none = (invalid_param, [], 0)
os_thread_wait (some ts) = wait_loop success ts

-- The Boolean says whether the thread is cancelled and joined.
unfoldable pub os_thread_destroy : Thread → OsalResult × Thread × Bool
os_thread_destroy t = elim t.osd_state [
  | initialized ↦ (success, record t { osd_state = uninitialized }, true)
  | _ ↦ (success, record t { osd_state = uninitialized }, false)
]

pub os_thread_exit : Option Thread → Option Thread
os_thread_exit none = none
os_thread_exit (some t) = some (record t { state = thread_inactive })

-- `cancels` is whether pthread_cancel returns 0; `canceled` whether the joined thread's result is
-- PTHREAD_CANCELED.
unfoldable pub os_thread_terminate :
    Option Thread → (cancels canceled : Bool) → OsalResult × Option Thread
os_thread_terminate none cancels canceled = (invalid_param, none)
os_thread_terminate (some t) cancels canceled =
    if cancels
    then (if canceled
        then (success, some (record t { state = thread_inactive }))
        else (error, some (record t { state = thread_inactive })))
    else (error, some t)

unfoldable pub os_thread_suspend : Option Thread → OsalResult
os_thread_suspend none = invalid_param
os_thread_suspend (some t) = elim t.state [
  | create_suspended ↦ success
  | thread_suspended ↦ success
  | _ ↦ not_implemented
]

pub os_thread_get_state : Option Thread → OsalResult × Option ThreadState
os_thread_get_state none = (invalid_param, none)
os_thread_get_state (some t) = (success, some t.state)
