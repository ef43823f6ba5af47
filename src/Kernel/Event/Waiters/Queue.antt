-- ===== src/Kernel/Event/Waiters/Queue.antt =====
-- What the wait queue and the signal of a kernel event promise the tasks.
use osal.Base.{ℕ, ◌+◌, ◌≡◌, ◌⊎◌, Bool-cases, true, false, arith}
use osal.Kernel.Event.{
  os_event_create, os_event_set, os_event_reset, prepare_to_wait, finish_wait, wait_tested,
  wait_leave,
}
use osal.Kernel.Event.Waiters.{
  Waiters, wake_up, returned, scheduled, set_event, timeout_handler, Step, prepare, enter,
  enter_missed, set, reset, expire, leave, leave_timed, leave_expired, interrupted,
  interrupted_timed, interrupted_woken, interrupted_woken_timed, interrupted_expired,
  expire_departing, finish, depart, depart_timed, Reach, here, next,
}

record Inv (s : Waiters) : Type 0 where
  queue : s.event.waiting ≡ s.entering + s.asleep + s.timed + s.finishing
  heard : s.event.signaled ≡ true → s.asleep + s.timed ≡ 0

Step-Inv : {s t : Waiters} → Step s t → Inv s → Inv t
unfolding wake_up returned scheduled set_event timeout_handler os_event_set os_event_reset
    prepare_to_wait finish_wait wait_tested wait_leave
Step-Inv prepare v = ground arith
Step-Inv (enter ms h) v = ground arith
Step-Inv (enter_missed ms h) v = ground arith
Step-Inv set v = ground arith
Step-Inv reset v = ground arith
Step-Inv (expire h) v = ground arith
Step-Inv (leave h) v = ground arith
Step-Inv (leave_timed ms h) v = ground arith
Step-Inv (leave_expired ms n h) v = ground arith
Step-Inv (finish h) v = ground arith
Step-Inv (interrupted h) v = ground arith
Step-Inv (interrupted_timed h) v = ground arith
Step-Inv (interrupted_woken h) v = ground arith
Step-Inv (interrupted_woken_timed h) v = ground arith
Step-Inv (interrupted_expired h) v = ground arith
Step-Inv (expire_departing h) v = ground arith
Step-Inv (depart ms h) v = ground arith
Step-Inv (depart_timed ms h) v = ground arith

Reach-Inv : {m : ℕ} {s : Waiters} → Reach m s → Inv s
unfolding os_event_create
Reach-Inv here = ground arith
Reach-Inv (next r t) = Step-Inv t (Reach-Inv r)

-- In every reachable state of an event of either kind, the queue has an entry for just the tasks that
-- are on the way to sleep, asleep or about to leave and have not been woken, and while the event is signalled no task
-- sleeps on it.
pub Reach-asleep :
    {m : ℕ} {s : Waiters}
    → Reach m s
    → (s.event.waiting ≡ s.entering + s.asleep + s.timed + s.finishing)
      × ((s.event.signaled ≡ false) ⊎ (s.asleep + s.timed ≡ 0))
Reach-asleep {m} {s} r = ground (arith, Reach-Inv r, Bool-cases s.event.signaled)
