-- ===== src/Kernel/Event/Waiters/Tests.antt =====
-- Concrete runs of tasks that share an event of the kernel.
use osal.Base.{◌+◌, ◌≡◌, ◌⊎◌, true, false, arith}
use osal.Types.{initialized}
use osal.Kernel.Event.{
  os_event_create, os_event_set, prepare_to_wait, wait_tested, event_no_timeout,
}
use osal.Kernel.Event.Waiters.{
  Waiters, wake_up, scheduled, set_event, prepare, enter, set, created, Reach, here, next,
}
use osal.Kernel.Event.Waiters.Queue.{Reach-asleep}
use osal.Kernel.Event.Waiters.Timers.{timer-successes}

-- A manual-reset event is set while one task sleeps and another comes to the lock.
abbrev set_once : Waiters
set_once = record (created 1) {
  event = record { signaled = true; manual_reset = true; waiting = 0; state = initialized };
  missed = 1;
  woken = 1;
  sets = 1;
}

set_once-Reach : Reach 1 set_once
unfolding os_event_create prepare_to_wait wait_tested scheduled os_event_set set_event wake_up
set_once-Reach =
    let asleep = next (next here prepare) (enter event_no_timeout (omega arith)) in
    next (next asleep prepare) set

Reach-asleep_example :
    (set_once.event.waiting
      ≡ set_once.entering + set_once.asleep + set_once.timed + set_once.finishing)
    × ((set_once.event.signaled ≡ false) ⊎ (set_once.asleep + set_once.timed ≡ 0))
Reach-asleep_example = Reach-asleep set_once-Reach

timer-successes_example :
    (t : Waiters) × Reach 0 t × (t.sets ≡ 0) × (t.successes ≡ 4) × (t.asleep + t.woken ≡ 0)
timer-successes_example = timer-successes 4
