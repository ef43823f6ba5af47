-- ===== src/User/Event/Waiters/Tests.antt =====
-- Concrete runs of threads that share an event.
use osal.Base.{◌+◌, ◌*◌, ◌≤◌, ◌<◌, ◌≡◌, refl, Bool, true, false, arith}
use osal.Types.{initialized}
use osal.User.Event.{os_event_create, os_event_set}
use osal.User.Event.Waiters.{Waiters, wait_entered, cond_signaled, enter, set, Reach, here, next}
use osal.User.Event.Waiters.Auto.{Reach-signaled, Reach-successes}
use osal.User.Event.Waiters.Manual.{manual-sleepers}

-- Two threads sleep and the event is set.
abbrev set_once : Bool → Waiters
set_once manual = record {
  event = record { signaled = true; manual_reset = manual; lock = true; state = initialized };
  waiting = 1;
  woken = 1;
  late = 0;
  sets = 1;
  successes = 0;
  slept = 0;
}

auto-Reach : Reach 0 (set_once false)
unfolding os_event_create os_event_set wait_entered cond_signaled
auto-Reach = next (next (next (here (set_once false).event refl) enter) enter) (set refl)

manual-Reach : Reach 1 (set_once true)
unfolding os_event_create os_event_set wait_entered cond_signaled
manual-Reach = next (next (next (here (set_once true).event refl) enter) enter) (set refl)

Reach-signaled_example : 0 < (set_once false).woken
Reach-signaled_example = Reach-signaled auto-Reach refl (omega arith)

Reach-successes_example :
    ((set_once false).successes ≤ 2 * (set_once false).sets)
    × ((t : Waiters) × Reach 0 t
        × (t.sets ≡ (set_once false).sets)
        × (t.successes ≡ 2 * (set_once false).sets))
Reach-successes_example = Reach-successes auto-Reach

manual-sleepers_example :
    ((set_once true).slept + (set_once true).woken ≤ (set_once true).sets)
    × ((t : Waiters) × Reach 1 t
        × (t.event.signaled ≡ true)
        × (t.waiting ≡ 5)
        × (t.woken + t.late ≡ 0))
manual-sleepers_example = manual-sleepers 5 manual-Reach
