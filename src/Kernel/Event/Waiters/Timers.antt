-- ===== src/Kernel/Event/Waiters/Timers.antt =====
-- What one task's timer does to the other tasks.
use osal.Base.{ℕ, zero, suc, ◌+◌, ◌≡◌, refl, false, arith}
use mathlib.Core.Path.{subst}
use osal.Types.{initialized}
use osal.Kernel.Event.{os_event_create, prepare_to_wait, wait_tested, wait_leave, event_no_timeout}
use osal.Kernel.Event.Waiters.{
  Waiters, wake_up, returned, scheduled, timeout_handler, prepare, enter, expire, leave, created,
  Reach, here, next,
}

-- An auto-reset event that was never set, on which n tasks sleep.
abbrev sleepers : ℕ → Waiters
sleepers n = record (created 0) {
  event = record { signaled = false; manual_reset = false; waiting = n; state = initialized };
  asleep = n;
}

-- One more task has slept, for some time only, and its timer has run out; n tasks have come back.
abbrev expired_after : (awake n : ℕ) → Waiters
expired_after awake n = record (sleepers 0) { woken = awake; expired = 1; successes = n }

sleepers-Reach : (n : ℕ) → Reach 0 (sleepers n)
unfolding os_event_create prepare_to_wait wait_tested scheduled
sleepers-Reach zero = here
sleepers-Reach (suc n) =
    subst (Reach 0) (ground arith)
      (next (next (sleepers-Reach n) prepare) (enter event_no_timeout (omega arith)))

expired_after-Reach : (n : ℕ) → Reach 0 (expired_after n 0)
unfolding prepare_to_wait wait_tested scheduled timeout_handler wake_up
expired_after-Reach n =
    subst (Reach 0) (ground arith) (
      next (next (next (sleepers-Reach n) prepare) (enter 1 (omega arith))) (expire (ground arith)))

returned-Reach : (k n : ℕ) → Reach 0 (expired_after k n) → Reach 0 (expired_after 0 (k + n))
unfolding wait_leave returned
returned-Reach zero n r = (ground arith)
returned-Reach (suc k) n r =
    subst (λ (i : ℕ). Reach 0 (expired_after 0 i)) (ground arith)
      (returned-Reach k (n + 1) (subst (Reach 0) (ground arith) (next r (leave (omega arith)))))

-- The timer of one task wakes all: for every number n there is a reachable state of an auto-reset event
-- in which os_event_set has never been called and n waits have returned OSAL_SUCCESS, with no other task
-- that sleeps without a timer or has been woken from such a sleep.
pub timer-successes :
    (n : ℕ)
    → (t : Waiters) × Reach 0 t × (t.sets ≡ 0) × (t.successes ≡ n) × (t.asleep + t.woken ≡ 0)
timer-successes n = (
  expired_after 0 (n + 0),
  returned-Reach n 0 (expired_after-Reach n),
  refl,
  (ground arith),
  refl,
)
