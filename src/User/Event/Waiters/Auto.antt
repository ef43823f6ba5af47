-- ===== src/User/Event/Waiters/Auto.antt =====
-- Events that reset themselves: no wait sleeps over a signal, and how many waits one set ends.
use osal.Base.{ℕ, zero, suc, ◌+◌, ◌*◌, ◌≤◌, ◌<◌, ◌≡◌, refl, true, false, arith, to_nat}
use mathlib.Core.Path.{subst}
use osal.Types.{initialized}
use osal.User.Event.{clear, os_event_set, os_event_create, os_event_reset}
use osal.User.Event.Waiters.{
  Waiters, wait_entered, wait_woken, wait_late, cond_signaled, Step, enter, set, reset, wake,
  time_out, give_up, Reach, here, next,
}

record Inv (s : Waiters) : Type 0 where
  auto : s.event.manual_reset ≡ false
  ready : s.event.state ≡ initialized
  woken : s.event.signaled ≡ true → 0 < s.waiting → 0 < s.woken
  twice : s.successes + s.woken + to_nat s.event.signaled ≤ 2 * s.sets

Step-Inv : {s t : Waiters} → Step s t → Inv s → Inv t
unfolding wait_entered wait_woken wait_late cond_signaled clear os_event_set os_event_reset
Step-Inv enter v = ground arith
Step-Inv (set e) v = ground arith
Step-Inv (reset e) v = ground arith
Step-Inv (wake h) v = ground arith
Step-Inv (time_out h) v = ground arith
Step-Inv (give_up h) v = ground arith

Reach-Inv : {s : Waiters} → Reach 0 s → Inv s
unfolding os_event_create
Reach-Inv (here m c) = ground arith
Reach-Inv (next r t) = Step-Inv t (Reach-Inv r)

-- No wait sleeps over a signal of an auto-reset event: in a reachable state where the event is
-- signalled and a thread sleeps on it, a woken thread is on its way to the lock.
pub Reach-signaled :
    {s : Waiters} → Reach 0 s → s.event.signaled ≡ true → 0 < s.waiting → 0 < s.woken
Reach-signaled r h w = ground (arith, Reach-Inv r)

-- An auto-reset event that nobody waits for.
abbrev resting : (sets successes : ℕ) → Waiters
resting sets successes = record {
  event = record { signaled = false; manual_reset = false; lock = true; state = initialized };
  waiting = 0;
  woken = 0;
  late = 0;
  sets = sets;
  successes = successes;
  slept = sets;
}

-- A thread sleeps, the event is set, and another thread's wait takes the signal before the first has
-- the lock, which returns OSAL_SUCCESS all the same.
round : (n k : ℕ) → Reach 0 (resting n k) → Reach 0 (resting (n + 1) (k + 1 + 1))
unfolding wait_entered wait_woken cond_signaled clear os_event_set
round n k r = next (next (next (next r enter) (set refl)) enter) (wake (omega arith))

rested : (n : ℕ) → Reach 0 (resting n (2 * n))
unfolding os_event_create
rested zero = here (resting 0 0).event refl
rested (suc n) =
    subst (λ (k : ℕ × ℕ). Reach 0 (resting k.0 k.1)) (ground arith) (round n (2 * n) (rested n))

-- However the threads of an auto-reset event interleave, at most two waits return OSAL_SUCCESS for each
-- call of os_event_set, without any spurious wake-up; and with any number of calls it can be two waits
-- for each of them.
pub Reach-successes :
    {s : Waiters}
    → Reach 0 s
    → (s.successes ≤ 2 * s.sets)
      × ((t : Waiters) × Reach 0 t × (t.sets ≡ s.sets) × (t.successes ≡ 2 * s.sets))
Reach-successes {s} r =
    (ground (arith, Reach-Inv r), (resting s.sets (2 * s.sets), rested s.sets, refl, refl))
