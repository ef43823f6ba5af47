-- ===== src/User/Event/Waiters/Manual.antt =====
-- Events that are reset by hand: one set wakes one thread, whatever number sleeps.
use osal.Base.{ℕ, zero, suc, ◌+◌, ◌≤◌, ◌≡◌, refl, true, false, arith}
use mathlib.Core.Path.{subst}
use osal.Types.{success, initialized}
use osal.User.Event.{clear, os_event_create, os_event_set}
use osal.User.Event.Waiters.{
  Waiters, wait_entered, wait_woken, wait_late, cond_signaled, Step, enter, set, reset, wake,
  time_out, give_up, Reach, here, next,
}

Step-slept : {s t : Waiters} → Step s t → s.slept + s.woken ≤ s.sets → t.slept + t.woken ≤ t.sets
unfolding wait_entered wait_woken wait_late cond_signaled clear
Step-slept enter v = ground arith
Step-slept (set e) v = ground arith
Step-slept (reset e) v = ground arith
Step-slept (wake h) v = ground arith
Step-slept (time_out h) v = ground arith
Step-slept (give_up h) v = ground arith

Reach-slept : {m : ℕ} {s : Waiters} → Reach m s → s.slept + s.woken ≤ s.sets
Reach-slept (here m c) = omega arith
Reach-slept (next r t) = Step-slept t (Reach-slept r)

-- A manual-reset event on which n threads sleep.
abbrev asleep : ℕ → Waiters
asleep n = record {
  event = record { signaled = false; manual_reset = true; lock = true; state = initialized };
  waiting = n;
  woken = 0;
  late = 0;
  sets = 0;
  successes = 0;
  slept = 0;
}

asleep-create :
    (m : ℕ) → os_event_create true (suc m) (asleep 0).event ≡ (success, (asleep 0).event)
unfolding os_event_create
asleep-create m = ground arith

asleep-Reach : (m n : ℕ) → Reach (suc m) (asleep n)
unfolding wait_entered
asleep-Reach m zero = here (asleep 0).event (asleep-create m)
asleep-Reach m (suc n) =
    subst (λ (k : ℕ). Reach (suc m) (asleep k)) (omega arith) (next (asleep-Reach m n) enter)

-- After one set, with the woken thread gone, and before it is.
abbrev left : ℕ → Waiters
left n = record (asleep n) {
  event = record (asleep n).event { signaled = true };
  sets = 1;
  successes = 1;
  slept = 1;
}

abbrev raised : ℕ → Waiters
raised n = record (left n) { woken = 1; successes = 0; slept = 0 }

raised-Reach : (m n : ℕ) → Reach (suc m) (raised n)
unfolding cond_signaled os_event_set
raised-Reach m n = subst (Reach (suc m)) (ground arith) (next (asleep-Reach m (suc n)) (set refl))

left-Reach : (m n : ℕ) → Reach (suc m) (left n)
unfolding wait_woken clear
left-Reach m n = next (raised-Reach m n) (wake (omega arith))

-- However the threads of a manual-reset event interleave, os_event_set wakes at most one sleeping
-- thread for each of its calls; so for every number n, n threads can sleep on an event that is
-- signalled, with none of them woken or timed out.
pub manual-sleepers :
    {m : ℕ} {s : Waiters} (n : ℕ)
    → Reach (suc m) s
    → (s.slept + s.woken ≤ s.sets)
      × ((t : Waiters) × Reach (suc m) t
          × (t.event.signaled ≡ true)
          × (t.waiting ≡ n)
          × (t.woken + t.late ≡ 0))
manual-sleepers {m} n r = (Reach-slept r, (left n, left-Reach m n, refl, refl, refl))
