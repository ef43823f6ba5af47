-- ===== src/Kernel/Irq/Deferred/Masked.antt =====
-- What holds of the deferred handler and its thread in every reachable state.
use osal.Base.{
  ℕ, ◌+◌, ◌≤◌, ◌≡◌, refl, Bool, true, false, none, some, arith, to_nat, ◌||◌, ◌⊎◌, Bool-cases,
}
use osal.Kernel.Irq.Deferred.{
  Pc, top, asleep, running, handled, unmasking, finished, Release, unreleased, irq_freed, State,
  linux_interrupt_handler, kthread_should_stop, turn, kthread_wrapper, has_finished, release_turn,
  os_release_interrupt, interrupt, thread, releasing, Reach, here, next,
}

-- An interrupt that has fired and for which the handler is still to be called.
abbrev pub owed : Pc → Bool → ℕ
owed handled pending = 0
owed pc pending = to_nat pending

abbrev pub in_handler : Pc → Bool
in_handler running = true
in_handler handled = true
in_handler pc = false

-- The release has not reset `pending` yet.
abbrev pub is_in_use : Release → Bool
is_in_use unreleased = true
is_in_use irq_freed = true
is_in_use r = false

abbrev pub is_running : Pc → Bool
is_running running = true
is_running pc = false

abbrev pub is_unmasking : Pc → Bool
is_unmasking unmasking = true
is_unmasking pc = false

abbrev pub is_asleep : Pc → Bool
is_asleep asleep = true
is_asleep pc = false

pub record Inv (s : State) : Type 0 where
  pub masks : is_in_use s.release ≡ true → s.masked ≡ s.pending || is_unmasking s.pc
  pub busy : is_in_use s.release ≡ true → in_handler s.pc ≡ true → s.pending ≡ true
  pub reset : is_unmasking s.pc ≡ true → s.pending ≡ false
  pub woken : is_asleep s.pc ≡ true → s.pending ≡ true → s.runnable ≡ true
  pub quiet : is_in_use s.release ≡ false → s.pending ≡ false
  pub ended : has_finished s.pc ≡ true → kthread_should_stop s.release ≡ true
  pub count : is_in_use s.release ≡ true → s.fired ≡ s.calls + owed s.pc s.pending
  pub called : s.calls + to_nat (is_running s.pc) ≤ s.fired
  pub behind : s.fired ≤ s.calls + 1

interrupt-Inv :
    (s : State)
    → s.release ≡ unreleased
    → s.masked ≡ false
    → Inv s
    → Inv (linux_interrupt_handler s)
unfolding linux_interrupt_handler
interrupt-Inv s r m v = ground arith

turn-Inv : (pc : Pc) (s t : State) → s.pc ≡ pc → turn pc s ≡ some t → Inv s → Inv t
unfolding turn
turn-Inv top s t e h v = ground arith
turn-Inv _ s t e h v = ground arith

release_turn-Inv :
    (r : Release) (s t : State) → s.release ≡ r → release_turn r s ≡ some t → Inv s → Inv t
unfolding release_turn
release_turn-Inv unreleased s t e h v = ground arith
release_turn-Inv _ s t e h v = ground arith

pub Reach-Inv : {s : State} → Reach s → Inv s
Reach-Inv here = ground arith
Reach-Inv (next {s} r (interrupt u m)) = interrupt-Inv s u m (Reach-Inv r)
Reach-Inv (next {s} r (thread {t} h)) =
    turn-Inv s.pc s t refl (unfold kthread_wrapper in h) (Reach-Inv r)
Reach-Inv (next {s} r (releasing {t} h)) =
    release_turn-Inv s.release s t refl (unfold os_release_interrupt in h) (Reach-Inv r)

-- In every reachable state the handler has not been called without an interrupt, and at most one
-- interrupt that fired has not had its call of the handler; until os_release_interrupt resets
-- `pending`, there is such a one exactly when `pending` is set and the handler has not been called for
-- it.
pub Reach-count :
    {s : State}
    → Reach s
    → ((s.fired ≡ s.calls + owed s.pc s.pending) ⊎ (is_in_use s.release ≡ false))
      × (s.calls ≤ s.fired)
      × (s.fired ≤ s.calls + 1)
Reach-count {s} r = ground (arith, Reach-Inv r, Bool-cases (is_in_use s.release))

-- Until os_release_interrupt resets `pending`, the line is masked in every reachable state from the
-- interrupt until the handler is done with it: while an interrupt is pending, and while the handler
-- runs.
pub Reach-masked :
    {s : State}
    → Reach s
    → is_in_use s.release ≡ true
    → s.pending || in_handler s.pc ≡ true
    → s.masked ≡ true
Reach-masked {s} r u h = ground (arith, Reach-Inv r)

turn_blocked :
    (pc : Pc) (s : State)
    → turn pc s ≡ none
    → ((pc ≡ asleep) × (s.runnable ≡ false)) ⊎ (pc ≡ finished)
unfolding turn
turn_blocked top s h = ground arith
turn_blocked _ s h = ground arith

-- No wake-up by an interrupt is lost: in a reachable state where the thread sleeps on, until
-- os_release_interrupt resets `pending`, nothing is pending, the handler has been called for every
-- interrupt that fired, and the line is not masked.
pub Reach-blocked :
    {s : State}
    → Reach s
    → kthread_wrapper s ≡ none
    → is_in_use s.release ≡ true
    → (s.pending ≡ false) × (s.fired ≡ s.calls) × (s.masked ≡ false)
unfolding kthread_wrapper
Reach-blocked {s} r h u = ground (arith, Reach-Inv r, turn_blocked s.pc s)
