-- ===== src/Kernel/Irq/Stop.antt =====
-- The end of the deferred handler's thread: whether kthread_stop in os_release_interrupt returns.
use osal.Base.{ℕ, zero, suc, ◌≡◌, ◌≢◌, refl, ◌⊎◌, inl, inr, true, false, none, some, arith}
use osal.Kernel.Irq.Deferred.{
  Pc, top, staying, prepared, asleep, finished, cleared, stopping, State, turn, kthread_wrapper,
  os_release_interrupt, release_turn, Step, interrupt, thread, releasing, Reach, next,
}
use osal.Kernel.Irq.Deferred.Masked.{Reach-Inv}

-- The thread alone for some steps, or until it cannot go on.
abbrev pub thread_run : ℕ → State → State
thread_run zero s = s
thread_run (suc n) s = elim (kthread_wrapper s) [ none ↦ s | some t ↦ thread_run n t ]

-- The state in which kthread_stop waits for the thread.
abbrev pub stopped : State → State
stopped s = record s { release = stopping; runnable = true }

-- No step is possible any more.
abbrev pub IsStuck : State → Type 0
IsStuck s = (t : State) → ¬ Step s t

-- The thread has tested kthread_should_stop before the stop and has not called prepare_to_wait yet.
abbrev lost : State → State
lost s = record s { release = stopping; runnable = false; pc = asleep }

lost-IsStuck : (s : State) → IsStuck (lost s)
unfolding kthread_wrapper turn os_release_interrupt release_turn
lost-IsStuck s t (interrupt u m) = cc
lost-IsStuck s t (thread h) = cc
lost-IsStuck s t (releasing h) = cc

lost-Reach :
    (s : State)
    → Reach s
    → s.release ≡ cleared
    → s.pending ≡ false
    → s.pc ≡ staying
    → Reach (lost s)
unfolding kthread_wrapper turn os_release_interrupt release_turn
lost-Reach s r c q p =
    let stops : os_release_interrupt s ≡ some (stopped s) = rw c refl in
    let prepares : kthread_wrapper (stopped s)
        ≡ some (record s { pc = prepared; release = stopping; runnable = false }) =
      rw p refl in
    let sleeps : kthread_wrapper (record s { pc = prepared; release = stopping; runnable = false })
        ≡ some (lost s) =
      rw q refl in
    next (next (next r (releasing stops)) (thread prepares)) (thread sleeps)

run-finished :
    (pc : Pc) (s : State)
    → s.pc ≡ pc
    → pc ≢ staying
    → s.pending ≡ false
    → (thread_run 4 (stopped s)).pc ≡ finished
unfolding kthread_wrapper turn
run-finished top s e n q = rw e refl
run-finished staying s e n q = absurd (n refl)
run-finished prepared s e n q = rw (e, q) refl
run-finished _ s e n q = ground arith

-- The test of a pc that the case needs.
staying_or_not : (pc : Pc) → (pc ≡ staying) ⊎ (pc ≢ staying)
staying_or_not staying = inl refl
staying_or_not _ = inr (λ e. cc)

-- When os_release_interrupt comes to kthread_stop, in any reachable state: either the thread is
-- elsewhere than between its test of kthread_should_stop and prepare_to_wait, and four of its steps at
-- the most after the stop end it, or it is there, and then it can fall asleep over the stop, after
-- which no step is possible any more, and kthread_stop never returns.
pub release-ends :
    {s : State}
    → Reach s
    → s.release ≡ cleared
    → ((s.pc ≢ staying) × ((thread_run 4 (stopped s)).pc ≡ finished))
      ⊎ ((s.pc ≡ staying) × (t : State) × Reach t × (t.release ≡ stopping) × IsStuck t)
release-ends {s} r c =
    let q : s.pending ≡ false = ground (arith, Reach-Inv r) in
    elim (staying_or_not s.pc) [
      | inl here ↦ inr (here, lost s, lost-Reach s r c q here, refl, lost-IsStuck s)
      | inr elsewhere ↦ inl (elsewhere, run-finished s.pc s refl elsewhere q)
    ]
