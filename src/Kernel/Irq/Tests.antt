-- ===== src/Kernel/Irq/Tests.antt =====
-- Concrete runs of the registration of handlers and of the handler in a thread.
use osal.Base.{
  ◌⊎◌, ◌≢◌, ℕ, ◌+◌, ◌-◌, ◌*◌, ◌≤◌, ◌≡◌, refl, true, false, none, some, [], ◌∷◌, arith, ltb,
  if◌then◌else◌, to_nat, is_some,
}
use osal.Kernel.Irq.{
  OsIrq, KernelApi, os_acquire_interrupt, os_release_interrupt, os_acquire_shared_interrupt,
  os_release_shared_interrupt,
}
use osal.Kernel.Irq.Release.{Counts, acquire_release-held}
use osal.Kernel.Irq.Stop.{thread_run, stopped, IsStuck, release-ends}
use osal.Kernel.Irq.Deferred.{
  releasing, finished, os_release_interrupt as deferred_release, State, interrupt, thread, Reach,
  here, next, linux_interrupt_handler, kthread_wrapper, asleep, unreleased, staying, cleared,
  stopping,
}
use osal.Kernel.Irq.Deferred.Masked.{owed, Reach-count, Reach-blocked, is_in_use}

abbrev garbage : OsIrq
garbage = record { irqnum = 9; irq_handler = 9; interrupt_handler = 9; data_ptr = 9; init = true }

-- A kernel that keeps the number of blocks in use, and where only interrupts below 16 have a line.
abbrev kernel : KernelApi ℕ
kernel = record {
  kmalloc_irq = λ w. (some garbage, w + 1);
  kmalloc_int = λ w. (true, w + 1);
  kfree = λ w. w - 1;
  request_irq = λ i w. (if ltb i.irqnum 16 then 0 else 22, w);
  request_threaded_irq = λ i w. (if ltb i.irqnum 16 then 0 else 22, w);
  free_irq = λ i w. w;
  kthread_run = λ name w. (true, w);
  kthread_stop = λ w. w;
}

kernel-Counts : Counts kernel 1 0 0 (λ w. w)
kernel-Counts = record {
  kmalloc_irq = λ w. refl;
  kmalloc_int = λ w. refl;
  kfree = λ w. refl;
  request_irq = λ i w. omega arith;
  request_threaded_irq = λ i w. omega arith;
  free_irq = λ i w. omega arith;
  kthread_run = λ name w. omega arith;
  kthread_stop = λ w. omega arith;
}

-- An interrupt that has no line: the block that is allocated for it is freed again.
acquire_release-held_example :
    let own = os_acquire_interrupt kernel 100 200 40 7 (some (b'e' ∷ [])) 300 8 3 in
    let shared = os_acquire_shared_interrupt kernel 40 400 (some (b'e' ∷ [])) 300 8 3 in
    (own.1 ≡ 3 + (1 + 1 + 0 + 0) * to_nat (is_some own.0))
    × (shared.1 ≡ 3 + (1 + 0) * to_nat (is_some shared.0))
    × (os_release_interrupt kernel own.0 own.1 ≡ 3)
    × (os_release_shared_interrupt kernel shared.0 shared.1 ≡ 3)
acquire_release-held_example =
    acquire_release-held kernel 1 0 0 (λ w. w) kernel-Counts 100 200 40 7 (some (b'e' ∷ [])) 300 400
      8 3

-- The thread falls asleep, an interrupt is handled, and the thread sleeps again.
abbrev served : State
served = record {
  pc = asleep;
  release = unreleased;
  pending = false;
  masked = false;
  runnable = false;
  fired = 1;
  calls = 1;
}

served-Reach : Reach served
unfolding kthread_wrapper linux_interrupt_handler
served-Reach =
    let waits = next (next here (thread refl)) (thread refl) in
    let sleeps = next waits (thread refl) in
    let woken = next (next sleeps (interrupt refl refl)) (thread refl) in
    let calls = next (next woken (thread refl)) (thread refl) in
    let done = next (next calls (thread refl)) (thread refl) in
    next (next (next done (thread refl)) (thread refl)) (thread refl)

Reach-count_example :
    ((served.fired ≡ served.calls + owed served.pc served.pending)
      ⊎ (is_in_use served.release ≡ false))
    × (served.calls ≤ served.fired)
    × (served.fired ≤ served.calls + 1)
Reach-count_example = Reach-count served-Reach

served-blocked : kthread_wrapper served ≡ none
unfolding kthread_wrapper
served-blocked = refl

Reach-blocked_example :
    (served.pending ≡ false) × (served.fired ≡ served.calls) × (served.masked ≡ false)
Reach-blocked_example = Reach-blocked served-Reach served-blocked refl

-- The release comes while the thread sleeps.
abbrev resting : State
resting = record served { release = cleared }

resting-Reach : Reach resting
unfolding deferred_release
resting-Reach = next (next served-Reach (releasing refl)) (releasing refl)

release-ends_example :
    ((resting.pc ≢ staying) × ((thread_run 4 (stopped resting)).pc ≡ finished))
    ⊎ ((resting.pc ≡ staying) × (t : State) × Reach t × (t.release ≡ stopping) × IsStuck t)
release-ends_example = release-ends resting-Reach refl
