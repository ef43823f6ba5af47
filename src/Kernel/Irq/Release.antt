-- ===== src/Kernel/Irq/Release.antt =====
-- Interrupts that are acquired and released: memory, handlers and threads.
use osal.Base.{
  ℕ, ◌+◌, ◌-◌, ◌*◌, ◌≡◌, refl, Bool, true, false, Option, none, some, List, arith, to_nat, is_some,
  ◌==◌, ◌⊎◌, Bool-cases, inl, inr,
}
use osal.Types.{OsalResult, success}
use osal.Kernel.Irq.{
  OsIrq, LinuxInt, KernelApi, top_half_requested, top_half_allocated, os_register_top_half,
  int_registered, int_started, int_allocated, os_acquire_interrupt, os_release_interrupt,
  shared_requested, shared_allocated, os_acquire_shared_interrupt, os_release_shared_interrupt,
  kthread_name, new_int,
}

-- `held w` counts what is held: a block of memory as `block`, a registered handler as `irq`, a thread
-- as `thread`. A call that succeeds adds one, and the call that undoes it takes it away.
pub record Counts {W : Type 0} (k : KernelApi W) (block irq thread : ℕ) (held : W → ℕ)
    : Type 0 where
  pub kmalloc_irq :
      (w : W) → held (k.kmalloc_irq w).1 ≡ held w + block * to_nat (is_some (k.kmalloc_irq w).0)
  pub kmalloc_int : (w : W) → held (k.kmalloc_int w).1 ≡ held w + block * to_nat (k.kmalloc_int w).0
  pub kfree : (w : W) → held (k.kfree w) ≡ held w - block
  pub request_irq :
      (i : OsIrq) (w : W)
      → held (k.request_irq i w).1 ≡ held w + irq * to_nat ((k.request_irq i w).0 == 0)
  pub request_threaded_irq :
      (i : OsIrq) (w : W)
      → held (k.request_threaded_irq i w).1
        ≡ held w + irq * to_nat ((k.request_threaded_irq i w).0 == 0)
  pub free_irq : (i : OsIrq) (w : W) → held (k.free_irq i w) ≡ held w - irq
  pub kthread_run :
      (name : List ℕ) (w : W)
      → held (k.kthread_run name w).1 ≡ held w + thread * to_nat (k.kthread_run name w).0
  pub kthread_stop : (w : W) → held (k.kthread_stop w) ≡ held w - thread

module _ {W : Type 0} (k : KernelApi W) (block irq thread : ℕ) (held : W → ℕ)
    (law : Counts k block irq thread held) where
  -- The change that goes with a result: `n` if there is one.
  abbrev Changed {ℓ} : {A : Type ℓ} → (n : ℕ) → W → Option A × W → Type 0
  Changed n w p = held p.1 ≡ held w + n * to_nat (is_some p.0)

  requested-Changed :
      (i : OsIrq) (w : W) (p : ℕ × W)
      → held p.1 ≡ held w + block + irq * to_nat (p.0 == 0)
      → Changed (block + irq) w ((top_half_requested k i p).0.1, (top_half_requested k i p).1)
  unfolding top_half_requested
  requested-Changed i w (failed, w') e = elim (Bool-cases (failed == 0)) [
    | inl fine ↦ ground arith
    | inr bad ↦ ground (arith, law.kfree w')
  ]

  allocated-Changed :
      (irqnum handler data_ptr : ℕ) (w : W) (p : Option OsIrq × W)
      → held p.1 ≡ held w + block * to_nat (is_some p.0)
      → let r = top_half_allocated k irqnum handler data_ptr p in
        Changed (block + irq) w (r.0.1, r.1)
  unfolding top_half_allocated
  allocated-Changed irqnum handler data_ptr w (none, w') e = omega arith
  allocated-Changed irqnum handler data_ptr w (some m, w') e =
      let i = record m { irqnum = irqnum; interrupt_handler = handler; data_ptr = data_ptr } in
      requested-Changed i w (k.request_irq i w') (omega (arith, law.request_irq i w'))

  register-Changed :
      (irqnum : ℕ) (irqhandle : Bool) (handler data_ptr : ℕ) (name : Option (List ℕ)) (w : W)
      → let r = os_register_top_half k irqnum irqhandle handler data_ptr name w in
        Changed (block + irq) w (r.0.1, r.1)
  unfolding os_register_top_half
  register-Changed irqnum false handler data_ptr name w = omega arith
  register-Changed irqnum true handler data_ptr none w = omega arith
  register-Changed irqnum true handler data_ptr (some name) w = elim (Bool-cases (handler == 0)) [
    | inl bad ↦ rw bad (omega arith)
    | inr fine ↦
        rw fine (allocated-Changed irqnum handler data_ptr w (k.kmalloc_irq w) (law.kmalloc_irq w))
  ]

  registered-Changed :
      (int : LinuxInt) (w : W) (p : (OsalResult × Option OsIrq) × W)
      → ((p.0.1 ≡ none) ⊎ (p.0.0 ≡ success))
      → held p.1 ≡ held w + block + thread + (block + irq) * to_nat (is_some p.0.1)
      → Changed (block + block + irq + thread) w (int_registered k int p)
  unfolding int_registered
  registered-Changed int w ((success, some i), w') r e = omega arith
  registered-Changed int w ((success, none), w') r e =
      omega (arith, law.kthread_stop w', law.kfree (k.kthread_stop w'))
  registered-Changed int w ((_, none), w') r e =
      omega (arith, law.kthread_stop w', law.kfree (k.kthread_stop w'))
  registered-Changed int w ((_, some i), w') r e = ground arith

  -- A handle comes with success only.
  abbrev Honest : (OsalResult × Option OsIrq) × W → Type 0
  Honest p = (p.0.1 ≡ none) ⊎ (p.0.0 ≡ success)

  requested-Honest : (i : OsIrq) (p : ℕ × W) → Honest (top_half_requested k i p)
  unfolding top_half_requested
  requested-Honest i (failed, w) = ground arith

  allocated-Honest :
      (irqnum handler data_ptr : ℕ) (p : Option OsIrq × W)
      → Honest (top_half_allocated k irqnum handler data_ptr p)
  unfolding top_half_allocated
  allocated-Honest irqnum handler data_ptr (none, w) = inl refl
  allocated-Honest irqnum handler data_ptr (some m, w) = requested-Honest _ (k.request_irq _ w)

  register-Honest :
      (irqnum : ℕ) (irqhandle : Bool) (handler data_ptr : ℕ) (name : Option (List ℕ)) (w : W)
      → Honest (os_register_top_half k irqnum irqhandle handler data_ptr name w)
  unfolding os_register_top_half
  register-Honest irqnum false handler data_ptr name w = inl refl
  register-Honest irqnum true handler data_ptr none w = inl refl
  register-Honest irqnum true handler data_ptr (some name) w = elim (Bool-cases (handler == 0)) [
    | inl bad ↦ rw bad (inl refl)
    | inr fine ↦ rw fine (allocated-Honest irqnum handler data_ptr (k.kmalloc_irq w))
  ]

  started-Changed :
      (self deferred : ℕ) (int : LinuxInt) (name : Option (List ℕ)) (w : W) (p : Bool × W)
      → held p.1 ≡ held w + block + thread * to_nat p.0
      → Changed (block + block + irq + thread) w (int_started k self deferred int name p)
  unfolding int_started
  started-Changed self deferred int name w (false, w') e = omega (arith, law.kfree w')
  started-Changed self deferred int name w (true, w') e =
      registered-Changed int w (os_register_top_half k int.irq true deferred self name w')
        (register-Honest int.irq true deferred self name w')
        (omega (arith, register-Changed int.irq true deferred self name w'))

  int_allocated-Changed :
      (self deferred irqnum key : ℕ) (name : Option (List ℕ)) (handler data_ptr : ℕ) (w : W)
      (p : Bool × W)
      → held p.1 ≡ held w + block * to_nat p.0
      → Changed
          (block + block + irq + thread)
          w
          (int_allocated k self deferred irqnum key name handler data_ptr p)
  unfolding int_allocated
  int_allocated-Changed self deferred irqnum key name handler data_ptr w (false, w') e = omega arith
  int_allocated-Changed self deferred irqnum key name handler data_ptr w (true, w') e =
      started-Changed self deferred (new_int irqnum key handler data_ptr) name w
        (k.kthread_run (kthread_name name irqnum) w')
        (omega (arith, law.kthread_run (kthread_name name irqnum) w'))

  acquire-Changed :
      (self deferred irqnum key : ℕ) (name : Option (List ℕ)) (handler data_ptr : ℕ) (w : W)
      → Changed
          (block + block + irq + thread)
          w
          (os_acquire_interrupt k self deferred irqnum key name handler data_ptr w)
  unfolding os_acquire_interrupt
  acquire-Changed self deferred irqnum key name handler data_ptr w =
      int_allocated-Changed self deferred irqnum key name handler data_ptr w (k.kmalloc_int w)
        (law.kmalloc_int w)

  shared_requested-Changed :
      (i : OsIrq) (w : W) (p : ℕ × W)
      → held p.1 ≡ held w + block + irq * to_nat (p.0 == 0)
      → Changed (block + irq) w (shared_requested k i p)
  unfolding shared_requested
  shared_requested-Changed i w (failed, w') e = elim (Bool-cases (failed == 0)) [
    | inl fine ↦ ground arith
    | inr bad ↦ ground (arith, law.kfree w')
  ]

  shared_allocated-Changed :
      (irqnum top bottom data_ptr : ℕ) (w : W) (p : Option OsIrq × W)
      → held p.1 ≡ held w + block * to_nat (is_some p.0)
      → Changed (block + irq) w (shared_allocated k irqnum top bottom data_ptr p)
  unfolding shared_allocated
  shared_allocated-Changed irqnum top bottom data_ptr w (none, w') e = omega arith
  shared_allocated-Changed irqnum top bottom data_ptr w (some m, w') e =
      shared_requested-Changed _ w (k.request_threaded_irq _ w')
        (omega (arith, law.request_threaded_irq _ w'))

  acquire_shared-Changed :
      (irqnum top : ℕ) (name : Option (List ℕ)) (bottom data_ptr : ℕ) (w : W)
      → Changed (block + irq) w (os_acquire_shared_interrupt k irqnum top name bottom data_ptr w)
  unfolding os_acquire_shared_interrupt
  acquire_shared-Changed irqnum top name bottom data_ptr w = ground (
    arith,
    shared_allocated-Changed irqnum top bottom data_ptr w (k.kmalloc_irq w),
    law.kmalloc_irq w,
  )

  release-held :
      (w : W) (p : Option LinuxInt × W)
      → Changed (block + block + irq + thread) w p
      → held (os_release_interrupt k p.0 p.1) ≡ held w
  unfolding os_release_interrupt
  release-held w (none, w') e = omega arith
  release-held w (some int, w') e =
      let w1 = k.free_irq int.irqhandle w' in
      let w2 = k.kfree w1 in
      let w3 = k.kthread_stop w2 in
      omega (arith, law.free_irq int.irqhandle w', law.kfree w1, law.kthread_stop w2, law.kfree w3)

  release_shared-held :
      (w : W) (p : Option OsIrq × W)
      → Changed (block + irq) w p
      → held (os_release_shared_interrupt k p.0 p.1) ≡ held w
  unfolding os_release_shared_interrupt
  release_shared-held w (none, w') e = omega arith
  release_shared-held w (some i, w') e =
      omega (arith, law.free_irq i w', law.kfree (k.free_irq i w'))

  -- For any count of memory blocks, registered handlers and threads that the kernel's calls respect:
  -- os_acquire_interrupt, if it returns a handle, has added two blocks, a handler and a thread, and if
  -- not, nothing; os_acquire_shared_interrupt a block and a handler, or nothing; and what is acquired
  -- and then released leaves the count as it was, whether or not the acquisition succeeded.
  pub acquire_release-held :
      (self deferred irqnum key : ℕ) (name : Option (List ℕ)) (handler top data_ptr : ℕ) (w : W)
      → let own = os_acquire_interrupt k self deferred irqnum key name handler data_ptr w in
        let shared = os_acquire_shared_interrupt k irqnum top name handler data_ptr w in
        (held own.1 ≡ held w + (block + block + irq + thread) * to_nat (is_some own.0))
        × (held shared.1 ≡ held w + (block + irq) * to_nat (is_some shared.0))
        × (held (os_release_interrupt k own.0 own.1) ≡ held w)
        × (held (os_release_shared_interrupt k shared.0 shared.1) ≡ held w)
  acquire_release-held self deferred irqnum key name handler top data_ptr w =
      let own = acquire-Changed self deferred irqnum key name handler data_ptr w in
      let shared = acquire_shared-Changed irqnum top name handler data_ptr w in
      (own, shared, release-held w _ own, release_shared-held w _ shared)
