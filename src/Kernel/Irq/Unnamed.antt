-- ===== src/Kernel/Irq/Unnamed.antt =====
-- os_acquire_interrupt of linux_kernel/src/osal_irq.c without a driver name.
use osal.Base.{ℕ, ◌≡◌, refl, Bool, true, false, none}
use osal.Kernel.Irq.{
  KernelApi, os_register_top_half, int_registered, int_started, int_allocated, os_acquire_interrupt,
  kthread_name, new_int,
}

module _ {W : Type 0} (k : KernelApi W) (self deferred irqnum key handler data_ptr : ℕ) where
  started_unnamed :
      (p : Bool × W)
      → (int_started k self deferred (new_int irqnum key handler data_ptr) none p).0 ≡ none
  unfolding int_started os_register_top_half int_registered
  started_unnamed (false, w) = refl
  started_unnamed (true, w) = refl

  allocated_unnamed :
      (p : Bool × W) → (int_allocated k self deferred irqnum key none handler data_ptr p).0 ≡ none
  unfolding int_allocated
  allocated_unnamed (false, w) = refl
  allocated_unnamed (true, w) = started_unnamed (k.kthread_run (kthread_name none irqnum) w)

  -- Without a driver name os_acquire_interrupt never returns a handle, although it makes up a name
  -- for its thread in that case: the registration of the handler asks for a name.
  pub acquire_unnamed :
      (w : W) → (os_acquire_interrupt k self deferred irqnum key none handler data_ptr w).0 ≡ none
  unfolding os_acquire_interrupt
  acquire_unnamed w = allocated_unnamed (k.kmalloc_int w)
