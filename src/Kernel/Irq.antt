-- ===== src/Kernel/Irq.antt =====
-- linux_kernel/src/osal_irq.c but for the proxy: registering handlers, and handlers in a thread.
pub mod Release
pub mod Unnamed
pub mod Deferred
pub mod Stop
mod Tests
use osal.Base.{
  ℕ, zero, suc, ◌+◌, ◌-◌, ◌/◌, ◌%◌, ◌≡◌, ◌*◌, Bool, true, false, ◌||◌, Option, none, some, List, [],
  ◌∷◌, ◌++◌, ltb, ◌==◌, if◌then◌else◌, length, is_some, to_nat,
}
use osal.Base.Text.{codes, decimal}
use osal.Types.{OsalResult, success, error, invalid_param}

-- `os_irq_t`. Pointers to functions and data are addresses, 0 for NULL.
pub record OsIrq : Type 0 where
  pub irqnum : ℕ
  pub irq_handler : ℕ
  pub interrupt_handler : ℕ
  pub data_ptr : ℕ
  pub init : Bool

-- `linux_int_t`; the wait queue and the state of its thread are in `Deferred`.
pub record LinuxInt : Type 0 where
  pub irq : ℕ
  pub data_ptr : ℕ
  pub pending : Bool
  pub stop : Bool
  pub devicekey : ℕ
  pub irqhandle : OsIrq
  pub handler : ℕ

-- The kernel's calls. `kmalloc_irq` returns an `os_irq_t` with whatever the memory holds;
-- `request_irq` returns 0 on success; `kthread_run` says whether the thread was made.
pub record KernelApi (W : Type 0) : Type 0 where
  pub kmalloc_irq : W → Option OsIrq × W
  pub kmalloc_int : W → Bool × W
  pub kfree : W → W
  pub request_irq : OsIrq → W → ℕ × W
  pub request_threaded_irq : OsIrq → W → ℕ × W
  pub free_irq : OsIrq → W → W
  pub kthread_run : List ℕ → W → Bool × W
  pub kthread_stop : W → W

-- `os_irqreturn_t` and the kernel's `irqreturn_t`.
pub data OsIrqReturn : Type 0 where
  os_irq_none os_irq_handled os_irq_wake_thread : OsIrqReturn

pub data IrqReturn : Type 0 where
  irq_none irq_handled irq_wake_thread : IrqReturn

pub os_irq_wrapper : OsIrqReturn → IrqReturn
os_irq_wrapper os_irq_handled = irq_handled
os_irq_wrapper os_irq_wake_thread = irq_wake_thread
os_irq_wrapper os_irq_none = irq_none

-- The second result is the function that is called, with its argument.
pub os_interrupt_wrapper : OsIrq → IrqReturn × ℕ × ℕ
os_interrupt_wrapper irq = (irq_handled, irq.interrupt_handler, irq.data_ptr)

-- `scheduled` is what sched_setscheduler returns if it is called; the last result says whether it is.
pub os_thread_wrapper : (scheduled : ℕ) → OsIrq → IrqReturn × OsIrq × Bool
os_thread_wrapper scheduled irq =
    if irq.init
    then (irq_handled, irq, false)
    else if scheduled == 0
    then (irq_handled, record irq { init = true }, true)
    else (irq_handled, irq, true)

unfoldable pub prefix : ℕ → List ℕ → List ℕ
prefix zero s = []
prefix (suc n) [] = []
prefix (suc n) (c ∷ s) = c ∷ prefix n s

-- The text in the 80 bytes of `kthread_name`: a name that is given is cut to 79 characters.
unfoldable pub kthread_name : Option (List ℕ) → (irq : ℕ) → List ℕ
unfolding decimal prefix
kthread_name (some name) irq =
    let name_len = if ltb (length name + 1) 80 then length name + 1 else 80 in
    prefix (name_len - 1) name
kthread_name none irq = codes "pal irq " ++ (decimal 10 irq [] ++ codes " thread\n")

-- A `linux_int_t` that is zeroed and then filled.
abbrev pub new_int : (irq device_key handler data_ptr : ℕ) → LinuxInt
new_int irq device_key handler data_ptr = record {
  irq = irq;
  data_ptr = data_ptr;
  pending = false;
  stop = false;
  devicekey = device_key;
  irqhandle = record {
    irqnum = 0;
    irq_handler = 0;
    interrupt_handler = 0;
    data_ptr = 0;
    init = false;
  };
  handler = handler;
}

module _ {W : Type 0} (k : KernelApi W) where
  top_half_requested : OsIrq → ℕ × W → (OsalResult × Option OsIrq) × W
  top_half_requested irq (failed, w) =
      if failed == 0 then ((success, some irq), w) else ((error, none), k.kfree w)

  top_half_allocated :
      (irqnum irqhandler data_ptr : ℕ) → Option OsIrq × W → (OsalResult × Option OsIrq) × W
  unfolding top_half_requested
  top_half_allocated irqnum irqhandler data_ptr (none, w) = ((error, none), w)
  top_half_allocated irqnum irqhandler data_ptr (some m, w) =
      let irq = record m { irqnum = irqnum; interrupt_handler = irqhandler; data_ptr = data_ptr } in
      top_half_requested irq (k.request_irq irq w)

  -- `irqhandle` says whether that pointer is not NULL. What is stored there is the second result.
  unfoldable pub os_register_top_half :
      (irqnum : ℕ) (irqhandle : Bool) (irqhandler data_ptr : ℕ) (name : Option (List ℕ))
      → W
      → (OsalResult × Option OsIrq) × W
  unfolding top_half_allocated
  os_register_top_half irqnum false irqhandler data_ptr name w = ((invalid_param, none), w)
  os_register_top_half irqnum true irqhandler data_ptr none w = ((invalid_param, none), w)
  os_register_top_half irqnum true irqhandler data_ptr (some name) w =
      if irqhandler == 0
      then ((invalid_param, none), w)
      else top_half_allocated irqnum irqhandler data_ptr (k.kmalloc_irq w)

  unfoldable pub os_unregister_top_half : OsIrq → W → OsalResult × W
  os_unregister_top_half irq w = (success, k.kfree (k.free_irq irq w))

  int_registered : LinuxInt → (OsalResult × Option OsIrq) × W → Option LinuxInt × W
  int_registered int ((success, some irq), w) = (some (record int { irqhandle = irq }), w)
  int_registered int ((r, irq), w) = (none, k.kfree (k.kthread_stop w))

  -- `self` is the address of the new `linux_int_t`, and `deferred` that of linux_interrupt_handler.
  int_started : (self deferred : ℕ) → LinuxInt → Option (List ℕ) → Bool × W → Option LinuxInt × W
  unfolding int_registered
  int_started self deferred int driver_name (false, w) = (none, k.kfree w)
  int_started self deferred int driver_name (true, w) =
      int_registered int (os_register_top_half int.irq true deferred self driver_name w)

  int_allocated :
      (self deferred irq device_key : ℕ)
      → Option (List ℕ)
      → (handler data_ptr : ℕ) → Bool × W
      → Option LinuxInt × W
  unfolding int_started kthread_name
  int_allocated self deferred irq device_key driver_name handler data_ptr (false, w) = (none, w)
  int_allocated self deferred irq device_key driver_name handler data_ptr (true, w) =
      int_started self deferred (new_int irq device_key handler data_ptr) driver_name
        (k.kthread_run (kthread_name driver_name irq) w)

  pub os_acquire_interrupt :
      (self deferred irq device_key : ℕ)
      → Option (List ℕ)
      → (handler data_ptr : ℕ) → W
      → Option LinuxInt × W
  unfolding int_allocated
  os_acquire_interrupt self deferred irq device_key driver_name handler data_ptr w =
      int_allocated self deferred irq device_key driver_name handler data_ptr (k.kmalloc_int w)

  pub os_release_interrupt : Option LinuxInt → W → W
  unfolding os_unregister_top_half
  os_release_interrupt none w = w
  os_release_interrupt (some int) w =
      k.kfree (k.kthread_stop (os_unregister_top_half int.irqhandle w).1)

  shared_requested : OsIrq → ℕ × W → Option OsIrq × W
  shared_requested irq (failed, w) = if failed == 0 then (some irq, w) else (none, k.kfree w)

  shared_allocated : (irqnum top bottom data_ptr : ℕ) → Option OsIrq × W → Option OsIrq × W
  unfolding shared_requested
  shared_allocated irqnum top bottom data_ptr (none, w) = (none, w)
  shared_allocated irqnum top bottom data_ptr (some m, w) =
      let irq : OsIrq = record {
        irqnum = irqnum;
        irq_handler = top;
        interrupt_handler = bottom;
        data_ptr = data_ptr;
        init = false;
      } in
      shared_requested irq (k.request_threaded_irq irq w)

  -- The bottom handler is not tested for NULL, and data must not be NULL.
  pub os_acquire_shared_interrupt :
      (irqnum top : ℕ) (driver_name : Option (List ℕ)) (bottom data_ptr : ℕ) → W → Option OsIrq × W
  unfolding shared_allocated
  os_acquire_shared_interrupt irqnum top driver_name bottom data_ptr w =
      if (top == 0) || ((if is_some driver_name then false else true) || (data_ptr == 0))
      then (none, w)
      else shared_allocated irqnum top bottom data_ptr (k.kmalloc_irq w)

  pub os_release_shared_interrupt : Option OsIrq → W → W
  os_release_shared_interrupt none w = w
  os_release_shared_interrupt (some irq) w = k.kfree (k.free_irq irq w)
