-- ===== src/User/Irq.antt =====
-- linux_user/src/osal_irq.c: interrupts through the file /proc/irqproxy and a thread that reads it.
pub mod Release
pub mod Reader
mod Tests
use osal.Base.{
  ℕ, ◌-◌, ◌%◌, Bool, true, false, ◌||◌, Option, none, some, List, ◌==◌, ltb, if◌then◌else◌, ℤ, pos,
  negsuc, is_some, not,
}
use osal.Types.{OsalResult, success, error, invalid_param}

-- `os_irquser_t` but for the thread; the pointers are addresses.
pub record IrqUser : Type 0 where
  pub irqnum : ℕ
  pub fd : ℕ
  pub irqfunc : ℕ
  pub data_ptr : ℕ

-- The calls of the C library on the state `W` of the outside world. A Boolean says whether a call
-- succeeds; `write` is called with the one byte that it writes.
pub record IrqApi (W : Type 0) : Type 0 where
  pub malloc : W → Bool × W
  pub free : W → W
  pub open_proxy : W → Option ℕ × W
  pub mlockall : W → W
  pub write : (fd byte : ℕ) → W → Bool × W
  pub close : ℕ → W → W
  pub attr_init : W → Bool × W
  pub attr_setinheritsched : W → Bool × W
  pub attr_setschedpolicy : W → Bool × W
  pub attr_setschedparam : W → Bool × W
  pub attr_destroy : W → W
  pub thread_create : W → Bool × W
  pub thread_join : W → W

-- `irqnum > 255`, and the `unsigned char` of an `int`.
unfoldable pub too_large : ℤ → Bool
too_large (pos n) = ltb 255 n
too_large (negsuc n) = false

unfoldable pub low_byte : ℤ → ℕ
low_byte (pos n) = n % 256
low_byte (negsuc n) = 255 - n % 256

module _ {W : Type 0} (os : IrqApi W) where
  -- Each of the four is what comes after the call it is named for.
  thread_created : Bool × W → OsalResult × W
  thread_created (false, w) = (error, os.attr_destroy w)
  thread_created (true, w) = (success, os.attr_destroy w)

  schedparam_set : Bool × W → OsalResult × W
  unfolding thread_created
  schedparam_set (false, w) = (error, os.attr_destroy w)
  schedparam_set (true, w) = thread_created (os.thread_create w)

  schedpolicy_set : Bool × W → OsalResult × W
  unfolding schedparam_set
  schedpolicy_set (false, w) = (error, os.attr_destroy w)
  schedpolicy_set (true, w) = schedparam_set (os.attr_setschedparam w)

  inheritsched_set : Bool × W → OsalResult × W
  unfolding schedpolicy_set
  inheritsched_set (false, w) = (error, os.attr_destroy w)
  inheritsched_set (true, w) = schedpolicy_set (os.attr_setschedpolicy w)

  attr_made : Bool × W → OsalResult × W
  unfolding inheritsched_set
  attr_made (false, w) = (error, w)
  attr_made (true, w) = inheritsched_set (os.attr_setinheritsched w)

  pub os_start_irq_thread : W → OsalResult × W
  unfolding attr_made
  os_start_irq_thread w = attr_made (os.attr_init w)

  proxy_started : IrqUser → OsalResult × W → (OsalResult × Option IrqUser) × W
  proxy_started irq (success, w) = ((success, some irq), w)
  proxy_started irq (r, w) = ((error, none), os.free (os.close irq.fd w))

  proxy_bound : IrqUser → Bool × W → (OsalResult × Option IrqUser) × W
  unfolding proxy_started os_start_irq_thread
  proxy_bound irq (false, w) = ((error, none), os.free (os.close irq.fd w))
  proxy_bound irq (true, w) = proxy_started irq (os_start_irq_thread w)

  proxy_opened : (byte irqhandler data_ptr : ℕ) → Option ℕ × W → (OsalResult × Option IrqUser) × W
  unfolding proxy_bound
  proxy_opened byte irqhandler data_ptr (none, w) = ((error, none), os.free w)
  proxy_opened byte irqhandler data_ptr (some fd, w) =
      proxy_bound (record { irqnum = byte; fd = fd; irqfunc = irqhandler; data_ptr = data_ptr })
        (os.write fd byte (os.mlockall w))

  user_allocated : (byte irqhandler data_ptr : ℕ) → Bool × W → (OsalResult × Option IrqUser) × W
  unfolding proxy_opened
  user_allocated byte irqhandler data_ptr (false, w) = ((error, none), w)
  user_allocated byte irqhandler data_ptr (true, w) =
      proxy_opened byte irqhandler data_ptr (os.open_proxy w)

  -- `irqhandle` and `name` say whether the pointers are not NULL; what is stored through the first is
  -- the second result.
  unfoldable pub os_register_top_half :
      ℤ
      → (irqhandle : Bool) → (irqhandler data_ptr : ℕ) → (name : Bool) → W
      → (OsalResult × Option IrqUser) × W
  unfolding user_allocated too_large low_byte
  os_register_top_half irqnum irqhandle irqhandler data_ptr name w =
      if not irqhandle || (irqhandler == 0) || not name || too_large irqnum
      then ((invalid_param, none), w)
      else user_allocated (low_byte irqnum) irqhandler data_ptr (os.malloc w)

  -- What the pointer holds afterwards is the second result.
  unfoldable pub os_unregister_top_half :
      (irqhandle : Bool) → Option IrqUser → W → (OsalResult × Option IrqUser) × W
  os_unregister_top_half false irq w = ((error, irq), w)
  os_unregister_top_half true none w = ((error, none), w)
  os_unregister_top_half true (some irq) w =
      ((success, none), os.free (os.thread_join (os.close irq.fd w)))

  -- The handle that is returned: NULL unless the registration succeeded.
  abbrev pub handle_of : (OsalResult × Option IrqUser) × W → Option IrqUser × W
  handle_of ((success, irq), w) = (irq, w)
  handle_of ((r, irq), w) = (none, w)

  unfoldable pub os_acquire_interrupt :
      ℤ → (devicekey : ℕ) → (driver_name : Bool) → (handler data_ptr : ℕ) → W → Option IrqUser × W
  unfolding os_register_top_half
  os_acquire_interrupt irq devicekey driver_name handler data_ptr w =
      handle_of (os_register_top_half irq true handler data_ptr driver_name w)

  unfoldable pub os_release_interrupt : Option IrqUser → W → W
  unfolding os_unregister_top_half
  os_release_interrupt irq w = (os_unregister_top_half true irq w).1

  -- The top handler is not used.
  unfoldable pub os_acquire_shared_interrupt :
      ℤ → (top : ℕ) → (driver_name : Bool) → (bottom data_ptr : ℕ) → W → Option IrqUser × W
  unfolding os_register_top_half
  os_acquire_shared_interrupt irq top driver_name bottom data_ptr w =
      handle_of (os_register_top_half irq true bottom data_ptr driver_name w)

  unfoldable pub os_release_shared_interrupt : Option IrqUser → W → W
  unfolding os_unregister_top_half
  os_release_shared_interrupt irq w = (os_unregister_top_half true irq w).1
