-- ===== src/Kernel/Module.antt =====
-- The loading and unloading of the kernel's module: linux_kernel/src/osal_linux_driver.c, with the
-- creation of /proc/irqproxy of linux_kernel/src/osal_irq.c.
pub mod Unload
mod Tests
use osal.Base.{ℕ, Bool, true, false}
use osal.Types.{OsalResult, success, error}
use osal.Kernel.Firmware.{FirmwareApi, osal_firmware_init, osal_firmware_exit}

-- The kernel's calls for the entry "irqproxy" below /proc; the result says whether there is one.
pub record ProcApi (W : Type 0) : Type 0 where
  pub create_proc_entry : W → Bool × W
  pub remove_proc_entry : W → W

module _ {W : Type 0} (proc : ProcApi W) where
  -- The results are the answer, whether `procfile` is not NULL, and the kernel's state.
  unfoldable pub entry_created : Bool × W → OsalResult × Bool × W
  entry_created (false, w) = (error, false, w)
  entry_created (true, w) = (success, true, w)

  unfoldable pub osal_irqproxy_init : W → OsalResult × Bool × W
  unfolding entry_created
  osal_irqproxy_init w = entry_created (proc.create_proc_entry w)

  unfoldable pub osal_irqproxy_exit : (procfile : Bool) → W → OsalResult × Bool × W
  osal_irqproxy_exit false w = (success, false, w)
  osal_irqproxy_exit true w = (success, false, proc.remove_proc_entry w)

  -- What the initialisations answer is not looked at, and the module is loaded.
  unfoldable pub osal_init_module : FirmwareApi W → W → ℕ × Bool × W
  unfolding osal_irqproxy_init osal_firmware_init
  osal_init_module k w =
      let (r, procfile, w1) = osal_irqproxy_init w in (0, procfile, (osal_firmware_init k w1).1)

  unfoldable pub osal_cleanup_module : FirmwareApi W → (procfile : Bool) → W → Bool × W
  unfolding osal_irqproxy_exit osal_firmware_exit
  osal_cleanup_module k procfile w =
      let (r, still, w1) = osal_irqproxy_exit procfile (osal_firmware_exit k w).1 in (still, w1)
