-- ===== src/Kernel/Module/Tests.antt =====
-- A kernel that makes the entry, and registers the device or does not.
use osal.Base.{ℕ, ◌+◌, ◌-◌, ◌≡◌, refl, Bool, true, false, none, arith, to_nat}
use osal.Kernel.Firmware.{FirmwareApi}
use osal.Kernel.Module.{ProcApi, osal_init_module, osal_cleanup_module}
use osal.Kernel.Module.Unload.{Counts, Unloaded, load-unload}

-- What is counted, whether there is the entry, and whether the device is registered.
abbrev State : Type 0
State = ℕ × Bool × Bool

abbrev proc : ProcApi State
proc = record {
  create_proc_entry = λ w. (true, (w.0 + 1, true, w.2));
  remove_proc_entry = λ w. (w.0 - 1, false, w.2);
}

abbrev firmware : (registered : Bool) → FirmwareApi State
firmware registered = record {
  request_firmware = λ path w. (none, w);
  release_firmware = λ e w. w;
  device_register = λ w. (registered, (w.0 + to_nat registered, w.1, registered));
  device_unregister = λ w. (w.0 - to_nat w.2, w.1, false);
}

proc-Counts : (b : Bool) → Counts proc (firmware b) 1 1 (λ w. w.1) (λ w. w.2) (λ w. w.0)
proc-Counts b = record {
  create = λ w. (refl, refl);
  remove = λ w h. refl;
  register = λ w. (omega arith, refl, refl);
  unregister = λ w h. (rw h refl, refl);
}

load-unload_example :
    let loaded = osal_init_module proc (firmware true) (5, false, false) in
    (loaded.0 ≡ 0)
    × ((osal_cleanup_module proc (firmware true) loaded.1 loaded.2).0 ≡ false)
    × Unloaded proc
        (firmware true)
        1
        1
        (λ w. w.1)
        (λ w. w.2)
        (λ w. w.0)
        (proc-Counts true)
        (5, false, false)
load-unload_example =
    load-unload proc (firmware true) 1 1 (λ w. w.1) (λ w. w.2) (λ w. w.0) (proc-Counts true)
      (5, false, false)

-- The device is still registered neither before nor after a module that could not register it.
unregistered :
    let loaded = osal_init_module proc (firmware false) (5, false, false) in
    osal_cleanup_module proc (firmware false) loaded.1 loaded.2 ≡ (false, (5, false, false))
unfolding osal_init_module osal_cleanup_module
unregistered = refl
