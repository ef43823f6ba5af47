-- ===== src/Kernel/Module/Unload.antt =====
-- What the module leaves behind when it is unloaded.
use osal.Base.{◌⊎◌, inl, inr, ◌∙◌, ℕ, ◌+◌, ◌-◌, ◌*◌, ◌≡◌, refl, Bool, true, false, arith, to_nat}
use osal.Kernel.Firmware.{FirmwareApi}
use osal.Kernel.Module.{
  ProcApi, entry_created, osal_irqproxy_init, osal_irqproxy_exit, osal_init_module,
  osal_cleanup_module,
}

-- What the kernel documents: `held` counts an entry below /proc as `entry` and a registered device as
-- `device`, `listed` says whether there is the entry and `registered` whether the device is registered.
-- Nothing is said of removing an entry that does not exist, or of a device_unregister without a
-- device_register.
pub record Counts {W : Type 0} (proc : ProcApi W) (k : FirmwareApi W) (entry device : ℕ)
    (listed registered : W → Bool) (held : W → ℕ) : Type 0 where
  pub create :
      (w : W)
      → (held (proc.create_proc_entry w).1 ≡ held w + entry * to_nat (proc.create_proc_entry w).0)
        × (listed (proc.create_proc_entry w).1 ≡ (proc.create_proc_entry w).0)
  pub remove : (w : W) → listed w ≡ true → held (proc.remove_proc_entry w) ≡ held w - entry
  pub register :
      (w : W)
      → (held (k.device_register w).1 ≡ held w + device * to_nat (k.device_register w).0)
        × (registered (k.device_register w).1 ≡ (k.device_register w).0)
        × (listed (k.device_register w).1 ≡ listed w)
  pub unregister :
      (w : W)
      → registered w ≡ true
      → (held (k.device_unregister w) ≡ held w - device)
        × (listed (k.device_unregister w) ≡ listed w)

module _ {W : Type 0} (proc : ProcApi W) (k : FirmwareApi W) (entry device : ℕ)
    (listed registered : W → Bool) (held : W → ℕ)
    (law : Counts proc k entry device listed registered held) where
  -- Whether the device is registered when the module is loaded.
  abbrev pub registers : W → Bool
  registers w = (k.device_register (proc.create_proc_entry w).1).0

  -- The pointer and the state after the attempt to make the entry.
  entry_created_lem :
      (p : Bool × W) → ((entry_created proc p).1 ≡ p.0) × ((entry_created proc p).2 ≡ p.1)
  unfolding entry_created
  entry_created_lem (false, w) = (refl, refl)
  entry_created_lem (true, w) = (refl, refl)

  init-held :
      (w : W)
      → let r = osal_init_module proc k w in
        (held r.2 ≡ held w + entry * to_nat r.1 + device * to_nat (registers w))
        × (listed r.2 ≡ r.1)
        × (registered r.2 ≡ registers w)
  unfolding osal_init_module osal_irqproxy_init
  init-held w =
      let made = entry_created_lem (proc.create_proc_entry w) in
      let c = law.create w in
      let r = law.register (proc.create_proc_entry w).1 in
      rw (made.0, made.1) (omega (arith, c.0, r.0), r.2 ∙ c.1, r.1)

  cleanup-held :
      (procfile : Bool) (w : W)
      → listed w ≡ procfile
      → registered w ≡ true
      → (osal_cleanup_module proc k procfile w).0 ≡ false
        × (held (osal_cleanup_module proc k procfile w).1
            ≡ held w - device - entry * to_nat procfile)
  unfolding osal_cleanup_module osal_irqproxy_exit
  cleanup-held false w l r = (refl, omega (arith, (law.unregister w r).0))
  cleanup-held true w l r =
      let u = law.unregister w r in
      (refl, omega (arith, u.0, law.remove (k.device_unregister w) (u.1 ∙ l)))

  cleaned : (procfile : Bool) (w : W) → (osal_cleanup_module proc k procfile w).0 ≡ false
  unfolding osal_cleanup_module osal_irqproxy_exit
  cleaned false w = refl
  cleaned true w = refl

  -- The module is unloaded with the device registered and all counts come out as they were before the
  -- loading, or device_unregister is called in a state in which the device is not registered, the one
  -- that the loading led to.
  abbrev pub Unloaded : W → Type 0
  Unloaded w =
      let loaded = osal_init_module proc k w in
      let left = osal_cleanup_module proc k loaded.1 loaded.2 in
      ((registered loaded.2 ≡ true) × (held left.1 ≡ held w))
      ⊎ ((registered loaded.2 ≡ false)
          × (left.1 ≡ (osal_irqproxy_exit proc loaded.1 (k.device_unregister loaded.2)).2))

  unloaded : (w : W) (b : Bool) → registers w ≡ b → Unloaded w
  unfolding osal_cleanup_module
  unloaded w true e =
      let i = init-held w in
      let loaded = osal_init_module proc k w in
      let c = cleanup-held loaded.1 loaded.2 i.1 (i.2 ∙ e) in
      inl (i.2 ∙ e, grind (arith, c.1, i.0, e))
  unloaded w false e = inr ((init-held w).2 ∙ e, refl)

  -- Loading the module succeeds whatever fails in it, and unloading it forgets the entry below /proc.
  -- Where the device had been registered, all counts are then as they were before the loading, whether
  -- the entry had been made or not; where it had not, device_unregister is called for a device that is
  -- not registered.
  pub load-unload :
      (w : W)
      → let loaded = osal_init_module proc k w in
        (loaded.0 ≡ 0) × ((osal_cleanup_module proc k loaded.1 loaded.2).0 ≡ false) × Unloaded w
  unfolding osal_init_module
  load-unload w =
      let loaded = osal_init_module proc k w in
      (refl, cleaned loaded.1 loaded.2, unloaded w (registers w) refl)
