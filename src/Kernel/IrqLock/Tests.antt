-- ===== src/Kernel/IrqLock/Tests.antt =====
-- A processor with its interrupt flag and its locks, and two locks inside another.
use osal.Base.{ℕ, refl, ap, Bool, true, false, Option, none, some}
use osal.Locks.Sections.{update, Section, section, done, then_also, Fits, run, Restores}
use osal.User.Lock.{PthreadApi}
use osal.User.Lock.Exclusive.{IsMutex}
use osal.Kernel.IrqLock.{SpinApi}
use osal.Kernel.IrqLock.Nested.{IsSpin, kernel_ops, user_ops, section-Restored}

abbrev Cpu : Type 0
Cpu = Bool × (ℕ → Bool)

abbrev save : Bool → ℕ → Cpu → Option (Bool × Cpu)
save true l w = none
save false l w = some (w.0, (false, update w.1 l true))

abbrev cpu : SpinApi Bool Cpu
cpu = record {
  spin_lock_init = λ l w. (w.0, update w.1 l false);
  spin_lock_irqsave = λ l w. save (w.1 l) l w;
  spin_unlock_irqrestore = λ l s w. (s, update w.1 l false);
}

cpu-IsSpin : IsSpin cpu (λ w. w.0) (λ s. s) (λ w. w.1)
cpu-IsSpin = record {
  irqsave =
      λ l w free. (w.0, (false, update w.1 l true), ap (λ b. save b l w) free, refl, refl, refl);
  irqrestore = λ l s w h. (refl, refl);
}

abbrev take : Bool → Option (ℕ × Bool)
take true = none
take false = some (0, true)

abbrev try_take : Bool → ℕ × Bool
try_take true = (16, true)
try_take false = (0, true)

abbrev pthread : PthreadApi Bool
pthread = record {
  init = (0, false);
  lock = take;
  trylock = try_take;
  unlock = λ m. (0, false);
  destroy = λ m. (0, m);
}

pthread-IsMutex : IsMutex pthread (λ m. m)
pthread-IsMutex = record {
  init = λ e. refl;
  lock_false = λ m e. (true, ap take e, refl);
  lock_true = λ m e. ap take e;
  trylock_false = λ m e. (ap (λ b. (try_take b).0) e, ap (λ b. (try_take b).1) e);
  trylock_true = λ m e. (ap (λ b. (try_take b).0) e, ap (λ b. (try_take b).1) e);
  unlock = λ m e. (refl, refl);
}

abbrev nested : Section
nested = section 1 (then_also (section 2 done) (then_also (section 3 done) done))

abbrev none_held : ℕ → Bool
none_held l = false

nested-Fits : Fits none_held nested
nested-Fits = (refl, ((refl, tt), ((refl, tt), tt)))

section-Restored_example :
    Restores
      (λ w. w.0)
      false
      (λ w. w.1)
      (true, none_held)
      (run (kernel_ops cpu) (λ w. w.0) nested (true, none_held))
    × Restores
        (λ x. tt)
        tt
        (λ x l. x l)
        none_held
        (run (user_ops pthread) (λ x. tt) nested none_held)
section-Restored_example =
    section-Restored cpu (λ w. w.0) (λ s. s) (λ w. w.1) cpu-IsSpin pthread (λ m. m) pthread-IsMutex
      nested (true, none_held) none_held nested-Fits nested-Fits
