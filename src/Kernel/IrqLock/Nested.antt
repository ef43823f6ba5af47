-- ===== src/Kernel/IrqLock/Nested.antt =====
-- Sections that hold interrupt locks, in the kernel and in user space.
use osal.Base.{Bool-cases, ℕ, ◌≡◌, refl, ap, inl, inr, Bool, true, false, Option, none, some, ◌==◌}
use osal.Types.{OsalResult}
use mathlib.Core.Path.{fun_ext}
use osal.Locks.Sections.{
  update, IrqLockOps, IsIrqLock, Section, Fits, run, Restores, section-Restores,
}
use osal.User.Lock.{PthreadApi}
use osal.User.Lock.Exclusive.{IsMutex}
use osal.User.IrqLock as User
use osal.Kernel.IrqLock.{SpinApi, acquired, os_irqlock_acquire, os_irqlock_release}

-- What the kernel documents of its spin locks on one processor: `enabled` says whether interrupts come,
-- `flags` what the caller's flags say of it, and `held` which locks are held. A lock that is held is not
-- taken again.
pub record IsSpin {S W : Type 0} (k : SpinApi S W) (enabled : W → Bool) (flags : S → Bool)
    (held : W → ℕ → Bool) : Type 0 where
  pub irqsave :
      (l : ℕ) (w : W)
      → held w l ≡ false
      → (s : S) × (w' : W) × (k.spin_lock_irqsave l w ≡ some (s, w'))
        × (flags s ≡ enabled w)
        × (enabled w' ≡ false)
        × (held w' ≡ update (held w) l true)
  pub irqrestore :
      (l : ℕ) (s : S) (w : W)
      → held w l ≡ true
      → (enabled (k.spin_unlock_irqrestore l s w) ≡ flags s)
        × (held (k.spin_unlock_irqrestore l s w) ≡ update (held w) l false)

abbrev without_result : {S W : Type 0} → Option (OsalResult × S × W) → Option (S × W)
without_result none = none
without_result (some (r, s, w)) = some (s, w)

abbrev pub kernel_ops : {S W : Type 0} → SpinApi S W → IrqLockOps S W
kernel_ops k = record {
  acquire = λ l w. without_result (os_irqlock_acquire k l w);
  release = λ l s w. (os_irqlock_release k l s w).1;
}

-- The mutexes by their numbers; the local variable is not used.
abbrev set_mutex :
    {M : Type 0} → (ℕ → M) → ℕ → Option (OsalResult × M) → Option (Unit {0} × (ℕ → M))
set_mutex ms l none = none
set_mutex ms l (some (r, m)) = some (tt, update ms l m)

abbrev pub user_ops : {M : Type 0} → PthreadApi M → IrqLockOps (Unit {0}) (ℕ → M)
user_ops p = record {
  acquire = λ l ms. set_mutex ms l (User.os_irqlock_acquire p (ms l));
  release = λ l s ms. update ms l (User.os_irqlock_release p (ms l)).1;
}

module _ {S W : Type 0} (k : SpinApi S W) (enabled : W → Bool) (flags : S → Bool)
    (held : W → ℕ → Bool) (law : IsSpin k enabled flags held) where
  kernel-IsIrqLock : IsIrqLock (kernel_ops k) enabled false flags held
  unfolding os_irqlock_acquire os_irqlock_release acquired
  kernel-IsIrqLock = record {
    acquire = λ l w free.
        let (s, w', a, kept, off, h) = law.irqsave l w free in
        (s, w', ap (λ o. without_result (acquired k o)) a, kept, off, h);
    release = λ l s w h. law.irqrestore l s w h;
  }

map-update :
    {M : Type 0} (f : M → Bool) (ms : ℕ → M) (l : ℕ) (m : M) (b : Bool)
    → f m ≡ b
    → (λ a. f (update ms l m a)) ≡ update (λ a. f (ms a)) l b
map-update f ms l m b e =
    fun_ext (λ a. elim (Bool-cases (a == l)) [ inl same ↦ rw same e | inr other ↦ rw other refl ])

module _ {M : Type 0} (p : PthreadApi M) (locked : M → Bool) (law : IsMutex p locked) where
  user-IsIrqLock : IsIrqLock (user_ops p) (λ ms. tt) tt (λ s. tt) (λ ms l. locked (ms l))
  unfolding User.os_irqlock_acquire User.os_irqlock_release User.acquired
  user-IsIrqLock = record {
    acquire = λ l ms free.
        let (m, a, h) = law.lock_false (ms l) free in
        (
          tt,
          update ms l m,
          ap (λ o. set_mutex ms l (User.acquired p o)) a,
          refl,
          refl,
          map-update locked ms l m true h,
        );
    release = λ l s ms h.
        (refl, map-update locked ms l (p.unlock (ms l)).1 false (law.unlock (ms l) h).1);
  }

-- In both implementations a section that holds an interrupt lock, with any sections nested in it none
-- of which takes a lock that is held, comes to its end and leaves the locks as they were. In the
-- kernel, interrupts are off behind every acquisition and before every release, also behind the
-- release of an inner lock, and at the end they are as they were before.
pub section-Restored :
    {S W M : Type 0} (k : SpinApi S W) (enabled : W → Bool) (flags : S → Bool) (held : W → ℕ → Bool)
    (law : IsSpin k enabled flags held) (p : PthreadApi M) (locked : M → Bool)
    (mutex_law : IsMutex p locked) (s : Section) (w : W) (ms : ℕ → M)
    → Fits (held w) s
    → Fits (λ l. locked (ms l)) s
    → Restores enabled false held w (run (kernel_ops k) enabled s w)
      × Restores (λ x. tt) tt (λ x l. locked (x l)) ms (run (user_ops p) (λ x. tt) s ms)
section-Restored k enabled flags held law p locked mutex_law s w ms f g = (
  section-Restores (kernel_ops k) enabled false flags held
      (kernel-IsIrqLock k enabled flags held law) s w f,
  section-Restores (user_ops p) (λ x. tt) tt (λ x. tt) (λ x l. locked (x l))
      (user-IsIrqLock p locked mutex_law) s ms g,
)
