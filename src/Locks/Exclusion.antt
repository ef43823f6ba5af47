-- ===== src/Locks/Exclusion.antt =====
-- Threads that share a lock: at most one has it.
use osal.Base.{
  ℕ, ◌≤◌, ◌≡◌, refl, sym, ap, ◌∙◌, ◌↔◌, ◌⊎◌, inl, inr, true, false, none, some, List, [], ◌∷◌,
  arith, length,
}
use mathlib.Core.Path.{subst}
use mathlib.Core.Option.{some-injective}
use osal.Base.Lists.{has, remove}
use osal.Locks.{LockOps, IsLock}

-- A lock and the threads that have it.
pub record State (L : Type 0) : Type 0 where
  pub lock : L
  pub owners : List ℕ

module _ {L : Type 0} (ops : LockOps L) where
  -- The step of one thread: it takes the lock, its try succeeds or fails, or it gives a lock that it
  -- has back.
  pub data Step : State L → State L → Type 0 where
    locked :
        (t : ℕ) {s : State L} (l : L)
        → ops.lock s.lock ≡ some l
        → Step s (record { lock = l; owners = t ∷ s.owners })
    tried :
        (t : ℕ) {s : State L}
        → (ops.try_lock s.lock).0 ≡ true
        → Step s (record { lock = (ops.try_lock s.lock).1; owners = t ∷ s.owners })
    refused :
        {s : State L}
        → (ops.try_lock s.lock).0 ≡ false
        → Step s (record { lock = (ops.try_lock s.lock).1; owners = s.owners })
    unlocked :
        (t : ℕ) {s : State L}
        → has t s.owners ≡ true
        → Step s (record { lock = ops.unlock s.lock; owners = remove t s.owners })

  -- What is reached from a lock that no thread has.
  pub data Reach (l : L) : State L → Type 0 where
    start : Reach l (record { lock = l; owners = [] })
    more : {s t : State L} → Reach l s → Step s t → Reach l t

-- No thread has a free lock, and one thread has a held lock.
abbrev Inv : {L : Type 0} (IsFree IsHeld : L → Type 0) → State L → Type 0
Inv IsFree IsHeld s =
    ((s.owners ≡ []) × IsFree s.lock) ⊎ ((t : ℕ) × (s.owners ≡ t ∷ []) × IsHeld s.lock)

-- At most one thread has the lock; and a try succeeds just when none has it, as does a thread that
-- does not want to sleep.
abbrev pub Exclusive : {L : Type 0} → LockOps L → State L → Type 0
Exclusive ops s =
    (length s.owners ≤ 1)
    × ((ops.try_lock s.lock).0 ≡ true ↔ s.owners ≡ [])
    × (ops.lock s.lock ≡ none ↔ length s.owners ≡ 1)

single : (t u : ℕ) → has t (u ∷ []) ≡ true → remove t (u ∷ []) ≡ []
single t u e = ground arith

remove_single :
    (t u : ℕ) (owners : List ℕ) → owners ≡ u ∷ [] → has t owners ≡ true → remove t owners ≡ []
remove_single t u owners o e = rw o (single t u (subst (λ os. has t os ≡ true) o e))

module _ {L : Type 0} (ops : LockOps L) (IsFree IsHeld : L → Type 0)
    (law : IsLock ops IsFree IsHeld) where
  step-Inv : {s t : State L} → Step ops s t → Inv IsFree IsHeld s → Inv IsFree IsHeld t
  step-Inv {s} (locked t l e) (inl (o, f)) =
      let taken = law.lock_free s.lock f in
      inr (t, ap (λ os. t ∷ os) o, subst IsHeld (some-injective _ _ (sym taken.1 ∙ e)) taken.2)
  step-Inv {s} (locked t l e) (inr (u, o, h)) = cc (law.lock_held s.lock h, e)
  step-Inv {s} (tried t e) (inl (o, f)) = inr (t, ap (λ os. t ∷ os) o, (law.try_free s.lock f).1)
  step-Inv {s} (tried t e) (inr (u, o, h)) = cc ((law.try_held s.lock h).0, e)
  step-Inv {s} (refused e) (inl (o, f)) = cc ((law.try_free s.lock f).0, e)
  step-Inv {s} (refused e) (inr (u, o, h)) = inr (u, o, (law.try_held s.lock h).1)
  step-Inv {s} (unlocked t e) (inl (o, f)) = cc (o, e)
  step-Inv {s} (unlocked t e) (inr (u, o, h)) =
      inl (remove_single t u s.owners o e, law.unlock s.lock h)

  Reach-Inv : {l : L} {s : State L} → IsFree l → Reach ops l s → Inv IsFree IsHeld s
  Reach-Inv f start = inl (refl, f)
  Reach-Inv f (more r step) = step-Inv step (Reach-Inv f r)

  Inv-Exclusive : (s : State L) → Inv IsFree IsHeld s → Exclusive ops s
  Inv-Exclusive s (inl (o, f)) =
      let taken = law.lock_free s.lock f in
      let tried = (law.try_free s.lock f).0 in
      (ground (arith, o), (λ _. o, λ _. tried), (λ e. cc (e, taken.1), λ e. ground (arith, o, e)))
  Inv-Exclusive s (inr (u, o, h)) =
      let asleep = law.lock_held s.lock h in
      let refused = (law.try_held s.lock h).0 in
      (ground (arith, o), (λ e. cc (e, refused), λ e. cc (o, e)), (λ _. ap length o, λ _. asleep))

  -- Whatever the threads do with a lock that is free at first.
  pub Reach-Exclusive : {l : L} {s : State L} → IsFree l → Reach ops l s → Exclusive ops s
  Reach-Exclusive {l} {s} f r = Inv-Exclusive s (Reach-Inv f r)
