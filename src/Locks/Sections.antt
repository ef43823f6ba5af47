-- ===== src/Locks/Sections.antt =====
-- include/osal_irqlock.h: locks that keep interrupts away, and sections of one context that nest.
use mathlib.Core.Path.{fun_ext, subst}
use osal.Base.{
  Bool-cases, ℕ, ◌≡◌, refl, sym, ap, ◌∙◌, inl, inr, Bool, true, false, Option, none, some, List, [],
  ◌∷◌, ◌++◌, arith, ◌==◌, if◌then◌else◌, ==_iff,
}

abbrev pub update {ℓ} : {A : Type ℓ} → (ℕ → A) → ℕ → A → ℕ → A
update f l v a = if a == l then v else f a

-- Acquiring a lock stores what is there of interrupts in the caller's local variable; it is none where
-- the caller waits.
pub record IrqLockOps (S W : Type 0) : Type 0 where
  pub acquire : (lock : ℕ) → W → Option (S × W)
  pub release : (lock : ℕ) → S → W → W

-- `context` is whether interrupts come, `inside` what it is while a lock is held, `saved` what a local
-- variable holds of it, and `held` which locks are held.
pub record IsIrqLock {S W X : Type 0} (ops : IrqLockOps S W) (context : W → X) (inside : X)
    (saved : S → X) (held : W → ℕ → Bool) : Type 0 where
  pub acquire :
      (l : ℕ) (w : W)
      → held w l ≡ false
      → (s : S) × (w' : W) × (ops.acquire l w ≡ some (s, w'))
        × (saved s ≡ context w)
        × (context w' ≡ inside)
        × (held w' ≡ update (held w) l true)
  pub release :
      (l : ℕ) (s : S) (w : W)
      → held w l ≡ true
      → (context (ops.release l s w) ≡ saved s)
        × (held (ops.release l s w) ≡ update (held w) l false)

-- A section of code holds a lock, with sections inside it one after the other.
mutual
  pub data Section : Type 0 where
    section : (lock : ℕ) → Sections → Section

  pub data Sections : Type 0 where
    done : Sections
    then_also : Section → Sections → Sections

-- No section takes a lock that is held already.
abbrev mutual
  pub Fits : (ℕ → Bool) → Section → Type 0
  Fits h (section l inner) = (h l ≡ false) × FitsAll (update h l true) inner

  pub FitsAll : (ℕ → Bool) → Sections → Type 0
  FitsAll h done = Unit {0}
  FitsAll h (then_also s ss) = Fits h s × FitsAll h ss

module _ {S W X : Type 0} (ops : IrqLockOps S W) (context : W → X) where
  -- What a section comes to, with what `context` is behind each acquisition in it and before each
  -- release.
  mutual
    pub run : Section → W → Option (List X × W)
    run (section l inner) w = elim (ops.acquire l w) [
      | none ↦ none
      | some (s, w1) ↦ elim (run_all inner w1) [
        | none ↦ none
        | some (seen, w2) ↦ some (context w1 ∷ (seen ++ (context w2 ∷ [])), ops.release l s w2)
      ]
    ]

    pub run_all : Sections → W → Option (List X × W)
    run_all done w = some ([], w)
    run_all (then_also s ss) w = elim (run s w) [
      | none ↦ none
      | some (seen, w1) ↦ elim (run_all ss w1) [
        | none ↦ none
        | some (more, w2) ↦ some (seen ++ more, w2)
      ]
    ]

abbrev pub All : {X : Type 0} → X → List X → Type 0
All inside [] = Unit {0}
All inside (x ∷ xs) = (x ≡ inside) × All inside xs

All-append :
    {X : Type 0} (inside : X) (xs ys : List X)
    → All inside xs
    → All inside ys
    → All inside (xs ++ ys)
All-append inside [] ys p q = q
All-append inside (x ∷ xs) ys (e, p) q = (e, All-append inside xs ys p q)

update_self : (h : ℕ → Bool) (l : ℕ) → update h l true l ≡ true
update_self h l = rw ((==_iff l l).1 refl)

update-update : (h : ℕ → Bool) (l : ℕ) → h l ≡ false → update (update h l true) l false ≡ h
update-update h l e = fun_ext (λ a. elim (Bool-cases (a == l)) [
  | inl same ↦ rw same (sym (ap h ((==_iff a l).0 same) ∙ e))
  | inr other ↦ rw other refl
])

module _ {S W X : Type 0} (ops : IrqLockOps S W) (context : W → X) where
  run-section :
      (l : ℕ) (inner : Sections) (w : W) {s : S} {w1 w2 : W} {seen : List X}
      → ops.acquire l w ≡ some (s, w1)
      → run_all ops context inner w1 ≡ some (seen, w2)
      → run ops context (section l inner) w
        ≡ some (context w1 ∷ (seen ++ (context w2 ∷ [])), ops.release l s w2)
  unfolding run
  run-section l inner w a e = ground arith

  run_all-then :
      (s : Section) (ss : Sections) (w : W) {w1 w2 : W} {seen more : List X}
      → run ops context s w ≡ some (seen, w1)
      → run_all ops context ss w1 ≡ some (more, w2)
      → run_all ops context (then_also s ss) w ≡ some (seen ++ more, w2)
  unfolding run_all
  run_all-then s ss w a e = ground arith

-- It ends, with the context and the locks as they were, and inside everywhere in between.
abbrev pub Restores :
    {W X : Type 0} (context : W → X) (inside : X) (held : W → ℕ → Bool)
    → W
    → Option (List X × W)
    → Type 0
Restores {W} {X} context inside held w r =
    (seen : List X) × (w' : W) × (r ≡ some (seen, w'))
    × (context w' ≡ context w)
    × (held w' ≡ held w)
    × All inside seen

module _ {S W X : Type 0} (ops : IrqLockOps S W) (context : W → X) (inside : X) (saved : S → X)
    (held : W → ℕ → Bool) (law : IsIrqLock ops context inside saved held) where
  mutual
    unfolding run run_all

    pub section-Restores :
        (s : Section) (w : W)
        → Fits (held w) s
        → Restores context inside held w (run ops context s w)
    section-Restores (section l inner) w (free, fits) =
        let (s, w1, a, kept, in1, h1) = law.acquire l w free in
        let (seen, w2, e, in2, h2, all) =
          all-Restores inner w1 (subst (λ h. FitsAll h inner) (sym h1) fits) in
        let r = law.release l s w2 (ap (λ h. h l) (h2 ∙ h1) ∙ update_self (held w) l) in
        (
          context w1 ∷ (seen ++ context w2 ∷ []),
          ops.release l s w2,
          run-section ops context l inner w a e,
          r.0 ∙ kept,
          r.1 ∙ (ap (λ h. update h l false) (h2 ∙ h1) ∙ update-update (held w) l free),
          (in1, All-append inside seen (context w2 ∷ []) all (in2 ∙ in1, tt)),
        )

    pub all-Restores :
        (ss : Sections) (w : W)
        → FitsAll (held w) ss
        → Restores context inside held w (run_all ops context ss w)
    all-Restores done w fits = ([], w, refl, refl, refl, tt)
    all-Restores (then_also s ss) w (fits, more) =
        let (seen, w1, e, c1, h1, all) = section-Restores s w fits in
        let (rest, w2, e', c2, h2, all') =
          all-Restores ss w1 (subst (λ h. FitsAll h ss) (sym h1) more) in
        (
          seen ++ rest,
          w2,
          run_all-then ops context s ss w e e',
          c2 ∙ c1,
          h2 ∙ h1,
          All-append inside seen rest all all',
        )
