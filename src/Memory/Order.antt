-- ===== src/Memory/Order.antt =====
-- Comparing memory is the lexicographic order of its bytes.
use osal.Base.{
  ℕ, zero, suc, ◌+◌, ◌-◌, ◌≤◌, ◌<◌, ◌≡◌, ◌≢◌, ◌⊎◌, inl, inr, refl, sym, ap, ◌∙◌, arith, ℤ, pos,
  negsuc, ◌==◌, leb, ==_iff, Bool-cases,
}
use osal.Memory.{os_memcmp, byte_difference}

-- The first n bytes at two addresses agree.
abbrev pub Same : (memory : ℕ → ℕ) (a b n : ℕ) → Type 0
Same memory a b n = (i : ℕ) → i < n → memory (a + i) ≡ memory (b + i)

-- The bytes at `a` come before those at `b`: they agree up to some byte below n, which is smaller.
abbrev pub Before : (memory : ℕ → ℕ) (a b n : ℕ) → Type 0
Before memory a b n = (k : ℕ) × (k < n) × Same memory a b k × (memory (a + k) < memory (b + k))

-- A negative number of at least -255, 0, and a positive number of at most 255.
abbrev pub IsNegative : ℤ → Type 0
IsNegative r = (n : ℕ) × (n < 255) × (r ≡ negsuc n)

abbrev pub IsPositive : ℤ → Type 0
IsPositive r = (n : ℕ) × (0 < n) × (n ≤ 255) × (r ≡ pos n)

abbrev pub Compared : (memory : ℕ → ℕ) (a b n : ℕ) → ℤ → Type 0
Compared memory a b n r =
    ((r ≡ pos 0) × Same memory a b n)
    ⊎ (IsNegative r × Before memory a b n)
    ⊎ (IsPositive r × Before memory b a n)

module _ (memory : ℕ → ℕ) where
  at_zero : (a : ℕ) → memory (a + 0) ≡ memory a
  at_zero a = ap memory (omega arith)

  at_suc : (a i : ℕ) → memory (a + suc i) ≡ memory (a + 1 + i)
  at_suc a i = ap memory (omega arith)

  Same-suc :
      (a b n : ℕ) → memory a ≡ memory b → Same memory (a + 1) (b + 1) n → Same memory a b (suc n)
  Same-suc a b n e s zero h = at_zero a ∙ e ∙ sym (at_zero b)
  Same-suc a b n e s (suc i) h = at_suc a i ∙ s i (omega arith) ∙ sym (at_suc b i)

  Before-suc :
      (a b n : ℕ)
      → memory a ≡ memory b
      → Before memory (a + 1) (b + 1) n
      → Before memory a b (suc n)
  Before-suc a b n e (k, h, s, lt) =
      (suc k, omega arith, Same-suc a b k e s, omega (arith, at_suc a k, at_suc b k))

  Before-first : (a b n : ℕ) → memory a < memory b → Before memory a b (suc n)
  Before-first a b n lt =
      (0, omega arith, λ i h. absurd (omega arith), omega (arith, at_zero a, at_zero b))

  Compared-suc :
      (a b n : ℕ) (r : ℤ)
      → memory a ≡ memory b
      → Compared memory (a + 1) (b + 1) n r
      → Compared memory a b (suc n) r
  Compared-suc a b n r e (inl (z, s)) = inl (z, Same-suc a b n e s)
  Compared-suc a b n r e (inr (inl (z, s))) = inr (inl (z, Before-suc a b n e s))
  Compared-suc a b n r e (inr (inr (z, s))) = inr (inr (z, Before-suc b a n (sym e) s))

  Compared-first :
      (a b n : ℕ)
      → memory a < 256
      → memory b < 256
      → memory a ≢ memory b
      → Compared memory a b (suc n) (byte_difference (memory a) (memory b))
  unfolding byte_difference
  Compared-first a b n ha hb d = elim (Bool-cases (leb (memory b) (memory a))) [
    | inl e ↦ inr (
        inr (
          (memory a - memory b, ground arith, ground arith, ground arith),
          Before-first b a n (ground arith),
        ))
    | inr e ↦ inr (
        inl (
          (memory b - memory a - 1, ground arith, ground arith),
          Before-first a b n (ground arith),
        ))
  ]

  -- In a memory of bytes, the comparison of n bytes at two addresses gives 0 where they all agree, a
  -- number from -255 to -1 where the bytes at the first address come before those at the second in the
  -- order of dictionaries, and one from 1 to 255 where they come behind; one of the three is the case.
  pub memcmp-Compared :
      (bytes : (x : ℕ) → memory x < 256) (a b n : ℕ)
      → Compared memory a b n (os_memcmp memory a b n)
  unfolding os_memcmp
  memcmp-Compared bytes a b zero = inl (refl, λ i h. absurd (omega arith))
  memcmp-Compared bytes a b (suc n) = elim (Bool-cases (memory a == memory b)) [
    | inl e ↦ rw e (
        Compared-suc a b n _ ((==_iff (memory a) (memory b)).0 e)
          (memcmp-Compared bytes (a + 1) (b + 1) n))
    | inr e ↦ rw e (Compared-first a b n (bytes a) (bytes b) (λ h. ground arith))
  ]
