-- ===== src/Base/Lists.antt =====
-- Membership, distinctness and removal in lists of numbers.
use Prim.Native.Nat.{ℕ}
use mathlib.Core.Path.{◌≡◌, refl}
use mathlib.Core.Bool.{Bool, true, false, not, ◌&&◌, ◌||◌}
use mathlib.Core.List.{List, [], ◌∷◌, ◌++◌}
use native.Mathlib.Omega.{arith}
use osal.Base.Tests.{◌==◌, if◌then◌else◌}

abbrev pub has : ℕ → List ℕ → Bool
has a [] = false
has a (x ∷ xs) = (a == x) || has a xs

abbrev pub distinct : List ℕ → Bool
distinct [] = true
distinct (x ∷ xs) = not (has x xs) && distinct xs

abbrev pub remove : ℕ → List ℕ → List ℕ
remove a [] = []
remove a (x ∷ xs) = if x == a then xs else x ∷ remove a xs

pub has-append : (a : ℕ) (xs ys : List ℕ) → has a (xs ++ ys) ≡ (has a xs || has a ys)
has-append a [] ys = refl
has-append a (x ∷ xs) ys = ground (arith, has-append a xs ys)

pub has-remove : (b a : ℕ) (xs : List ℕ) → has b xs ≡ false → has b (remove a xs) ≡ false
has-remove b a [] h = refl
has-remove b a (x ∷ xs) h = ground (arith, has-remove b a xs)

pub distinct-remove : (a : ℕ) (xs : List ℕ) → distinct xs ≡ true → distinct (remove a xs) ≡ true
distinct-remove a [] h = refl
distinct-remove a (x ∷ xs) h = ground (arith, has-remove x a xs, distinct-remove a xs)

pub distinct-append :
    (xs : List ℕ) (n : ℕ) → distinct xs ≡ true → has n xs ≡ false → distinct (xs ++ n ∷ []) ≡ true
distinct-append [] n d h = refl
distinct-append (x ∷ xs) n d h = ground (arith, distinct-append xs n, has-append x xs (n ∷ []))
