-- ===== src/Base/Slices.antt =====
-- Parts of a list by position.
use Prim.Native.Nat.{ℕ, zero, suc}
use mathlib.Core.List.{List, [], ◌∷◌}

module _ {ℓ} {A : Type ℓ} where
  abbrev pub take : ℕ → List A → List A
  take zero xs = []
  take (suc n) [] = []
  take (suc n) (x ∷ xs) = x ∷ take n xs

  abbrev pub drop : ℕ → List A → List A
  drop zero xs = xs
  drop (suc n) [] = []
  drop (suc n) (x ∷ xs) = drop n xs

  -- The `n` elements from `off` on, or those that there are.
  unfoldable pub slice : (off n : ℕ) → List A → List A
  slice off n xs = take n (drop off xs)
