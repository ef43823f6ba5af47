-- ===== src/User/List/Ring.antt =====
-- What a list head stands for: the sequence of its nodes.
use osal.Base.{ℕ, ◌≡◌, refl, true, false, List, [], ◌∷◌, arith}
use osal.Base.Lists.{has, distinct}
use osal.User.List.{Links, os_init_list_head, update}

-- From `p` the links lead forth through the nodes `xs` to `q`, and back.
abbrev pub Seg : Links → ℕ → List ℕ → ℕ → Type 0
Seg h p [] q = (h.next p ≡ q) × (h.last q ≡ p)
Seg h p (x ∷ xs) q = (h.next p ≡ x) × (h.last x ≡ p) × Seg h x xs q

-- The head is no node of its list.
pub record Ring (h : Links) (head : ℕ) (xs : List ℕ) : Type 0 where
  pub linked : Seg h head xs head
  pub outside : has head xs ≡ false
  pub once : distinct xs ≡ true

-- A segment survives a change that spares the fields it reads.
pub frame :
    (h h' : Links) (p : ℕ) (xs : List ℕ) (q : ℕ)
    → ((a : ℕ) → has a (p ∷ xs) ≡ true → h'.next a ≡ h.next a)
    → ((a : ℕ) → has a (q ∷ xs) ≡ true → h'.last a ≡ h.last a)
    → Seg h p xs q
    → Seg h' p xs q
frame h h' p [] q n l s = (ground (arith, n p), ground (arith, l q))
frame h h' p (x ∷ xs) q n l (e, b, s) = (
  ground (arith, n p),
  ground (arith, l x),
  frame h h' x xs q (λ a m. n a (ground arith)) (λ a m. l a (ground arith)) s,
)

unfoldable pub last_of : ℕ → List ℕ → ℕ
last_of p [] = p
last_of p (x ∷ xs) = last_of x xs

pub last-last_of :
    (h : Links) (p : ℕ) (xs : List ℕ) (q : ℕ) → Seg h p xs q → h.last q ≡ last_of p xs
unfolding last_of
last-last_of h p [] q s = s.1
last-last_of h p (x ∷ xs) q s = last-last_of h x xs q s.2

pub has-last_of : (p : ℕ) (xs : List ℕ) → has (last_of p xs) (p ∷ xs) ≡ true
unfolding last_of
has-last_of p [] = ground arith
has-last_of p (x ∷ xs) = ground (arith, has-last_of x xs)

pub init-Ring : (h : Links) (head : ℕ) → Ring (os_init_list_head head h) head []
unfolding os_init_list_head update
init-Ring h head = record { linked = (ground arith, ground arith); outside = refl; once = refl }
