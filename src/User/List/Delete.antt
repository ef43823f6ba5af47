-- ===== src/User/List/Delete.antt =====
-- _OS_LIST_DEL takes one node out.
use osal.Base.{
  ℕ, ◌≡◌, ◌≢◌, true, false, List, [], ◌∷◌, arith, ◌==◌, if◌then◌else◌, ==_iff, Bool-cases, inl, inr,
}
use osal.Base.Lists.{has, distinct, remove, has-remove, distinct-remove}
use osal.User.List.{Links, update, os_list_del}
use osal.User.List.Ring.{Seg, Ring, frame}

-- The fields after `a` is taken out.
record Deleted (h h' : Links) (a : ℕ) : Type 0 where
  next_of : (b : ℕ) → h'.next b ≡ (if b == h.last a then h.next a else h.next b)
  last_of : (b : ℕ) → h'.last b ≡ (if b == h.next a then h.last a else h.last b)

-- The neighbours of a node.
neighbours :
    (h : Links) (p : ℕ) (xs : List ℕ) (q a : ℕ)
    → has a xs ≡ true
    → Seg h p xs q
    → (has (h.last a) (p ∷ xs) ≡ true) × (has (h.next a) (q ∷ xs) ≡ true)
neighbours h p [] q a m s = cc
neighbours h p (x ∷ []) q a m s = ground arith
neighbours h p (x ∷ y ∷ ys) q a m s = ground (arith, neighbours h x (y ∷ ys) q a)

last-ne :
    (h : Links) (p : ℕ) (xs : List ℕ) (q a : ℕ)
    → distinct (p ∷ xs) ≡ true
    → has a xs ≡ true
    → Seg h p xs q
    → h.last a ≢ a
last-ne h p [] q a d m s = cc
last-ne h p (x ∷ xs) q a d m s = ground (arith, last-ne h x xs q a)

-- The first node is taken out.
unlink_first :
    (h h' : Links) (p x : ℕ) (xs : List ℕ) (q : ℕ)
    → Deleted h h' x
    → distinct (p ∷ (x ∷ xs)) ≡ true
    → has q (x ∷ xs) ≡ false
    → Seg h p (x ∷ xs) q
    → Seg h' p xs q
unlink_first h h' p x [] q c d o s = (ground (arith, c.next_of p), ground (arith, c.last_of q))
unlink_first h h' p x (y ∷ ys) q c d o s = (
  ground (arith, c.next_of p),
  ground (arith, c.last_of y),
  frame h h' y ys q (λ a m. ground (arith, c.next_of a)) (λ a m. ground (arith, c.last_of a)) s.2.2,
)

unlink-Seg :
    (h h' : Links) (p : ℕ) (xs : List ℕ) (q a : ℕ)
    → Deleted h h' a
    → distinct (p ∷ xs) ≡ true
    → has q xs ≡ false
    → has a xs ≡ true
    → Seg h p xs q
    → Seg h' p (remove a xs) q
unlink-Seg h h' p [] q a c d o m s = cc
unlink-Seg h h' p (x ∷ xs) q a c d o m s = elim (Bool-cases (x == a)) [
  | inl same ↦ let e = (==_iff x a).0 same in rw same (unlink_first h h' p x xs q (rw e c) d o s)
  | inr other ↦
      let near = neighbours h x xs q a in
      rw other (
        ground (arith, c.next_of p, near),
        ground (arith, c.last_of x, near),
        unlink-Seg h h' x xs q a c (ground arith) (ground arith) (ground arith) s.2,
      )
]

del-Deleted : (h : Links) (a : ℕ) → h.last a ≢ a → Deleted h (os_list_del a h) a
unfolding os_list_del update
del-Deleted h a ne = record { next_of = λ b. ground arith; last_of = λ b. ground arith }

-- A node of the list is taken out, and the others stay in their order.
pub del-Ring :
    (h : Links) (head a : ℕ) (xs : List ℕ)
    → Ring h head xs
    → has a xs ≡ true
    → Ring (os_list_del a h) head (remove a xs)
del-Ring h head a xs r m =
    let d : distinct (head ∷ xs) ≡ true = ground (arith, r.outside, r.once) in
    let c = del-Deleted h a (last-ne h head xs head a d m r.linked) in
    record {
      linked = unlink-Seg h _ head xs head a c d r.outside m r.linked;
      outside = has-remove head a xs r.outside;
      once = distinct-remove a xs r.once;
    }
