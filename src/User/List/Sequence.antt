-- ===== src/User/List/Sequence.antt =====
-- Lists made by any run of operations, against sequences of nodes.
use osal.Base.{
  ℕ, ◌<◌, ◌≡◌, refl, Option, none, some, List, [], ◌∷◌, ◌++◌, arith, ◌==◌, if◌then◌else◌,
  Bool-cases, inl, inr, length,
}
use osal.Base.Lists.{has, remove}
use osal.User.List.{
  Links, os_init_list_head, os_list_add_tail, os_list_del, os_list_for_each, os_list_empty,
}
use osal.User.List.Ring.{Ring, init-Ring}
use osal.User.List.Insert.{add_tail-Ring}
use osal.User.List.Delete.{del-Ring}
use osal.User.List.Traverse.{for_each-Ring, empty-Ring}

pub data Op : Type 0 where
  add_tail : ℕ → Op
  del : ℕ → Op

-- What the operations do to a sequence; none where a caller must not use them: a node that is added
-- twice, or is the head, and a node that is taken out without being there.
unfoldable pub apply : (head : ℕ) → Op → List ℕ → Option (List ℕ)
apply head (add_tail n) xs = if has n (head ∷ xs) then none else some (xs ++ n ∷ [])
apply head (del n) xs = if has n xs then some (remove n xs) else none

unfoldable pub apply_all : (head : ℕ) → List Op → List ℕ → Option (List ℕ)
apply_all head [] xs = some xs
apply_all head (op ∷ ops) xs = elim (apply head op xs) [
  | none ↦ none
  | some ys ↦ apply_all head ops ys
]

unfoldable pub run : (head : ℕ) → Op → Links → Links
run head (add_tail n) h = os_list_add_tail n head h
run head (del n) h = os_list_del n h

unfoldable pub run_all : (head : ℕ) → List Op → Links → Links
run_all head [] h = h
run_all head (op ∷ ops) h = run_all head ops (run head op h)

apply-Ring :
    (head : ℕ) (op : Op) (xs ys : List ℕ) (h : Links)
    → Ring h head xs
    → apply head op xs ≡ some ys
    → Ring (run head op h) head ys
unfolding apply run
apply-Ring head (add_tail n) xs ys h r e = elim (Bool-cases (has n (head ∷ xs))) [
  | inl old ↦ absurd (ground arith)
  | inr new ↦
      let same : (xs ++ n ∷ []) ≡ ys = ground arith in rw (← same) (add_tail-Ring h head n xs r new)
]
apply-Ring head (del n) xs ys h r e = elim (Bool-cases (has n xs)) [
  | inl there ↦
      let same : remove n xs ≡ ys = ground arith in rw (← same) (del-Ring h head n xs r there)
  | inr gone ↦ absurd (ground arith)
]

tail_all :
    (head : ℕ) (op : Op) (ops : List Op) (xs zs : List ℕ)
    → apply_all head (op ∷ ops) xs ≡ some zs
    → (ys : List ℕ) × (apply head op xs ≡ some ys) × (apply_all head ops ys ≡ some zs)
unfolding apply_all
tail_all head op ops xs zs e = go (apply head op xs) refl e
  where
    go :
        (o : Option (List ℕ))
        → apply head op xs ≡ o
        → (elim o as (λ _. Option (List ℕ)) [ none ↦ none | some ys ↦ apply_all head ops ys ])
          ≡ some zs
        → (ys : List ℕ) × (apply head op xs ≡ some ys) × (apply_all head ops ys ≡ some zs)
    go none e f = cc
    go (some ys) e f = (ys, e, f)

apply_all-Ring :
    (head : ℕ) (ops : List Op) (xs zs : List ℕ) (h : Links)
    → Ring h head xs
    → apply_all head ops xs ≡ some zs
    → Ring (run_all head ops h) head zs
unfolding apply_all run_all
apply_all-Ring head [] xs zs h r e = let same : xs ≡ zs = ground arith in rw (← same) r
apply_all-Ring head (op ∷ ops) xs zs h r e =
    let (ys, one, more) = tail_all head op ops xs zs e in
    apply_all-Ring head ops ys zs (run head op h) (apply-Ring head op xs ys h r one) more

-- The list refines the sequence: from OS_INIT_LIST_HEAD on, after any operations that a caller may use,
-- whatever the links held before, OS_LIST_FOR_EACH sees the nodes of the sequence in their order, and
-- OS_LIST_EMPTY answers whether there are none.
pub run_all-for_each :
    (head : ℕ) (ops : List Op) (xs : List ℕ) (h : Links) (f : ℕ)
    → apply_all head ops [] ≡ some xs
    → length xs < f
    → (os_list_for_each f head (run_all head ops (os_init_list_head head h)) ≡ some xs)
      × (os_list_empty head (run_all head ops (os_init_list_head head h)) ≡ (length xs == 0))
run_all-for_each head ops xs h f e l =
    let r = apply_all-Ring head ops [] xs (os_init_list_head head h) (init-Ring h head) e in
    (for_each-Ring _ head xs f r l, empty-Ring _ head xs r)
