-- ===== src/User/List/Insert.antt =====
-- _OS_LIST_ADD_TAIL appends.
use osal.Base.{ℕ, ◌≡◌, ◌≢◌, true, false, List, [], ◌∷◌, ◌++◌, arith, ◌==◌, if◌then◌else◌}
use osal.Base.Lists.{has, distinct, has-append, distinct-append}
use osal.User.List.{Links, update, os_list_add_tail}
use osal.User.List.Ring.{Seg, Ring, last_of, last-last_of, has-last_of}

-- The fields after an insertion of `node` between `t` and `q`.
record Inserted (h h' : Links) (t node q : ℕ) : Type 0 where
  next_of : (a : ℕ) → h'.next a ≡ (if a == t then node else if a == node then q else h.next a)
  last_of' : (a : ℕ) → h'.last a ≡ (if a == q then node else if a == node then t else h.last a)

link-Seg :
    (h h' : Links) (p : ℕ) (xs : List ℕ) (q node : ℕ)
    → Inserted h h' (last_of p xs) node q
    → distinct (p ∷ xs) ≡ true
    → has q xs ≡ false
    → has node (p ∷ xs) ≡ false
    → node ≢ q
    → Seg h p xs q
    → Seg h' p (xs ++ node ∷ []) q
unfolding last_of
link-Seg h h' p [] q node i d o f ne s = (
  ground (arith, i.next_of p),
  ground (arith, i.last_of' node),
  (ground (arith, i.next_of node), ground (arith, i.last_of' q)),
)
link-Seg h h' p (x ∷ xs) q node i d o f ne s =
    let t = has-last_of x xs in
    (
      ground (arith, i.next_of p, t),
      ground (arith, i.last_of' x),
      link-Seg h h' x xs q node i (ground arith) (ground arith) (ground arith) ne s.2,
    )

add_tail-Inserted :
    (h : Links) (head node : ℕ)
    → node ≢ head
    → Inserted h (os_list_add_tail node head h) (h.last head) node head
unfolding os_list_add_tail update
add_tail-Inserted h head node ne = record {
  next_of = λ a. ground arith;
  last_of' = λ a. ground arith;
}

-- A node that is not in the list is appended: the list has its old nodes in their order, then it.
pub add_tail-Ring :
    (h : Links) (head node : ℕ) (xs : List ℕ)
    → Ring h head xs
    → has node (head ∷ xs) ≡ false
    → Ring (os_list_add_tail node head h) head (xs ++ node ∷ [])
add_tail-Ring h head node xs r new =
    let t = last-last_of h head xs head r.linked in
    let i = add_tail-Inserted h head node (ground arith) in
    record {
      linked =
          link-Seg h _ head xs head node (rw (← t) i) (ground (arith, r.outside, r.once)) r.outside
            new (ground arith) r.linked;
      outside = ground (arith, has-append head xs (node ∷ []), r.outside);
      once = distinct-append xs node r.once (ground arith);
    }
