-- ===== src/User/List.antt =====
-- linux_user/include/os/osal_list.h: circular doubly linked lists of nodes inside other structures.
-- A node is its address, and the heap the two fields of every address. An assignment through a pointer
-- is a write to the heap, in the order of the macro's statements.
pub mod Ring
pub mod Insert
pub mod Delete
pub mod Traverse
pub mod Sequence
mod Tests
use osal.Base.{
  ℕ, zero, suc, Bool, true, false, Option, none, some, List, [], ◌∷◌, ◌==◌, if◌then◌else◌,
}

pub record Links : Type 0 where
  pub next : ℕ → ℕ
  pub last : ℕ → ℕ

unfoldable pub update : (ℕ → ℕ) → ℕ → ℕ → ℕ → ℕ
update f p v a = if a == p then v else f a

abbrev pub set_next : Links → (p v : ℕ) → Links
set_next h p v = record h { next = update h.next p v }

abbrev pub set_last : Links → (p v : ℕ) → Links
set_last h p v = record h { last = update h.last p v }

-- _OS_INIT_LIST_HEAD; LIST_HEAD and LIST_HEAD_INIT make the same links.
unfoldable pub os_init_list_head : (head : ℕ) → Links → Links
os_init_list_head head h = set_last (set_next h head head) head head

unfoldable pub os_list_add_tail : (node head : ℕ) → Links → Links
os_list_add_tail node head h =
    let h1 = set_last h node (h.last head) in
    let h2 = set_next h1 node head in
    let h3 = set_last h2 head node in set_next h3 (h3.last node) node

unfoldable pub os_list_del : ℕ → Links → Links
os_list_del a h = let h1 = set_next h (h.last a) (h.next a) in set_last h1 (h1.next a) (h1.last a)

unfoldable pub os_list_empty : (head : ℕ) → Links → Bool
os_list_empty head h = h.next head == head

unfoldable pub os_list_next : ℕ → Links → ℕ
os_list_next a h = h.next a

unfoldable pub os_list_prev : ℕ → Links → ℕ
os_list_prev a h = h.last a

-- The loop of _OS_LIST_FOR_EACH from `entry`, with the nodes that its body sees; none if the fuel runs
-- out.
unfoldable pub for_each_from : (fuel entry head : ℕ) → Links → Option (List ℕ)
for_each_from zero entry head h = none
for_each_from (suc f) entry head h = elim (entry == head) [
  | true ↦ some []
  | false ↦ elim (for_each_from f (h.next entry) head h) [ none ↦ none | some l ↦ some (entry ∷ l) ]
]

unfoldable pub os_list_for_each : (fuel head : ℕ) → Links → Option (List ℕ)
unfolding for_each_from
os_list_for_each fuel head h = for_each_from fuel (h.next head) head h

-- The loop of _OS_LIST_FOR_EACH_SAFE, whose body may change the links; `n` is read before the body.
unfoldable pub for_each_safe_from :
    (body : ℕ → Links → Links) (fuel entry n head : ℕ) → Links → Option (List ℕ × Links)
for_each_safe_from body zero entry n head h = none
for_each_safe_from body (suc f) entry n head h = elim (entry == head) [
  | true ↦ some ([], h)
  | false ↦
      let h' = body entry h in
      elim (for_each_safe_from body f n (h'.next n) head h') [
        | none ↦ none
        | some (l, h'') ↦ some (entry ∷ l, h'')
      ]
]

unfoldable pub os_list_for_each_safe :
    (body : ℕ → Links → Links) (fuel head : ℕ) → Links → Option (List ℕ × Links)
unfolding for_each_safe_from
os_list_for_each_safe body fuel head h =
    for_each_safe_from body fuel (h.next head) (h.next (h.next head)) head h
