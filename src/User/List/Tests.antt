-- ===== src/User/List/Tests.antt =====
-- A list of three nodes, one of which is taken out.
use osal.Base.{ℕ, ◌≡◌, refl, some, List, [], ◌∷◌, arith, ◌==◌, length}
use osal.User.List.{
  Links, os_init_list_head, os_list_add_tail, os_list_for_each, os_list_for_each_safe,
  os_list_empty,
}
use osal.User.List.Ring.{Ring, init-Ring}
use osal.User.List.Insert.{add_tail-Ring}
use osal.User.List.Traverse.{purge, kept, for_each_safe-Ring}
use osal.User.List.Sequence.{Op, add_tail, del, apply, apply_all, run_all, run_all-for_each}

-- All links are 7 before the list is made.
abbrev garbage : Links
garbage = record { next = λ a. 7; last = λ a. 7 }

abbrev ops : List Op
ops = add_tail 1 ∷ (add_tail 2 ∷ (add_tail 3 ∷ (del 2 ∷ [])))

abbrev left : List ℕ
left = 1 ∷ (3 ∷ [])

ops_apply : apply_all 100 ops [] ≡ some left
unfolding apply_all apply
ops_apply = refl

run_all-for_each_example :
    (os_list_for_each 3 100 (run_all 100 ops (os_init_list_head 100 garbage)) ≡ some left)
    × (os_list_empty 100 (run_all 100 ops (os_init_list_head 100 garbage)) ≡ (length left == 0))
run_all-for_each_example = run_all-for_each 100 ops left garbage 3 ops_apply (omega arith)

abbrev two : Links
two = os_list_add_tail 2 100 (os_list_add_tail 1 100 (os_init_list_head 100 garbage))

two-Ring : Ring two 100 (1 ∷ (2 ∷ []))
two-Ring =
    add_tail-Ring _ 100 2 (1 ∷ []) (add_tail-Ring _ 100 1 [] (init-Ring garbage 100) (ground arith))
      (ground arith)

for_each_safe-Ring_example :
    (h' : Links) × (os_list_for_each_safe (purge (λ a. a == 1) (λ a h. (55, 66))) 3 100 two
      ≡ some ((1 ∷ (2 ∷ [])), h'))
    × Ring h' 100 (kept (λ a. a == 1) (1 ∷ (2 ∷ [])))
for_each_safe-Ring_example =
    for_each_safe-Ring (λ a. a == 1) (λ a h. (55, 66)) two 100 (1 ∷ (2 ∷ [])) 3 two-Ring
      (omega arith)
