-- ===== src/User/List/Traverse.antt =====
-- The loops of _OS_LIST_FOR_EACH and _OS_LIST_FOR_EACH_SAFE.
use mathlib.Core.List.{append_assoc}
use osal.Base.{
  ℕ, zero, suc, ◌<◌, ◌≡◌, ◌≢◌, Bool, true, false, some, List, [], ◌∷◌, ◌++◌, arith, ◌==◌,
  if◌then◌else◌, Bool-cases, inl, inr, length,
}
use osal.Base.Lists.{has, distinct, remove, has-append}
use osal.User.List.{
  Links, update, set_next, set_last, os_list_del, for_each_from, os_list_for_each,
  for_each_safe_from, os_list_for_each_safe, os_list_empty,
}
use osal.User.List.Ring.{Seg, Ring, frame}
use osal.User.List.Delete.{del-Ring}

for_each-stop :
    (f entry head : ℕ) (h : Links) → entry ≡ head → for_each_from (suc f) entry head h ≡ some []
unfolding for_each_from
for_each-stop f entry head h e = ground arith

for_each-step :
    (f entry head : ℕ) (h : Links) (l : List ℕ)
    → entry ≢ head
    → for_each_from f (h.next entry) head h ≡ some l
    → for_each_from (suc f) entry head h ≡ some (entry ∷ l)
unfolding for_each_from
for_each-step f entry head h l ne e = ground arith

for_each-Seg :
    (h : Links) (p : ℕ) (xs : List ℕ) (head f : ℕ)
    → has head xs ≡ false
    → length xs < f
    → Seg h p xs head
    → for_each_from f (h.next p) head h ≡ some xs
for_each-Seg h p xs head zero o l s = absurd (omega arith)
for_each-Seg h p [] head (suc f) o l s = for_each-stop f (h.next p) head h s.0
for_each-Seg h p (x ∷ xs) head (suc f) o l s = rw s.0 (
    for_each-step f x head h xs (ground arith)
      (for_each-Seg h x xs head f (ground arith) (ground arith) s.2))

-- With more fuel than there are nodes the loop ends, and it has seen the nodes in their order.
pub for_each-Ring :
    (h : Links) (head : ℕ) (xs : List ℕ) (f : ℕ)
    → Ring h head xs
    → length xs < f
    → os_list_for_each f head h ≡ some xs
unfolding os_list_for_each
for_each-Ring h head xs f r l = for_each-Seg h head xs head f r.outside l r.linked

pub empty-Ring :
    (h : Links) (head : ℕ) (xs : List ℕ) → Ring h head xs → os_list_empty head h ≡ (length xs == 0)
unfolding os_list_empty
empty-Ring h head [] r = ground (arith, r.linked)
empty-Ring h head (x ∷ xs) r = ground (arith, r.linked, r.outside)

-- A body that takes some of the nodes out and then does what it likes with them, such as freeing them:
-- `junk` is what the two fields of such a node hold afterwards.
unfoldable pub purge : (drops : ℕ → Bool) (junk : ℕ → Links → ℕ × ℕ) → ℕ → Links → Links
purge drops junk a h =
    if drops a then set_last (set_next (os_list_del a h) a (junk a h).0) a (junk a h).1 else h

-- The fields of other addresses are no part of a list.
junk-Ring :
    (h : Links) (head a v w : ℕ) (xs : List ℕ)
    → head ≢ a
    → has a xs ≡ false
    → Ring h head xs
    → Ring (set_last (set_next h a v) a w) head xs
unfolding update
junk-Ring h head a v w xs ne o r = record {
  linked =
      frame h (set_last (set_next h a v) a w) head xs head (λ b m. ground arith)
        (λ b m. ground arith) r.linked;
  outside = r.outside;
  once = r.once;
}

-- The nodes that it leaves.
abbrev pub kept : (drops : ℕ → Bool) → List ℕ → List ℕ
kept drops [] = []
kept drops (x ∷ xs) = if drops x then kept drops xs else x ∷ kept drops xs

first_of : List ℕ → ℕ → ℕ
first_of [] q = q
first_of (x ∷ xs) q = x

next-first_of : (h : Links) (p : ℕ) (xs : List ℕ) (q : ℕ) → Seg h p xs q → h.next p ≡ first_of xs q
unfolding first_of
next-first_of h p [] q s = s.0
next-first_of h p (x ∷ xs) q s = s.0

next_inside :
    (h : Links) (p : ℕ) (seen : List ℕ) (e : ℕ) (rest : List ℕ) (q : ℕ)
    → Seg h p (seen ++ e ∷ rest) q
    → h.next e ≡ first_of rest q
next_inside h p [] e rest q s = next-first_of h e rest q s.2
next_inside h p (x ∷ seen) e rest q s = next_inside h x seen e rest q s.2

remove-append :
    (seen : List ℕ) (e : ℕ) (rest : List ℕ)
    → distinct (seen ++ e ∷ rest) ≡ true
    → remove e (seen ++ e ∷ rest) ≡ seen ++ rest
remove-append [] e rest d = ground arith
remove-append (x ∷ seen) e rest d =
    ground (arith, has-append x seen (e ∷ rest), remove-append seen e rest)

gone :
    (seen : List ℕ) (e : ℕ) (rest : List ℕ)
    → distinct (seen ++ e ∷ rest) ≡ true
    → has e (seen ++ rest) ≡ false
gone [] e rest d = ground arith
gone (x ∷ seen) e rest d = ground (arith, has-append x seen (e ∷ rest), gone seen e rest)

-- What the loop returns, when `rest` is still to come.
abbrev Purged :
    (drops : ℕ → Bool) (junk : ℕ → Links → ℕ × ℕ) (f head : ℕ) (seen rest : List ℕ) → Links → Type 0
Purged drops junk f head seen rest h =
    (h' : Links) × (for_each_safe_from (purge drops junk) f (first_of rest head)
        (h.next (first_of rest head)) head h
      ≡ some (rest, h'))
    × Ring h' head (seen ++ kept drops rest)

safe-stop :
    (body : ℕ → Links → Links) (f n head : ℕ) (h : Links)
    → for_each_safe_from body (suc f) head n head h ≡ some ([], h)
unfolding for_each_safe_from
safe-stop body f n head h = ground arith

safe-step :
    (body : ℕ → Links → Links) (f entry n head : ℕ) (h h' : Links) (l : List ℕ)
    → entry ≢ head
    → for_each_safe_from body f n ((body entry h).next n) head (body entry h) ≡ some (l, h')
    → for_each_safe_from body (suc f) entry n head h ≡ some (entry ∷ l, h')
unfolding for_each_safe_from
safe-step body f entry n head h h' l ne e = ground arith

for_each_safe_from-Ring :
    (drops : ℕ → Bool) (junk : ℕ → Links → ℕ × ℕ) (f head : ℕ) (seen rest : List ℕ) (h : Links)
    → Ring h head (seen ++ rest)
    → length rest < f
    → Purged drops junk f head seen rest h
unfolding first_of purge
for_each_safe_from-Ring drops junk zero head seen rest h r l = absurd (omega arith)
for_each_safe_from-Ring drops junk (suc f) head seen [] h r l =
    (h, safe-stop (purge drops junk) f (h.next head) head h, r)
for_each_safe_from-Ring drops junk (suc f) head seen (e ∷ rest) h r l =
    let ne : e ≢ head = ground (arith, r.outside, has-append head seen (e ∷ rest)) in
    let n : h.next e ≡ first_of rest head = next_inside h head seen e rest head r.linked in
    elim (Bool-cases (drops e)) [
      | inl out ↦
          let deleted =
            del-Ring h head e (seen ++ e ∷ rest) r (ground (arith, has-append e seen (e ∷ rest))) in
          let less : Ring (os_list_del e h) head (seen ++ rest) =
            rw (← remove-append seen e rest r.once) deleted in
          let apart : has e (seen ++ rest) ≡ false = gone seen e rest r.once in
          let spoilt =
            junk-Ring (os_list_del e h) head e (junk e h).0 (junk e h).1 (seen ++ rest)
              (ground arith) apart less in
          let (h', run, ring) =
            for_each_safe_from-Ring drops junk f head seen rest
              (set_last (set_next (os_list_del e h) e (junk e h).0) e (junk e h).1) spoilt
              (omega arith) in
          (
            h',
            safe-step (purge drops junk) f e (h.next e) head h h' rest ne (rw (n, out) run),
            rw out ring,
          )
      | inr stays ↦
          let (h', run, ring) =
            for_each_safe_from-Ring drops junk f head (seen ++ e ∷ []) rest h (rw append_assoc r)
              (omega arith) in
          (
            h',
            safe-step (purge drops junk) f e (h.next e) head h h' rest ne (rw (n, stays) run),
            rw stays (rw (append_assoc seen (e ∷ []) (kept drops rest)) at ring),
          )
    ]

-- With more fuel than there are nodes the safe loop ends although its body takes nodes out of the list and
-- writes anything into the fields of each of them: it has seen every node once, and just those that the
-- body leaves are in the list, in their order.
pub for_each_safe-Ring :
    (drops : ℕ → Bool) (junk : ℕ → Links → ℕ × ℕ) (h : Links) (head : ℕ) (xs : List ℕ) (f : ℕ)
    → Ring h head xs
    → length xs < f
    → (h' : Links) × (os_list_for_each_safe (purge drops junk) f head h ≡ some (xs, h'))
      × Ring h' head (kept drops xs)
unfolding os_list_for_each_safe
for_each_safe-Ring drops junk h head xs f r l =
    let n : h.next head ≡ first_of xs head = next-first_of h head xs head r.linked in
    rw n (for_each_safe_from-Ring drops junk f head [] xs h r l)
