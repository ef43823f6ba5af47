-- ===== src/User/Pci/Scan/Order.antt =====
-- Iterating over the devices of one id, from os_pci_find_first_device by os_pci_find_next_device.
use osal.Base.{
  ℕ, ◌≤◌, ◌<◌, ◌≡◌, refl, true, false, Option, none, some, List, [], ◌∷◌, arith, ◌==◌,
  if◌then◌else◌, Bool-cases, inl, inr,
}
use mathlib.Core.Path.{subst}
use native.Mathlib.Nat.{le_of_lt}
use osal.User.Pci.Device.{PciDev}
use osal.User.Pci.Scan.{slot_of, passed}

-- A well-formed line: address, id and interrupt of a device.
abbrev pub Entry : Type 0
Entry = ℕ × ℕ × ℕ

abbrev pub line_of : Entry → List ℕ
line_of (addr, id, irq) = addr ∷ (id ∷ (irq ∷ []))

abbrev pub AllAbove : ℕ → List Entry → Type 0
AllAbove n [] = Unit
AllAbove n ((addr, id, irq) ∷ es) = (n < slot_of addr) × AllAbove n es

-- The file lists the slots in ascending order.
abbrev pub Ascending : List Entry → Type 0
Ascending [] = Unit
Ascending ((addr, id, irq) ∷ es) = AllAbove (slot_of addr) es × Ascending es

-- The slots of the devices with an id, in the file's order.
unfoldable pub slots : ℕ → List Entry → List ℕ
slots id [] = []
slots id ((addr, found, irq) ∷ es) = if found == id then slot_of addr ∷ slots id es else slots id es

-- Of these, the ones that a search from `cur` can still reach.
unfoldable pub reachable : Option PciDev → ℕ → List Entry → List ℕ
reachable cur id [] = []
reachable cur id ((addr, found, irq) ∷ es) =
    let rest = reachable cur id es in
    if passed cur addr then rest else if found == id then slot_of addr ∷ rest else rest

abbrev FirstAbove : ℕ → List ℕ → Type 0
FirstAbove n [] = Unit
FirstAbove n (s ∷ rest) = n < s

pub reachable-none : (id : ℕ) (es : List Entry) → reachable none id es ≡ slots id es
unfolding reachable slots passed
reachable-none id [] = refl
reachable-none id ((addr, found, irq) ∷ es) = ground (arith, reachable-none id es)

reachable_above :
    (d : PciDev) (id : ℕ) (es : List Entry)
    → AllAbove d.slot_address es
    → reachable (some d) id es ≡ slots id es
unfolding reachable slots passed
reachable_above d id [] h = refl
reachable_above d id ((addr, found, irq) ∷ es) h = ground (arith, reachable_above d id es h.1)

first_above :
    (n : ℕ) (cur : Option PciDev) (id : ℕ) (es : List Entry)
    → AllAbove n es
    → FirstAbove n (reachable cur id es)
unfolding reachable
first_above n cur id [] h = tt
first_above n cur id ((addr, found, irq) ∷ es) h = elim (Bool-cases (passed cur addr)) [
  | inl p ↦ rw p (first_above n cur id es h.1)
  | inr q ↦ rw q (elim (Bool-cases (found == id)) [
    | inl hit ↦ rw hit (h.0)
    | inr miss ↦ rw miss (first_above n cur id es h.1)
  ])
]

AllAbove-weaken : (m n : ℕ) (es : List Entry) → m ≤ n → AllAbove n es → AllAbove m es
AllAbove-weaken m n [] le h = tt
AllAbove-weaken m n ((addr, found, irq) ∷ es) le h = (omega arith, AllAbove-weaken m n es le h.1)

passed_below : (d : PciDev) (addr : ℕ) → slot_of addr ≤ d.slot_address → passed (some d) addr ≡ true
unfolding passed
passed_below d addr h = ground arith

-- Behind a device that was not passed, nothing is passed.
reachable_behind :
    (cur : Option PciDev) (addr id : ℕ) (es : List Entry)
    → passed cur addr ≡ false
    → AllAbove (slot_of addr) es
    → reachable cur id es ≡ slots id es
unfolding passed
reachable_behind none addr id es p h = reachable-none id es
reachable_behind (some d) addr id es p h =
    reachable_above d id es (AllAbove-weaken _ (slot_of addr) es (ground arith) h)

above_first :
    (n : ℕ) (cur : Option PciDev) (id : ℕ) (es : List Entry) (s : ℕ) (rest : List ℕ)
    → AllAbove n es
    → reachable cur id es ≡ s ∷ rest
    → n < s
above_first n cur id es s rest h e = subst (FirstAbove n) e (first_above n cur id es h)

-- From the first device that a search can reach, the next search can reach just the rest.
pub reachable_next :
    (cur : Option PciDev) (id : ℕ) (es : List Entry) (d : PciDev) (rest : List ℕ)
    → Ascending es
    → reachable cur id es ≡ d.slot_address ∷ rest
    → reachable (some d) id es ≡ rest
unfolding reachable
reachable_next cur id [] d rest asc e = cc
reachable_next cur id ((addr, found, irq) ∷ es) d rest asc e = elim (Bool-cases (passed cur addr)) [
  | inl p ↦
      let e' : reachable cur id es ≡ d.slot_address ∷ rest = ground arith in
      let gone = passed_below d addr (le_of_lt (above_first _ cur id es _ rest asc.0 e')) in
      ground (arith, reachable_next cur id es d rest asc.1)
  | inr q ↦ elim (Bool-cases (found == id)) [
    | inl hit ↦
        let gone = passed_below d addr in
        ground (
          arith,
          gone,
          reachable_behind cur addr id es q asc.0,
          reachable_above d id es (subst (λ n. AllAbove n es) (ground arith) asc.0),
        )
    | inr miss ↦
        let e' : reachable cur id es ≡ d.slot_address ∷ rest = ground arith in
        let gone = passed_below d addr (le_of_lt (above_first _ cur id es _ rest asc.0 e')) in
        ground (arith, reachable_next cur id es d rest asc.1)
  ]
]
