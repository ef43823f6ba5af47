-- ===== src/User/Pci/Scan/Enumerate.antt =====
-- A driver's loop over all devices of one id finds each of them once, in the file's order.
use osal.Base.{
  ℕ, zero, suc, ◌+◌, ◌*◌, ◌^◌, ◌<◌, ◌≡◌, refl, true, Option, none, some, List, [], ◌∷◌, arith,
  is_some, ◌==◌, length, Bool-cases, inl, inr, ap, ◌∙◌, map, sym,
}
use mathlib.Core.Path.{ap₂}
use osal.Base.Lists.{has}
use osal.Types.{OsalResult, success}
use osal.User.Pci.Device.{PciDev}
use osal.User.Pci.Posix.{Posix}
use osal.User.Pci.Config.{os_pci_read_config_32}
use osal.User.Pci.Scan.Order.{
  Entry, line_of, Ascending, slots, reachable, reachable_next, reachable-none,
}
use osal.User.Pci.Scan.{
  id_found, id_step, id_loop, id_opened, wanted, pci_find_device, found_or_not, next_read,
  os_pci_find_first_device, os_pci_find_next_device, scan_three, slot_of, passed,
}

-- A device has the first slot of a list, and none stands for the empty list.
abbrev pub HeadIs : Option PciDev → List ℕ → Type 0
HeadIs none l = l ≡ []
HeadIs (some d) l = (rest : List ℕ) × (l ≡ d.slot_address ∷ rest)

has_first :
    (cur : Option PciDev) (id : ℕ) (es : List Entry) (s : ℕ) (rest : List ℕ)
    → reachable cur id es ≡ s ∷ rest
    → has s (slots id es) ≡ true
unfolding reachable slots
has_first cur id [] s rest e = cc
has_first cur id ((addr, found, irq) ∷ es) s rest e = ground (arith, has_first cur id es s rest)

module _ {W : Type 0} (os : Posix W) where
  -- The loop of a driver: the slots of the devices that the first search and the next ones return.
  unfoldable pub collect : ℕ → (OsalResult × Option PciDev) × W → List ℕ
  collect zero p = []
  collect (suc f) ((success, some d), w) =
      d.slot_address ∷ collect f (os_pci_find_next_device os (some d) w)
  collect (suc f) ((r, d), w) = []

  module _ (mem : (w : W) → is_some (os.malloc w).0 ≡ true) where
    found-HeadIs :
        (addr irq : ℕ) (rest : List ℕ) (p : Option PciDev × W)
        → is_some p.0 ≡ true
        → HeadIs (id_found os addr irq p).0 (slot_of addr ∷ rest)
    unfolding id_found
    found-HeadIs addr irq rest (none, w) h = cc
    found-HeadIs addr irq rest (some d, w) h = (rest, refl)

    loop-HeadIs :
        (id : ℕ) (cur : Option PciDev) (es : List Entry) (w : W)
        → HeadIs (id_loop os id cur (map line_of es) w).0 (reachable cur id es)
    unfolding id_loop id_step reachable scan_three
    loop-HeadIs id cur [] w = refl
    loop-HeadIs id cur ((addr, found, irq) ∷ es) w = elim (Bool-cases (passed cur addr)) [
      | inl p ↦ rw p (loop-HeadIs id cur es w)
      | inr q ↦ rw q (elim (Bool-cases (found == id)) [
        | inl hit ↦ rw hit (found-HeadIs addr irq _ (os.malloc w) (mem w))
        | inr miss ↦ rw miss (loop-HeadIs id cur es w)
      ])
    ]

    opened-HeadIs :
        (id : ℕ) (cur : Option PciDev) (es : List Entry) (p : Option (List (List ℕ)) × W)
        → p.0 ≡ some (map line_of es)
        → HeadIs (id_opened os id cur p).0 (reachable cur id es)
    unfolding id_opened
    opened-HeadIs id cur es (lines, w) e = rw (e, id_opened) (loop-HeadIs id cur es w)

    pub find_first-HeadIs :
        (vid did : ℕ) (es : List Entry) (w : W)
        → (os.fopen_devices w).0 ≡ some (map line_of es)
        → HeadIs (pci_find_device os vid did none w).0 (slots (wanted vid did) es)
    unfolding pci_find_device
    find_first-HeadIs vid did es w e =
        rw (sym (reachable-none (wanted vid did) es))
          (opened-HeadIs (wanted vid did) none es (os.fopen_devices w) e)

    next_read-found :
        (cur : PciDev) (vid did : ℕ) (p : (OsalResult × Option ℕ) × W)
        → vid < 2 ^ 16
        → did < 2 ^ 16
        → p.0 ≡ (success, some (did * 2 ^ 16 + vid))
        → next_read os cur p ≡ found_or_not os (pci_find_device os vid did (some cur) p.1)
    unfolding next_read
    next_read-found cur vid did (rv, w) hv hd e =
        rw (e, next_read)
          (ap₂ (λ (a b : ℕ). found_or_not os (pci_find_device os a b (some cur) w)) (omega arith)
            (omega arith))

    module _ (vid did : ℕ) (es : List Entry) (small : (vid < 2 ^ 16) × (did < 2 ^ 16))
        (asc : Ascending es) (file : (w : W) → (os.fopen_devices w).0 ≡ some (map line_of es))
        (ids : (d : PciDev) (w : W)
          → has d.slot_address (slots (wanted vid did) es) ≡ true
          → (os_pci_read_config_32 os (some d) 0 true w).0
            ≡ (success, some (did * 2 ^ 16 + vid))) where
      abbrev id : ℕ
      id = wanted vid did

      find-HeadIs :
          (cur : Option PciDev) (w : W)
          → HeadIs (pci_find_device os vid did cur w).0 (reachable cur id es)
      unfolding pci_find_device
      find-HeadIs cur w = opened-HeadIs id cur es (os.fopen_devices w) (file w)

      collect-reachable :
          (f : ℕ) (cur : Option PciDev) (p : Option PciDev × W)
          → HeadIs p.0 (reachable cur id es)
          → length (reachable cur id es) < f
          → collect f (found_or_not os p) ≡ reachable cur id es
      unfolding collect found_or_not os_pci_find_next_device
      collect-reachable zero cur p h fuel = absurd (omega arith)
      collect-reachable (suc f) cur (none, w) h fuel = sym h
      collect-reachable (suc f) cur (some d, w) (rest, e) fuel =
          let p = os_pci_read_config_32 os (some d) 0 true w in
          let next = pci_find_device os vid did (some d) p.1 in
          let left : reachable (some d) id es ≡ rest = reachable_next cur id es d rest asc e in
          let step =
            next_read-found d vid did p small.0 small.1 (ids d w (has_first cur id es _ rest e)) in
          let more =
            collect-reachable f (some d) next (find-HeadIs (some d) p.1)
              (rw left (shorter e fuel)) in
          ap (λ (q : (OsalResult × Option PciDev) × W). d.slot_address ∷ collect f q) step
          ∙ ap (λ (l : List ℕ). d.slot_address ∷ l) (more ∙ left)
          ∙ sym e
        where
          shorter :
              reachable cur id es ≡ d.slot_address ∷ rest
              → length (reachable cur id es) < suc f
              → length rest < f
          shorter e fuel = omega (arith, ap (λ (l : List ℕ). length l) e)

      -- If the file opens with its slots in ascending order, memory suffices, and the id at offset 0
      -- of each listed device agrees with the file, then a search for the first device and searches
      -- for the next until none is found return each device of the id once, in the file's order.
      pub collect-slots :
          (f : ℕ) (w : W)
          → length (slots id es) < f
          → collect f (os_pci_find_first_device os vid did w) ≡ slots id es
      unfolding os_pci_find_first_device
      collect-slots f w fuel =
          collect-reachable f none (pci_find_device os vid did none w) (find-HeadIs none w)
            (rw (reachable-none id es) fuel)
          ∙ reachable-none id es
