-- ===== src/User/Pci/Scan/Release.antt =====
-- A search closes the file that it opens, and allocates exactly the device that it returns.
use osal.Base.{
  ℕ, ◌+◌, ◌*◌, ◌≤◌, ◌≡◌, refl, true, Option, none, some, List, [], ◌∷◌, arith, to_nat, is_some,
  ◌==◌, Bool-cases, inl, inr, ap, ◌∙◌,
}
use osal.Types.{OsalResult, success}
use osal.User.Pci.Device.{PciDev}
use osal.User.Pci.Posix.{Posix, Counts}
use osal.User.Pci.Config.Files.{read_config-held}
use osal.User.Pci.Config.{os_pci_read_config_32}
use osal.User.Pci.Scan.{
  id_found, id_step, id_loop, class_compare, class_step, id_opened, wanted, pci_find_device,
  class_found, read_class, class_read, class_loop, class_opened, pci_find_device_by_class,
  scan_three, scan_one, slot_of, passed, class_of, same_class,
}

module _ {W : Type 0} (os : Posix W) (file block : ℕ) (held : W → ℕ)
    (law : Counts os file block held) where
  -- What a search leaves behind, from a state with the file open.
  abbrev Left : W → Option PciDev × W → Type 0
  Left w p = (file ≤ held w) → held p.1 + file ≡ held w + block * to_nat (is_some p.0)

  id_found-Left :
      (addr irq : ℕ) (w : W) (p : Option PciDev × W)
      → held p.1 ≡ held w + block * to_nat (is_some p.0)
      → Left w (id_found os addr irq p)
  unfolding id_found
  id_found-Left addr irq w (none, w') e h = omega (arith, law.fclose w')
  id_found-Left addr irq w (some d, w') e h = omega (arith, law.fclose w')

  closed-Left : (w : W) → Left w (none, os.fclose w)
  closed-Left w h = omega (arith, law.fclose w)

  id_step-Left :
      (id : ℕ) (cur : Option PciDev) (parsed : Option (ℕ × ℕ × ℕ)) (more : W → Option PciDev × W)
      (w : W)
      → Left w (more w)
      → Left w (id_step os id cur parsed more w)
  unfolding id_step
  id_step-Left id cur none more w rest = closed-Left w
  id_step-Left id cur (some (addr, found, irq)) more w rest = elim (Bool-cases (passed cur addr)) [
    | inl past ↦ rw past rest
    | inr ahead ↦ rw ahead (elim (Bool-cases (found == id)) [
      | inl hit ↦ rw hit (id_found-Left addr irq w (os.malloc w) (law.malloc w))
      | inr miss ↦ rw miss rest
    ])
  ]

  id_loop-Left :
      (id : ℕ) (cur : Option PciDev) (lines : List (List ℕ)) (w : W)
      → Left w (id_loop os id cur lines w)
  unfolding id_loop
  id_loop-Left id cur [] w = closed-Left w
  id_loop-Left id cur (line ∷ lines) w =
      id_step-Left id cur (scan_three line) _ w (id_loop-Left id cur lines w)

  class_found-Left :
      (addr : ℕ) (w : W) (p : Option PciDev × W)
      → held p.1 ≡ held w + block * to_nat (is_some p.0)
      → Left w (class_found os addr p)
  unfolding class_found
  class_found-Left addr w (none, w') e h = omega (arith, law.fclose w')
  class_found-Left addr w (some d, w') e h = omega (arith, law.fclose w')

  class_read-same : (p : (OsalResult × Option ℕ) × W) → (class_read os p).1 ≡ p.1
  unfolding class_read
  class_read-same ((success, v), w) = refl
  class_read-same ((_, v), w) = refl

  seen-held : (addr : ℕ) (w : W) → held (class_read os (read_class os addr w)).1 ≡ held w
  unfolding read_class os_pci_read_config_32
  seen-held addr w =
      ap held (class_read-same (read_class os addr w))
      ∙ read_config-held os file block held law 4
          (some (record { slot_address = slot_of addr; irq = 0 })) 8 true w

  class_compare-Left :
      (cls : ℕ × ℕ × ℕ) (addr : ℕ) (w : W) (p : Option ℕ × W) (more : W → Option PciDev × W)
      → held p.1 ≡ held w
      → Left p.1 (more p.1)
      → Left w (class_compare os cls addr p more)
  unfolding class_compare
  class_compare-Left cls addr w (none, w') more e rest h = omega (arith, law.fclose w')
  class_compare-Left cls addr w (some v, w') more e rest h =
      elim (Bool-cases (same_class cls (class_of v))) [
        | inl hit ↦ rw hit (
            class_found-Left addr w (os.malloc w')
              (law.malloc w' ∙ ap (λ (n : ℕ). n + block * to_nat (is_some (os.malloc w').0)) e) h)
        | inr miss ↦ rw miss (omega (arith, rest (omega arith)))
      ]

  class_step-Left :
      (cls : ℕ × ℕ × ℕ) (cur : Option PciDev) (parsed : Option ℕ) (more : W → Option PciDev × W)
      (w : W)
      → ((w' : W) → Left w' (more w'))
      → Left w (class_step os cls cur parsed more w)
  unfolding class_step
  class_step-Left cls cur none more w rest = closed-Left w
  class_step-Left cls cur (some addr) more w rest = elim (Bool-cases (passed cur addr)) [
    | inl past ↦ rw past (rest w)
    | inr ahead ↦ rw ahead (
        class_compare-Left cls addr w (class_read os (read_class os addr w)) more (seen-held addr w)
          (rest (class_read os (read_class os addr w)).1))
  ]

  class_loop-Left :
      (cls : ℕ × ℕ × ℕ) (cur : Option PciDev) (lines : List (List ℕ)) (w : W)
      → Left w (class_loop os cls cur lines w)
  unfolding class_loop
  class_loop-Left cls cur [] w = closed-Left w
  class_loop-Left cls cur (line ∷ lines) w =
      class_step-Left cls cur (scan_one line) _ w (class_loop-Left cls cur lines)

  -- A search, given whether the file opens.
  abbrev Balanced : W → Option PciDev × W → Type 0
  Balanced w p = held p.1 ≡ held w + block * to_nat (is_some p.0)

  id_opened-Balanced :
      (id : ℕ) (cur : Option PciDev) (w : W) (p : Option (List (List ℕ)) × W)
      → held p.1 ≡ held w + file * to_nat (is_some p.0)
      → Balanced w (id_opened os id cur p)
  unfolding id_opened
  id_opened-Balanced id cur w (none, w') e = omega arith
  id_opened-Balanced id cur w (some lines, w') e =
      omega (arith, id_loop-Left id cur lines w' (omega arith))

  class_opened-Balanced :
      (cls : ℕ × ℕ × ℕ) (cur : Option PciDev) (w : W) (p : Option (List (List ℕ)) × W)
      → held p.1 ≡ held w + file * to_nat (is_some p.0)
      → Balanced w (class_opened os cls cur p)
  unfolding class_opened
  class_opened-Balanced cls cur w (none, w') e = omega arith
  class_opened-Balanced cls cur w (some lines, w') e =
      omega (arith, class_loop-Left cls cur lines w' (omega arith))

  -- For any count of open files and allocated devices that the calls respect, a search by id or by
  -- class, whether it finds a device, finds none or fails, changes the count by one device if it
  -- returns one and else not at all.
  pub find-held :
      (vid did subclass baseclass pi : ℕ) (cur : Option PciDev) (w : W)
      → Balanced w (pci_find_device os vid did cur w)
        × Balanced w (pci_find_device_by_class os subclass baseclass pi cur w)
  unfolding pci_find_device pci_find_device_by_class
  find-held vid did subclass baseclass pi cur w = (
    id_opened-Balanced (wanted vid did) cur w (os.fopen_devices w) (law.fopen_devices w),
    class_opened-Balanced (subclass, baseclass, pi) cur w (os.fopen_devices w)
        (law.fopen_devices w),
  )
