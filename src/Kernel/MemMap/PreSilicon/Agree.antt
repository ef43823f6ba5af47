-- ===== src/Kernel/MemMap/PreSilicon/Agree.antt =====
-- Where the kernel maps device memory with PRE_SILICON, and that user space does the same.
use osal.Base.{
  ◌<◌, ℕ, ◌+◌, ◌%◌, ◌^◌, ◌≡◌, refl, sym, ap, ◌∙◌, Bool, true, false, Option, none, some, List, [],
  ◌∷◌, arith, is_some, if◌then◌else◌, leb, inl, inr, Bool-cases,
}
use osal.Cards.{Card, AllCards, all_cards-AllCards, bar_offset, expected_base}
use osal.User.Pci.Posix.{Posix}
use osal.User.MemMap.PreSilicon as UserPreSilicon
use osal.User.MemMap.PreSilicon.Moved.{Machine, detect-base}
use osal.Kernel.Pci.{PciDev, PciApi, os_pci_find_first_device, os_pci_read_config_32, found_or_not}
use osal.Kernel.MemMap.PreSilicon.{matched, detect, cards, bar_read, base_moved, pre_silicon_base}

-- The machine as the kernel's PCI layer shows it: which ids of 16 bits there are, so that none is the
-- kernel's PCI_ANY_ID, and what their base address registers hold.
pub record KernelMachine {W : Type 0} (pci : PciApi W) (present : (vid did : ℕ) → Bool)
    (registers : (vid did offset : ℕ) → ℕ) : Type 0 where
  pub finds :
      (vid did : ℕ) (w : W)
      → vid < 2 ^ 16
      → did < 2 ^ 16
      → is_some (pci.pci_get_device vid did none w).0 ≡ present vid did
  pub reads :
      (vid did bar : ℕ) (dev : PciDev) (w w' : W)
      → vid < 2 ^ 16
      → did < 2 ^ 16
      → bar < 6
      → (pci.pci_get_device vid did none w).0 ≡ some dev
      → (pci.read_config 4 dev (bar_offset bar) w').0 ≡ (0, registers vid did (bar_offset bar))

module _ {W : Type 0} (pci : PciApi W) (present : (vid did : ℕ) → Bool)
    (registers : (vid did offset : ℕ) → ℕ) (machine : KernelMachine pci present registers) where
  bar_read-base :
      (base v : ℕ) (p : (ℕ × ℕ) × W) → p.0 ≡ (0, v) → (bar_read pci base p).0 ≡ (base + v) % 2 ^ 32
  unfolding bar_read
  bar_read-base base v ((r, x), w) e =
      rw (ap (λ (t : ℕ × ℕ). t.0) e, ap (λ (t : ℕ × ℕ). t.1) e) refl

  matched-base :
      (base : ℕ) (c : Card) (cs : List Card) (p : Option PciDev × W)
      (rest : W → Option (PciDev × ℕ) × W)
      → is_some p.0 ≡ present c.vid c.did
      → ((dev : PciDev) (w' : W)
          → p.0 ≡ some dev
          → (os_pci_read_config_32 pci dev (bar_offset c.bar) w').0
            ≡ (0, registers c.vid c.did (bar_offset c.bar)))
      → ((w' : W) → (base_moved pci base (rest w')).0 ≡ expected_base present registers cs base)
      → (base_moved pci base (matched pci c (found_or_not p) rest)).0
        ≡ expected_base present registers (c ∷ cs) base
  unfolding matched base_moved expected_base found_or_not
  matched-base base c cs (none, w) rest f r h = rw (h w) (ground arith)
  matched-base base c cs (some dev, w) rest f r h = rw (sym f) (
      bar_read-base base (registers c.vid c.did (bar_offset c.bar))
        (os_pci_read_config_32 pci dev (bar_offset c.bar) w) (r dev w refl))

  kernel-base :
      (base : ℕ) (cs : List Card) (w : W)
      → AllCards cs
      → (base_moved pci base (detect pci cs w)).0 ≡ expected_base present registers cs base
  unfolding detect base_moved expected_base os_pci_find_first_device os_pci_read_config_32
  kernel-base base [] w ok = refl
  kernel-base base (c ∷ cs) w (ok, oks) =
      matched-base base c cs (pci.pci_get_device c.vid c.did none w) (λ w'. detect pci cs w')
        (machine.finds c.vid c.did w ok.0 ok.1)
        (λ dev w'. machine.reads c.vid c.did c.bar dev w w' ok.0 ok.1 ok.2)
        (λ w'. kernel-base base cs w' oks)

-- The two lists of cards lead to the same place where the two that only user space knows are absent.
cards-agree :
    (present : (vid did : ℕ) → Bool) (registers : (vid did offset : ℕ) → ℕ) (base : ℕ)
    → present 0x8086 0x5453 ≡ false
    → present 0x8086 0x1127 ≡ false
    → expected_base present registers UserPreSilicon.cards base
      ≡ expected_base present registers cards base
unfolding expected_base
cards-agree present registers base gateway mav = rw (gateway, mav) refl

user_cards : AllCards UserPreSilicon.cards
user_cards = all_cards-AllCards UserPreSilicon.cards refl

kernel_cards : AllCards cards
kernel_cards = all_cards-AllCards cards refl

-- On a machine without the two cards that only user space knows, whose other cards and registers both
-- the device files and the kernel's PCI layer show, user space, while the Rambo cards count, and the
-- kernel map a base address at the same place with PRE_SILICON: from 0 to 0x20000000 behind what the
-- register of the first card holds that is present, and elsewhere, and without a card, where it is.
pub bases-agree :
    {U W : Type 0} (posix : Posix U) (pci : PciApi W) (present : (vid did : ℕ) → Bool)
    (registers : (vid did offset : ℕ) → ℕ) (base : ℕ) (u : U) (w : W)
    → Machine posix present registers
    → KernelMachine pci present registers
    → present 0x8086 0x5453 ≡ false
    → present 0x8086 0x1127 ≡ false
    → let moved =
        if leb base 0x20000000 then expected_base present registers cards base else base in
      ((UserPreSilicon.pre_silicon_base posix true base u).0 ≡ moved)
      × ((pre_silicon_base pci base w).0 ≡ moved)
unfolding UserPreSilicon.pre_silicon_base pre_silicon_base
bases-agree posix pci present registers base u w user kernel gateway mav =
    let same = cards-agree present registers base gateway mav in
    let there =
      detect-base posix present registers user base UserPreSilicon.cards u user_cards ∙ same in
    let here = kernel-base pci present registers kernel base cards w kernel_cards in
    elim (Bool-cases (leb base 0x20000000)) [
      | inl e ↦ rw e (there, here)
      | inr e ↦ rw e (refl, refl)
    ]
