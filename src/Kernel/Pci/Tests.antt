-- ===== src/Kernel/Pci/Tests.antt =====
-- A machine with two devices of one id.
use osal.Base.{
  ℕ, ◌<◌, ◌≡◌, refl, ap, true, false, Option, none, some, List, [], ◌∷◌, ◌++◌, arith, ◌==◌,
  if◌then◌else◌, length,
}
use osal.Types.{success}
use osal.Kernel.Pci.{
  PciDev, PciApi, os_pci_enable_device, os_pci_get_slot_address, os_pci_get_device_address,
}
use osal.Kernel.Pci.Enable.{matching, first_match, Searches, answer, enable_device-answer}
use osal.Kernel.Pci.Addresses.{IsAddressed, slot-agrees}
use osal.User.Pci.Device as User
use osal.User.Pci.Address as UserAddress

abbrev dev_at : ℕ → PciDev
dev_at n = record { irq = 9; vendor = 0x8086; device = 0x2e5c; class = 3; bus = 1; devfn = n }

abbrev devs : List PciDev
devs = dev_at 0 ∷ (dev_at 1 ∷ [])

-- The second device is behind the one with the number 0, and nothing behind any other.
abbrev behind_of : Option PciDev → List PciDev
behind_of none = devs
behind_of (some cur) = if cur.devfn == 0 then dev_at 1 ∷ [] else []

-- The state is the log of the calls of pci_enable_device, all of which fail.
abbrev kernel : PciApi (List PciDev)
kernel = record {
  pci_get_device = λ v d cur w. (first_match v d (behind_of cur), w);
  pci_get_class = λ c cur w. (none, w);
  pci_enable_device = λ dev w. (22, w ++ dev ∷ []);
  pci_intx = λ dev w. w;
  pci_find_bus = λ bus w. (true, w);
  pci_get_slot = λ bus devfn w. (some (dev_at devfn), w);
  read_config = λ n dev off w. ((0, 0), w);
  write_config = λ n dev off val w. (0, w);
}

behind_lem :
    (cur : PciDev) (before after : List PciDev)
    → devs ≡ before ++ cur ∷ after
    → behind_of (some cur) ≡ after
behind_lem cur [] after e = ground arith
behind_lem cur (x ∷ []) after e = ground arith
behind_lem cur (x ∷ (y ∷ ys)) after e = absurd (ground (arith, ne-nil ys cur after))
  where
    ne-nil : (ys : List PciDev) (cur : PciDev) (after : List PciDev) → ¬ ([] ≡ ys ++ cur ∷ after)
    ne-nil [] cur after e = cc
    ne-nil (z ∷ ys) cur after e = cc

kernel-Searches : Searches kernel devs (λ w. w)
kernel-Searches = record {
  first = λ v d w hv hd. refl;
  behind = λ v d cur before after w hv hd e. ap (first_match v d) (behind_lem cur before after e);
  log_get = λ v d cur w. refl;
  log_enable = λ dev w. refl;
  log_intx = λ dev w. refl;
}

few : length (matching 0x8086 0x2e5c devs) < 3
unfolding matching
few = omega arith

enable_device-answer_example :
    let r = os_pci_enable_device kernel 3 0x8086 0x2e5c [] in
    (r.0 ≡ answer (matching 0x8086 0x2e5c devs)) × (r.1 ≡ [] ++ matching 0x8086 0x2e5c devs)
enable_device-answer_example =
    enable_device-answer kernel devs (λ w. w) kernel-Searches 0x8086 0x2e5c 3 [] (omega arith)
      (omega arith) few

addressed : IsAddressed (dev_at 0x51)
addressed = record { bus_byte = omega arith; devfn_byte = omega arith }

slot-agrees_example :
    let u : User.PciDev = record {
      slot_address = (os_pci_get_slot_address (dev_at 0x51)).1;
      irq = 4;
    } in
    (UserAddress.os_pci_get_device_address u true false true
      ≡ os_pci_get_device_address (dev_at 0x51) true false true)
    × (UserAddress.os_pci_get_slot_address (some u) true
        ≡ (success, some (os_pci_get_slot_address (dev_at 0x51)).1))
slot-agrees_example = slot-agrees (dev_at 0x51) 4 true false true addressed
