-- ===== src/User/Pci/Tests.antt =====
-- Concrete runs of the PCI functions, on a machine with three devices.
use osal.Base.{
  ℕ, zero, suc, ◌+◌, ◌-◌, ◌*◌, ◌^◌, ◌<◌, ◌≡◌, refl, true, none, some, List, [], ◌∷◌, map, arith,
  ==_iff, to_nat, is_some, length,
}
use osal.Base.Lists.{has}
use osal.Types.{success}
use osal.User.Pci.Device.{PciDev, pci_bus, slot_path}
use osal.User.Pci.Device.Names.{slot_path_fits}
use osal.User.Pci.Posix.{Posix, Counts}
use osal.User.Pci.Config.{
  os_pci_read_config_8, os_pci_read_config_16, os_pci_read_config_32, os_pci_write_config_8,
  os_pci_write_config_16, os_pci_write_config_32, os_pci_read_config_header, from_bytes,
}
use osal.User.Pci.Config.Files.{config-held}
use osal.User.Pci.Address.{os_pci_device_from_address}
use osal.User.Pci.Address.Handles.{Outcome, device_from_address-Outcome}
use osal.User.Pci.Scan.{
  pci_find_device, pci_find_device_by_class, os_pci_find_first_device, slot_of, wanted,
}
use osal.User.Pci.Scan.Order.{Entry, line_of, Ascending, slots}
use osal.User.Pci.Scan.Release.{find-held}
use osal.User.Pci.Scan.Enumerate.{collect, collect-slots}

abbrev first : ℕ → List ℕ → List ℕ
first zero bs = []
first (suc n) [] = []
first (suc n) (b ∷ bs) = b ∷ first n bs

-- Vendor 0x8086 and device 0x2e68, as the configuration space has them.
abbrev id_bytes : List ℕ
id_bytes = 0x86 ∷ (0x80 ∷ (0x68 ∷ (0x2e ∷ [])))

abbrev devices : List Entry
devices = (0x10, 0x80862e68, 11) ∷ ((0x100, 0x12345678, 5) ∷ ((0x208, 0x80862e68, 3) ∷ []))

abbrev blank : PciDev
blank = record { slot_address = 0; irq = 77 }

-- The number of open files and allocated blocks is its state.
abbrev machine : Posix ℕ
machine = record {
  open_file = λ path m w. (some 3, w + 1);
  lseek = λ fd off w. (true, w);
  read = λ fd n w. (first n id_bytes, w);
  write = λ fd bs w. (length bs, w);
  close = λ fd w. w - 1;
  fopen_devices = λ w. (some (map line_of devices), w + 1);
  fopen = λ path w. (true, w + 1);
  fclose = λ w. w - 1;
  malloc = λ w. (some blank, w + 1);
  free = λ w. w - 1;
}

machine-Counts : Counts machine 1 1 (λ w. w)
machine-Counts = record {
  open_file = λ path m w. refl;
  lseek = λ fd off w. refl;
  read = λ fd n w. refl;
  write = λ fd bs w. refl;
  close = λ fd w. refl;
  fopen_devices = λ w. refl;
  fopen = λ path w. refl;
  fclose = λ w. refl;
  malloc = λ w. refl;
  free = λ w. refl;
}

config-held_example :
    (((os_pci_read_config_8 machine (some blank) 4 true 5).1) ≡ 5)
    × ((os_pci_read_config_16 machine (some blank) 4 true 5).1 ≡ 5)
    × ((os_pci_read_config_32 machine (some blank) 4 true 5).1 ≡ 5)
    × ((os_pci_write_config_8 machine (some blank) 4 9 5).1 ≡ 5)
    × ((os_pci_write_config_16 machine (some blank) 4 9 5).1 ≡ 5)
    × ((os_pci_write_config_32 machine (some blank) 4 9 5).1 ≡ 5)
    × ((os_pci_read_config_header machine (some blank) true 5).1 ≡ 5)
config-held_example = config-held machine 1 1 (λ w. w) machine-Counts (some blank) 4 9 true 5

find-held_example :
    ((pci_find_device machine 0x8086 0x2e68 none 5).1
      ≡ 5 + 1 * to_nat (is_some (pci_find_device machine 0x8086 0x2e68 none 5).0))
    × ((pci_find_device_by_class machine 3 2 1 none 5).1
        ≡ 5 + 1 * to_nat (is_some (pci_find_device_by_class machine 3 2 1 none 5).0))
find-held_example = find-held machine 1 1 (λ w. w) machine-Counts 0x8086 0x2e68 3 2 1 none 5

device_from_address-Outcome_example :
    Outcome machine 2 1 0 (true, 6) (os_pci_device_from_address machine 2 1 0 5).0
device_from_address-Outcome_example =
    device_from_address-Outcome machine 2 1 0 (omega arith) (omega arith) (omega arith) 5

read_id :
    (d : PciDev) (w : ℕ)
    → pci_bus d.slot_address < 256
    → (os_pci_read_config_32 machine (some d) 0 true w).0
      ≡ (success, some (0x2e68 * 2 ^ 16 + 0x8086))
unfolding os_pci_read_config_32 from_bytes
read_id d w h =
    rw ((==_iff (length (slot_path d.slot_address)) 21).1 ((slot_path_fits d.slot_address).1 h))
      refl

listed_id :
    (d : PciDev) (w : ℕ)
    → has d.slot_address (slots (wanted 0x8086 0x2e68) devices) ≡ true
    → (os_pci_read_config_32 machine (some d) 0 true w).0
      ≡ (success, some (0x2e68 * 2 ^ 16 + 0x8086))
unfolding slots wanted slot_of
listed_id d w h = read_id d w (ground arith)

devices-Ascending : Ascending devices
unfolding slot_of
devices-Ascending = ((omega arith, (omega arith, tt)), ((omega arith, tt), (tt, tt)))

few : length (slots (wanted 0x8086 0x2e68) devices) < 5
unfolding slots wanted
few = omega arith

collect-slots_example :
    collect machine 5 (os_pci_find_first_device machine 0x8086 0x2e68 2)
    ≡ slots (wanted 0x8086 0x2e68) devices
collect-slots_example =
    collect-slots machine (λ w. refl) 0x8086 0x2e68 devices (omega arith, omega arith)
      devices-Ascending (λ w. refl) listed_id 5 2 few
