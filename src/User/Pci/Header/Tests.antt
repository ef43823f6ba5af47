-- ===== src/User/Pci/Header/Tests.antt =====
-- A configuration space in which each byte is its own position.
use osal.Base.{ℕ, zero, suc, ◌+◌, ◌<◌, ◌≡◌, refl, true, false, none, some, List, [], ◌∷◌, arith}
use osal.Base.Slices.{slice}
use osal.Types.{success}
use osal.User.Pci.Device.{PciDev, pci_bus}
use osal.User.Pci.Posix.{Posix}
use osal.User.Pci.Config.{from_bytes, os_pci_read_config_header}
use osal.User.Pci.Header.{header_of, header_size}
use osal.User.Pci.Header.Members.{number}
use osal.User.Pci.Header.Registers.{class_revision, type1, value}
use osal.User.Pci.Header.Reads.{read_register, DeliversWhole, DeliversParts, header-registers}

abbrev counting : (n from : ℕ) → List ℕ
counting zero from = []
counting (suc n) from = from ∷ counting n (from + 1)

abbrev space : List ℕ
space = counting 256 0

abbrev bridge : PciDev
bridge = record { slot_address = 0x20800; irq = 11 }

-- The state is the position of the file.
abbrev machine : Posix ℕ
machine = record {
  open_file = λ path m w. (some 3, 0);
  lseek = λ fd off w. (true, off);
  read = λ fd n w. (slice w n space, w + n);
  write = λ fd bs w. (0, w);
  close = λ fd w. w;
  fopen_devices = λ w. (none, w);
  fopen = λ path w. (false, w);
  fclose = λ w. w;
  malloc = λ w. (none, w);
  free = λ w. w;
}

small : pci_bus bridge.slot_address < 256
small = omega arith

whole : DeliversWhole machine bridge space 9 small refl
unfolding slice
whole = (3, refl, refl)

parts : DeliversParts machine bridge space 9 small refl
parts off n = (3, refl, refl, refl)

-- The structure has the bytes that are read into it, no more and no fewer.
size_256 : header_size space ≡ 256
unfolding header_size
size_256 = refl

found : value class_revision type1 (header_of space) ≡ some 0x0b0a0908
unfolding value header_of number from_bytes slice
found = refl

header-registers_example :
    ((os_pci_read_config_header machine (some bridge) true 9).0 ≡ (success, some space))
    × ((read_register machine class_revision bridge 9).0 ≡ (success, some 0x0b0a0908))
header-registers_example =
    header-registers machine bridge space 9 small refl class_revision type1 0x0b0a0908 whole parts
      found
