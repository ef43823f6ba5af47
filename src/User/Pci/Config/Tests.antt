-- ===== src/User/Pci/Config/Tests.antt =====
-- A device whose configuration space keeps the bytes that are written last.
use osal.Base.{ℕ, ◌%◌, ◌^◌, ◌<◌, ◌≡◌, refl, true, false, none, some, List, [], arith, length}
use osal.Types.{success}
use osal.User.Pci.Device.{PciDev, pci_bus, slot_path}
use osal.User.Pci.Posix.{Posix}
use osal.User.Pci.Config.{os_pci_read_config_16, os_pci_write_config_16, to_bytes}
use osal.User.Pci.Config.Values.{bits_16, Written, Delivers, write-read_config}

abbrev bridge : PciDev
bridge = record { slot_address = 0x20800; irq = 11 }

abbrev store : Posix (List ℕ)
store = record {
  open_file = λ path m w. (some 3, w);
  lseek = λ fd off w. (true, w);
  read = λ fd n w. (w, w);
  write = λ fd bs w. (length bs, bs);
  close = λ fd w. w;
  fopen_devices = λ w. (none, w);
  fopen = λ path w. (false, w);
  fclose = λ w. w;
  malloc = λ w. (none, w);
  free = λ w. w;
}

bridge-small : pci_bus bridge.slot_address < 256
bridge-small = omega arith

store-keeps :
    (x y : List ℕ)
    → Written store bridge 16 2 bridge-small 0x1ff02 x y
    → Delivers store bridge 16 2 bridge-small (to_bytes 2 0x1ff02) y
store-keeps x y (fd, o, s, c, e) = (3, refl, refl, e)

written : (os_pci_write_config_16 store (some bridge) 16 0x1ff02 []).0 ≡ success
unfolding os_pci_write_config_16 slot_path to_bytes
written = refl

write-read_config_example :
    (os_pci_read_config_16 store
      (some bridge)
      16
      true
      (os_pci_write_config_16 store (some bridge) 16 0x1ff02 []).1).0
    ≡ (success, some (0x1ff02 % 2 ^ 16))
write-read_config_example =
    write-read_config store bits_16 bridge 16 0x1ff02 [] bridge-small store-keeps written
