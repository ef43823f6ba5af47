-- ===== src/User/Pci/Scan.antt =====
-- The searches through /proc/bus/pci/devices in linux_user/src/osal_pci.c.
pub mod Release
pub mod Order
pub mod Enumerate
use Prim.Native.Nat.{bit_or}
use osal.Base.{
  ℕ, ◌*◌, ◌/◌, ◌%◌, ◌^◌, Bool, true, false, ◌&&◌, Option, none, some, List, [], ◌∷◌, ◌==◌, leb,
  if◌then◌else◌,
}
use osal.Types.{OsalResult, success, error, not_found, invalid_param}
use osal.User.Pci.Device.{PciDev}
use osal.User.Pci.Posix.{Posix}
use osal.User.Pci.Config.{os_pci_read_config_32}

-- `nDevAddr << 8`, of a 32-bit number.
unfoldable pub slot_of : ℕ → ℕ
slot_of addr = addr * 2 ^ 8 % 2 ^ 32

-- "%x %x %x" converts three numbers; any other count ends the search.
unfoldable pub scan_three : List ℕ → Option (ℕ × ℕ × ℕ)
scan_three (addr ∷ (id ∷ (irq ∷ more))) = some (addr, id, irq)
scan_three short = none

unfoldable pub scan_one : List ℕ → Option ℕ
scan_one (addr ∷ more) = some addr
scan_one [] = none

-- A search for the next device goes past the current one.
unfoldable pub passed : Option PciDev → ℕ → Bool
unfolding slot_of
passed none addr = false
passed (some dev) addr = leb (slot_of addr) dev.slot_address

-- `did | (vid<<16)`.
unfoldable pub wanted : (vid did : ℕ) → ℕ
wanted vid did = bit_or did (vid * 2 ^ 16 % 2 ^ 32)

-- Of the value at offset 8: subclass, base class and programming interface.
unfoldable pub class_of : ℕ → ℕ × ℕ × ℕ
class_of v = (v / 2 ^ 16 % 256, v / 2 ^ 24 % 256, v / 2 ^ 8 % 256)

unfoldable pub same_class : ℕ × ℕ × ℕ → ℕ × ℕ × ℕ → Bool
same_class (sub, base, pi) (sub', base', pi') = (base == base') && ((sub == sub') && (pi == pi'))

module _ {W : Type 0} (os : Posix W) where
  id_found : (addr irq : ℕ) → Option PciDev × W → Option PciDev × W
  unfolding slot_of
  id_found addr irq (none, w) = (none, os.fclose w)
  id_found addr irq (some device, w) =
      (some (record device { slot_address = slot_of addr; irq = irq }), os.fclose w)

  -- One line of the file, and the search through the lines below it.
  id_step :
      (id : ℕ)
      → Option PciDev
      → Option (ℕ × ℕ × ℕ)
      → (W → Option PciDev × W)
      → W
      → Option PciDev × W
  unfolding id_found passed
  id_step id cur none more w = (none, os.fclose w)
  id_step id cur (some (addr, found, irq)) more w =
      if passed cur addr
      then more w
      else if found == id
      then id_found addr irq (os.malloc w)
      else more w

  id_loop : (id : ℕ) → Option PciDev → List (List ℕ) → W → Option PciDev × W
  unfolding id_step scan_three
  id_loop id cur [] w = (none, os.fclose w)
  id_loop id cur (line ∷ lines) w = id_step id cur (scan_three line) (id_loop id cur lines) w

  id_opened : (id : ℕ) → Option PciDev → Option (List (List ℕ)) × W → Option PciDev × W
  unfolding id_loop
  id_opened id cur (none, w) = (none, w)
  id_opened id cur (some lines, w) = id_loop id cur lines w

  unfoldable pub pci_find_device : (vid did : ℕ) → Option PciDev → W → Option PciDev × W
  unfolding id_opened wanted
  pci_find_device vid did cur w = id_opened (wanted vid did) cur (os.fopen_devices w)

  found_or_not : Option PciDev × W → (OsalResult × Option PciDev) × W
  found_or_not (none, w) = ((not_found, none), w)
  found_or_not (some dev, w) = ((success, some dev), w)

  pub os_pci_find_first_device : (vendor_id device_id : ℕ) → W → (OsalResult × Option PciDev) × W
  unfolding pci_find_device found_or_not
  os_pci_find_first_device vendor_id device_id w =
      found_or_not (pci_find_device vendor_id device_id none w)

  -- After the read of the device and vendor id at offset 0.
  next_read : PciDev → (OsalResult × Option ℕ) × W → (OsalResult × Option PciDev) × W
  unfolding pci_find_device found_or_not
  next_read cur ((success, some did_vid), w) =
      found_or_not (pci_find_device (did_vid % 2 ^ 16) (did_vid / 2 ^ 16 % 2 ^ 16) (some cur) w)
  next_read cur ((r, v), w) = ((error, none), w)

  pub os_pci_find_next_device : Option PciDev → W → (OsalResult × Option PciDev) × W
  unfolding next_read
  os_pci_find_next_device none w = ((invalid_param, none), w)
  os_pci_find_next_device (some cur) w =
      next_read cur (os_pci_read_config_32 os (some cur) 0 true w)

  -- The field `irq` stays what `malloc` left there.
  class_found : (addr : ℕ) → Option PciDev × W → Option PciDev × W
  unfolding slot_of
  class_found addr (none, w) = (none, os.fclose w)
  class_found addr (some device, w) =
      (some (record device { slot_address = slot_of addr }), os.fclose w)

  -- `temp_dev` has an address only: its `irq` is not read.
  read_class : (addr : ℕ) → W → (OsalResult × Option ℕ) × W
  unfolding slot_of
  read_class addr =
      os_pci_read_config_32 os (some (record { slot_address = slot_of addr; irq = 0 })) 8 true

  -- The class at offset 8, or none if it cannot be read.
  class_read : (OsalResult × Option ℕ) × W → Option ℕ × W
  class_read ((success, v), w) = (v, w)
  class_read ((r, v), w) = (none, w)

  class_compare :
      ℕ × ℕ × ℕ → (addr : ℕ) → Option ℕ × W → (W → Option PciDev × W) → Option PciDev × W
  unfolding class_found class_of same_class
  class_compare cls addr (none, w) more = (none, os.fclose w)
  class_compare cls addr (some v, w) more =
      if same_class cls (class_of v) then class_found addr (os.malloc w) else more w

  class_step :
      ℕ × ℕ × ℕ → Option PciDev → Option ℕ → (W → Option PciDev × W) → W → Option PciDev × W
  unfolding class_compare class_read read_class passed
  class_step cls cur none more w = (none, os.fclose w)
  class_step cls cur (some addr) more w =
      if passed cur addr
      then more w
      else class_compare cls addr (class_read (read_class addr w)) more

  class_loop : ℕ × ℕ × ℕ → Option PciDev → List (List ℕ) → W → Option PciDev × W
  unfolding class_step scan_one
  class_loop cls cur [] w = (none, os.fclose w)
  class_loop cls cur (line ∷ lines) w =
      class_step cls cur (scan_one line) (class_loop cls cur lines) w

  class_opened : ℕ × ℕ × ℕ → Option PciDev → Option (List (List ℕ)) × W → Option PciDev × W
  unfolding class_loop
  class_opened cls cur (none, w) = (none, w)
  class_opened cls cur (some lines, w) = class_loop cls cur lines w

  pub pci_find_device_by_class : (subclass baseclass pi : ℕ) → Option PciDev → W → Option PciDev × W
  unfolding class_opened
  pci_find_device_by_class subclass baseclass pi cur w =
      class_opened (subclass, baseclass, pi) cur (os.fopen_devices w)

  pub os_pci_find_first_device_by_class :
      (subclass baseclass pi : ℕ) → W → (OsalResult × Option PciDev) × W
  unfolding pci_find_device_by_class found_or_not
  os_pci_find_first_device_by_class subclass baseclass pi w =
      found_or_not (pci_find_device_by_class subclass baseclass pi none w)

  next_class_read : PciDev → (OsalResult × Option ℕ) × W → (OsalResult × Option PciDev) × W
  unfolding class_of pci_find_device_by_class found_or_not
  next_class_read cur ((success, some v), w) =
      let cls = class_of v in found_or_not (pci_find_device_by_class cls.0 cls.1 cls.2 (some cur) w)
  next_class_read cur ((r, v), w) = ((error, none), w)

  pub os_pci_find_next_device_by_class : Option PciDev → W → (OsalResult × Option PciDev) × W
  unfolding next_class_read
  os_pci_find_next_device_by_class none w = ((invalid_param, none), w)
  os_pci_find_next_device_by_class (some cur) w =
      next_class_read cur (os_pci_read_config_32 os (some cur) 8 true w)
