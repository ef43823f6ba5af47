-- ===== src/Kernel/Pci.antt =====
-- linux_kernel/src/osal_pci.c: PCI devices through the kernel's PCI layer.
pub mod Enable
pub mod Addresses
mod Tests
use Prim.Native.Nat.{bit_or}
use osal.Base.{
  ℕ, zero, suc, ◌+◌, ◌*◌, ◌/◌, ◌%◌, ◌^◌, Bool, true, false, Option, none, some, List, [], ◌∷◌, ◌==◌,
  if◌then◌else◌, when,
}
use osal.Types.{OsalResult, success, not_found, invalid_param}

-- Of the kernel's `struct pci_dev` what is used: `bus->number` is `bus`.
pub record PciDev : Type 0 where
  pub irq : ℕ
  pub vendor : ℕ
  pub device : ℕ
  pub class : ℕ
  pub bus : ℕ
  pub devfn : ℕ

-- The kernel's calls, on its state. A search continues behind the device that it is given.
-- `read_config` and `write_config` are the byte, word and dword calls by the count of bytes; they
-- and `pci_enable_device` return the kernel's error code, 0 for none.
pub record PciApi (W : Type 0) : Type 0 where
  pub pci_get_device : (vendor device : ℕ) → Option PciDev → W → Option PciDev × W
  pub pci_get_class : (class : ℕ) → Option PciDev → W → Option PciDev × W
  pub pci_enable_device : PciDev → W → ℕ × W
  pub pci_intx : PciDev → W → W
  pub pci_find_bus : (bus : ℕ) → W → Bool × W
  pub pci_get_slot : (bus devfn : ℕ) → W → Option PciDev × W
  pub read_config : (bytes : ℕ) → PciDev → (offset : ℕ) → W → (ℕ × ℕ) × W
  pub write_config : (bytes : ℕ) → PciDev → (offset val : ℕ) → W → ℕ × W

-- The pointer `irq` may be NULL.
pub os_pci_get_interrupt : Option PciDev → (irq : Bool) → OsalResult × Option ℕ
os_pci_get_interrupt none irq = (invalid_param, none)
os_pci_get_interrupt (some dev) false = (invalid_param, none)
os_pci_get_interrupt (some dev) true = (success, some dev.irq)

unfoldable pub found_or_not : {W : Type 0} → Option PciDev × W → (OsalResult × Option PciDev) × W
found_or_not (none, w) = ((not_found, none), w)
found_or_not (some dev, w) = ((success, some dev), w)

module _ {W : Type 0} (k : PciApi W) where
  unfoldable pub os_pci_find_first_device :
      (vendor_id device_id : ℕ) → W → (OsalResult × Option PciDev) × W
  unfolding found_or_not
  os_pci_find_first_device vendor_id device_id w =
      found_or_not (k.pci_get_device vendor_id device_id none w)

  -- NULL leaves what the result points at as it is.
  unfoldable pub os_pci_find_next_device : Option PciDev → W → (OsalResult × Option PciDev) × W
  unfolding found_or_not
  os_pci_find_next_device none w = ((invalid_param, none), w)
  os_pci_find_next_device (some cur) w =
      found_or_not (k.pci_get_device cur.vendor cur.device (some cur) w)

  -- The loop of os_pci_enable_device at a device; false if the fuel runs out. What pci_enable_device
  -- returns is not looked at.
  unfoldable pub enable_from : (fuel : ℕ) → (OsalResult × Option PciDev) × W → Bool × W
  enable_from zero p = (false, p.1)
  enable_from (suc f) ((success, some dev), w) =
      enable_from f
        (os_pci_find_next_device (some dev) (k.pci_intx dev (k.pci_enable_device dev w).1))
  enable_from (suc f) ((r, dev), w) = (true, w)

  enable_first : (fuel : ℕ) → (OsalResult × Option PciDev) × W → Option OsalResult × W
  unfolding enable_from
  enable_first fuel ((success, dev), w) =
      let rest = enable_from fuel ((success, dev), w) in
      ((if rest.0 then some success else none), rest.1)
  enable_first fuel ((r, dev), w) = (some not_found, w)

  -- The first result is none if the fuel runs out.
  unfoldable pub os_pci_enable_device : (fuel vendor_id device_id : ℕ) → W → Option OsalResult × W
  unfolding enable_first
  os_pci_enable_device fuel vendor_id device_id w =
      enable_first fuel (os_pci_find_first_device vendor_id device_id w)

  bus_found : (bus devfn : ℕ) → Bool × W → (OsalResult × Option PciDev) × W
  unfolding found_or_not
  bus_found bus devfn (false, w) = ((not_found, none), w)
  bus_found bus devfn (true, w) = found_or_not (k.pci_get_slot bus devfn w)

  -- `slot` has 32 bits.
  unfoldable pub os_pci_device_from_slot : (slot : ℕ) → W → (OsalResult × Option PciDev) × W
  unfolding bus_found
  os_pci_device_from_slot slot w =
      let bus = slot / 2 ^ 16 in bus_found bus (slot / 2 ^ 8 % 2 ^ 8) (k.pci_find_bus bus w)

  -- `class` is put together by shifts and ORs.
  pub os_pci_find_first_device_by_class :
      (subclass baseclass pi : ℕ) → W → (OsalResult × Option PciDev) × W
  unfolding found_or_not
  os_pci_find_first_device_by_class subclass baseclass pi w =
      found_or_not
        (k.pci_get_class (bit_or (bit_or (baseclass * 2 ^ 16) (subclass * 2 ^ 8)) pi) none w)

  -- The current device is not tested for NULL.
  pub os_pci_find_next_device_by_class : PciDev → W → (OsalResult × Option PciDev) × W
  unfolding found_or_not
  os_pci_find_next_device_by_class cur w = found_or_not (k.pci_get_class cur.class (some cur) w)

  unfoldable pub os_pci_device_from_address :
      (bus dev func : ℕ) → W → (OsalResult × Option PciDev) × W
  os_pci_device_from_address bus dev func =
      os_pci_device_from_slot
        (bit_or (bit_or (bus * 2 ^ 16) (dev % 2 ^ 5 * 2 ^ 11)) (func % 2 ^ 3 * 2 ^ 8))

  -- The six accesses pass the kernel's code on.
  pub os_pci_read_config_8 : PciDev → (offset : ℕ) → W → (ℕ × ℕ) × W
  os_pci_read_config_8 = k.read_config 1

  pub os_pci_read_config_16 : PciDev → (offset : ℕ) → W → (ℕ × ℕ) × W
  os_pci_read_config_16 = k.read_config 2

  unfoldable pub os_pci_read_config_32 : PciDev → (offset : ℕ) → W → (ℕ × ℕ) × W
  os_pci_read_config_32 = k.read_config 4

  pub os_pci_write_config_8 : PciDev → (offset val : ℕ) → W → ℕ × W
  os_pci_write_config_8 = k.write_config 1

  pub os_pci_write_config_16 : PciDev → (offset val : ℕ) → W → ℕ × W
  os_pci_write_config_16 = k.write_config 2

  pub os_pci_write_config_32 : PciDev → (offset val : ℕ) → W → ℕ × W
  os_pci_write_config_32 = k.write_config 4

-- The handle is not tested for NULL, and the numbers of the bus and the function have 8 bits each.
unfoldable pub os_pci_get_slot_address : PciDev → OsalResult × ℕ
os_pci_get_slot_address dev = (success, bit_or (dev.bus * 2 ^ 16) (dev.devfn * 2 ^ 8))

-- The kernel's PCI_SLOT and PCI_FUNC take the five high and the three low bits of `devfn`.
unfoldable pub os_pci_get_device_address :
    PciDev → (bus dev func : Bool) → OsalResult × Option ℕ × Option ℕ × Option ℕ
os_pci_get_device_address pdev bus dev func = (
  success,
  when bus pdev.bus,
  when dev (pdev.devfn / 2 ^ 3 % 2 ^ 5),
  when func (pdev.devfn % 2 ^ 3),
)

pub os_pci_free_device : Option PciDev → OsalResult
os_pci_free_device dev = success
