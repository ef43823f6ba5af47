-- ===== src/User/Pci/Address.antt =====
-- Handles from addresses and addresses from handles, in linux_user/src/osal_pci.c.
pub mod Handles
use Prim.Native.Nat.{bit_or}
use osal.Base.{
  ℕ, ◌*◌, ◌%◌, ◌^◌, Bool, true, false, Option, none, some, List, ◌==◌, if◌then◌else◌, when, length,
}
use osal.Types.{
  OsalResult, success, error, not_found, invalid_handle, invalid_param, insufficient_memory,
}
use osal.User.Pci.Device.{PciDev, pci_bus, pci_dev, pci_func, slot_path}
use osal.User.Pci.Posix.{Posix}

-- The pointer `irq` is not tested.
pub os_pci_get_interrupt : Option PciDev → OsalResult × Option ℕ
os_pci_get_interrupt none = (invalid_param, none)
os_pci_get_interrupt (some dev) = (success, some dev.irq)

pub os_pci_enable_device : (vendor_id device_id : ℕ) → OsalResult
os_pci_enable_device vendor_id device_id = error

module _ {W : Type 0} (os : Posix W) where
  slot_alloc : ℕ → Option PciDev × W → (OsalResult × Option PciDev) × W
  slot_alloc slot (none, w) = ((insufficient_memory, none), os.fclose w)
  slot_alloc slot (some device, w) =
      ((success, some (record device { slot_address = slot })), os.fclose w)

  slot_opened : ℕ → Bool × W → (OsalResult × Option PciDev) × W
  unfolding slot_alloc
  slot_opened slot (false, w) = ((not_found, none), w)
  slot_opened slot (true, w) = slot_alloc slot (os.malloc w)

  pub os_pci_device_from_slot : ℕ → W → (OsalResult × Option PciDev) × W
  unfolding slot_opened
  os_pci_device_from_slot slot w =
      let path = slot_path slot in
      if length path == 21 then slot_opened slot (os.fopen path w) else ((error, none), w)

  pub os_pci_device_from_address : (bus dev func : ℕ) → W → (OsalResult × Option PciDev) × W
  os_pci_device_from_address bus dev func =
      os_pci_device_from_slot (bit_or (bit_or (bus * 2 ^ 16) (dev * 2 ^ 11)) (func * 2 ^ 8))

  unfoldable pub os_pci_free_device : Option PciDev → W → OsalResult × W
  os_pci_free_device none w = (success, w)
  os_pci_free_device (some dev) w = (success, os.free w)

-- The handle is not tested for NULL; each of the three pointers may be NULL.
unfoldable pub os_pci_get_device_address :
    PciDev → (bus dev func : Bool) → OsalResult × Option ℕ × Option ℕ × Option ℕ
os_pci_get_device_address pdev bus dev func = (
  success,
  when bus (pci_bus pdev.slot_address),
  when dev (pci_dev pdev.slot_address),
  when func (pci_func pdev.slot_address),
)

unfoldable pub os_pci_get_slot_address : Option PciDev → Bool → OsalResult × Option ℕ
os_pci_get_slot_address none slot = (invalid_handle, none)
os_pci_get_slot_address (some dev) false = (invalid_param, none)
os_pci_get_slot_address (some dev) true = (success, some (dev.slot_address % 2 ^ 32))
