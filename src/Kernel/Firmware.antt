-- ===== src/Kernel/Firmware.antt =====
-- linux_kernel/src/osal_firmware.c: firmware images from the kernel.
pub mod Entries
use osal.Base.{ℕ, Bool, true, false, Option, none, some, List, if◌then◌else◌}
use osal.Types.{OsalResult, success, error, invalid_param}

-- `struct firmware`: its address, and what its fields hold.
pub record Entry : Type 0 where
  pub address : ℕ
  pub data_ptr : ℕ
  pub size : ℕ

-- `os_firmware_t`: `fw_entry` is none for NULL, and a buffer an address.
pub record Firmware : Type 0 where
  pub fw_entry : Option Entry
  pub fw_address : ℕ
  pub fw_size : ℕ

-- The kernel's calls: an entry is returned if request_firmware returns 0.
pub record FirmwareApi (W : Type 0) : Type 0 where
  pub request_firmware : List ℕ → W → Option Entry × W
  pub release_firmware : Entry → W → W
  pub device_register : W → Bool × W
  pub device_unregister : W → W

module _ {W : Type 0} (k : FirmwareApi W) where
  entry_requested : Firmware → Option Entry × W → (OsalResult × Option Firmware) × W
  entry_requested fw (none, w) = ((error, some fw), w)
  entry_requested fw (some e, w) =
      ((success, some (record { fw_entry = some e; fw_address = e.data_ptr; fw_size = e.size })), w)

  unfoldable pub os_firmware_request :
      (fw_image_fs_path : List ℕ) → Option Firmware → W → (OsalResult × Option Firmware) × W
  unfolding entry_requested
  os_firmware_request path none w = ((invalid_param, none), w)
  os_firmware_request path (some fw) w = entry_requested fw (k.request_firmware path w)

  unfoldable pub os_firmware_release : Option Firmware → W → (OsalResult × Option Firmware) × W
  os_firmware_release none w = ((invalid_param, none), w)
  os_firmware_release (some fw) w = elim fw.fw_entry [
    | none ↦ ((error, some fw), w)
    | some e ↦ (
      (success, some (record { fw_entry = none; fw_address = 0; fw_size = 0 })),
      k.release_firmware e w,
    )
  ]

  unfoldable pub osal_firmware_init : W → OsalResult × W
  osal_firmware_init w = let r = k.device_register w in (if r.0 then success else error, r.1)

  unfoldable pub osal_firmware_exit : W → OsalResult × W
  osal_firmware_exit w = (success, k.device_unregister w)
