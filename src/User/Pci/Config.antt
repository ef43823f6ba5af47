-- ===== src/User/Pci/Config.antt =====
-- os_pci_read_config_* and os_pci_write_config_* of linux_user/src/osal_pci.c.
-- The three widths have one text but for the count of bytes. A NULL handle is `none`; whether the
-- pointer `val` is NULL is a Boolean, and what is stored through it is the second result (of the
-- header's buffer, what is stored on success).
pub mod Files
pub mod Values
mod Tests
use osal.Base.{
  ℕ, zero, suc, ◌+◌, ◌*◌, ◌/◌, ◌%◌, Bool, true, false, Option, none, some, List, [], ◌∷◌, ◌==◌,
  if◌then◌else◌, length,
}
use osal.Types.{OsalResult, success, error, not_found, invalid_handle, invalid_param}
use osal.User.Pci.Device.{PciDev, slot_path}
use osal.User.Pci.Posix.{Posix, rdonly, wronly}

-- The value of the low bytes of a little-endian machine's word.
unfoldable pub from_bytes : List ℕ → ℕ
from_bytes [] = 0
from_bytes (b ∷ bs) = b + 256 * from_bytes bs

unfoldable pub to_bytes : ℕ → ℕ → List ℕ
to_bytes zero v = []
to_bytes (suc n) v = (v % 256) ∷ to_bytes n (v / 256)

module _ {W : Type 0} (os : Posix W) where
  unfoldable pub read_close : (n fd : ℕ) → List ℕ × W → (OsalResult × Option (List ℕ)) × W
  read_close n fd (bytes, w) =
      if length bytes == n
      then ((success, some bytes), os.close fd w)
      else ((error, none), os.close fd w)

  read_sought : (n fd : ℕ) → Bool × W → (OsalResult × Option (List ℕ)) × W
  unfolding read_close
  read_sought n fd (false, w) = ((error, none), os.close fd w)
  read_sought n fd (true, w) = read_close n fd (os.read fd n w)

  read_opened : (n offset : ℕ) → Option ℕ × W → (OsalResult × Option (List ℕ)) × W
  unfolding read_sought
  read_opened n offset (none, w) = ((not_found, none), w)
  read_opened n offset (some fd, w) = read_sought n fd (os.lseek fd offset w)

  -- The common text of the readers, behind the tests for NULL.
  read_bytes : (n : ℕ) → PciDev → (offset : ℕ) → W → (OsalResult × Option (List ℕ)) × W
  unfolding read_opened
  read_bytes n dev offset w =
      let path = slot_path dev.slot_address in
      if length path == 21
      then read_opened n offset (os.open_file path rdonly w)
      else ((error, none), w)

  as_value : (OsalResult × Option (List ℕ)) × W → (OsalResult × Option ℕ) × W
  as_value ((r, none), w) = ((r, none), w)
  as_value ((r, some bytes), w) = ((r, some (from_bytes bytes)), w)

  pub read_config : ℕ → Option PciDev → ℕ → Bool → W → (OsalResult × Option ℕ) × W
  unfolding read_bytes as_value
  read_config n none offset val w = ((invalid_handle, none), w)
  read_config n (some dev) offset false w = ((invalid_param, none), w)
  read_config n (some dev) offset true w = as_value (read_bytes n dev offset w)

  unfoldable pub os_pci_read_config_8 : Option PciDev → ℕ → Bool → W → (OsalResult × Option ℕ) × W
  unfolding read_config
  os_pci_read_config_8 = read_config 1

  unfoldable pub os_pci_read_config_16 : Option PciDev → ℕ → Bool → W → (OsalResult × Option ℕ) × W
  unfolding read_config
  os_pci_read_config_16 = read_config 2

  unfoldable pub os_pci_read_config_32 : Option PciDev → ℕ → Bool → W → (OsalResult × Option ℕ) × W
  unfolding read_config
  os_pci_read_config_32 = read_config 4

  write_close : (n fd : ℕ) → ℕ × W → OsalResult × W
  write_close n fd (count, w) =
      if count == n then (success, os.close fd w) else (error, os.close fd w)

  write_sought : (n val fd : ℕ) → Bool × W → OsalResult × W
  unfolding write_close
  write_sought n val fd (false, w) = (error, os.close fd w)
  write_sought n val fd (true, w) = write_close n fd (os.write fd (to_bytes n val) w)

  write_opened : (n offset val : ℕ) → Option ℕ × W → OsalResult × W
  unfolding write_sought
  write_opened n offset val (none, w) = (not_found, w)
  write_opened n offset val (some fd, w) = write_sought n val fd (os.lseek fd offset w)

  pub write_config : ℕ → Option PciDev → (offset val : ℕ) → W → OsalResult × W
  unfolding write_opened
  write_config n none offset val w = (invalid_handle, w)
  write_config n (some dev) offset val w =
      let path = slot_path dev.slot_address in
      if length path == 21
      then write_opened n offset val (os.open_file path wronly w)
      else (error, w)

  unfoldable pub os_pci_write_config_8 : Option PciDev → (offset val : ℕ) → W → OsalResult × W
  unfolding write_config
  os_pci_write_config_8 = write_config 1

  unfoldable pub os_pci_write_config_16 : Option PciDev → (offset val : ℕ) → W → OsalResult × W
  unfolding write_config
  os_pci_write_config_16 = write_config 2

  unfoldable pub os_pci_write_config_32 : Option PciDev → (offset val : ℕ) → W → OsalResult × W
  unfolding write_config
  os_pci_write_config_32 = write_config 4

  unfoldable pub read_whole : ℕ → List ℕ × W → (OsalResult × Option (List ℕ)) × W
  unfolding read_close
  read_whole fd = read_close 256 fd

  unfoldable pub header_opened : Option ℕ × W → (OsalResult × Option (List ℕ)) × W
  unfolding read_whole
  header_opened (none, w) = ((not_found, none), w)
  header_opened (some fd, w) = read_whole fd (os.read fd 256 w)

  -- There is no seek: the header is read from where the file opens.
  unfoldable pub os_pci_read_config_header :
      Option PciDev → Bool → W → (OsalResult × Option (List ℕ)) × W
  unfolding header_opened
  os_pci_read_config_header none header w = ((invalid_handle, none), w)
  os_pci_read_config_header (some dev) false w = ((invalid_handle, none), w)
  os_pci_read_config_header (some dev) true w =
      let path = slot_path dev.slot_address in
      if length path == 21 then header_opened (os.open_file path rdonly w) else ((error, none), w)
