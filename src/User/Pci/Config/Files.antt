-- ===== src/User/Pci/Config/Files.antt =====
-- The configuration accesses close every file that they open.
use osal.Base.{
  ℕ, ◌*◌, ◌-◌, ◌≡◌, refl, Bool, true, false, Option, none, some, List, arith, to_nat, is_some,
}
use osal.Types.{OsalResult}
use osal.User.Pci.Device.{PciDev, slot_path}
use osal.User.Pci.Posix.{Posix, rdonly, wronly, Counts}
use osal.User.Pci.Config.{
  read_close, read_sought, read_opened, read_bytes, as_value, read_config, write_close,
  write_sought, write_opened, write_config, to_bytes, header_opened, os_pci_read_config_8,
  os_pci_read_config_16, os_pci_read_config_32, os_pci_write_config_8, os_pci_write_config_16,
  os_pci_write_config_32, os_pci_read_config_header,
}

module _ {W : Type 0} (os : Posix W) (file block : ℕ) (held : W → ℕ)
    (law : Counts os file block held) where
  read_close-held : (n fd : ℕ) (p : List ℕ × W) → held (read_close os n fd p).1 ≡ held p.1 - file
  unfolding read_close
  read_close-held n fd (bytes, w) = ground (arith, law.close fd w)

  read_sought-held : (n fd : ℕ) (p : Bool × W) → held (read_sought os n fd p).1 ≡ held p.1 - file
  unfolding read_sought
  read_sought-held n fd (false, w) = law.close fd w
  read_sought-held n fd (true, w) =
      omega (arith, read_close-held n fd (os.read fd n w), law.read fd n w)

  read_opened-held :
      (n off : ℕ) (p : Option ℕ × W)
      → held (read_opened os n off p).1 ≡ held p.1 - file * to_nat (is_some p.0)
  unfolding read_opened
  read_opened-held n off (none, w) = omega arith
  read_opened-held n off (some fd, w) =
      omega (arith, read_sought-held n fd (os.lseek fd off w), law.lseek fd off w)

  read_bytes-held :
      (n : ℕ) (d : PciDev) (off : ℕ) (w : W) → held (read_bytes os n d off w).1 ≡ held w
  unfolding read_bytes
  read_bytes-held n d off w = ground (
    arith,
    read_opened-held n off (os.open_file (slot_path d.slot_address) rdonly w),
    law.open_file (slot_path d.slot_address) rdonly w,
  )

  as_value-held : (p : (OsalResult × Option (List ℕ)) × W) → held (as_value os p).1 ≡ held p.1
  unfolding as_value
  as_value-held ((r, none), w) = refl
  as_value-held ((r, some bytes), w) = refl

  pub read_config-held :
      (n : ℕ) (d : Option PciDev) (off : ℕ) (val : Bool) (w : W)
      → held (read_config os n d off val w).1 ≡ held w
  unfolding read_config
  read_config-held n none off val w = refl
  read_config-held n (some d) off false w = refl
  read_config-held n (some d) off true w =
      omega (arith, as_value-held (read_bytes os n d off w), read_bytes-held n d off w)

  write_close-held : (n fd : ℕ) (p : ℕ × W) → held (write_close os n fd p).1 ≡ held p.1 - file
  unfolding write_close
  write_close-held n fd (count, w) = ground (arith, law.close fd w)

  write_sought-held :
      (n v fd : ℕ) (p : Bool × W) → held (write_sought os n v fd p).1 ≡ held p.1 - file
  unfolding write_sought
  write_sought-held n v fd (false, w) = law.close fd w
  write_sought-held n v fd (true, w) =
      omega
        (arith, write_close-held n fd (os.write fd (to_bytes n v) w), law.write fd (to_bytes n v) w)

  write_opened-held :
      (n off v : ℕ) (p : Option ℕ × W)
      → held (write_opened os n off v p).1 ≡ held p.1 - file * to_nat (is_some p.0)
  unfolding write_opened
  write_opened-held n off v (none, w) = omega arith
  write_opened-held n off v (some fd, w) =
      omega (arith, write_sought-held n v fd (os.lseek fd off w), law.lseek fd off w)

  write_config-held :
      (n : ℕ) (d : Option PciDev) (off v : ℕ) (w : W)
      → held (write_config os n d off v w).1 ≡ held w
  unfolding write_config
  write_config-held n none off v w = refl
  write_config-held n (some d) off v w = ground (
    arith,
    write_opened-held n off v (os.open_file (slot_path d.slot_address) wronly w),
    law.open_file (slot_path d.slot_address) wronly w,
  )

  header_opened-held :
      (p : Option ℕ × W) → held (header_opened os p).1 ≡ held p.1 - file * to_nat (is_some p.0)
  unfolding header_opened
  header_opened-held (none, w) = omega arith
  header_opened-held (some fd, w) =
      omega (arith, read_close-held 256 fd (os.read fd 256 w), law.read fd 256 w)

  header-held :
      (d : Option PciDev) (header : Bool) (w : W)
      → held (os_pci_read_config_header os d header w).1 ≡ held w
  unfolding os_pci_read_config_header
  header-held none header w = refl
  header-held (some d) false w = refl
  header-held (some d) true w = ground (
    arith,
    header_opened-held (os.open_file (slot_path d.slot_address) rdonly w),
    law.open_file (slot_path d.slot_address) rdonly w,
  )

  -- For any count of open files and allocated devices that the calls respect, each of the seven
  -- configuration accesses leaves the count as it was, on success and on every error.
  pub config-held :
      (d : Option PciDev) (off v : ℕ) (val : Bool) (w : W)
      → (held (os_pci_read_config_8 os d off val w).1 ≡ held w)
        × (held (os_pci_read_config_16 os d off val w).1 ≡ held w)
        × (held (os_pci_read_config_32 os d off val w).1 ≡ held w)
        × (held (os_pci_write_config_8 os d off v w).1 ≡ held w)
        × (held (os_pci_write_config_16 os d off v w).1 ≡ held w)
        × (held (os_pci_write_config_32 os d off v w).1 ≡ held w)
        × (held (os_pci_read_config_header os d val w).1 ≡ held w)
  unfolding os_pci_read_config_8 os_pci_read_config_16 os_pci_read_config_32 os_pci_write_config_8
      os_pci_write_config_16 os_pci_write_config_32
  config-held d off v val w = (
    read_config-held 1 d off val w,
    read_config-held 2 d off val w,
    read_config-held 4 d off val w,
    write_config-held 1 d off v w,
    write_config-held 2 d off v w,
    write_config-held 4 d off v w,
    header-held d val w,
  )
