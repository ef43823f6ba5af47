-- ===== src/User/MemMap/PreSilicon.antt =====
-- What linux_user/src/raw/memmap.c has for PRE_SILICON, with ENABLE_EMUL_SUPPORT, on top of
-- linux_user/src/osal_pci.c: device memory that is moved to where an emulating PCI card has it. The
-- build makes memmap.c of raw/memmap.c with `__#` turned into `#`, so that the directives spelled `__#if`
-- are read as `#if`.
pub mod Balance
pub mod Moved
mod Tests
use osal.Base.{
  ℕ, ◌+◌, ◌-◌, ◌%◌, ◌^◌, Bool, true, false, not, ◌&&◌, Option, none, some, List, [], ◌∷◌, ltb, leb,
  if◌then◌else◌,
}
use osal.Base.Pages.{pg_aligned}
use osal.Types.{OsalResult, success}
use osal.Cards.{Card, bar_offset}
use osal.User.Pci.Device.{PciDev}
use osal.User.Pci.Posix.{Posix}
use osal.User.Pci.Config.{os_pci_read_config_32}
use osal.User.Pci.Scan.{pci_find_device}
use osal.User.Pci.Address.{os_pci_free_device}
use osal.User.MemMap.{MapApi, io_mapped}

-- What is stored in `g_use_rambo_backdoor`, as the truth value that it is used for.
pub use_rambo_backdoor : (i : ℕ) → Bool
use_rambo_backdoor i = ltb 0 i

-- The HDMI card, the gateway card, the two Rambo cards, the Mav card, and the last one.
abbrev pub cards : List Card
cards =
    record { vid = 0x8086; did = 0x2e63; bar = 3; backdoor = false }
    ∷ (record { vid = 0x8086; did = 0x5453; bar = 3; backdoor = false }
        ∷ (record { vid = 1; did = 0x5406; bar = 2; backdoor = true }
            ∷ (record { vid = 2; did = 0x5406; bar = 2; backdoor = true }
                ∷ (record { vid = 0x8086; did = 0x1127; bar = 3; backdoor = false }
                    ∷ (record { vid = 0x8086; did = 1; bar = 0; backdoor = false } ∷ [])))))

module _ {W : Type 0} where
  -- One condition of the chain; `rest` is what follows its `else`.
  unfoldable pub matched :
      (rambo : Bool)
      → Card
      → Option PciDev × W
      → (rest : W → Option (PciDev × ℕ) × W) → Option (PciDev × ℕ) × W
  matched rambo c (none, w) rest = rest w
  matched rambo c (some dev, w) rest =
      if c.backdoor && not rambo then rest w else (some (dev, c.bar), w)

module _ {W : Type 0} (posix : Posix W) where
  -- The chain: `pcidev` and `barnum` at its end, none for NULL and -1.
  unfoldable pub detect : (rambo : Bool) → List Card → W → Option (PciDev × ℕ) × W
  unfolding matched
  detect rambo [] w = (none, w)
  detect rambo (c ∷ cs) w =
      matched rambo c (pci_find_device posix c.vid c.did none w) (λ w'. detect rambo cs w')

  unfoldable pub bar_read : (base : ℕ) → PciDev → (OsalResult × Option ℕ) × W → ℕ × W
  bar_read base dev ((success, some pa_offset), w) =
      ((base + pa_offset) % 2 ^ 32, (os_pci_free_device posix (some dev) w).1)
  bar_read base dev (r, w) = (base, (os_pci_free_device posix (some dev) w).1)

  unfoldable pub base_moved : (base : ℕ) → Option (PciDev × ℕ) × W → ℕ × W
  unfolding bar_read
  base_moved base (none, w) = (base, w)
  base_moved base (some (dev, barnum), w) =
      bar_read base dev (os_pci_read_config_32 posix (some dev) (bar_offset barnum) true w)

  -- `pg_aligned_base` as it is passed to mmap.
  unfoldable pub pre_silicon_base : (rambo : Bool) (base : ℕ) → W → ℕ × W
  unfolding detect base_moved
  pre_silicon_base rambo base w =
      if leb base 0x20000000 then base_moved base (detect rambo cards w) else (base, w)

module _ {W : Type 0} (posix : Posix W) (os : MapApi W) (pg_size : ℕ) where
  unfoldable pub pre_opened : (rambo : Bool) (base offset size : ℕ) → Option ℕ × W → Option ℕ × W
  unfolding pre_silicon_base io_mapped
  pre_opened rambo base offset size (none, w) = (none, w)
  pre_opened rambo base offset size (some fd, w) =
      let b = pre_silicon_base posix rambo base w in
      io_mapped os pg_size offset fd (os.mmap size fd b.0 b.1)

  unfoldable pub os_map_io_to_mem_nocache :
      (rambo : Bool) (base_address size : ℕ) → W → Option ℕ × W
  unfolding pre_opened pg_aligned
  os_map_io_to_mem_nocache rambo base_address size w =
      let pg_aligned_base = pg_aligned pg_size base_address in
      let offset = base_address - pg_aligned_base in
      pre_opened rambo pg_aligned_base offset ((size + offset) % 2 ^ 32) (os.open_devmem true w)
