-- ===== src/Kernel/MemMap/PreSilicon.antt =====
-- What linux_kernel/src/raw/memmap.c has for PRE_SILICON, on top of Kernel.Pci. `pcidev` is NULL where no
-- card is found, as os_pci_find_first_device leaves it, and freeing a device does nothing.
-- The build makes memmap.c of raw/memmap.c with `__#` turned into `#`, so that the directives spelled
-- `__#if` are read as `#if`.
pub mod Agree
mod Tests
use osal.Base.{
  ℕ, ◌+◌, ◌-◌, ◌%◌, ◌^◌, Option, none, some, List, [], ◌∷◌, false, leb, ◌==◌, if◌then◌else◌,
}
use osal.Base.Pages.{pg_aligned}
use osal.Types.{OsalResult, success}
use osal.Cards.{Card, bar_offset}
use osal.Kernel.Pci.{PciDev, PciApi, os_pci_find_first_device, os_pci_read_config_32}
use osal.Kernel.MemMap.{RemapApi}

-- The HDMI card, the two Rambo cards and the last one.
abbrev pub cards : List Card
cards =
    record { vid = 0x8086; did = 0x2e63; bar = 3; backdoor = false }
    ∷ (record { vid = 1; did = 0x5406; bar = 2; backdoor = false }
        ∷ (record { vid = 2; did = 0x5406; bar = 2; backdoor = false }
            ∷ (record { vid = 0x8086; did = 1; bar = 0; backdoor = false } ∷ [])))

module _ {W : Type 0} (pci : PciApi W) where
  -- One condition of the chain; `rest` is what follows its `else`.
  unfoldable pub matched :
      Card
      → (OsalResult × Option PciDev) × W
      → (rest : W → Option (PciDev × ℕ) × W) → Option (PciDev × ℕ) × W
  matched c ((success, some dev), w) rest = (some (dev, c.bar), w)
  matched c (r, w) rest = rest w

  -- The chain: `pcidev` and `barnum` at its end, none for NULL and -1.
  unfoldable pub detect : List Card → W → Option (PciDev × ℕ) × W
  unfolding matched
  detect [] w = (none, w)
  detect (c ∷ cs) w = matched c (os_pci_find_first_device pci c.vid c.did w) (λ w'. detect cs w')

  unfoldable pub bar_read : (base : ℕ) → (ℕ × ℕ) × W → ℕ × W
  bar_read base ((code, pa_offset), w) =
      if code == 0 then ((base + pa_offset) % 2 ^ 32, w) else (base, w)

  unfoldable pub base_moved : (base : ℕ) → Option (PciDev × ℕ) × W → ℕ × W
  unfolding bar_read
  base_moved base (none, w) = (base, w)
  base_moved base (some (dev, barnum), w) =
      bar_read base (os_pci_read_config_32 pci dev (bar_offset barnum) w)

  -- `pg_aligned_base` as it is passed to ioremap_nocache.
  unfoldable pub pre_silicon_base : (base : ℕ) → W → ℕ × W
  unfolding detect base_moved
  pre_silicon_base base w =
      if leb base 0x20000000 then base_moved base (detect cards w) else (base, w)

  unfoldable pub os_map_io_to_mem_nocache : RemapApi W → (pg_size base_address size : ℕ) → W → ℕ × W
  unfolding pre_silicon_base pg_aligned
  os_map_io_to_mem_nocache k pg_size base_address size w =
      let pg_aligned_base = pg_aligned pg_size base_address in
      let offset = base_address - pg_aligned_base in
      let b = pre_silicon_base pg_aligned_base w in
      let p = k.ioremap_nocache b.0 ((size + offset) % 2 ^ 32) b.1 in ((p.0 + offset) % 2 ^ 32, p.1)
