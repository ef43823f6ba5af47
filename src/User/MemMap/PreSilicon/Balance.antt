-- ===== src/User/MemMap/PreSilicon/Balance.antt =====
-- What a mapping with PRE_SILICON leaves open and allocated.
use osal.Base.{
  ℕ, ◌+◌, ◌-◌, ◌*◌, ◌%◌, ◌^◌, ◌≡◌, refl, Bool, true, not, ◌&&◌, Option, none, some, List, [], ◌∷◌,
  arith, to_nat, is_some, inl, inr, if◌then◌else◌, leb, Bool-cases,
}
use osal.Base.Pages.{pg_aligned}
use osal.Types.{OsalResult, success}
use osal.Cards.{Card, bar_offset}
use osal.User.Pci.Device.{PciDev}
use osal.User.Pci.Posix.{Posix, Counts}
use osal.User.Pci.Config.{os_pci_read_config_32}
use osal.User.Pci.Scan.{pci_find_device}
use osal.User.Pci.Scan.Release.{find-held}
use osal.User.Pci.Config.Files.{read_config-held}
use osal.User.Pci.Address.{os_pci_free_device}
use osal.User.MemMap.{MapApi, io_mapped}
use osal.User.MemMap.PreSilicon.{
  matched, detect, cards, bar_read, base_moved, pre_silicon_base, pre_opened,
  os_map_io_to_mem_nocache,
}

-- The calls for memory respect the count, with /dev/devmem an open file.
pub record MapCounts {W : Type 0} (os : MapApi W) (file : ℕ) (held : W → ℕ) : Type 0 where
  pub open_devmem :
      (sync : Bool) (w : W)
      → held (os.open_devmem sync w).1 ≡ held w + file * to_nat (is_some (os.open_devmem sync w).0)
  pub mmap : (length fd offset : ℕ) (w : W) → held (os.mmap length fd offset w).1 ≡ held w
  pub close : (fd : ℕ) (w : W) → held (os.close fd w) ≡ held w - file

-- The devices that the chain finds and goes past, which are those of the Rambo cards while they do not
-- count.
abbrev pub wasted : {W : Type 0} (posix : Posix W) (rambo : Bool) → List Card → W → ℕ
wasted posix rambo [] w = 0
wasted posix rambo (c ∷ cs) w =
    let rest = wasted posix rambo cs (pci_find_device posix c.vid c.did none w).1 in
    if is_some (pci_find_device posix c.vid c.did none w).0
    then if c.backdoor && not rambo then 1 + rest else 0
    else rest

module _ {W : Type 0} (posix : Posix W) (os : MapApi W) (file block : ℕ) (held : W → ℕ)
    (law : Counts posix file block held) (maps : MapCounts os file held) where
  matched-held :
      (rambo : Bool) (c : Card) (p : Option PciDev × W) (rest : W → Option (PciDev × ℕ) × W)
      (before past : ℕ)
      → held p.1 ≡ before + block * to_nat (is_some p.0)
      → held (rest p.1).1 ≡ held p.1 + block * (past + to_nat (is_some (rest p.1).0))
      → held (matched rambo c p rest).1
        ≡ before
          + block
            * ((if is_some p.0 then if c.backdoor && not rambo then 1 + past else 0 else past)
                + to_nat (is_some (matched rambo c p rest).0))
  unfolding matched
  matched-held rambo c (none, w) rest before past e h = grind arith
  matched-held rambo c (some dev, w) rest before past e h =
      elim (Bool-cases (c.backdoor && not rambo)) [
        | inl b ↦ rw b (grind arith)
        | inr b ↦ rw b (grind arith)
      ]

  detect-held :
      (rambo : Bool) (cs : List Card) (w : W)
      → held (detect posix rambo cs w).1
        ≡ held w + block * (wasted posix rambo cs w + to_nat (is_some (detect posix rambo cs w).0))
  unfolding detect
  detect-held rambo [] w = grind arith
  detect-held rambo (c ∷ cs) w =
      matched-held rambo c (pci_find_device posix c.vid c.did none w)
        (λ w'. detect posix rambo cs w') (held w)
        (wasted posix rambo cs (pci_find_device posix c.vid c.did none w).1)
        ((find-held posix file block held law c.vid c.did 0 0 0 none w).0)
        (detect-held rambo cs (pci_find_device posix c.vid c.did none w).1)

  bar_read-held :
      (base : ℕ) (dev : PciDev) (p : (OsalResult × Option ℕ) × W)
      → held (bar_read posix base dev p).1 ≡ held p.1 - block
  unfolding bar_read os_pci_free_device
  bar_read-held base dev ((success, some v), w) = law.free w
  bar_read-held base dev ((r, v), w) = law.free w

  base_moved-held :
      (base : ℕ) (p : Option (PciDev × ℕ) × W)
      → held (base_moved posix base p).1 ≡ held p.1 - block * to_nat (is_some p.0)
  unfolding base_moved os_pci_read_config_32
  base_moved-held base (none, w) = omega arith
  base_moved-held base (some (dev, barnum), w) = omega (
    arith,
    bar_read-held base dev (os_pci_read_config_32 posix (some dev) (bar_offset barnum) true w),
    read_config-held posix file block held law 4 (some dev) (bar_offset barnum) true w,
  )

  -- The devices that are left allocated, for a base address.
  abbrev pub left : (rambo : Bool) (base : ℕ) → W → ℕ
  left rambo base w = if leb base 0x20000000 then wasted posix rambo cards w else 0

  base-held :
      (rambo : Bool) (base : ℕ) (w : W)
      → held (pre_silicon_base posix rambo base w).1 ≡ held w + block * left rambo base w
  unfolding pre_silicon_base
  base-held rambo base w = elim (Bool-cases (leb base 0x20000000)) [
    | inl e ↦ rw e (
        grind (arith, base_moved-held base (detect posix rambo cards w), detect-held rambo cards w))
    | inr e ↦ rw e (grind arith)
  ]

  io_mapped-held :
      (pg_size offset fd : ℕ) (p : Option ℕ × W)
      → held (io_mapped os pg_size offset fd p).1 ≡ held p.1 - file
  unfolding io_mapped
  io_mapped-held pg_size offset fd (none, w) = maps.close fd w
  io_mapped-held pg_size offset fd (some mmio, w) = maps.close fd w

  wasted_rambo : (cs : List Card) (w : W) → wasted posix true cs w ≡ 0
  wasted_rambo [] w = refl
  wasted_rambo (c ∷ cs) w =
      ground (arith, wasted_rambo cs (pci_find_device posix c.vid c.did none w).1)

  -- The devices that are left where /dev/devmem opens.
  abbrev pub left_opened : (rambo : Bool) (base : ℕ) → Option ℕ × W → ℕ
  left_opened rambo base (none, w) = 0
  left_opened rambo base (some fd, w) = left rambo base w

  opened-held :
      (pg_size : ℕ) (rambo : Bool) (base offset size before : ℕ) (p : Option ℕ × W)
      → held p.1 ≡ before + file * to_nat (is_some p.0)
      → held (pre_opened posix os pg_size rambo base offset size p).1
        ≡ before + block * left_opened rambo base p
  unfolding pre_opened
  opened-held pg_size rambo base offset size before (none, w) e = grind arith
  opened-held pg_size rambo base offset size before (some fd, w) e =
      let b = pre_silicon_base posix rambo base w in
      omega (
        arith,
        io_mapped-held pg_size offset fd (os.mmap size fd b.0 b.1),
        maps.mmap size fd b.0 b.1,
        base-held rambo base w,
      )

  left_none : (base : ℕ) (p : Option ℕ × W) → left_opened true base p ≡ 0
  left_none base (none, w) = refl
  left_none base (some fd, w) = ground (arith, wasted_rambo cards w)

  -- For any count of open files and allocated devices that the calls respect, mapping closes every file
  -- that it opens, whether it succeeds or not, and frees every device that it finds, but those of the
  -- Rambo cards that it goes past; it goes past none while `g_use_rambo_backdoor` is set.
  pub map-left :
      (pg_size : ℕ) (rambo : Bool) (address size : ℕ) (w : W)
      → let opened = left_opened rambo (pg_aligned pg_size address) (os.open_devmem true w) in
        (held (os_map_io_to_mem_nocache posix os pg_size rambo address size w).1
          ≡ held w + block * opened)
        × (held (os_map_io_to_mem_nocache posix os pg_size true address size w).1 ≡ held w)
  unfolding os_map_io_to_mem_nocache
  map-left pg_size rambo address size w =
      let base = pg_aligned pg_size address in
      let opened = λ (r : Bool).
        opened-held pg_size r base (address - base) ((size + (address - base)) % 2 ^ 32) (held w)
          (os.open_devmem true w) (maps.open_devmem true w) in
      (opened rambo, grind (arith, opened true, left_none base (os.open_devmem true w)))
