-- ===== src/User/MemMap/Ranges.antt =====
-- The ranges that are mapped and unmapped, and the file that is opened for it.
use osal.Base.{
  ℕ, ◌+◌, ◌-◌, ◌%◌, ◌^◌, ◌≤◌, ◌<◌, ◌≡◌, ◌∙◌, Bool, true, false, Option, none, some, List, ◌∷◌,
  arith, to_nat, is_some, length,
}
use osal.Base.Pages.{
  pg_aligned, pg_aligned_le, pg_aligned_page, pg_aligned_gt, pg_aligned_add, le_add-sub,
}
use mathlib.Core.Path.{subst}
use native.Mathlib.Nat.{mod-eq_of_lt}
use osal.User.MemMap.{
  MapApi, io_mapped, io_opened, os_map_io_to_mem_cache, os_map_io_to_mem_nocache,
  os_unmap_io_from_mem,
}

-- A range of the process's addresses, and the offset in the file where it begins.
pub record Mapping : Type 0 where
  pub addr : ℕ
  pub bytes : ℕ
  pub from : ℕ

module _ {W : Type 0} (maps : W → List Mapping) where
  -- What an mmap did that began with the ranges `before`: the new range begins at a page and ends
  -- below 2 ^ 32.
  abbrev pub Made : (pg_size length offset : ℕ) → List Mapping → Option ℕ × W → Type 0
  Made pg_size length offset before (none, w) = maps w ≡ before
  Made pg_size length offset before (some a, w) =
      (a % pg_size ≡ 0)
      × (a + length < 2 ^ 32)
      × (maps w ≡ record { addr = a; bytes = length; from = offset } ∷ before)

-- The ranges and the number of open files, as Linux keeps them.
pub record Linux {W : Type 0} (os : MapApi W) (pg_size : ℕ) (maps : W → List Mapping)
    (files : W → ℕ) : Type 0 where
  pub open_devmem :
      (sync : Bool) (w : W)
      → (maps (os.open_devmem sync w).1 ≡ maps w)
        × (files (os.open_devmem sync w).1 ≡ files w + to_nat (is_some (os.open_devmem sync w).0))
  pub mmap :
      (length fd offset : ℕ) (w : W)
      → Made maps pg_size length offset (maps w) (os.mmap length fd offset w)
        × (files (os.mmap length fd offset w).1 ≡ files w)
  pub close :
      (fd : ℕ) (w : W) → (maps (os.close fd w) ≡ maps w) × (files (os.close fd w) ≡ files w - 1)
  pub munmap :
      (m : Mapping) (rest : List Mapping) (w : W)
      → maps w ≡ m ∷ rest
      → (maps (os.munmap m.addr m.bytes w) ≡ rest) × (files (os.munmap m.addr m.bytes w) ≡ files w)

add-sub_lem : (a r : ℕ) → a + r - a ≡ r
add-sub_lem a r = omega arith

ptr_fits : (a r size : ℕ) → a + (size + r) < 2 ^ 32 → a + r < 2 ^ 32
ptr_fits a r size h = omega arith

-- A page begins at `from`, and `address` is in it.
abbrev pub StartsPage : (pg_size from address : ℕ) → Type 0
StartsPage pg_size from address =
    (from % pg_size ≡ 0) × (from ≤ address) × (address < from + pg_size)

module _ {W : Type 0} (os : MapApi W) (pg_size : ℕ) (maps : W → List Mapping) (files : W → ℕ) where
  -- What a mapping of `size` bytes at `base` comes to, from the ranges `before` and `n` open files.
  abbrev pub Mapped : (base size : ℕ) → List Mapping → ℕ → Option ℕ × W → Type 0
  Mapped base size before n (none, w) = (files w ≡ n) × (maps w ≡ before)
  Mapped base size before n (some ptr, w) =
      (files w ≡ n)
      × (let w' = os_unmap_io_from_mem os pg_size ptr size w in (maps w' ≡ before) × (files w' ≡ n))
      × (m : Mapping) × (maps w ≡ m ∷ before)
      × StartsPage pg_size m.from base
      × (ptr + m.from ≡ m.addr + base)
      × (ptr + size ≡ m.addr + m.bytes)

module _ {W : Type 0} (os : MapApi W) (pg_size : ℕ) (maps : W → List Mapping) (files : W → ℕ)
    (law : Linux os pg_size maps files) (paged : 0 < pg_size) where
  -- Unmapping the address that stands `r` behind the start of the last mapping, with that much less
  -- than its size.
  unmap-newest :
      (a r size from : ℕ) (rest : List Mapping) (w : W)
      → a % pg_size ≡ 0
      → r < pg_size
      → size + r < 2 ^ 32
      → maps w ≡ record { addr = a; bytes = size + r; from = from } ∷ rest
      → let w' = os_unmap_io_from_mem os pg_size (a + r) size w in
        (maps w' ≡ rest) × (files w' ≡ files w)
  unfolding os_unmap_io_from_mem
  unmap-newest a r size from rest w e h fits m =
      rw (os_unmap_io_from_mem, pg_aligned_add pg_size a r e h)
        (rw (add-sub_lem a r) (
          rw (mod-eq_of_lt fits)
            (law.munmap (record { addr = a; bytes = size + r; from = from }) rest w m)))

  io_mapped-Mapped :
      (base offset size fd n : ℕ) (before : List Mapping) (p : Option ℕ × W)
      → offset < pg_size
      → size + offset < 2 ^ 32
      → base % pg_size ≡ 0
      → Made maps pg_size (size + offset) base before p
      → files p.1 ≡ n + 1
      → Mapped os pg_size maps files
          (base + offset)
          size
          before
          n
          (io_mapped os pg_size offset fd p)
  unfolding io_mapped
  io_mapped-Mapped base offset size fd n before (none, w) r fits begins made e =
      let c = law.close fd w in (omega (arith, c.1), c.0 ∙ made)
  io_mapped-Mapped base offset size fd n before (some a, w) r fits begins (page, below, made) e =
      let c = law.close fd w in
      let kept = c.0 ∙ made in
      let closed : files (os.close fd w) ≡ n = omega (arith, c.1) in
      rw (mod-eq_of_lt (ptr_fits a offset size below)) (
        let u = unmap-newest a offset size base before (os.close fd w) page r fits kept in
        (
          closed,
          (u.0, u.1 ∙ closed),
          _,
          kept,
          (begins, omega arith, omega arith),
          omega arith,
          omega arith,
        ))

  io_opened-Mapped :
      (base offset size n : ℕ) (before : List Mapping) (p : Option ℕ × W)
      → offset < pg_size
      → size + offset < 2 ^ 32
      → base % pg_size ≡ 0
      → maps p.1 ≡ before
      → files p.1 ≡ n + to_nat (is_some p.0)
      → Mapped os pg_size maps files
          (base + offset)
          size
          before
          n
          (io_opened os pg_size base offset ((size + offset) % 2 ^ 32) p)
  unfolding io_opened
  io_opened-Mapped base offset size n before (none, w) r fits begins m e = (omega arith, m)
  io_opened-Mapped base offset size n before (some fd, w) r fits begins m e =
      let c = law.mmap (size + offset) fd base w in
      rw (mod-eq_of_lt fits) (
        io_mapped-Mapped base offset size fd n before (os.mmap (size + offset) fd base w) r fits
          begins
          (subst (λ l. Made maps pg_size (size + offset) base l (os.mmap (size + offset) fd base w))
            m c.0)
          (c.1 ∙ e))

  io-Mapped :
      (sync : Bool) (address size : ℕ) (w : W)
      → size + pg_size ≤ 2 ^ 32
      → let base = pg_aligned pg_size address in
        let offset = address - base in
        Mapped os pg_size maps files address size
          (maps w)
          (files w)
          (io_opened os pg_size base offset ((size + offset) % 2 ^ 32) (os.open_devmem sync w))
  io-Mapped sync address size w fits =
      let base = pg_aligned pg_size address in
      let offset = address - base in
      let below = pg_aligned_le pg_size address in
      let above = pg_aligned_gt pg_size address paged in
      let o = law.open_devmem sync w in
      subst
        (λ x.
          Mapped os pg_size maps files x size (maps w) (files w)
            (io_opened os pg_size base offset ((size + offset) % 2 ^ 32) (os.open_devmem sync w)))
        (le_add-sub below)
        (io_opened-Mapped base offset size (files w) (maps w) (os.open_devmem sync w) (omega arith)
          (omega arith) (pg_aligned_page pg_size address) o.0 o.1)

  -- Both ways of mapping `size` bytes at a hardware address, with caching and without, close the
  -- file on every path, and when they fail leave the mapped ranges as they were. When they succeed
  -- there is one new range, of the hardware addresses from the start of the address's page to the end of
  -- what was asked for: the pointer stands as far behind the start of the range as the address
  -- behind the start of its page, and `size` bytes from there the range ends. Unmapping the pointer
  -- with the same size unmaps just this range, which leaves the ranges and the open files as they
  -- were before. This is for sizes that leave a page to 2 ^ 32, and Linux's calls as documented.
  pub map-unmap :
      (address size : ℕ) (w : W)
      → size + pg_size ≤ 2 ^ 32
      → Mapped os pg_size maps files address size
          (maps w)
          (files w)
          (os_map_io_to_mem_cache os pg_size address size w)
        × Mapped os pg_size maps files address size
            (maps w)
            (files w)
            (os_map_io_to_mem_nocache os pg_size address size w)
  unfolding os_map_io_to_mem_cache os_map_io_to_mem_nocache
  map-unmap address size w fits =
      (io-Mapped false address size w fits, io-Mapped true address size w fits)
