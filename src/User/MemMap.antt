-- ===== src/User/MemMap.antt =====
-- linux_user/src/raw/memmap.c: hardware addresses mapped into the process through /dev/devmem, on a
-- machine whose addresses have 32 bits, without what is compiled for PRE_SILICON,
-- which PreSilicon has. An `int` or
-- `unsigned` is the number that its 32 bits are, since no operation looks at the
-- sign; that of the offset for mmap would matter where off_t has 64 bits, and here it has 32.
pub mod Ranges
pub mod PreSilicon
mod Tests
use osal.Base.{ℕ, ◌+◌, ◌-◌, ◌*◌, ◌/◌, ◌%◌, ◌^◌, Bool, true, false, Option, none, some}
use osal.Base.Pages.{pg_aligned}

-- The calls of the C library. `open_devmem` opens /dev/devmem, with O_SYNC or without; `mmap` maps bytes of
-- the file from an offset, shared and for reading and writing, and returns none for MAP_FAILED.
pub record MapApi (W : Type 0) : Type 0 where
  pub open_devmem : (sync : Bool) → W → Option ℕ × W
  pub mmap : (length fd offset : ℕ) → W → Option ℕ × W
  pub close : (fd : ℕ) → W → W
  pub munmap : (addr length : ℕ) → W → W

-- `pg_size` is what getpagesize() returns.
module _ {W : Type 0} (os : MapApi W) (pg_size : ℕ) where
  unfoldable pub io_mapped : (offset fd : ℕ) → Option ℕ × W → Option ℕ × W
  io_mapped offset fd (none, w) = (none, os.close fd w)
  io_mapped offset fd (some mmio, w) = (some ((mmio + offset) % 2 ^ 32), os.close fd w)

  unfoldable pub io_opened : (pg_aligned_base offset size : ℕ) → Option ℕ × W → Option ℕ × W
  unfolding io_mapped
  io_opened base offset size (none, w) = (none, w)
  io_opened base offset size (some fd, w) = io_mapped offset fd (os.mmap size fd base w)

  -- none stands for NULL.
  unfoldable pub os_map_io_to_mem_cache : (base_address size : ℕ) → W → Option ℕ × W
  unfolding io_opened pg_aligned
  os_map_io_to_mem_cache base_address size w =
      let pg_aligned_base = pg_aligned pg_size base_address in
      let offset = base_address - pg_aligned_base in
      io_opened pg_aligned_base offset ((size + offset) % 2 ^ 32) (os.open_devmem false w)

  unfoldable pub os_map_io_to_mem_nocache : (base_address size : ℕ) → W → Option ℕ × W
  unfolding io_opened pg_aligned
  os_map_io_to_mem_nocache base_address size w =
      let pg_aligned_base = pg_aligned pg_size base_address in
      let offset = base_address - pg_aligned_base in
      io_opened pg_aligned_base offset ((size + offset) % 2 ^ 32) (os.open_devmem true w)

  unfoldable pub os_unmap_io_from_mem : (virt_addr size : ℕ) → W → W
  unfolding pg_aligned
  os_unmap_io_from_mem virt_addr size w =
      let pg_aligned_base = pg_aligned pg_size virt_addr in
      let offset = virt_addr - pg_aligned_base in
      os.munmap pg_aligned_base ((size + offset) % 2 ^ 32) w
