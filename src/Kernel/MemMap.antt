-- ===== src/Kernel/MemMap.antt =====
-- linux_kernel/src/raw/memmap.c: hardware addresses mapped into the kernel, on a machine whose
-- addresses have 32 bits, without what is compiled for PRE_SILICON,
-- which PreSilicon has.
pub mod Answers
pub mod PreSilicon
mod Tests
use osal.Base.{ℕ, ◌+◌, ◌-◌, ◌%◌, ◌^◌}
use osal.Base.Pages.{pg_aligned}

-- `ioremap_nocache` maps bytes from a hardware address and returns the address of the mapping, 0 for
-- NULL; `iounmap` takes an address away.
pub record RemapApi (W : Type 0) : Type 0 where
  pub ioremap_nocache : (base size : ℕ) → W → ℕ × W
  pub iounmap : (addr : ℕ) → W → W

module _ {W : Type 0} (k : RemapApi W) (pg_size : ℕ) where
  -- `pg_size` is PAGE_SIZE. The mapping's address is not tested for NULL.
  unfoldable pub os_map_io_to_mem_nocache : (base_address size : ℕ) → W → ℕ × W
  unfolding pg_aligned
  os_map_io_to_mem_nocache base_address size w =
      let pg_aligned_base = pg_aligned pg_size base_address in
      let offset = base_address - pg_aligned_base in
      let p = k.ioremap_nocache pg_aligned_base ((size + offset) % 2 ^ 32) w in
      ((p.0 + offset) % 2 ^ 32, p.1)

  -- The macro _OS_UNMAP_IO_FROM_MEM, which does not use the size.
  unfoldable pub os_unmap_io_from_mem : (virt_addr size : ℕ) → W → W
  os_unmap_io_from_mem virt_addr size w = k.iounmap virt_addr w
