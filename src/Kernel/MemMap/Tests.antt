-- ===== src/Kernel/MemMap/Tests.antt =====
-- A kernel that has no room for a mapping.
use osal.Base.{ℕ, ◌≡◌, refl}
use osal.Kernel.MemMap.{RemapApi, os_map_io_to_mem_nocache}

abbrev full : RemapApi ℕ
full = record { ioremap_nocache = λ base size w. (0, w); iounmap = λ addr w. w }

not_null : (os_map_io_to_mem_nocache full 4096 3758030864 512 7).0 ≡ 16
unfolding os_map_io_to_mem_nocache
not_null = refl
