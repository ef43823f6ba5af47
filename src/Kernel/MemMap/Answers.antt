-- ===== src/Kernel/MemMap/Answers.antt =====
-- What the kernel's mapping returns, and when its failure can be seen.
use osal.Base.{ℕ, ◌+◌, ◌-◌, ◌%◌, ◌^◌, ◌≤◌, ◌<◌, ◌≡◌, ◌↔◌, arith}
use native.Mathlib.Nat.{mod-eq_of_lt}
use osal.Base.Pages.{pg_aligned, pg_aligned_le, pg_aligned_gt}
use osal.Kernel.MemMap.{RemapApi, os_map_io_to_mem_nocache}

offset_lt : {b p x m : ℕ} → b ≤ x → x < b + p → p ≤ 2 ^ 32 → m ≡ 0 → m + (x - b) < 2 ^ 32
offset_lt low high small failed = omega arith

-- The pointer for a mapping that failed is 0 just when there is nothing to add to it.
null_iff :
    (p x : ℕ) (mmio : ℕ)
    → 0 < p
    → p ≤ 2 ^ 32
    → mmio ≡ 0
    → ((mmio + (x - pg_aligned p x)) % 2 ^ 32 ≡ 0) ↔ (pg_aligned p x ≡ x)
null_iff p x mmio paged small failed =
    let below = pg_aligned_le p x in
    let above = pg_aligned_gt p x paged in
    let same = mod-eq_of_lt (offset_lt below above small failed) in
    (λ e. omega (arith, same), λ e. omega (arith, same))

module _ {W : Type 0} (k : RemapApi W) (pg_size : ℕ) (paged : 0 < pg_size)
    (small : pg_size ≤ 2 ^ 32) where
  -- When the kernel cannot map the range that it is asked for, os_map_io_to_mem_nocache returns NULL
  -- just for the addresses that a page begins at: for every other address its caller gets a pointer
  -- that is not NULL.
  pub map-null_iff :
      (address size : ℕ) (w : W)
      → (let base = pg_aligned pg_size address in
          k.ioremap_nocache base ((size + (address - base)) % 2 ^ 32) w).0
        ≡ 0
      → ((os_map_io_to_mem_nocache k pg_size address size w).0 ≡ 0)
        ↔ (pg_aligned pg_size address ≡ address)
  unfolding os_map_io_to_mem_nocache
  map-null_iff address size w failed = null_iff pg_size address _ paged small failed
