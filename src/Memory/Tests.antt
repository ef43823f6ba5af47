-- ===== src/Memory/Tests.antt =====
-- Two texts in memory.
use osal.Base.{ℕ, ◌%◌, ◌≡◌, refl, arith, negsuc}
use osal.Memory.{os_memcmp}
use osal.Memory.Order.{Compared, memcmp-Compared}

-- The bytes 0 to 6 over and over.
abbrev memory : ℕ → ℕ
memory x = x % 7

-- 3, 4, 5, 6, 0 and 10 addresses on 6, 0.
smaller : os_memcmp memory 3 13 5 ≡ negsuc 2
unfolding os_memcmp
smaller = refl

memcmp-Compared_example : Compared memory 3 10 4 (os_memcmp memory 3 10 4)
memcmp-Compared_example = memcmp-Compared memory (λ x. omega arith) 3 10 4
