-- ===== src/Memory.antt =====
-- _os_memcmp of include/osal_memory.h, which the kernel's OS_MEMCMP stands for. The memory is a function
-- from addresses to bytes.
pub mod Order
mod Tests
use osal.Base.{ℕ, zero, suc, ◌+◌, ◌-◌, ◌==◌, leb, if◌then◌else◌}
use osal.Base.{ℤ, pos, negsuc}

-- The difference of two bytes as an `int`.
unfoldable pub byte_difference : ℕ → ℕ → ℤ
byte_difference a b = if leb b a then pos (a - b) else negsuc (b - a - 1)

unfoldable pub os_memcmp : (memory : ℕ → ℕ) (cs1 cs2 n : ℕ) → ℤ
unfolding byte_difference
os_memcmp memory cs1 cs2 zero = pos 0
os_memcmp memory cs1 cs2 (suc n) =
    let rest = os_memcmp memory (cs1 + 1) (cs2 + 1) n in
    if memory cs1 == memory cs2 then rest else byte_difference (memory cs1) (memory cs2)
