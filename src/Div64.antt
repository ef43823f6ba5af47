-- ===== src/Div64.antt =====
-- The divisions of linux_user/include/os/osal_div64.h and linux_kernel/include/os/osal_div64.h, for
-- unsigned numbers of 64 bits.
pub mod Agree
use osal.Base.{ℕ, ◌/◌, ◌%◌}

-- User space: the C operators.
unfoldable pub user_div64 : (x y : ℕ) → ℕ
user_div64 x y = x / y

unfoldable pub user_mod64 : (x y : ℕ) → ℕ
user_mod64 x y = x % y

-- The kernel: do_div leaves the quotient in its first argument and returns the remainder.
module _ (do_div : (n base : ℕ) → ℕ × ℕ) where
  unfoldable pub kernel_div64 : (x y : ℕ) → ℕ
  kernel_div64 x y = let (tmp, remainder) = do_div x y in tmp

  unfoldable pub kernel_mod64 : (x y : ℕ) → ℕ
  kernel_mod64 x y = let (tmp, remainder) = do_div x y in remainder
