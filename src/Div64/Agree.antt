-- ===== src/Div64/Agree.antt =====
-- Both implementations divide alike, where the kernel's do_div does what is documented.
use osal.Base.{ℕ, ◌+◌, ◌*◌, ◌/◌, ◌%◌, ◌^◌, ◌<◌, ◌≡◌, arith}
use osal.Div64.{user_div64, user_mod64, kernel_div64, kernel_mod64}

-- do_div divides a number of 64 bits by one of 32.
abbrev pub Divides : ((n base : ℕ) → ℕ × ℕ) → Type 0
Divides do_div =
    (n base : ℕ)
    → n < 2 ^ 64
    → 0 < base
    → base < 2 ^ 32
    → (n ≡ (do_div n base).0 * base + (do_div n base).1) × ((do_div n base).1 < base)

unique : (n b q r : ℕ) → n ≡ q * b + r → r < b → (q ≡ n / b) × (r ≡ n % b)
unique n b q r e h = grind arith

-- For a number of 64 bits and a divisor of 32 bits that is not 0, both implementations give the same
-- quotient and the same remainder, and these are the ones that put the number together again. The
-- kernel's do_div is taken as documented, which says nothing of longer divisors.
pub div64-agrees :
    (do_div : (n base : ℕ) → ℕ × ℕ) (x y : ℕ)
    → Divides do_div
    → x < 2 ^ 64
    → 0 < y
    → y < 2 ^ 32
    → (kernel_div64 do_div x y ≡ user_div64 x y)
      × (kernel_mod64 do_div x y ≡ user_mod64 x y)
      × (x ≡ user_div64 x y * y + user_mod64 x y)
      × (user_mod64 x y < y)
unfolding user_div64 user_mod64 kernel_div64 kernel_mod64
div64-agrees do_div x y d h p s =
    let law = d x y h p s in
    let same = unique x y (do_div x y).0 (do_div x y).1 law.0 law.1 in
    (same.0, same.1, grind (arith, law.0, law.1, same.0, same.1), grind (arith, law.1, same.1))
