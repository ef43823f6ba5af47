-- ===== src/Base/Pages.antt =====
-- Addresses and the pages they are in, as in raw/memmap.c of both implementations.
use Prim.Native.Nat.{ℕ, ◌+◌, ◌-◌, ◌*◌, ◌/◌, ◌%◌, ◌≤◌, ◌<◌}
use mathlib.Core.Path.{◌≡◌, sym, ap, ◌∙◌}
use native.Mathlib.Nat.{
  div-mul-le_self, lt-div-mul-add, div-add-mod, mul-add-div_right, div-eq_of_lt, mul_comm,
}
use native.Mathlib.Omega.{arith}

-- `pg_aligned_base`, the start of an address's page.
unfoldable pub pg_aligned : (pg_size address : ℕ) → ℕ
pg_aligned pg_size address = address / pg_size * pg_size

pub pg_aligned_le : (p x : ℕ) → pg_aligned p x ≤ x
unfolding pg_aligned
pg_aligned_le p x = div-mul-le_self x p

pub pg_aligned_gt : (p x : ℕ) → 0 < p → x < pg_aligned p x + p
unfolding pg_aligned
pg_aligned_gt p x h = lt-div-mul-add h

-- A page's first address is the page's number times the size of a page.
page_start : (p a : ℕ) → a % p ≡ 0 → a / p * p ≡ a
page_start p a e = omega (arith, div-add-mod a p, mul_comm p (a / p))

page_number : (p a r : ℕ) → a % p ≡ 0 → r < p → (a + r) / p ≡ a / p
page_number p a r e h =
    ap (λ x. (x + r) / p) (sym (page_start p a e))
    ∙ mul-add-div_right (omega arith) (a / p) r
    ∙ omega (arith, div-eq_of_lt h)

-- An address inside the page that begins at `a` is aligned to `a`.
pub pg_aligned_add : (p a r : ℕ) → a % p ≡ 0 → r < p → pg_aligned p (a + r) ≡ a
unfolding pg_aligned
pg_aligned_add p a r e h = ap (λ n. n * p) (page_number p a r e h) ∙ page_start p a e

pub le_add-sub : {b x : ℕ} → b ≤ x → b + (x - b) ≡ x
le_add-sub h = omega arith

pub pg_aligned_page : (p x : ℕ) → pg_aligned p x % p ≡ 0
unfolding pg_aligned
pg_aligned_page p x = grind arith
