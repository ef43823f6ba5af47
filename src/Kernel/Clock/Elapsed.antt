-- ===== src/Kernel/Clock/Elapsed.antt =====
-- The difference of two times, compared with the ticks that have passed.
use osal.Base.{ℕ, ◌+◌, ◌-◌, ◌*◌, ◌/◌, ◌%◌, ◌^◌, ◌≤◌, ◌<◌, ◌≡◌, sym, ap, ◌↔◌, arith}
use mathlib.Core.Path.{subst}
use native.Mathlib.Nat.{mod-eq_of_lt, div-mul-le_self, lt-div-mul-add}
use osal.Types.{success}
use osal.Kernel.Clock.{os_clock_get_time, os_clock_get_time_diff_secs, os_clock_get_time_diff_msecs}

-- The ticks since `start` are counted across a wrap-around of the counter.
ticks_lem :
    (start n : ℕ)
    → start < 2 ^ 32
    → n < 2 ^ 32
    → ((start + n) % 2 ^ 32 + (2 ^ 32 - start)) % 2 ^ 32 ≡ n
ticks_lem start n a b = omega arith

-- Dividing the 32 low bits is dividing the number just when it has no others.
wrapped_iff : (hz x : ℕ) → 0 < hz → hz ≤ 2 ^ 32 → (x % 2 ^ 32 / hz ≡ x / hz) ↔ (x < 2 ^ 32)
wrapped_iff hz x p h =
    let low = div-mul-le_self (x % 2 ^ 32) hz in
    let high = lt-div-mul-add {a = x} p in
    (λ e. omega (arith, ap (λ d. d * hz) e), λ e. ap (λ n. n / hz) (mod-eq_of_lt e))

module _ (hz start ticks : ℕ) (running : 0 < hz) (slow : hz ≤ 2 ^ 32) (low : start < 2 ^ 32)
    (counted : ticks < 2 ^ 32) where
  -- A time is stored and `ticks` ticks later, when the counter may have wrapped around, the
  -- differences are taken. The seconds are exact, rounded down; the milliseconds are exact, rounded
  -- down, just when a thousand times the ticks fit 32 bits. This is for fewer than 2 ^ 32 ticks.
  pub diff-ticks :
      let stored = (os_clock_get_time start).1 in
      let now = (start + ticks) % 2 ^ 32 in
      (os_clock_get_time_diff_secs hz now stored ≡ (success, ticks / hz))
      × (((os_clock_get_time_diff_msecs hz now stored).1 ≡ ticks * 1000 / hz)
          ↔ (ticks * 1000 < 2 ^ 32))
  unfolding os_clock_get_time_diff_secs os_clock_get_time_diff_msecs os_clock_get_time
  diff-ticks =
      let same = ticks_lem start ticks low counted in
      (
        ap (λ n. (success, n / hz)) same,
        subst (λ n. (n * 1000 % 2 ^ 32 / hz ≡ ticks * 1000 / hz) ↔ (ticks * 1000 < 2 ^ 32))
            (sym same) (wrapped_iff hz (ticks * 1000) running slow),
      )
