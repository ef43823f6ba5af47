-- ===== src/User/Clock/Elapsed.antt =====
-- The difference of two times, compared with the time that has passed.
use osal.Base.{ℕ, ◌+◌, ◌-◌, ◌*◌, ◌%◌, ◌^◌, ◌≤◌, ◌<◌, ◌≡◌, ap, ◌∙◌, true, some, arith}
use native.Mathlib.Nat.{mod-eq_of_lt}
use osal.Types.{success}
use osal.User.Alarm.{TimeVal, micros}
use osal.User.Clock.{
  OsTime, os_clock_get_time, os_clock_get_time_diff_secs, os_clock_get_time_diff_msecs,
}

module _ (start now : TimeVal) (time : OsTime) (start_part : start.tv_usec < 1000000)
    (now_part : now.tv_usec < 1000000) (later : start.tv_sec ≤ now.tv_sec)
    (small : now.tv_sec < 2 ^ 32) where
  secs_lem : (now.tv_sec + (2 ^ 32 - start.tv_sec)) % 2 ^ 32 ≡ now.tv_sec - start.tv_sec
  secs_lem = omega arith

  -- From a time that os_clock_get_time stored to a later time of day, both differences succeed: the
  -- one gives a number of seconds, the other this number times 1000, and it is less than a second
  -- from the time that has passed. This is for times whose seconds fit 32 bits and differences whose
  -- milliseconds do.
  pub diff-elapsed :
      (now.tv_sec - start.tv_sec) * 1000 < 2 ^ 32
      → let stored = (os_clock_get_time (some start) (some time)).1 in
        (secs : ℕ) × (os_clock_get_time_diff_secs (some now) stored true ≡ (success, some secs))
        × (os_clock_get_time_diff_msecs (some now) stored true ≡ (success, some (secs * 1000)))
        × (micros now < micros start + secs * 1000 * 1000 + 1000000)
        × (micros start + secs * 1000 * 1000 < micros now + 1000000)
  unfolding os_clock_get_time_diff_msecs os_clock_get_time_diff_secs
  diff-elapsed fits = (
    now.tv_sec - start.tv_sec,
    ap (λ n. (success, some n)) secs_lem,
    ap (λ n. (success, some (n * 1000 % 2 ^ 32))) secs_lem
        ∙ ap (λ n. (success, some n)) (mod-eq_of_lt fits),
    omega arith,
    omega arith,
  )
