-- ===== src/Kernel/Alarm/Fires.antt =====
-- When the alarms of both implementations fire.
use osal.Base.{ℕ, ◌+◌, ◌*◌, ◌%◌, ◌^◌, ◌≤◌, ◌<◌, ◌≡◌, ◌↔◌, arith}
use osal.User.Alarm as User
use osal.User.Alarm.{TimeVal, micros}
use osal.Kernel.Alarm as Kernel

-- A time of day of 0x3e000000 seconds or more (it is 2002 then), which fits the 31 bits of its seconds.
pub record IsRecent (tv : TimeVal) : Type 0 where
  pub since : 1040187392 ≤ tv.tv_sec
  pub fits : tv.tv_sec < 2 ^ 31
  pub part : tv.tv_usec < 1000000

user-micros : (tv : TimeVal) → IsRecent tv → User.time_value tv + 1040187392000000 ≡ micros tv
unfolding User.time_value
user-micros tv v = omega (arith, v.since, v.fits, v.part)

kernel-micros : (tv : TimeVal) → IsRecent tv → Kernel.time_value tv ≡ micros tv
unfolding Kernel.time_value
kernel-micros tv v = omega (arith, v.since, v.fits, v.part)

-- Setting adds what an alarm lasts, without wrapping around in 64 bits.
user_set-micros :
    (t : ℕ) (tv : TimeVal)
    → IsRecent tv
    → User.os_set_alarm t tv + 1040187392000000 ≡ micros tv + t * 1000 % 2 ^ 32
unfolding User.os_set_alarm
user_set-micros t tv v = omega (arith, user-micros tv v, v.fits, v.part)

kernel_set-micros :
    (t : ℕ) (tv : TimeVal) → IsRecent tv → Kernel.os_set_alarm t tv ≡ micros tv + t * 1000 % 2 ^ 32
unfolding Kernel.os_set_alarm
kernel_set-micros t tv v = omega (arith, kernel-micros tv v, v.fits, v.part)

module _ (t : ℕ) (set now : TimeVal) (before : IsRecent set) (after : IsRecent now) where
  user-fires :
      (User.os_test_alarm (User.os_set_alarm t set) now ≡ 1)
      ↔ (micros set + t * 1000 % 2 ^ 32 ≤ micros now)
  unfolding User.os_test_alarm
  user-fires =
      let a = user_set-micros t set before in
      let b = user-micros now after in (λ e. ground (arith, a, b), λ e. ground (arith, a, b))

  kernel-fires :
      (Kernel.os_test_alarm (Kernel.os_set_alarm t set) now ≡ 1)
      ↔ (micros set + t * 1000 % 2 ^ 32 ≤ micros now)
  unfolding Kernel.os_test_alarm
  kernel-fires =
      let a = kernel_set-micros t set before in
      let b = kernel-micros now after in (λ e. ground (arith, a, b), λ e. ground (arith, a, b))

  -- An alarm set for `t` milliseconds has expired just when at least the microseconds that `t` * 1000
  -- leaves in 32 bits have passed since it was set, in user space and in the kernel, although the
  -- two count from different times. This is for times of day of 0x3e000000 seconds or more, whose
  -- seconds fit 31 bits.
  pub alarm-fires :
      ((User.os_test_alarm (User.os_set_alarm t set) now ≡ 1)
        ↔ (micros set + t * 1000 % 2 ^ 32 ≤ micros now))
      × ((Kernel.os_test_alarm (Kernel.os_set_alarm t set) now ≡ 1)
          ↔ (micros set + t * 1000 % 2 ^ 32 ≤ micros now))
  alarm-fires = (user-fires, kernel-fires)
