-- ===== src/User/Alarm.antt =====
-- The alarms and the sleep of linux_user/include/os/osal_sched.h, where a `long` has 32 bits and an
-- os_alarm_t has 64. The time of day is an argument; its seconds are not negative.
mod Tests
use osal.Base.{ℕ, ◌+◌, ◌-◌, ◌*◌, ◌/◌, ◌%◌, ◌^◌, leb, if◌then◌else◌}

-- `struct timeval`.
pub record TimeVal : Type 0 where
  pub tv_sec : ℕ
  pub tv_usec : ℕ

-- The microseconds of a time.
abbrev pub micros : TimeVal → ℕ
micros tv = tv.tv_sec * 1000000 + tv.tv_usec

-- The difference to 0x3e000000 is signed, and extended to 64 bits.
unfoldable pub time_value : TimeVal → ℕ
time_value tv =
    ((tv.tv_sec + (2 ^ 64 - 1040187392)) % 2 ^ 64 * 1000000 % 2 ^ 64 + tv.tv_usec) % 2 ^ 64

unfoldable pub os_set_alarm : (t : ℕ) (now : TimeVal) → ℕ
unfolding time_value
os_set_alarm t now = (time_value now + t * 1000 % 2 ^ 32) % 2 ^ 64

unfoldable pub os_test_alarm : (alarm : ℕ) (now : TimeVal) → ℕ
unfolding time_value
os_test_alarm alarm now = if leb alarm (time_value now) then 1 else 0

-- The seconds and nanoseconds that nanosleep is called with, once, for a number of 32 bits.
unfoldable pub os_sleep : (t : ℕ) → ℕ × ℕ
os_sleep t = (t / 1000000, t % 1000000 * 1000 % 2 ^ 32)
