-- ===== src/Kernel/Alarm.antt =====
-- The alarms and the sleep of linux_kernel/include/os/osal_sched.h, where an `unsigned long` has 32 bits and an
-- os_alarm_t has 64. The time of day is an argument; its seconds are not negative.
pub mod Fires
mod Tests
use osal.Base.{ℕ, ◌+◌, Option, none, some, ◌==◌, ◌*◌, ◌%◌, ◌^◌, ltb, if◌then◌else◌}
use osal.User.Alarm.{TimeVal}

unfoldable pub time_value : TimeVal → ℕ
time_value tv = (tv.tv_sec * 1000000 % 2 ^ 64 + tv.tv_usec) % 2 ^ 64

unfoldable pub os_set_alarm : (t : ℕ) (now : TimeVal) → ℕ
unfolding time_value
os_set_alarm t now = (time_value now + t * 1000 % 2 ^ 32) % 2 ^ 64

unfoldable pub os_test_alarm : (alarm : ℕ) (now : TimeVal) → ℕ
unfolding time_value
os_test_alarm alarm now = if ltb (time_value now) alarm then 0 else 1

-- The ticks that schedule_timeout is called with, if it is. `msecs_to_jiffies` is the kernel's.
pub os_sleep : (msecs_to_jiffies : ℕ → ℕ) (t : ℕ) → Option ℕ
os_sleep msecs_to_jiffies t = if t == 0 then none else some (msecs_to_jiffies t + 1)
