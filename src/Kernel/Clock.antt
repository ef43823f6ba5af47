-- ===== src/Kernel/Clock.antt =====
-- linux_kernel/include/os/osal_clock.h: times are the kernel's counter of ticks, which has 32 bits.
pub mod Elapsed
mod Tests
use osal.Base.{ℕ, ◌+◌, ◌-◌, ◌*◌, ◌/◌, ◌%◌, ◌^◌}
use osal.Types.{OsalResult, success}

pub record OsTime : Type 0 where
  pub jiffies : ℕ

unfoldable pub os_clock_get_time : (jiffies : ℕ) → OsalResult × OsTime
os_clock_get_time now = (success, record { jiffies = now })

-- `hz` is HZ, the ticks of a second.
unfoldable pub os_clock_get_time_diff_msecs : (hz now : ℕ) → OsTime → OsalResult × ℕ
os_clock_get_time_diff_msecs hz now time =
    (success, (now + (2 ^ 32 - time.jiffies)) % 2 ^ 32 * 1000 % 2 ^ 32 / hz)

unfoldable pub os_clock_get_time_diff_secs : (hz now : ℕ) → OsTime → OsalResult × ℕ
os_clock_get_time_diff_secs hz now time = (success, (now + (2 ^ 32 - time.jiffies)) % 2 ^ 32 / hz)
