-- ===== src/User/Clock.antt =====
-- linux_user/src/osal_clock.c: times in whole seconds. What gettimeofday gives is an argument, none
-- where it fails. A pointer is none for NULL, and false for NULL where only its target is written.
pub mod Elapsed
use osal.Base.{ℕ, ◌+◌, ◌-◌, ◌*◌, ◌%◌, ◌^◌, Bool, true, false, Option, none, some}
use osal.Types.{OsalResult, success, error, invalid_param}
use osal.User.Alarm.{TimeVal}

pub record OsTime : Type 0 where
  pub secs : ℕ

-- On failure, `time` stays as it was.
unfoldable pub os_clock_get_time : Option TimeVal → Option OsTime → OsalResult × Option OsTime
os_clock_get_time tv none = (invalid_param, none)
os_clock_get_time none (some time) = (error, some time)
os_clock_get_time (some tv) (some time) = (success, some (record { secs = tv.tv_sec }))

-- The difference of two times by what os_clock_get_time returned for the current one.
unfoldable pub diff_from : OsTime → OsalResult × Option OsTime → OsalResult × Option ℕ
diff_from time (success, some curr) = (success, some ((curr.secs + (2 ^ 32 - time.secs)) % 2 ^ 32))
diff_from time (r, curr) = (error, none)

-- The result is none where nothing is written.
unfoldable pub os_clock_get_time_diff_secs :
    Option TimeVal → Option OsTime → (secs : Bool) → OsalResult × Option ℕ
unfolding os_clock_get_time diff_from
os_clock_get_time_diff_secs tv none secs = (invalid_param, none)
os_clock_get_time_diff_secs tv (some time) false = (invalid_param, none)
os_clock_get_time_diff_secs tv (some time) true =
    diff_from time (os_clock_get_time tv (some (record { secs = 0 })))

unfoldable pub in_msecs : OsalResult × Option ℕ → OsalResult × Option ℕ
in_msecs (r, none) = (r, none)
in_msecs (r, some secs) = (r, some (secs * 1000 % 2 ^ 32))

unfoldable pub os_clock_get_time_diff_msecs :
    Option TimeVal → Option OsTime → (msecs : Bool) → OsalResult × Option ℕ
unfolding os_clock_get_time diff_from in_msecs
os_clock_get_time_diff_msecs tv none msecs = (invalid_param, none)
os_clock_get_time_diff_msecs tv (some time) false = (invalid_param, none)
os_clock_get_time_diff_msecs tv (some time) true =
    in_msecs (diff_from time (os_clock_get_time tv (some (record { secs = 0 }))))
