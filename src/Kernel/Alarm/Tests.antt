-- ===== src/Kernel/Alarm/Tests.antt =====
-- An alarm of two seconds, set at the turn of a second, and looked at too early.
use osal.Base.{◌+◌, ◌*◌, ◌%◌, ◌^◌, ◌≤◌, ◌≡◌, refl, ◌↔◌, arith}
use osal.User.Alarm as User
use osal.User.Alarm.{TimeVal, micros}
use osal.Kernel.Alarm as Kernel
use osal.Kernel.Alarm.Fires.{IsRecent, alarm-fires}

abbrev set : TimeVal
set = record { tv_sec = 1290000000; tv_usec = 999999 }

abbrev later : TimeVal
later = record { tv_sec = 1290000002; tv_usec = 999998 }

set-IsRecent : IsRecent set
set-IsRecent = record { since = omega arith; fits = omega arith; part = omega arith }

later-IsRecent : IsRecent later
later-IsRecent = record { since = omega arith; fits = omega arith; part = omega arith }

not_yet : Kernel.os_test_alarm (Kernel.os_set_alarm 2000 set) later ≡ 0
unfolding Kernel.os_test_alarm Kernel.os_set_alarm
not_yet = refl

-- An alarm for 4294968 milliseconds lasts less than one.
too_long : Kernel.os_test_alarm (Kernel.os_set_alarm 4294968 set) later ≡ 1
unfolding Kernel.os_test_alarm Kernel.os_set_alarm
too_long = refl

alarm-fires_example :
    ((User.os_test_alarm (User.os_set_alarm 2000 set) later ≡ 1)
      ↔ (micros set + 2000 * 1000 % 2 ^ 32 ≤ micros later))
    × ((Kernel.os_test_alarm (Kernel.os_set_alarm 2000 set) later ≡ 1)
        ↔ (micros set + 2000 * 1000 % 2 ^ 32 ≤ micros later))
alarm-fires_example = alarm-fires 2000 set later set-IsRecent later-IsRecent
