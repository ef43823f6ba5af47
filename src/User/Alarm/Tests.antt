-- ===== src/User/Alarm/Tests.antt =====
-- A sleep.
use osal.Base.{◌≡◌, refl}
use osal.User.Alarm.{os_sleep}

two_and_a_half : os_sleep 2500000 ≡ (2, 500000000)
unfolding os_sleep
two_and_a_half = refl
