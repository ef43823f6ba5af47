-- ===== src/Kernel/Clock/Tests.antt =====
-- A counter of 250 ticks a second that wraps around.
use osal.Base.{◌+◌, ◌*◌, ◌/◌, ◌%◌, ◌^◌, ◌<◌, ◌≡◌, ◌↔◌, arith}
use osal.Types.{success}
use osal.Kernel.Clock.{os_clock_get_time, os_clock_get_time_diff_secs, os_clock_get_time_diff_msecs}
use osal.Kernel.Clock.Elapsed.{diff-ticks}

diff-ticks_example :
    let stored = (os_clock_get_time 4294967290).1 in
    let now = (4294967290 + 1000) % 2 ^ 32 in
    (os_clock_get_time_diff_secs 250 now stored ≡ (success, 1000 / 250))
    × (((os_clock_get_time_diff_msecs 250 now stored).1 ≡ 1000 * 1000 / 250)
        ↔ (1000 * 1000 < 2 ^ 32))
diff-ticks_example =
    diff-ticks 250 4294967290 1000 (omega arith) (omega arith) (omega arith) (omega arith)
