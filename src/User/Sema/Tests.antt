-- ===== src/User/Sema/Tests.antt =====
-- A get that waits, a put, and the wake-up.
use osal.Base.{◌%◌, ◌^◌, ◌⊎◌, true, ◌+◌, ◌≡◌, refl, arith}
use osal.User.Sema.{
  Sema, fresh, os_sema_init, sema_tested, sema_retested, sema_awakened, sema_put_counted,
  sema_put_signaled, get, retry, put, signal, Reach, inited, next,
}
use osal.User.Sema.Wakeups.{Exact, Reach-units, Reach-waiting}

abbrev served : Sema
served = record (fresh 0 0) { gets = 1; puts = 1 }

served-Reach : Reach 0 served
unfolding os_sema_init sema_tested sema_retested sema_awakened sema_put_counted sema_put_signaled
served-Reach =
    let start : Reach 0 (fresh 0 0) = inited (fresh 0 9) refl in
    let waits = next start get in
    let signals = next (next waits put) (signal (omega arith)) in next signals (retry (omega arith))

Reach-units_example :
    ((served.count + served.gets) % 2 ^ 32 ≡ (0 + served.puts) % 2 ^ 32) × Exact 0 served
Reach-units_example = Reach-units (omega arith) served-Reach

abbrev emptied : Sema
emptied = record (fresh 0 0) { waiting = 1; gets = 1 }

-- The first get takes the only unit, the second waits.
emptied-Reach : Reach 1 emptied
unfolding os_sema_init sema_tested
emptied-Reach =
    let start : Reach 1 (fresh 0 1) = inited (fresh 0 9) refl in next (next start get) get

Reach-waiting_example :
    (emptied.count ≡ 0) × ((emptied.overflowed ≡ true) ⊎ (emptied.gets ≡ 1 + emptied.puts))
Reach-waiting_example = Reach-waiting (omega arith) emptied-Reach (omega arith) refl refl
