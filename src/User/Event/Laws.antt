-- ===== src/User/Event/Laws.antt =====
-- What the user-space events promise, and where they fail to.
use osal.Base.{
  ℕ, ◌+◌, ◌*◌, ◌%◌, ◌^◌, ◌<◌, ◌≡◌, ◌≢◌, refl, Bool, true, false, Option, some, arith, ltb,
  if◌then◌else◌,
}
use osal.Types.{success, timeout, initialized}
use osal.User.Event.{
  Event, CondResult, woken, timed_out, deadline, os_event_create, os_event_set, os_event_wait,
  event_no_timeout,
}

-- From a time of day with fewer than a million microseconds, the deadline is exactly the wait after
-- the time, its nanoseconds are below a second, and no intermediate value leaves a signed 32-bit long.
pub deadline_exact :
    (sec usec ms : ℕ)
    → usec < 1000000
    → let t = deadline sec usec ms in
      (t.0 * 1000000000 + t.1 ≡ sec * 1000000000 + usec * 1000 + ms * 1000000)
      × (t.1 < 1000000000)
      × ((usec + ms % 1000 * 1000) * 1000 < 2 ^ 31)
unfolding deadline
deadline_exact sec usec ms h = ground arith

-- An event that is created is not signalled; once it is set, a wait with any timeout succeeds without
-- sleeping, and leaves the signal just in a manual-reset event, where the next wait finds it. In an
-- auto-reset event the next poll times out.
pub create-set-wait :
    (lock : Bool) (manual ms : ℕ) (memory : Event) (now : Option (ℕ × ℕ))
    (asleep : Option (ℕ × ℕ) → Event → CondResult × Event)
    → let e = (os_event_create lock manual memory).1 in
      (os_event_wait 0 now asleep e ≡ some (timeout, e))
      × ((x : Event) × (os_event_set e ≡ some (success, x))
          × ((y : Event) × (os_event_wait ms now asleep x ≡ some (success, y))
              × (y.signaled ≡ ltb 0 manual)
              × (os_event_wait 0 now asleep y
                  ≡ some ((if ltb 0 manual then success else timeout), y))))
unfolding os_event_create os_event_set os_event_wait
create-set-wait lock manual ms memory now asleep =
    let e = (os_event_create lock manual memory).1 in
    (
      ground arith,
      (
        record e { signaled = true },
        ground arith,
        (record e { signaled = ltb 0 manual }, ground arith, refl, ground arith),
      ),
    )

-- A wait that times out takes a signal with it: if an auto-reset event is set while the timed-out
-- waiter is still waiting for the lock, the wait returns OSAL_TIMEOUT and the event is not signalled.
pub timeout-set_lost :
    (e x : Event) (ms sec usec : ℕ)
    → e.state ≡ initialized
    → e.signaled ≡ false
    → ms ≢ 0
    → ms ≢ event_no_timeout
    → x.manual_reset ≡ false
    → x.signaled ≡ true
    → os_event_wait ms (some (sec, usec)) (λ _ _. (timed_out, x)) e
      ≡ some (timeout, record x { signaled = false })
unfolding os_event_wait
timeout-set_lost e x ms sec usec i s nz nf auto set = ground arith

-- A wake-up is taken for a signal: a wait that is woken returns success also when the event has not
-- been set, since the wait is not in a loop.
pub wait_spurious :
    (e : Event) (ms sec usec : ℕ)
    → e.state ≡ initialized
    → e.signaled ≡ false
    → ms ≢ 0
    → os_event_wait ms (some (sec, usec)) (λ _ x. (woken, x)) e ≡ some (success, e)
unfolding os_event_wait
wait_spurious e ms sec usec i s nz = ground arith
