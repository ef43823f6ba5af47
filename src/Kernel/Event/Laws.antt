-- ===== src/Kernel/Event/Laws.antt =====
-- What the kernel's events promise, and two signals that they lose.
use osal.Base.{ℕ, ◌+◌, ◌*◌, ◌/◌, ◌%◌, ◌^◌, ◌<◌, ◌≡◌, ap, ◌↔◌, ◌⊎◌, Bool, true, false, arith}
use native.Mathlib.Nat.{mod-eq_of_lt}
use osal.Types.{success, timeout}
use osal.Kernel.Event.{
  Event, Wake, set_timeout, os_event_set, os_event_wait, os_event_hardwait, do_os_event_wait,
  event_no_timeout,
}

-- A signal set while nobody waits is there for the next wait, whatever its timeout and without
-- sleeping: the wait succeeds, takes the signal of an auto-reset event and leaves a manual one set.
pub wait-set :
    (e : Event) (wait_ms : ℕ) (asleep : Event → Wake × Event)
    → e.waiting ≡ 0
    → os_event_wait wait_ms asleep (os_event_set e).1
      ≡ (success, record e { signaled = e.manual_reset; waiting = 0 })
unfolding os_event_wait os_event_set
wait-set e wait_ms asleep h = ground arith

-- A wait with timeout 0 never sleeps, and answers just whether the event is signalled.
pub wait_poll :
    (e : Event) (asleep : Event → Wake × Event)
    → ((e.signaled ≡ true) × ((os_event_wait 0 asleep e).0 ≡ success))
      ⊎ ((e.signaled ≡ false) × (os_event_wait 0 asleep e ≡ (timeout, e)))
unfolding os_event_wait
wait_poll e asleep = ground arith

-- A hard wait is not interrupted: it returns success or timeout, and without a timeout success.
pub hardwait_result :
    (e : Event) (wait_ms : ℕ) (asleep : Event → Wake × Event)
    → (((os_event_hardwait wait_ms asleep e).0 ≡ success)
        ⊎ ((os_event_hardwait wait_ms asleep e).0 ≡ timeout))
      × ((os_event_hardwait event_no_timeout asleep e).0 ≡ success)
unfolding os_event_hardwait
hardwait_result e wait_ms asleep = ground arith

-- After a wait that slept, an auto-reset event is not signalled, whatever happened in between.
pub wait_clears :
    (e : Event) (wait_ms : ℕ) (i : Bool) (asleep : Event → Wake × Event)
    → e.signaled ≡ false
    → ((x : Event) → (asleep x).1.manual_reset ≡ false)
    → (do_os_event_wait wait_ms i asleep e).1.signaled ≡ false
unfolding do_os_event_wait
wait_clears e wait_ms i asleep h auto = ground (arith, auto (record e { waiting = e.waiting + 1 }))

-- A second signal is lost: an auto-reset event that is set again while the woken waiter has not yet
-- returned from its wait is not signalled afterwards, so the next wait times out.
pub wait-set_lost :
    (e x : Event) (i : Bool) (w : Wake) (again : Event → Wake × Event)
    → e.signaled ≡ false
    → x.manual_reset ≡ false
    → w.queued ≡ false
    → x.waiting ≡ 0
    → (os_event_wait 0 again
        (do_os_event_wait event_no_timeout i (λ _. (w, (os_event_set x).1)) e).1).0
      ≡ timeout
unfolding os_event_wait os_event_set
wait-set_lost e x i w again h auto off quiet = ground arith

wrapped_iff : (n : ℕ) → (n % 2 ^ 32 / 1000 ≡ n / 1000) ↔ (n < 2 ^ 32)
wrapped_iff n = (λ h. omega arith, λ h. omega arith)

-- For a timeout below 2 ^ 32 milliseconds, the timer is set to the requested time in ticks, rounded
-- down, exactly when the number of milliseconds times the tick rate fits 32 bits.
pub set_timeout_exact :
    (jiffies hz ms : ℕ)
    → ms < 2 ^ 32
    → (set_timeout jiffies hz ms ≡ jiffies + ms * hz / 1000) ↔ (ms * hz < 2 ^ 32)
unfolding set_timeout
set_timeout_exact jiffies hz ms small = rw (mod-eq_of_lt small) (
  λ h. (wrapped_iff (ms * hz)).0 (omega arith),
  λ h. ap (λ (t : ℕ). jiffies + t) ((wrapped_iff (ms * hz)).1 h),
)
