-- ===== src/Kernel/Thread/Tests.antt =====
-- Threads that have finished.
use osal.Base.{ℕ, ◌≡◌, refl, true, false, none, [], ◌∷◌, pos}
use osal.Types.{success, initialized}
use osal.Kernel.Event.{Event, Wake}
use osal.Kernel.Thread.{Thread, os_thread_create, thread_wrapper, os_thread_wait}
use osal.Kernel.Thread.Finish.{slept, create-wait_twice}

abbrev idle : Event
idle = record { signaled = false; manual_reset = false; waiting = 0; state = initialized }

abbrev ended : Thread
ended = record {
  pfn_callback = 64;
  kill_event = record idle { signaled = true };
  context = 8;
  state = initialized;
  priority = pos 0;
}

-- A signal interrupts the sleep.
abbrev woken_up : Thread → ℕ → Event → Wake × Event
woken_up t wait_ms e = (record { queued = true; signal = true; timedout = false }, e)

made-success : (os_thread_create ended 128 4 (pos 9) 2 none 6).0 ≡ success
unfolding os_thread_create
made-success = refl

create-wait_twice_example :
    let made = (os_thread_create ended 128 4 (pos 9) 2 none 6).1 in
    let first = os_thread_wait woken_up ((thread_wrapper made).1 ∷ []) in
    (first ≡ (success, made ∷ []))
    × (os_thread_wait woken_up first.1 ≡ (success, slept (woken_up made) made ∷ []))
create-wait_twice_example =
    create-wait_twice woken_up woken_up ended 128 4 (pos 9) 2 none 6 made-success
