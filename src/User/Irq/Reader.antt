-- ===== src/User/Irq/Reader.antt =====
-- os_irq_thread of linux_user/src/osal_irq.c, which reads the kernel's interrupt proxy.
pub mod Count
pub mod Delivery
mod Tests
use osal.Base.{
  ℕ, ◌+◌, ◌-◌, Bool, true, false, not, ◌&&◌, Option, none, some, List, [], ◌∷◌, to_nat, ◌==◌,
  if◌then◌else◌,
}
use osal.Kernel.Event.{Event, Wake}
use osal.Kernel.IrqProxy.{Proxy, ReadResult, zero_bytes, eintr, interrupt, osal_irqproxy_read}

-- How a read's sleep in the kernel ends: its timer runs out, a signal comes, an interrupt wakes it, or an
-- interrupt comes and the timer has run out too. A wake-up takes the task off the event's queue.
pub data Sleep : Type 0 where
  timed_out signaled woken raced : Sleep

abbrev off_queue : Proxy → Proxy
off_queue p = record p { event = record p.event { waiting = p.event.waiting - 1 } }

abbrev pub slept : Sleep → Proxy → Wake × Proxy
slept timed_out p = (record { queued = true; signal = false; timedout = true }, p)
slept signaled p = (record { queued = true; signal = true; timedout = false }, p)
slept woken p =
    (record { queued = false; signal = false; timedout = false }, off_queue (interrupt p))
slept raced p =
    (record { queued = false; signal = false; timedout = true }, off_queue (interrupt p))

-- One round of the loop: whether the device raises its line before the read, and in the read before it
-- waits.
pub record Round : Type 0 where
  pub before : Bool
  pub raised : Bool
  pub sleep : Sleep

abbrev raise_before : Bool → Option Proxy → Option Proxy
raise_before b none = none
raise_before b (some p) = some (if b then interrupt p else p)

-- `read` returned no error.
abbrev is_read : ReadResult → Bool
is_read zero_bytes = true
is_read eintr = false

-- The loop, as often as there are rounds before the file is closed: the calls of the handler, and the
-- proxy.
unfoldable pub os_irq_thread : List Round → Option Proxy → ℕ × Option Proxy
unfolding osal_irqproxy_read interrupt
os_irq_thread [] p = (0, p)
os_irq_thread (r ∷ rs) p =
    let read = osal_irqproxy_read r.raised (slept r.sleep) (raise_before r.before p) in
    let rest = os_irq_thread rs read.1 in (to_nat (is_read read.0) + rest.0, rest.1)
