-- ===== src/Kernel/IrqProxy/Twice.antt =====
-- How often a reader of the proxy is told of one interrupt.
use osal.Base.{◌≡◌, true, false, some, arith}
use osal.Kernel.Event.{Wake}
use osal.Kernel.IrqProxy.{Proxy, zero_bytes, interrupt, osal_irqproxy_read, read_enabled}
use osal.Kernel.IrqProxy.Balance.{IsValid}

-- A proxy on which nobody waits and whose interrupt line is enabled.
abbrev pub IsIdle : Proxy → Type 0
IsIdle p = IsValid p × (p.disabled ≡ false) × (p.event.waiting ≡ 0)

-- After a read that succeeded, an interrupt is reported once: the next read returns at once, whatever
-- would happen in a wait, and leaves the line enabled and the event not signalled.
pub reported_once :
    (p : Proxy) (asleep : Proxy → Wake × Proxy)
    → IsIdle p
    → p.received ≡ true
    → osal_irqproxy_read false asleep (some (interrupt p)) ≡ (zero_bytes, some p)
unfolding osal_irqproxy_read read_enabled interrupt
reported_once p asleep v h = ground arith

-- After a read that timed out, one interrupt is reported twice: the next two reads both return 0 at
-- once, without a second interrupt.
pub reported_twice :
    (p : Proxy) (asleep asleep' : Proxy → Wake × Proxy)
    → IsIdle p
    → p.received ≡ false
    → let first = osal_irqproxy_read false asleep (some (interrupt p)) in
      let second = osal_irqproxy_read false asleep' first.1 in
      (first.0 ≡ zero_bytes) × (second.0 ≡ zero_bytes)
unfolding osal_irqproxy_read read_enabled interrupt
reported_twice p asleep asleep' v h = ground arith
