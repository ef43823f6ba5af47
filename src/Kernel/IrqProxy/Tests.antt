-- ===== src/Kernel/IrqProxy/Tests.antt =====
-- Concrete runs of the interrupt proxy.
use osal.Base.{◌≡◌, refl, true, false, some}
use osal.Types.{initialized}
use osal.Kernel.Event.{Wake}
use osal.Kernel.IrqProxy.{
  Proxy, interrupt, osal_irqproxy_write, osal_irqproxy_read, read_enabled, osal_irqproxy_release,
}
use osal.Kernel.IrqProxy.Balance.{Session, wrote, raise, reads, interrupt-IsLine, Session-balanced}

-- The device raises its line during the wait.
abbrev raised_meanwhile : Proxy → Wake × Proxy
raised_meanwhile p = (record { queued = false; signal = false; timedout = false }, interrupt p)

-- The proxy of interrupt 5 after it was bound, and after a read that timed out.
abbrev fresh : Proxy
fresh = record {
  irqnum = 5;
  event = record { signaled = false; manual_reset = false; waiting = 0; state = initialized };
  disabled = false;
  received = true;
  depth = 0;
  unbalanced = false;
}

-- An interrupt, and a read that takes it.
session : Session (osal_irqproxy_read false raised_meanwhile (some (interrupt fresh))).1
unfolding osal_irqproxy_write
session = reads false raised_meanwhile interrupt-IsLine (raise (wrote 1 (some 5) true true))

taken : (osal_irqproxy_read false raised_meanwhile (some (interrupt fresh))).1 ≡ some fresh
unfolding osal_irqproxy_read read_enabled interrupt
taken = refl

-- Another interrupt, which is not read before the file is closed.
raised : Session (some (interrupt fresh))
raised = raise (rw (← taken) session)

Session-balanced_example :
    ((interrupt fresh).unbalanced ≡ false)
    × ((q : Proxy) × (osal_irqproxy_release (some (interrupt fresh)) ≡ some q)
        × (q.depth ≡ 0)
        × (q.unbalanced ≡ false))
Session-balanced_example = Session-balanced raised
