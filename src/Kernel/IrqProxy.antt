-- ===== src/Kernel/IrqProxy.antt =====
-- The /proc/irqproxy part of linux_kernel/src/osal_irq.c, which hands interrupts to user space. An
-- interrupt, with all that its handler does, is a single step.
pub mod Balance
pub mod Twice
mod Tests
use osal.Base.{ℕ, ◌+◌, ◌-◌, Bool, true, false, ◌||◌, Option, none, some, ◌==◌, ltb, if◌then◌else◌}
use osal.Types.{OsalResult, success}
use osal.Kernel.Event.{
  Event, Wake, Entry, done, sleep, wait_enter, wait_leave, os_event_create, os_event_set,
  os_event_wait, os_event_destroy,
}

-- `os_irqproxy_t`, with what the kernel keeps of the interrupt line: how many calls of disable_irq
-- are not yet matched by an enable_irq, and whether an enable_irq came with none to match. The line
-- delivers interrupts while the depth is 0.
pub record Proxy : Type 0 where
  pub irqnum : ℕ
  pub event : Event
  pub disabled : Bool
  pub received : Bool
  pub depth : ℕ
  pub unbalanced : Bool

abbrev pub enable_irq : Proxy → Proxy
enable_irq p =
    if p.depth == 0 then record p { unbalanced = true } else record p { depth = p.depth - 1 }

unfoldable pub osal_irqproxy_handler : Proxy → Proxy
unfolding os_event_set
osal_irqproxy_handler p = record p {
  event = (os_event_set p.event).1;
  depth = p.depth + 1;
  disabled = true;
}

-- The device raises its line.
unfoldable pub interrupt : Proxy → Proxy
unfolding osal_irqproxy_handler
interrupt p = if p.depth == 0 then osal_irqproxy_handler p else p

-- The result and `private_data` of a file that is opened.
abbrev pub osal_irqproxy_open : ℕ × Option Proxy
osal_irqproxy_open = (0, none)

-- What a reader returns: 0, or -EINTR.
pub data ReadResult : Type 0 where
  zero_bytes eintr : ReadResult

read_status : OsalResult × Event → Proxy → ReadResult × Proxy
read_status (success, e) p = (zero_bytes, record p { event = e; received = true })
read_status (r, e) p = (eintr, record p { event = e; received = false })

read_entered : (Proxy → Wake × Proxy) → Entry → Proxy → ReadResult × Proxy
unfolding read_status wait_leave
read_entered asleep (done r e) p = read_status (r, e) p
read_entered asleep (sleep e) p =
    let (w, p') = asleep (record p { event = e }) in
    read_status (wait_leave 1000 true w p'.event) p'

-- From the call of os_event_wait on.
read_wait : (Proxy → Wake × Proxy) → Proxy → ReadResult × Proxy
unfolding read_entered wait_enter
read_wait asleep p = read_entered asleep (wait_enter p.event 1000) p

-- `raised` says whether the device raises its line before the wait begins, and `asleep` is what
-- happens during the wait.
unfoldable pub read_enabled :
    (raised : Bool) (asleep : Proxy → Wake × Proxy) → Proxy → ReadResult × Option Proxy
unfolding read_wait interrupt
read_enabled raised asleep p =
    let (r, q) = read_wait asleep (if raised then interrupt p else p) in (r, some q)

-- Without private data there is nothing to read.
unfoldable pub osal_irqproxy_read :
    (raised : Bool) (asleep : Proxy → Wake × Proxy) → Option Proxy → ReadResult × Option Proxy
osal_irqproxy_read raised asleep none = (zero_bytes, none)
osal_irqproxy_read raised asleep (some p) =
    if p.disabled
    then if p.received
      then read_enabled raised asleep (enable_irq (record p { disabled = false }))
      else (zero_bytes, some (record p { received = true }))
    else read_enabled raised asleep p

-- What a writer returns: 0, or an error code.
pub data WriteResult : Type 0 where
  bound einval efault enomem : WriteResult

-- `copied` is the byte that copy_from_user delivers, none if it fails; `allocated` and `registered`
-- say whether OS_ALLOC and os_register_top_half succeed.
unfoldable pub osal_irqproxy_write :
    (size : ℕ) (copied : Option ℕ) (allocated registered : Bool)
    → Option Proxy
    → WriteResult × Option Proxy
unfolding os_event_create
osal_irqproxy_write size copied allocated registered (some p) = (einval, some p)
osal_irqproxy_write size none allocated registered none =
    if size == 1 then (efault, none) else (einval, none)
osal_irqproxy_write size (some irqnum) allocated registered none =
    if size == 1
    then if irqnum == 0
      then (einval, none)
      else if allocated
      then if registered
        then (
          bound,
          some (record {
            irqnum = irqnum;
            event = (os_event_create 0).1;
            disabled = false;
            received = true;
            depth = 0;
            unbalanced = false;
          }),
        )
        else (einval, none)
      else (enomem, none)
    else (einval, none)

-- A wait with timeout 0 does not sleep: its argument for that time is never used.
unfoldable pub release_proxy : Proxy → Proxy
unfolding os_event_wait os_event_destroy
release_proxy p =
    let (r, e) =
      os_event_wait 0 (λ e'. (record { queued = false; signal = false; timedout = false }, e'))
        p.event in
    let p' = if p.disabled then p else record p { event = e } in
    let q = if p.disabled then enable_irq p' else elim r [ success ↦ enable_irq p' | _ ↦ p' ] in
    record q { event = (os_event_destroy q.event).1 }

-- The state of the line after the file is closed; the proxy itself is freed.
pub osal_irqproxy_release : Option Proxy → Option Proxy
unfolding release_proxy
osal_irqproxy_release none = none
osal_irqproxy_release (some p) = some (release_proxy p)
