-- ===== src/Kernel/IrqProxy/Balance.antt =====
-- The proxy leaves the interrupt line as it found it.
use osal.Base.{ℕ, ◌≡◌, refl, Bool, true, false, Option, none, some, arith, to_nat, if◌then◌else◌}
use osal.Types.{OsalResult, success}
use osal.Kernel.Event.{Event, Wake, Entry, done, sleep, wait_enter, wait_leave}
use osal.Kernel.IrqProxy.{
  Proxy, osal_irqproxy_open, ReadResult, interrupt, osal_irqproxy_read, osal_irqproxy_write,
  osal_irqproxy_release, release_proxy, read_enabled, read_status, read_entered, read_wait,
  enable_irq,
}

-- The line is disabled once if the proxy says so, else not at all.
pub record IsLine (p : Proxy) : Type 0 where
  pub counted : p.depth ≡ to_nat p.disabled
  pub auto : p.event.manual_reset ≡ false
  pub balanced : p.unbalanced ≡ false

-- Between the calls, moreover, a signal that is not taken keeps the line disabled.
pub record IsValid (p : Proxy) : Type 0 where
  pub counted : p.depth ≡ to_nat p.disabled
  pub auto : p.event.manual_reset ≡ false
  pub balanced : p.unbalanced ≡ false
  pub quiet : p.disabled ≡ false → p.event.signaled ≡ false

abbrev pub AllValid : Option Proxy → Type 0
AllValid none = Unit
AllValid (some p) = IsValid p

-- Whatever happens during a wait keeps the count of the line; interrupts do.
abbrev pub KeepsLine : (Proxy → Wake × Proxy) → Type 0
KeepsLine asleep = (p : Proxy) → IsLine p → IsLine (asleep p).1

pub interrupt-IsLine : (p : Proxy) → IsLine p → IsLine (interrupt p)
unfolding interrupt
interrupt-IsLine p v = ground arith

pub interrupt-IsValid : (p : Proxy) → IsValid p → IsValid (interrupt p)
unfolding interrupt
interrupt-IsValid p v = ground arith

-- A result with an event that is not signalled keeps the line.
read_status-IsValid :
    (re : OsalResult × Event) (p : Proxy)
    → IsLine p
    → re.1.signaled ≡ false
    → re.1.manual_reset ≡ false
    → IsValid (read_status re p).1
unfolding read_status
read_status-IsValid (success, e) p v s a = ground arith
read_status-IsValid (_, e) p v s a = ground arith

wait_leave-clears :
    (w : Wake) (e : Event)
    → e.manual_reset ≡ false
    → ((wait_leave 1000 true w e).1.signaled ≡ false)
      × ((wait_leave 1000 true w e).1.manual_reset ≡ false)
unfolding wait_leave
wait_leave-clears w e a = ground arith

read_entered-IsValid :
    (asleep : Proxy → Wake × Proxy) (p : Proxy) (entry : Entry)
    → KeepsLine asleep
    → IsLine p
    → entry ≡ wait_enter p.event 1000
    → IsValid (read_entered asleep entry p).1
unfolding read_entered wait_enter
read_entered-IsValid asleep p (done r e) keeps v eq =
    read_status-IsValid (r, e) p v (ground arith) (ground arith)
read_entered-IsValid asleep p (sleep e) keeps v eq =
    let q = asleep (record p { event = e }) in
    let line : IsLine q.1 = keeps (record p { event = e }) (ground arith) in
    let clear = wait_leave-clears q.0 q.1.event line.auto in
    read_status-IsValid (wait_leave 1000 true q.0 q.1.event) q.1 line clear.0 clear.1

read_wait-IsValid :
    (asleep : Proxy → Wake × Proxy) (p : Proxy)
    → KeepsLine asleep
    → IsLine p
    → IsValid (read_wait asleep p).1
unfolding read_wait
read_wait-IsValid asleep p keeps v =
    read_entered-IsValid asleep p (wait_enter p.event 1000) keeps v refl

raise-IsLine : (b : Bool) (p : Proxy) → IsLine p → IsLine (if b then interrupt p else p)
raise-IsLine true p v = interrupt-IsLine p v
raise-IsLine false p v = v

read_enabled-IsValid :
    (raised : Bool) (asleep : Proxy → Wake × Proxy) (p : Proxy)
    → KeepsLine asleep
    → IsLine p
    → AllValid (read_enabled raised asleep p).1
unfolding read_enabled
read_enabled-IsValid raised asleep p keeps v =
    read_wait-IsValid asleep (if raised then interrupt p else p) keeps (raise-IsLine raised p v)

enable-IsLine :
    (p : Proxy) → IsLine p → p.disabled ≡ true → IsLine (enable_irq (record p { disabled = false }))
enable-IsLine p v h = ground arith

branch-AllValid :
    (b : Bool) (x y : ReadResult × Option Proxy)
    → (b ≡ true → AllValid x.1)
    → (b ≡ false → AllValid y.1)
    → AllValid (if b then x else y).1
branch-AllValid true x y hx hy = hx refl
branch-AllValid false x y hx hy = hy refl

pub read-IsValid :
    (raised : Bool) (asleep : Proxy → Wake × Proxy) (p : Option Proxy)
    → KeepsLine asleep
    → AllValid p
    → AllValid (osal_irqproxy_read raised asleep p).1
unfolding osal_irqproxy_read
read-IsValid raised asleep none keeps v = tt
read-IsValid raised asleep (some p) keeps v =
    let line : IsLine p = record { counted = v.counted; auto = v.auto; balanced = v.balanced } in
    branch-AllValid p.disabled _ _
      (λ off.
        branch-AllValid p.received _ _
          (λ seen. read_enabled-IsValid raised asleep _ keeps (enable-IsLine p line off))
          (λ new. ground arith))
      (λ on. read_enabled-IsValid raised asleep p keeps line)

pub write-IsValid :
    (size : ℕ) (copied : Option ℕ) (allocated registered : Bool)
    → AllValid (osal_irqproxy_write size copied allocated registered none).1
unfolding osal_irqproxy_write
write-IsValid size none allocated registered = ground arith
write-IsValid size (some irqnum) allocated registered = ground arith

-- The life of an open file: a first write, then interrupts and reads in any order.
pub data Session : Option Proxy → Type 0 where
  wrote :
      (size : ℕ) (copied : Option ℕ) (allocated registered : Bool)
      → Session (osal_irqproxy_write size copied allocated registered osal_irqproxy_open.1).1
  raise : {p : Proxy} → Session (some p) → Session (some (interrupt p))
  reads :
      {p : Option Proxy} (raised : Bool) (asleep : Proxy → Wake × Proxy)
      → KeepsLine asleep
      → Session p
      → Session (osal_irqproxy_read raised asleep p).1
  rewrote :
      {p : Proxy} (size : ℕ) (copied : Option ℕ) (allocated registered : Bool)
      → Session (some p)
      → Session (osal_irqproxy_write size copied allocated registered (some p)).1

Session-AllValid : {p : Option Proxy} → Session p → AllValid p
unfolding osal_irqproxy_write
Session-AllValid (wrote size copied allocated registered) =
    write-IsValid size copied allocated registered
Session-AllValid (raise {p} s) = interrupt-IsValid p (Session-AllValid s)
Session-AllValid (reads {p} raised asleep keeps s) =
    read-IsValid raised asleep p keeps (Session-AllValid s)
Session-AllValid (rewrote size copied allocated registered s) = Session-AllValid s

release-balanced :
    (p : Proxy) → IsValid p → ((release_proxy p).depth ≡ 0) × ((release_proxy p).unbalanced ≡ false)
unfolding release_proxy
release-balanced p v = ground arith

-- However interrupts, reads and further writes are interleaved after the first write to the file,
-- closing it leaves the interrupt line enabled, and no enable_irq ever came without a disable_irq:
-- the proxy's state satisfies this when it is released. What happens during a wait is arbitrary, as
-- long as it keeps the count of the line, as interrupts do.
pub Session-balanced :
    {p : Proxy}
    → Session (some p)
    → (p.unbalanced ≡ false)
      × ((q : Proxy) × (osal_irqproxy_release (some p) ≡ some q)
          × (q.depth ≡ 0)
          × (q.unbalanced ≡ false))
unfolding osal_irqproxy_release
Session-balanced {p} s =
    let v : IsValid p = Session-AllValid s in
    let done = release-balanced p v in (v.balanced, (release_proxy p, refl, done.0, done.1))
