-- ===== src/User/Irq/Reader/Delivery.antt =====
-- How many interrupts the handler in user space is called for.
use osal.Base.{
  ℕ, ◌+◌, ◌*◌, ◌≤◌, ◌≡◌, ◌≢◌, refl, true, false, Option, none, some, List, [], ◌∷◌, arith, to_nat,
  if◌then◌else◌,
}
use osal.Kernel.Event.{os_event_create}
use osal.Kernel.IrqProxy.{Proxy, interrupt, osal_irqproxy_read, osal_irqproxy_write}
use osal.User.Irq.Reader.{slept, Round, is_read, os_irq_thread}
use osal.User.Irq.Reader.Count.{
  fired_before, fired_in, fired, due, owed, IsReady, Counted, interrupt-due, read-Counted,
}

chain :
    (p q : Proxy) (c f0 f c' f' : ℕ) (o o' : Option Proxy)
    → (due q ≤ due p + 2 * f0) × (owed p + f0 ≤ owed q)
    → Counted c f q o
    → ((q' : Proxy) → o ≡ some q' → IsReady q' → Counted c' f' q' o')
    → Counted (c + c') (f0 + f + f') p o'
chain p q c f0 f c' f' none o' h k more = absurd k
chain p q c f0 f c' f' (some q') none h k more = absurd (more q' refl k.0)
chain p q c f0 f c' f' (some q') (some z) h k more =
    let m = more q' refl k.0 in
    (m.0, omega (arith, h, k.1, k.2, m.1, m.2), omega (arith, h, k.1, k.2, m.1, m.2))

thread-Counted :
    (rs : List Round) (p : Proxy)
    → IsReady p
    → let r = os_irq_thread rs (some p) in Counted r.0 (fired rs (some p)) p r.1
unfolding os_irq_thread fired
thread-Counted [] p v = (v, omega arith, omega arith)
thread-Counted (r ∷ rs) p v =
    let q = if r.before then interrupt p else p in
    let first = interrupt-due p r.before v in
    let read = osal_irqproxy_read r.raised (slept r.sleep) (some q) in
    chain p q (to_nat (is_read read.0)) (fired_before r.before p) (fired_in r.raised r.sleep q)
      (os_irq_thread rs read.1).0 (fired rs read.1) read.1 (os_irq_thread rs read.1).1
      (first.1, first.2) (read-Counted r.raised r.sleep q first.0)
      (λ q' e ready. rw e (thread-Counted rs q' ready))

abbrev pub owed_of : Option Proxy → ℕ
owed_of none = 0
owed_of (some p) = owed p

Counted-bounds :
    (c f : ℕ) (p : Proxy) (o : Option Proxy)
    → (due p ≡ 0) × (owed p ≡ 0)
    → Counted c f p o
    → (c ≤ 2 * f) × (f ≤ 2 * c + owed_of o)
Counted-bounds c f p none z h = absurd h
Counted-bounds c f p (some q) z h = omega (arith, h.1, h.2, z)

-- What a first write of one byte binds.
abbrev pub bound_to : ℕ → Option Proxy
bound_to irqnum = (osal_irqproxy_write 1 (some irqnum) true true none).1

bound-bounds :
    (rs : List Round) (o : Option Proxy)
    → ((p : Proxy) × (o ≡ some p) × IsReady p × (due p ≡ 0) × (owed p ≡ 0))
    → let r = os_irq_thread rs o in (r.0 ≤ 2 * fired rs o) × (fired rs o ≤ 2 * r.0 + owed_of r.1)
bound-bounds rs o (p, e, v, z, z') =
    rw e (Counted-bounds _ (fired rs (some p)) p _ (z, z') (thread-Counted rs p v))

owed_of-le : (o : Option Proxy) → owed_of o ≤ 1
owed_of-le none = omega arith
owed_of-le (some p) = ground arith

bound-IsReady :
    (irqnum : ℕ)
    → irqnum ≢ 0
    → (p : Proxy) × (bound_to irqnum ≡ some p) × IsReady p × (due p ≡ 0) × (owed p ≡ 0)
unfolding osal_irqproxy_write os_event_create
bound-IsReady irqnum h =
    let p : Proxy = record {
      irqnum = irqnum;
      event = (os_event_create 0).1;
      disabled = false;
      received = true;
      depth = 0;
      unbalanced = false;
    } in
    (p, ground arith, ground arith, refl, refl)

-- The thread of a user-space driver and the kernel's proxy together: from the bind to an interrupt on,
-- whatever happens between and in the reads, the handler is called at most twice for each interrupt
-- that the line delivers, and for at most two interrupts at once; at most the one that the proxy still
-- owes at the end is left out.
pub calls-fired :
    (irqnum : ℕ) (rs : List Round)
    → irqnum ≢ 0
    → let r = os_irq_thread rs (bound_to irqnum) in
      (r.0 ≤ 2 * fired rs (bound_to irqnum))
      × (fired rs (bound_to irqnum) ≤ 2 * r.0 + owed_of r.1)
      × (owed_of r.1 ≤ 1)
calls-fired irqnum rs h =
    let b = bound-bounds rs (bound_to irqnum) (bound-IsReady irqnum h) in
    (b.0, b.1, owed_of-le (os_irq_thread rs (bound_to irqnum)).1)
