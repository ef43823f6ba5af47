-- ===== src/User/Irq/Reader/Count.antt =====
-- What one round of the reading thread does to the counts of interrupts and of calls.
use mathlib.Core.Path.{subst}
use osal.Base.{
  ℕ, ◌+◌, ◌*◌, ◌≤◌, ◌≡◌, refl, Bool, true, false, not, ◌&&◌, ◌||◌, Option, none, some, List, [],
  ◌∷◌, arith, to_nat, ◌==◌, if◌then◌else◌, Bool-cases, inl, inr, sym,
}
use osal.Kernel.Event.{Wake}
use osal.Kernel.IrqProxy.{
  Proxy, zero_bytes, interrupt, osal_irqproxy_read, read_enabled, enable_irq,
}
use osal.Kernel.IrqProxy.Balance.{IsValid, AllValid, KeepsLine, read-IsValid, interrupt-IsLine}
use osal.User.Irq.Reader.{Sleep, timed_out, signaled, woken, raced, slept, Round, is_read}

-- Whether an interrupt comes in a sleep.
abbrev pub comes : Sleep → Bool
comes timed_out = false
comes signaled = false
comes woken = true
comes raced = true

-- The interrupts that the line delivers in a round: one before the read if the line is enabled, and in
-- the read, which enables it unless it returns at once, one before the wait or one in the sleep.
abbrev pub fired_before : Bool → Proxy → ℕ
fired_before b p = if b then to_nat (p.depth == 0) else 0

abbrev pub fired_in : (raised : Bool) → Sleep → Proxy → ℕ
fired_in raised s p =
    if p.disabled && not p.received
    then 0
    else if raised
    then 1
    else if p.event.signaled
    then 0
    else to_nat (comes s)

unfoldable pub fired : List Round → Option Proxy → ℕ
fired [] p = 0
fired (r ∷ rs) none = 0
fired (r ∷ rs) (some p) =
    let p' = if r.before then interrupt p else p in
    fired_before r.before p
    + fired_in r.raised r.sleep p'
    + fired rs (osal_irqproxy_read r.raised (slept r.sleep) (some p')).1

-- The calls that reads will still lead to with no further interrupt.
abbrev pub due : Proxy → ℕ
due p = if p.disabled then to_nat p.event.signaled + to_nat (not p.received) else 0

-- An interrupt that no call has stood for.
abbrev pub owed : Proxy → ℕ
owed p = to_nat (p.disabled && (p.event.signaled || not p.received))

-- Between the reads nobody waits.
pub record IsReady (p : Proxy) : Type 0 where
  pub valid : IsValid p
  pub quiet : p.event.waiting ≡ 0

pub interrupt-due :
    (p : Proxy) (b : Bool)
    → IsReady p
    → let q = if b then interrupt p else p in
      IsReady q × (due q ≤ due p + 2 * fired_before b p) × (owed p + fired_before b p ≤ owed q)
unfolding interrupt
interrupt-due p b v = ground (arith, v.valid)

-- What a read does to the two counts.
abbrev pub Counted : (c f : ℕ) → Proxy → Option Proxy → Type 0
Counted c f p none = ⊥
Counted c f p (some q) = IsReady q × (c + due q ≤ due p + 2 * f) × (owed p + f ≤ 2 * c + owed q)

-- The same for the part of a read that starts with the line enabled, at an event that may be signaled.
abbrev CountedOn : (c f : ℕ) → Proxy → Option Proxy → Type 0
CountedOn c f p none = ⊥
CountedOn c f p (some q) =
    (q.event.waiting ≡ 0)
    × (c + due q ≤ to_nat p.event.signaled + 2 * f)
    × (to_nat p.event.signaled + f ≤ 2 * c + owed q)

record IsEnabled (p : Proxy) : Type 0 where
  off : p.disabled ≡ false
  zero_depth : p.depth ≡ 0
  auto : p.event.manual_reset ≡ false
  alone : p.event.waiting ≡ 0

raised-CountedOn :
    (asleep : Proxy → Wake × Proxy) (p : Proxy)
    → IsEnabled p
    → let r = read_enabled true asleep p in CountedOn (to_nat (is_read r.0)) 1 p r.1
unfolding read_enabled interrupt
raised-CountedOn asleep p v = ground arith

signaled-CountedOn :
    (asleep : Proxy → Wake × Proxy) (p : Proxy)
    → IsEnabled p
    → p.event.signaled ≡ true
    → let r = read_enabled false asleep p in CountedOn (to_nat (is_read r.0)) 0 p r.1
unfolding read_enabled interrupt
signaled-CountedOn asleep p v e = ground arith

slept-CountedOn :
    (s : Sleep) (p : Proxy)
    → IsEnabled p
    → p.event.signaled ≡ false
    → let r = read_enabled false (slept s) p in
      CountedOn (to_nat (is_read r.0)) (to_nat (comes s)) p r.1
unfolding read_enabled interrupt
slept-CountedOn timed_out p v e = ground arith
slept-CountedOn signaled p v e = ground arith
slept-CountedOn woken p v e = ground arith
slept-CountedOn raced p v e = ground arith

-- The interrupts of the part of a read that starts with the line enabled.
abbrev fired_on : (raised : Bool) → Sleep → Proxy → ℕ
fired_on raised s q = if raised then 1 else if q.event.signaled then 0 else to_nat (comes s)

on-CountedOn :
    (raised : Bool) (s : Sleep) (q : Proxy)
    → IsEnabled q
    → let r = read_enabled raised (slept s) q in
      (f : ℕ) × (f ≡ fired_on raised s q) × CountedOn (to_nat (is_read r.0)) f q r.1
on-CountedOn true s q v = (1, refl, raised-CountedOn (slept s) q v)
on-CountedOn false s q v = elim (Bool-cases q.event.signaled) [
  | inl e ↦ (0, ground arith, signaled-CountedOn (slept s) q v e)
  | inr e ↦ (to_nat (comes s), ground arith, slept-CountedOn s q v e)
]

CountedOn-Counted :
    (p q : Proxy) (c f g : ℕ) (o : Option Proxy)
    → (to_nat q.event.signaled ≡ due p) × (to_nat q.event.signaled ≡ owed p) × (f ≡ g)
    → AllValid o
    → CountedOn c f q o
    → Counted c g p o
CountedOn-Counted p q c f g none same v h = h
CountedOn-Counted p q c f g (some q') same v h =
    (record { valid = v; quiet = h.0 }, omega (arith, h.1, same), omega (arith, h.2, same))

slept-KeepsLine : (s : Sleep) → KeepsLine (slept s)
slept-KeepsLine timed_out p v = v
slept-KeepsLine signaled p v = v
slept-KeepsLine woken p v =
    let w = interrupt-IsLine p v in
    record { counted = w.counted; auto = w.auto; balanced = w.balanced }
slept-KeepsLine raced p v =
    let w = interrupt-IsLine p v in
    record { counted = w.counted; auto = w.auto; balanced = w.balanced }

module _ (raised : Bool) (asleep : Proxy → Wake × Proxy) (p : Proxy) where
  read-on :
      p.disabled ≡ false → osal_irqproxy_read raised asleep (some p) ≡ read_enabled raised asleep p
  unfolding osal_irqproxy_read
  read-on e = ground arith

  read-again :
      p.disabled ≡ true
      → p.received ≡ true
      → osal_irqproxy_read raised asleep (some p)
        ≡ read_enabled raised asleep (enable_irq (record p { disabled = false }))
  unfolding osal_irqproxy_read
  read-again e f = ground arith

  read-first :
      p.disabled ≡ true
      → p.received ≡ false
      → osal_irqproxy_read raised asleep (some p)
        ≡ (zero_bytes, some (record p { received = true }))
  unfolding osal_irqproxy_read
  read-first e f = ground arith

first-Counted :
    (p : Proxy)
    → IsReady p
    → p.disabled ≡ true
    → p.received ≡ false
    → Counted 1 0 p (some (record p { received = true }))
first-Counted p v e f =
    let w : IsValid (record p { received = true }) = ground (arith, v.valid) in
    (record { valid = w; quiet = v.quiet }, ground arith, ground arith)

pub read-Counted :
    (raised : Bool) (s : Sleep) (p : Proxy)
    → IsReady p
    → let r = osal_irqproxy_read raised (slept s) (some p) in
      Counted (to_nat (is_read r.0)) (fired_in raised s p) p r.1
read-Counted raised s p v =
    let valid = read-IsValid raised (slept s) (some p) (slept-KeepsLine s) v.valid in
    elim (Bool-cases p.disabled) [
      | inl off ↦ elim (Bool-cases p.received) [
        | inl seen ↦
            let q = enable_irq (record p { disabled = false }) in
            let on : IsEnabled q = ground (arith, v.valid) in
            let (f, e, h) = on-CountedOn raised s q on in
            let eq = read-again raised (slept s) p off seen in
            rw eq
              (CountedOn-Counted p q _ f (fired_in raised s p) _ (ground arith) (rw eq at valid) h)
        | inr new ↦
            let none_fired : fired_in raised s p ≡ 0 = ground arith in
            rw (read-first raised (slept s) p off new) (
              subst (λ n. Counted 1 n p (some (record p { received = true }))) (sym none_fired)
                (first-Counted p v off new))
      ]
      | inr on ↦
          let ready : IsEnabled p = ground (arith, v.valid) in
          let (f, e, h) = on-CountedOn raised s p ready in
          let eq = read-on raised (slept s) p on in
          rw eq (
            CountedOn-Counted p p _ f (fired_in raised s p) _ (ground (arith, v.valid))
              (rw eq at valid) h)
    ]
