-- ===== src/User/Irq/Release.antt =====
-- What registering an interrupt holds, and what releasing it gives back.
use osal.Base.{
  ℕ, ◌+◌, ◌-◌, ◌*◌, ◌≡◌, refl, Bool, true, false, Option, none, some, arith, to_nat, is_some, ℤ,
  ◌==◌, Bool-cases, inl, inr, ◌||◌, not,
}
use osal.Types.{OsalResult, success}
use osal.User.Irq.{
  IrqUser, IrqApi, too_large, thread_created, schedparam_set, schedpolicy_set, inheritsched_set,
  attr_made, os_start_irq_thread, proxy_started, proxy_bound, proxy_opened, user_allocated,
  os_register_top_half, os_unregister_top_half, os_acquire_interrupt, os_release_interrupt,
  os_acquire_shared_interrupt, os_release_shared_interrupt, handle_of,
}

-- `held w` counts what is held: a block of memory as `block`, an open file as `file`, a thread as
-- `thread`, an initialised attribute object as `attr`.
pub record Counts {W : Type 0} (os : IrqApi W) (block file thread attr : ℕ) (held : W → ℕ)
    : Type 0 where
  pub malloc : (w : W) → held (os.malloc w).1 ≡ held w + block * to_nat (os.malloc w).0
  pub free : (w : W) → held (os.free w) ≡ held w - block
  pub open_proxy :
      (w : W) → held (os.open_proxy w).1 ≡ held w + file * to_nat (is_some (os.open_proxy w).0)
  pub mlockall : (w : W) → held (os.mlockall w) ≡ held w
  pub write : (fd byte : ℕ) (w : W) → held (os.write fd byte w).1 ≡ held w
  pub close : (fd : ℕ) (w : W) → held (os.close fd w) ≡ held w - file
  pub attr_init : (w : W) → held (os.attr_init w).1 ≡ held w + attr * to_nat (os.attr_init w).0
  pub attr_setinheritsched : (w : W) → held (os.attr_setinheritsched w).1 ≡ held w
  pub attr_setschedpolicy : (w : W) → held (os.attr_setschedpolicy w).1 ≡ held w
  pub attr_setschedparam : (w : W) → held (os.attr_setschedparam w).1 ≡ held w
  pub attr_destroy : (w : W) → held (os.attr_destroy w) ≡ held w - attr
  pub thread_create :
      (w : W) → held (os.thread_create w).1 ≡ held w + thread * to_nat (os.thread_create w).0
  pub thread_join : (w : W) → held (os.thread_join w) ≡ held w - thread

module _ {W : Type 0} (os : IrqApi W) (block file thread attr : ℕ) (held : W → ℕ)
    (law : Counts os block file thread attr held) where
  abbrev succeeds : OsalResult → Bool
  succeeds success = true
  succeeds r = false

  -- A start that began at a count of `n`.
  abbrev Started : ℕ → OsalResult × W → Type 0
  Started n p = held p.1 ≡ n + thread * to_nat (succeeds p.0)

  created-Started :
      (n : ℕ) (p : Bool × W)
      → held p.1 ≡ n + attr + thread * to_nat p.0
      → Started n (thread_created os p)
  unfolding thread_created
  created-Started n (false, w) e = omega (arith, law.attr_destroy w)
  created-Started n (true, w) e = omega (arith, law.attr_destroy w)

  param-Started : (n : ℕ) (p : Bool × W) → held p.1 ≡ n + attr → Started n (schedparam_set os p)
  unfolding schedparam_set
  param-Started n (false, w) e = omega (arith, law.attr_destroy w)
  param-Started n (true, w) e =
      created-Started n (os.thread_create w) (omega (arith, law.thread_create w))

  policy-Started : (n : ℕ) (p : Bool × W) → held p.1 ≡ n + attr → Started n (schedpolicy_set os p)
  unfolding schedpolicy_set
  policy-Started n (false, w) e = omega (arith, law.attr_destroy w)
  policy-Started n (true, w) e =
      param-Started n (os.attr_setschedparam w) (omega (arith, law.attr_setschedparam w))

  inherit-Started : (n : ℕ) (p : Bool × W) → held p.1 ≡ n + attr → Started n (inheritsched_set os p)
  unfolding inheritsched_set
  inherit-Started n (false, w) e = omega (arith, law.attr_destroy w)
  inherit-Started n (true, w) e =
      policy-Started n (os.attr_setschedpolicy w) (omega (arith, law.attr_setschedpolicy w))

  made-Started :
      (n : ℕ) (p : Bool × W) → held p.1 ≡ n + attr * to_nat p.0 → Started n (attr_made os p)
  unfolding attr_made
  made-Started n (false, w) e = omega arith
  made-Started n (true, w) e =
      inherit-Started n (os.attr_setinheritsched w) (omega (arith, law.attr_setinheritsched w))

  start-Started : (w : W) → Started (held w) (os_start_irq_thread os w)
  unfolding os_start_irq_thread
  start-Started w = made-Started (held w) (os.attr_init w) (law.attr_init w)

  -- A registration that began at a count of `n`; it succeeds just with a handle.
  abbrev Changed : ℕ → (OsalResult × Option IrqUser) × W → Type 0
  Changed n p =
      (held p.1 ≡ n + (block + file + thread) * to_nat (is_some p.0.1))
      × (succeeds p.0.0 ≡ is_some p.0.1)

  proxy_started-Changed :
      (n : ℕ) (irq : IrqUser) (p : OsalResult × W)
      → Started (n + block + file) p
      → Changed n (proxy_started os irq p)
  unfolding proxy_started
  proxy_started-Changed n irq (success, w) e = (omega arith, refl)
  proxy_started-Changed n irq (_, w) e =
      (omega (arith, law.close irq.fd w, law.free (os.close irq.fd w)), refl)

  bound-Changed :
      (n : ℕ) (irq : IrqUser) (p : Bool × W)
      → held p.1 ≡ n + block + file
      → Changed n (proxy_bound os irq p)
  unfolding proxy_bound
  bound-Changed n irq (false, w) e =
      (omega (arith, law.close irq.fd w, law.free (os.close irq.fd w)), refl)
  bound-Changed n irq (true, w) e =
      proxy_started-Changed n irq (os_start_irq_thread os w) (omega (arith, start-Started w))

  opened-Changed :
      (n byte h d : ℕ) (p : Option ℕ × W)
      → held p.1 ≡ n + block + file * to_nat (is_some p.0)
      → Changed n (proxy_opened os byte h d p)
  unfolding proxy_opened
  opened-Changed n byte h d (none, w) e = (omega (arith, law.free w), refl)
  opened-Changed n byte h d (some fd, w) e =
      bound-Changed n _ (os.write fd byte (os.mlockall w))
        (omega (arith, law.write fd byte (os.mlockall w), law.mlockall w))

  allocated-Changed :
      (n byte h d : ℕ) (p : Bool × W)
      → held p.1 ≡ n + block * to_nat p.0
      → Changed n (user_allocated os byte h d p)
  unfolding user_allocated
  allocated-Changed n byte h d (false, w) e = (omega arith, refl)
  allocated-Changed n byte h d (true, w) e =
      opened-Changed n byte h d (os.open_proxy w) (omega (arith, law.open_proxy w))

  register-Changed :
      (irqnum : ℤ) (irqhandle : Bool) (h d : ℕ) (name : Bool) (w : W)
      → Changed (held w) (os_register_top_half os irqnum irqhandle h d name w)
  unfolding os_register_top_half
  register-Changed irqnum irqhandle h d name w =
      elim (Bool-cases (not irqhandle || (h == 0) || not name || too_large irqnum)) [
        | inl bad ↦ rw bad (omega arith, refl)
        | inr fine ↦ rw fine (allocated-Changed (held w) _ h d (os.malloc w) (law.malloc w))
      ]

  handle_of-held :
      (n : ℕ) (p : (OsalResult × Option IrqUser) × W)
      → Changed n p
      → held (handle_of os p).1 ≡ n + (block + file + thread) * to_nat (is_some (handle_of os p).0)
  handle_of-held n ((success, irq), w) e = e.0
  handle_of-held n ((_, none), w) e = e.0
  handle_of-held n ((_, some irq), w) e = ground (arith, e.0, e.1)

  release-held :
      (n : ℕ) (p : Option IrqUser × W)
      → held p.1 ≡ n + (block + file + thread) * to_nat (is_some p.0)
      → held (os_release_interrupt os p.0 p.1) ≡ n
  unfolding os_release_interrupt os_unregister_top_half
  release-held n (none, w) e = omega arith
  release-held n (some irq, w) e =
      let w1 = os.close irq.fd w in
      let w2 = os.thread_join w1 in
      omega (arith, law.close irq.fd w, law.thread_join w1, law.free w2)

  -- For any count of memory blocks, open files, threads and attribute objects that the calls respect:
  -- os_acquire_interrupt and os_acquire_shared_interrupt each add a block, a file and a thread if they
  -- return a handle and nothing on any error, and releasing what each returned, also if that is NULL,
  -- brings the count back.
  pub acquire-held :
      (irqnum : ℤ) (key top : ℕ) (name : Bool) (handler data_ptr : ℕ) (w : W)
      → let own = os_acquire_interrupt os irqnum key name handler data_ptr w in
        let shared = os_acquire_shared_interrupt os irqnum top name handler data_ptr w in
        (held own.1 ≡ held w + (block + file + thread) * to_nat (is_some own.0))
        × (held shared.1 ≡ held w + (block + file + thread) * to_nat (is_some shared.0))
        × (held (os_release_interrupt os own.0 own.1) ≡ held w)
        × (held (os_release_shared_interrupt os shared.0 shared.1) ≡ held w)
  unfolding os_acquire_interrupt os_acquire_shared_interrupt os_release_interrupt
      os_release_shared_interrupt
  acquire-held irqnum key top name handler data_ptr w =
      let r = os_register_top_half os irqnum true handler data_ptr name w in
      let own = handle_of-held (held w) r (register-Changed irqnum true handler data_ptr name w) in
      let back = release-held (held w) (handle_of os r) own in (own, own, back, back)
