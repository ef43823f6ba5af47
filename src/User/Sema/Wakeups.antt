-- ===== src/User/Sema/Wakeups.antt =====
-- A semaphore counts exactly and loses no wake-up.
use osal.Base.{
  ◌-◌, ◌%◌, ◌^◌, ◌⊎◌, refl, ◌↔◌, inl, inr, true, false, ==_iff, Bool-cases, ◌==◌, ℕ, ◌+◌, ◌≡◌, ◌≤◌,
  ◌<◌, some, arith,
}
use osal.Types.{success}
use osal.User.Sema.{
  Sema, fresh, os_sema_init, os_sema_init_pre_inited, os_sema_destroy, sema_tested, sema_retested,
  sema_awakened, sema_put_counted, sema_put_signaled, get, retry, put, signal, spurious, Reach,
  inited, next,
}

record Inv (initial : ℕ) (s : Sema) : Type 0 where
  bits : s.count < 2 ^ 32
  counted : (s.count + s.gets) % 2 ^ 32 ≡ (initial + s.puts) % 2 ^ 32
  noticed : 0 < s.waiting → s.count ≤ s.signals + s.woken

init-Inv : (m s : Sema) (n : ℕ) → os_sema_init (some m) n ≡ (success, some s) → Inv n s
unfolding os_sema_init
init-Inv m s n e = ground arith

tested-Inv : (n : ℕ) (s : Sema) → Inv n s → Inv n (sema_tested s)
unfolding sema_tested
tested-Inv n s v = ground arith

retested-Inv : (n : ℕ) (s : Sema) → 0 < s.woken → Inv n s → Inv n (sema_retested s)
unfolding sema_retested
retested-Inv n s h v = ground arith

awakened-Inv : (n : ℕ) (s : Sema) → 0 < s.waiting → Inv n s → Inv n (sema_awakened s)
unfolding sema_awakened
awakened-Inv n s h v = ground arith

counted-Inv : (n : ℕ) (s : Sema) → Inv n s → Inv n (sema_put_counted s)
unfolding sema_put_counted
counted-Inv n s v = ground arith

signaled-Inv : (n : ℕ) (s : Sema) → 0 < s.signals → Inv n s → Inv n (sema_put_signaled s)
unfolding sema_put_signaled
signaled-Inv n s h v = ground arith

Reach-Inv : {n : ℕ} {s : Sema} → Reach n s → Inv n s
Reach-Inv {n} (inited m {s} e) = init-Inv m s n e
Reach-Inv {n} (next {s} r get) = tested-Inv n s (Reach-Inv r)
Reach-Inv {n} (next {s} r (retry h)) = retested-Inv n s h (Reach-Inv r)
Reach-Inv {n} (next {s} r put) = counted-Inv n s (Reach-Inv r)
Reach-Inv {n} (next {s} r (signal h)) = signaled-Inv n s h (Reach-Inv r)
Reach-Inv {n} (next {s} r (spurious h)) = awakened-Inv n s h (Reach-Inv r)

-- The count is exact, or a put has overflowed.
abbrev pub Exact : (initial : ℕ) → Sema → Type 0
Exact initial s =
    (s.overflowed ≡ true) ⊎ ((s.count + s.gets ≡ initial + s.puts) × (s.count < 2 ^ 31))

init-Exact :
    (m s : Sema) (n : ℕ) → n < 2 ^ 31 → os_sema_init (some m) n ≡ (success, some s) → Exact n s
unfolding os_sema_init
init-Exact m s n h e = inr (ground arith)

tested-Exact : (n : ℕ) (s : Sema) → Exact n s → Exact n (sema_tested s)
unfolding sema_tested
tested-Exact n s (inl o) = inl (ground arith)
tested-Exact n s (inr e) = inr (ground arith)

counted-Exact : (n : ℕ) (s : Sema) → Exact n s → Exact n (sema_put_counted s)
unfolding sema_put_counted
counted-Exact n s (inl o) = inl (ground arith)
counted-Exact n s (inr e) = elim (Bool-cases (s.count == 2 ^ 31 - 1)) [
  | inl top ↦ inl (ground arith)
  | inr below ↦ inr (ground arith)
]

signaled-Exact : (n : ℕ) (s : Sema) → Exact n s → Exact n (sema_put_signaled s)
unfolding sema_put_signaled sema_awakened
signaled-Exact n s (inl o) = inl (ground arith)
signaled-Exact n s (inr e) = inr (ground arith)

Reach-Exact : {n : ℕ} {s : Sema} → n < 2 ^ 31 → Reach n s → Exact n s
unfolding sema_retested sema_awakened
Reach-Exact {n} h (inited m {s} e) = init-Exact m s n h e
Reach-Exact {n} h (next {s} r get) = tested-Exact n s (Reach-Exact h r)
Reach-Exact {n} h (next {s} r (retry w)) =
    tested-Exact n (record s { woken = s.woken - 1 }) (Reach-Exact h r)
Reach-Exact {n} h (next {s} r put) = counted-Exact n s (Reach-Exact h r)
Reach-Exact {n} h (next {s} r (signal w)) = signaled-Exact n s (Reach-Exact h r)
Reach-Exact {n} h (next {s} r (spurious w)) = Reach-Exact h r

-- However the gets, puts and wake-ups of any number of threads are interleaved after os_sema_init with
-- an initial count from 0 to 2 ^ 31 - 1: the count is, up to a multiple of 2 ^ 32, what was there and put
-- less what was taken. It is just that and not negative, unless a put has come while the count was
-- 2 ^ 31 - 1.
pub Reach-units :
    {n : ℕ} {s : Sema}
    → n < 2 ^ 31
    → Reach n s
    → ((s.count + s.gets) % 2 ^ 32 ≡ (n + s.puts) % 2 ^ 32) × Exact n s
Reach-units h r = ((Reach-Inv r).counted, Reach-Exact h r)

abbrev AllTaken : (initial : ℕ) → Sema → Type 0
AllTaken initial s = (s.overflowed ≡ true) ⊎ (s.gets ≡ initial + s.puts)

taken : (n : ℕ) (s : Sema) → s.count ≡ 0 → Exact n s → AllTaken n s
taken n s z (inl o) = inl o
taken n s z (inr e) = inr (omega (arith, e.0))

-- No wake-up is lost: in a state that is reached so from an initial count of 0 to 2 ^ 31 - 1, where
-- threads wait while no signal is on its way and no woken thread is still to look, there is nothing to
-- take. The count is 0, and as much was taken as was there and put, unless a put has come while the
-- count was 2 ^ 31 - 1.
pub Reach-waiting :
    {n : ℕ} {s : Sema}
    → n < 2 ^ 31
    → Reach n s
    → 0 < s.waiting
    → s.signals ≡ 0
    → s.woken ≡ 0
    → (s.count ≡ 0) × ((s.overflowed ≡ true) ⊎ (s.gets ≡ n + s.puts))
Reach-waiting {n} {s} h r w q k =
    let empty : s.count ≡ 0 = ground (arith, Reach-Inv r) in
    (empty, taken n s empty (Reach-Exact h r))

-- os_sema_init_pre_inited initialises a semaphore whose flag is 0 and only that: a second call, with
-- any initial count, succeeds and changes nothing.
pub pre_inited_twice :
    (s : Sema) (n m : ℕ)
    → s.sema_static_init_cnt ≡ 0
    → (os_sema_init_pre_inited (some s) n ≡ (success, some (fresh 1 n)))
      × (os_sema_init_pre_inited (os_sema_init_pre_inited (some s) n).1 m
          ≡ (success, some (fresh 1 n)))
unfolding os_sema_init_pre_inited
pre_inited_twice s n m h = ground arith

-- After os_sema_destroy, os_sema_init makes the semaphore usable again. os_sema_init_pre_inited reports
-- success as well, but does so only if the semaphore had never been initialised by it.
pub destroy-init :
    (s : Sema) (n : ℕ)
    → let again = os_sema_init_pre_inited (os_sema_destroy (some s)) n in
      (os_sema_init (os_sema_destroy (some s)) n ≡ (success, some (fresh s.sema_static_init_cnt n)))
      × (again.0 ≡ success)
      × ((t : Sema) × (again.1 ≡ some t) × ((t.usable ≡ true) ↔ (s.sema_static_init_cnt ≡ 0)))
unfolding os_sema_init os_sema_init_pre_inited os_sema_destroy
destroy-init s n = elim (Bool-cases (s.sema_static_init_cnt == 0)) [
  | inl e ↦ (
    refl,
    rw e refl,
    (fresh 1 n, rw e refl, (λ u. (==_iff s.sema_static_init_cnt 0).0 e, λ z. refl)),
  )
  | inr e ↦
      (refl, rw e refl, (record s { usable = false }, rw e refl, (λ u. cc, λ z. ground arith)))
]
