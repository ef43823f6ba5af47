-- ===== src/User/Thread/Laws.antt =====
-- What the thread operations promise.
use osal.Base.{
  ℕ, ◌+◌, ◌≤◌, ◌<◌, ◌≡◌, ◌↔◌, refl, ℤ, pos, negsuc, Bool, true, false, some, List, [], ◌∷◌, arith,
  if◌then◌else◌, ◌&&◌, to_nat,
}
use osal.Types.{OsalResult, success, error, OsalState, initialized}
use osal.User.Thread.{
  Thread, create_suspended, thread_active, validate_priority, wants_suspended, wants_realtime,
  os_thread_create, os_thread_wait, wait_loop, created,
}

-- The priorities that the header allows: 0 for a thread that is not realtime, 1 to 99 for one that is.
abbrev pub IsPriority : (realtime : Bool) → ℤ → Type 0
IsPriority false p = p ≡ pos 0
IsPriority true p = (n : ℕ) × (p ≡ pos n) × (1 ≤ n) × (n ≤ 99)

validate_priority-IsPriority : (p : ℤ) → validate_priority true p ≡ success → IsPriority true p
unfolding validate_priority
validate_priority-IsPriority (pos n) h = (n, refl, ground arith, ground arith)
validate_priority-IsPriority (negsuc n) h = absurd (ground arith)

validate_priority_back : (n : ℕ) → 1 ≤ n → n ≤ 99 → validate_priority true (pos n) ≡ success
unfolding validate_priority
validate_priority_back n lo hi = ground arith

IsPriority-validate_priority : (p : ℤ) → IsPriority true p → validate_priority true p ≡ success
IsPriority-validate_priority p (n, e, lo, hi) = rw e (validate_priority_back n lo hi)

-- validate_priority accepts exactly 0 for a thread that is not realtime and 1 to 99 for one that is.
pub validate_priority_iff :
    (realtime : Bool) (p : ℤ) → (validate_priority realtime p ≡ success) ↔ IsPriority realtime p
unfolding validate_priority
validate_priority_iff false (pos n) = (λ h. ground arith, λ h. ground arith)
validate_priority_iff false (negsuc n) = (λ h. ground arith, λ h. ground arith)
validate_priority_iff true p = (validate_priority-IsPriority p, IsPriority-validate_priority p)

-- os_thread_create succeeds exactly when the flags have no other bits than the two defined ones, the
-- priority is one that the header allows for the policy that the flags ask for, and the two pthread
-- calls that it tests succeed.
pub create-success_iff :
    (t : Thread) (func arg : ℕ) (p : ℤ) (flags : ℕ) (inherits creates : Bool)
    → ((os_thread_create t func arg p flags inherits creates).0 ≡ success)
      ↔ ((flags < 4) × IsPriority (wants_realtime flags) p × (inherits ≡ true) × (creates ≡ true))
unfolding os_thread_create created
create-success_iff t func arg p flags inherits creates =
    let v = validate_priority_iff (wants_realtime flags) p in
    (λ e. ground (arith, v), λ e. ground (arith, v))

-- A thread for which os_thread_create succeeds is initialised and has the function and argument; it is
-- active, or, if the flags ask for that, suspended.
pub create-thread :
    (t : Thread) (func arg : ℕ) (p : ℤ) (flags : ℕ) (inherits creates : Bool)
    → (os_thread_create t func arg p flags inherits creates).0 ≡ success
    → (os_thread_create t func arg p flags inherits creates).1 ≡ record {
      osd_state = initialized;
      pfn_callback = func;
      context = arg;
      state = if wants_suspended flags then create_suspended else thread_active;
    }
unfolding os_thread_create created
create-thread t func arg p flags inherits creates e = ground arith

abbrev pub is_initialized : OsalState → Bool
is_initialized initialized = true
is_initialized s = false

abbrev pub all_initialized : List Thread → Bool
all_initialized [] = true
all_initialized (t ∷ ts) = is_initialized t.osd_state && all_initialized ts

-- How many threads of an array are initialised.
abbrev pub count : List Thread → ℕ
count [] = 0
count (t ∷ ts) = to_nat (is_initialized t.osd_state) + count ts

wait_loop-Result :
    (r : OsalResult) (ts : List Thread)
    → let q = wait_loop r ts in
      (q.0 ≡ (if all_initialized ts then r else error)) × (count q.1 ≡ 0) × (q.2 ≡ count ts)
unfolding wait_loop
wait_loop-Result r [] = (refl, refl, refl)
wait_loop-Result r (t ∷ ts) = ground (arith, wait_loop-Result r ts, wait_loop-Result error ts)

-- os_thread_wait on an array joins each of its threads that is initialised, leaves none initialised,
-- and succeeds exactly when all were, however many come before one that is not. Where it does not
-- succeed it returns OSAL_ERROR.
pub wait-joined :
    (ts : List Thread)
    → let q = os_thread_wait (some ts) in
      (q.0 ≡ (if all_initialized ts then success else error)) × (count q.1 ≡ 0) × (q.2 ≡ count ts)
unfolding os_thread_wait
wait-joined ts = wait_loop-Result success ts
