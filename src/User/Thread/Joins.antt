-- ===== src/User/Thread/Joins.antt =====
-- How often the threads that a program creates in one os_thread_t are joined.
use osal.Base.{
  ℕ, zero, suc, ◌+◌, ◌*◌, ◌≤◌, ◌≡◌, ℤ, pos, Bool, true, false, Option, none, some, List, [], ◌∷◌,
  ◌++◌, arith, to_nat,
}
use osal.Types.{OsalResult, success, uninitialized}
use osal.User.Thread.{
  Thread, created, wait_one, os_thread_create, os_thread_wait, os_thread_destroy,
  os_thread_terminate, os_thread_resume,
}
use osal.User.Thread.Laws.{is_initialized}

-- The calls for one structure, with what pthread_create and pthread_cancel answer.
pub data Call : Type 0 where
  creating : (func arg : ℕ) → ℤ → (flags : ℕ) → (inherits creates : Bool) → Call
  waiting destroying resuming : Call
  terminating : (cancels canceled : Bool) → Call

-- The structure, how many calls have created a thread, how often pthread_join has been called, and how
-- often by os_thread_terminate.
pub record Tally : Type 0 where
  pub thread : Thread
  pub made : ℕ
  pub joined : ℕ
  pub terminated : ℕ

is_success : OsalResult → Bool
is_success success = true
is_success r = false

abbrev pub start : Thread → Tally
start t = record { thread = t; made = 0; joined = 0; terminated = 0 }

after_create : Tally → OsalResult × Thread → Tally
unfolding is_success
after_create s (r, t) = record s { thread = t; made = s.made + to_nat (is_success r) }

after_wait : Tally → OsalResult × List Thread × ℕ → Tally
after_wait s (r, [], n) = record s { joined = s.joined + n }
after_wait s (r, t ∷ ts, n) = record s { thread = t; joined = s.joined + n }

after_destroy : Tally → OsalResult × Thread × Bool → Tally
after_destroy s (r, t, joins) = record s { thread = t; joined = s.joined + to_nat joins }

after_terminate : Tally → Bool → OsalResult × Option Thread → Tally
after_terminate s joins (r, none) = s
after_terminate s joins (r, some t) = record s {
  thread = t;
  joined = s.joined + to_nat joins;
  terminated = s.terminated + to_nat joins;
}

after_resume : Tally → OsalResult × Option Thread → Tally
after_resume s (r, none) = s
after_resume s (r, some t) = record s { thread = t }

unfoldable pub perform : Call → Tally → Tally
unfolding after_create after_wait after_destroy after_terminate after_resume
perform (creating func arg p flags inherits creates) s =
    after_create s (os_thread_create s.thread func arg p flags inherits creates)
perform waiting s = after_wait s (os_thread_wait (some (s.thread ∷ [])))
perform destroying s = after_destroy s (os_thread_destroy s.thread)
perform resuming s = after_resume s (os_thread_resume (some s.thread))
perform (terminating cancels canceled) s =
    after_terminate s cancels (os_thread_terminate (some s.thread) cancels canceled)

unfoldable pub run : List Call → Tally → Tally
unfolding perform
run [] s = s
run (c ∷ cs) s = run cs (perform c s)

-- A structure that is initialised counts as a join that is still to come.
abbrev pub joins : Tally → ℕ
joins s = s.joined + to_nat (is_initialized s.thread.osd_state)

abbrev pub Within : Tally → Type 0
Within s = joins s ≤ s.made + s.terminated

create-is_initialized :
    (t : Thread) (func arg : ℕ) (p : ℤ) (flags : ℕ) (inherits creates : Bool)
    → let r = os_thread_create t func arg p flags inherits creates in
      to_nat (is_initialized r.1.osd_state)
      ≤ to_nat (is_success r.0) + to_nat (is_initialized t.osd_state)
unfolding os_thread_create created is_success
create-is_initialized t func arg p flags inherits creates = ground arith

perform-Within : (c : Call) (s : Tally) → Within s → Within (perform c s)
unfolding perform os_thread_wait wait_one os_thread_destroy os_thread_terminate os_thread_resume
perform-Within (creating func arg p flags inherits creates) s h =
    omega (arith, create-is_initialized s.thread func arg p flags inherits creates)
perform-Within waiting s h = ground arith
perform-Within destroying s h = ground arith
perform-Within resuming s h = ground arith
perform-Within (terminating cancels canceled) s h = ground arith

run-Within : (cs : List Call) (s : Tally) → Within s → Within (run cs s)
unfolding run
run-Within [] s h = h
run-Within (c ∷ cs) s h = run-Within cs (perform c s) (perform-Within c s h)

-- A thread is created, terminated and waited for.
abbrev round : List Call
round = creating 0 0 (pos 0) 0 true true ∷ (terminating true true ∷ (waiting ∷ []))

abbrev rounds : ℕ → List Call
rounds zero = []
rounds (suc n) = round ++ rounds n

-- Each round joins its thread twice.
rounds-joined :
    (n : ℕ) (s : Tally)
    → let r = run (rounds n) s in
      (r.made ≡ s.made + n) × (r.joined ≡ s.joined + 2 * n) × (r.terminated ≡ s.terminated + n)
unfolding run perform os_thread_create created os_thread_resume os_thread_terminate os_thread_wait
    wait_one
rounds-joined zero s = (omega arith, omega arith, omega arith)
rounds-joined (suc n) s =
    let h = rounds-joined n (run round s) in
    (omega (arith, h.0), omega (arith, h.1), omega (arith, h.2))

-- Whatever calls are made for an os_thread_t, and whatever pthread_create and pthread_cancel answer:
-- pthread_join is called at most as often as threads have been created and os_thread_terminate has
-- called it, and once less while the structure is initialised. This bound is reached: for every number n
-- there are calls that create n threads and terminate n, and join 2 * n times.
pub joins-made :
    (t : Thread) (cs : List Call) (n : ℕ)
    → t.osd_state ≡ uninitialized
    → Within (run cs (start t))
      × ((cs' : List Call) × ((run cs' (start t)).made ≡ n)
          × ((run cs' (start t)).terminated ≡ n)
          × ((run cs' (start t)).joined ≡ 2 * n))
joins-made t cs n e =
    let r = rounds-joined n (start t) in
    let within = run-Within cs (start t) (rw e (omega arith)) in
    (within, (rounds n, omega (arith, r.0), omega (arith, r.2), omega (arith, r.1)))
