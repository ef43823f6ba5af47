-- ===== src/User/Thread/Tests.antt =====
-- Concrete runs of the thread operations.
use osal.Base.{◌*◌, List, [], ◌∷◌, arith, ◌≡◌, refl, true, false, none, pos}
use osal.Types.{success, initialized, uninitialized}
use osal.User.Thread.{Thread, thread_active, thread_inactive, os_thread_create}
use osal.User.Thread.Laws.{create-success_iff}
use osal.User.Thread.Joins.{Call, Within, run, start, creating, waiting, destroying, joins-made}
use osal.User.Thread.Start.{
  State, Reach, here, next, worker, resumer, Reach-resumed, resumed, running, osal_thread_wrapper,
  os_thread_resume,
}

abbrev blank : Thread
blank = record { osd_state = uninitialized; pfn_callback = 0; context = 0; state = thread_inactive }

abbrev live : Thread
live = record { osd_state = initialized; pfn_callback = 4; context = 2; state = thread_active }

created_50 : (os_thread_create blank 4096 7 (pos 50) 3 true true).0 ≡ success
created_50 =
    (create-success_iff blank 4096 7 (pos 50) 3 true true).1
      (omega arith, (50, refl, omega arith, omega arith), refl, refl)

-- The new thread gets to its wait, is resumed and woken, and runs.
abbrev finished : State
finished = record { worker = running; resumer = resumed; suspended = false; locked = false }

finished-Reach : Reach finished
unfolding osal_thread_wrapper os_thread_resume
finished-Reach =
    let waits = next (next (next here (worker refl)) (worker refl)) (worker refl) in
    let sets = next (next (next waits (resumer refl)) (resumer refl)) (resumer refl) in
    let returns = next (next sets (resumer refl)) (resumer refl) in
    next (next returns (worker refl)) (worker refl)

finished-blocked : osal_thread_wrapper finished ≡ none
unfolding osal_thread_wrapper
finished-blocked = refl

Reach-resumed_example : finished.worker ≡ running
Reach-resumed_example = Reach-resumed finished-Reach refl finished-blocked

-- A thread that is waited for and then destroyed.
abbrev calls : List Call
calls = creating 4096 7 (pos 50) 3 true true ∷ (waiting ∷ (destroying ∷ []))

joins-made_example :
    Within (run calls (start blank))
    × ((cs' : List Call) × ((run cs' (start blank)).made ≡ 2)
        × ((run cs' (start blank)).terminated ≡ 2)
        × ((run cs' (start blank)).joined ≡ 2 * 2))
joins-made_example = joins-made blank calls 2 refl
