-- ===== src/Kernel/Thread/Finish.antt =====
-- Waiting for threads that have finished.
use osal.Base.{ℕ, ◌≡◌, refl, ℤ, Bool, true, false, Option, List, [], ◌∷◌, arith, map, ap, ◌∙◌}
use osal.Types.{OsalResult, success, initialized}
use osal.Kernel.Event.{Event, Wake, wait_enter, wait_leave, event_no_timeout, prepare_to_wait}
use osal.Kernel.Thread.{
  Thread, os_thread_create, thread_wrapper, wait_one, wait_all, os_thread_wait, os_thread_exit,
}

-- A thread that os_thread_create has made and for which nobody waits; whether it has finished.
pub record IsCreated (finished : Bool) (t : Thread) : Type 0 where
  pub ready : t.state ≡ initialized
  pub auto : t.kill_event.manual_reset ≡ false
  pub quiet : t.kill_event.waiting ≡ 0
  pub ended : t.kill_event.signaled ≡ finished

abbrev pub AllCreated : Bool → List Thread → Type 0
AllCreated finished [] = Unit
AllCreated finished (t ∷ ts) = IsCreated finished t × AllCreated finished ts

-- The kill event as it is before the thread ends.
abbrev pub unsignaled : Thread → Thread
unsignaled t = record t { kill_event = record t.kill_event { signaled = false } }

wait_one-finished :
    (asleep : ℕ → Event → Wake × Event) (t : Thread)
    → IsCreated true t
    → wait_one asleep t ≡ unsignaled t
unfolding wait_one
wait_one-finished asleep t v = ground arith

wait_all-finished :
    (asleep : Thread → ℕ → Event → Wake × Event) (ts : List Thread)
    → AllCreated true ts
    → wait_all asleep ts ≡ map unsignaled ts
unfolding wait_all
wait_all-finished asleep [] v = refl
wait_all-finished asleep (t ∷ ts) v =
    ground (arith, wait_one-finished (asleep t) t v.0, wait_all-finished asleep ts v.1)

create-IsCreated :
    (t : Thread) (func arg : ℕ) (p : ℤ) (flags : ℕ) (name : Option (List ℕ)) (cnt : ℕ)
    → (os_thread_create t func arg p flags name cnt).0 ≡ success
    → IsCreated false (os_thread_create t func arg p flags name cnt).1
unfolding os_thread_create
create-IsCreated t func arg p flags name cnt e = ground arith

finished-IsCreated :
    (t : Thread)
    → IsCreated false t
    → IsCreated true (thread_wrapper t).1 × IsCreated true (os_thread_exit t)
unfolding thread_wrapper os_thread_exit
finished-IsCreated t v = (ground arith, ground arith)

unsignaled-finished : (t : Thread) → IsCreated false t → unsignaled (thread_wrapper t).1 ≡ t
unfolding thread_wrapper
unsignaled-finished t v = ground arith

-- If every thread of an array was created and has finished, and nobody else waits for them, then
-- os_thread_wait returns without sleeping, whatever would happen in a sleep, and takes the signal of
-- each thread's end with it.
pub wait-finished :
    (asleep : Thread → ℕ → Event → Wake × Event) (ts : List Thread)
    → AllCreated true ts
    → os_thread_wait asleep ts ≡ (success, map unsignaled ts)
unfolding os_thread_wait
wait-finished asleep ts v = ap (λ (us : List Thread). (success, us)) (wait_all-finished asleep ts v)

-- The thread whose event was slept on, with no timeout, as the caller of os_thread_wait leaves it.
abbrev pub slept : (asleep : ℕ → Event → Wake × Event) → Thread → Thread
slept asleep t =
    let (w, e) = asleep event_no_timeout (prepare_to_wait t.kill_event) in
    record t { kill_event = (wait_leave event_no_timeout false w e).1 }

wait_one-slept :
    (asleep : ℕ → Event → Wake × Event) (t : Thread)
    → IsCreated false t
    → wait_one asleep t ≡ slept asleep t
unfolding wait_one wait_enter
wait_one-slept asleep t v = rw (v.ready, v.ended) refl

again :
    (asleep : Thread → ℕ → Event → Wake × Event) (t : Thread)
    → IsCreated false t
    → os_thread_wait asleep (t ∷ []) ≡ (success, slept (asleep t) t ∷ [])
unfolding os_thread_wait wait_all
again asleep t v = ap (λ (x : Thread). (success, x ∷ [])) (wait_one-slept (asleep t) t v)

-- A thread that os_thread_create makes can be waited for once: when its function has returned, the
-- first os_thread_wait succeeds without sleeping, whatever would happen in a sleep, and leaves the thread
-- as it was before it had finished. The next os_thread_wait for it sleeps, with no timeout, and comes
-- back with what the sleep leaves.
pub create-wait_twice :
    (asleep later : Thread → ℕ → Event → Wake × Event) (t : Thread) (func arg : ℕ) (p : ℤ)
    (flags : ℕ) (name : Option (List ℕ)) (cnt : ℕ)
    → (os_thread_create t func arg p flags name cnt).0 ≡ success
    → let made = (os_thread_create t func arg p flags name cnt).1 in
      let first = os_thread_wait asleep ((thread_wrapper made).1 ∷ []) in
      (first ≡ (success, made ∷ []))
      × (os_thread_wait later first.1 ≡ (success, slept (later made) made ∷ []))
unfolding os_thread_wait
create-wait_twice asleep later t func arg p flags name cnt e =
    let made = (os_thread_create t func arg p flags name cnt).1 in
    let v : IsCreated false made = create-IsCreated t func arg p flags name cnt e in
    let u = (thread_wrapper made).1 in
    let once =
      wait-finished asleep (u ∷ []) ((finished-IsCreated made v).0, tt)
      ∙ ap (λ (x : Thread). (success, x ∷ [])) (unsignaled-finished made v) in
    (
      once,
      ap (λ (r : OsalResult × List Thread). os_thread_wait later r.1) once ∙ again later made v,
    )
