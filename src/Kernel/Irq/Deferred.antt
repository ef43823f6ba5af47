-- ===== src/Kernel/Irq/Deferred.antt =====
-- linux_interrupt_handler and kthread_wrapper of linux_kernel/src/osal_irq.c: an interrupt is masked
-- and left to a thread, which os_release_interrupt ends. Each step of the thread and of
-- os_release_interrupt reads or writes one shared thing; the interrupt handler is a single step.
pub mod Masked
use osal.Base.{
  ℕ, ◌+◌, ◌≤◌, ◌≡◌, refl, Bool, true, false, Option, none, some, arith, to_nat, ◌||◌, ◌⊎◌,
  Bool-cases, if◌then◌else◌,
}

-- Where the thread stands in its loop.
pub data Pc : Type 0 where
  top : Pc  -- before the test of kthread_should_stop
  staying : Pc  -- before prepare_to_wait
  prepared : Pc  -- before the test of `pending`
  asleep : Pc  -- in `schedule`
  awake : Pc  -- before the second test of `pending`
  running : Pc  -- before the handler
  handled : Pc  -- before `pending` is reset
  unmasking : Pc  -- before enable_device_irq
  finished : Pc  -- the thread has ended

-- Where os_release_interrupt stands.
pub data Release : Type 0 where
  unreleased : Release  -- before free_irq
  irq_freed : Release  -- before `pending` is reset
  cleared : Release  -- before kthread_stop
  stopping : Release  -- in kthread_stop, which waits for the thread's end
  released : Release  -- the structure is freed

-- The shared state, with the numbers of interrupts that fired and of calls of the handler.
pub record State : Type 0 where
  pub pc : Pc
  pub release : Release
  pub pending : Bool
  pub masked : Bool
  pub runnable : Bool
  pub fired : ℕ
  pub calls : ℕ

-- The line's masking and unmasking, each under the spin lock of the line's descriptor.
abbrev pub check_and_disable_device_irq : State → State
check_and_disable_device_irq s = record s { masked = true }

abbrev pub enable_device_irq : State → State
enable_device_irq s = record s { masked = false }

-- Mask the line, set `pending`, wake the thread.
unfoldable pub linux_interrupt_handler : State → State
linux_interrupt_handler s = record (check_and_disable_device_irq s) {
  pending = true;
  runnable = true;
  fired = s.fired + 1;
}

abbrev pub kthread_should_stop : Release → Bool
kthread_should_stop stopping = true
kthread_should_stop released = true
kthread_should_stop r = false

-- One step of the thread; none while it sleeps and when it has ended.
unfoldable pub turn : Pc → State → Option State
turn top s =
    if kthread_should_stop s.release
    then some (record s { pc = finished })
    else some (record s { pc = staying })
turn staying s = some (record s { pc = prepared; runnable = false })
turn prepared s =
    if s.pending then some (record s { pc = awake }) else some (record s { pc = asleep })
turn asleep s = if s.runnable then some (record s { pc = awake }) else none
turn awake s =
    if s.pending
    then some (record s { pc = running; runnable = true })
    else some (record s { pc = top; runnable = true })
turn running s = some (record s { pc = handled; calls = s.calls + 1 })
turn handled s = some (record s { pc = unmasking; pending = false })
turn unmasking s = some (record (enable_device_irq s) { pc = top })
turn finished s = none

unfoldable pub kthread_wrapper : State → Option State
unfolding turn
kthread_wrapper s = turn s.pc s

abbrev pub has_finished : Pc → Bool
has_finished finished = true
has_finished pc = false

-- One step of os_release_interrupt; none while kthread_stop waits and at the end. kthread_stop wakes the
-- thread.
unfoldable pub release_turn : Release → State → Option State
release_turn unreleased s = some (record s { release = irq_freed })
release_turn irq_freed s = some (record s { release = cleared; pending = false })
release_turn cleared s = some (record s { release = stopping; runnable = true })
release_turn stopping s = if has_finished s.pc then some (record s { release = released }) else none
release_turn released s = none

unfoldable pub os_release_interrupt : State → Option State
unfolding release_turn
os_release_interrupt s = release_turn s.release s

-- An interrupt comes only while its handler is registered.
pub data Step (s : State) : State → Type 0 where
  interrupt : s.release ≡ unreleased → s.masked ≡ false → Step s (linux_interrupt_handler s)
  thread : {t : State} → kthread_wrapper s ≡ some t → Step s t
  releasing : {t : State} → os_release_interrupt s ≡ some t → Step s t

abbrev pub start : State
start = record {
  pc = top;
  release = unreleased;
  pending = false;
  masked = false;
  runnable = true;
  fired = 0;
  calls = 0;
}

pub data Reach : State → Type 0 where
  here : Reach start
  next : {s t : State} → Reach s → Step s t → Reach t
