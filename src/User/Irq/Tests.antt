-- ===== src/User/Irq/Tests.antt =====
-- A concrete run of the registration, where the thread cannot be created.
use osal.Base.{ℕ, ◌+◌, ◌-◌, ◌*◌, ◌≡◌, refl, true, false, some, arith, to_nat, pos, is_some}
use osal.User.Irq.{
  IrqApi, os_acquire_interrupt, os_acquire_shared_interrupt, os_release_interrupt,
  os_release_shared_interrupt,
}
use osal.User.Irq.Release.{Counts, acquire-held}

-- The state counts blocks, files, threads and attribute objects together.
abbrev machine : IrqApi ℕ
machine = record {
  malloc = λ w. (true, w + 1);
  free = λ w. w - 1;
  open_proxy = λ w. (some 4, w + 1);
  mlockall = λ w. w;
  write = λ fd byte w. (true, w);
  close = λ fd w. w - 1;
  attr_init = λ w. (true, w + 1);
  attr_setinheritsched = λ w. (true, w);
  attr_setschedpolicy = λ w. (true, w);
  attr_setschedparam = λ w. (true, w);
  attr_destroy = λ w. w - 1;
  thread_create = λ w. (false, w);
  thread_join = λ w. w - 1;
}

machine-Counts : Counts machine 1 1 1 1 (λ w. w)
machine-Counts = record {
  malloc = λ w. refl;
  free = λ w. refl;
  open_proxy = λ w. refl;
  mlockall = λ w. refl;
  write = λ fd byte w. refl;
  close = λ fd w. refl;
  attr_init = λ w. refl;
  attr_setinheritsched = λ w. refl;
  attr_setschedpolicy = λ w. refl;
  attr_setschedparam = λ w. refl;
  attr_destroy = λ w. refl;
  thread_create = λ w. omega arith;
  thread_join = λ w. refl;
}

acquire-held_example :
    let own = os_acquire_interrupt machine (pos 5) 0 true 64 8 2 in
    let shared = os_acquire_shared_interrupt machine (pos 5) 0 true 64 8 2 in
    (own.1 ≡ 2 + (1 + 1 + 1) * to_nat (is_some own.0))
    × (shared.1 ≡ 2 + (1 + 1 + 1) * to_nat (is_some shared.0))
    × (os_release_interrupt machine own.0 own.1 ≡ 2)
    × (os_release_shared_interrupt machine shared.0 shared.1 ≡ 2)
acquire-held_example = acquire-held machine 1 1 1 1 (λ w. w) machine-Counts (pos 5) 0 0 true 64 8 2
