-- ===== src/User/Irq/Reader/Tests.antt =====
-- Three rounds of the reading thread: an interrupt in a sleep, one that races with the timer, and none.
use osal.Base.{◌+◌, ◌*◌, ◌≤◌, true, false, List, [], ◌∷◌, arith}
use osal.User.Irq.Reader.{timed_out, woken, raced, Round, os_irq_thread}
use osal.User.Irq.Reader.Count.{fired}
use osal.User.Irq.Reader.Delivery.{owed_of, bound_to, calls-fired}

abbrev rounds : List Round
rounds =
    record { before = false; raised = false; sleep = woken }
    ∷ (record { before = false; raised = false; sleep = raced }
        ∷ (record { before = true; raised = false; sleep = timed_out } ∷ []))

calls-fired_example :
    let r = os_irq_thread rounds (bound_to 5) in
    (r.0 ≤ 2 * fired rounds (bound_to 5))
    × (fired rounds (bound_to 5) ≤ 2 * r.0 + owed_of r.1)
    × (owed_of r.1 ≤ 1)
calls-fired_example = calls-fired 5 rounds (λ e. omega arith)
