-- ===== src/User/Trace/Severity.antt =====
-- The priorities that a program's messages go to syslog with.
mod Priorities
use osal.Base.{
  Bool-cases, ℕ, zero, suc, ◌+◌, ◌<◌, ◌≡◌, refl, ap, ◌∙◌, ◌⊎◌, inl, inr, Bool, true, false, not,
  ◌&&◌, some, List, [], ◌∷◌, arith, leb, if◌then◌else◌, to_nat, Bool-cases,
}
use Prim.Native.Nat.{bit_or}
use osal.User.Trace.{
  TraceLevel, t_none, t_error, t_warning, t_info, TraceParms, Outcome, logged, fits,
  syslog_trace_level, to_syslog, trace_message, trace, verify_message, verify_trace, silent,
  overrun, log_user, rank,
}
use osal.User.Trace.Severity.Priorities.{
  is_error, IsClean, IsMixed, clean-error, mixed-error, to_syslog-keeps, or-IsMixed, if-branch,
  sent, sent-IsClean, sent-IsMixed, and-false, guarded-IsClean, guarded-IsMixed,
}

-- The calls that change the variable.
pub data Call : Type 0 where
  tracing : TraceParms → (level : TraceLevel) (text : List ℕ) → Call
  verifying : (text : List ℕ) → Call

abbrev pub perform : Call → ℕ → Outcome × ℕ
perform (tracing h level text) p = trace (some h) level text p
perform (verifying text) p = verify_trace text p

-- `priority` after the calls.
abbrev pub perform_all : List Call → ℕ → ℕ
perform_all [] p = p
perform_all (c ∷ cs) p = perform_all cs (perform c p).1

-- Whether a call hands a message to syslog, from a handle whose level is not T_ERROR.
abbrev pub logs_other : Call → Bool
logs_other (tracing h level text) =
    leb (rank level) (rank h.level)
    && (fits text && fits (trace_message h level text) && not (is_error h.level))
logs_other (verifying text) = false

-- How many of the calls do.
abbrev pub others : List Call → ℕ
others [] = 0
others (c ∷ cs) = to_nat (logs_other c) + others cs

perform-IsMixed : (c : Call) (p : ℕ) → IsMixed p → IsMixed (perform c p).1
unfolding trace verify_trace
perform-IsMixed (tracing h level text) p m =
    if-branch IsMixed (leb (rank level) (rank h.level)) _ _
      (to_syslog-keeps IsMixed text (trace_message h level text) h.level p m
        (or-IsMixed h.level p m))
      m
perform-IsMixed (verifying text) p m =
    to_syslog-keeps IsMixed text (verify_message text) t_error p m (or-IsMixed t_error p m)

perform-IsClean : (c : Call) (p : ℕ) → IsClean p → logs_other c ≡ false → IsClean (perform c p).1
unfolding trace verify_trace to_syslog
perform-IsClean (tracing h level text) p c o =
    let message = trace_message h level text in
    guarded-IsClean (leb (rank level) (rank h.level))
      (sent (fits text) (fits message) message h.level p) p
      (fits text && fits message && not (is_error h.level)) c o
      (λ o'. sent-IsClean (fits text) (fits message) message h.level p c o')
perform-IsClean (verifying text) p c o =
    sent-IsClean (fits text) (fits (verify_message text)) (verify_message text) t_error p c
      (and-false (fits text) (fits (verify_message text)))

perform_other-IsMixed :
    (c : Call) (p : ℕ) → IsClean p → logs_other c ≡ true → IsMixed (perform c p).1
unfolding trace to_syslog
perform_other-IsMixed (tracing h level text) p c o =
    let message = trace_message h level text in
    guarded-IsMixed (leb (rank level) (rank h.level))
      (sent (fits text) (fits message) message h.level p) p
      (fits text && fits message && not (is_error h.level)) o
      (λ o'. sent-IsMixed (fits text) (fits message) message h.level p c o')
perform_other-IsMixed (verifying text) p c o = cc

all-IsMixed : (cs : List Call) (p : ℕ) → IsMixed p → IsMixed (perform_all cs p)
all-IsMixed [] p m = m
all-IsMixed (c ∷ cs) p m = all-IsMixed cs (perform c p).1 (perform-IsMixed c p m)

all-IsClean : (cs : List Call) (p : ℕ) → IsClean p → others cs ≡ 0 → IsClean (perform_all cs p)
all-IsClean [] p c o = c
all-IsClean (call ∷ cs) p c o = elim (Bool-cases (logs_other call)) [
  | inl e ↦ absurd (ground (arith, ap to_nat e))
  | inr e ↦ all-IsClean cs (perform call p).1 (perform-IsClean call p c e) (ground arith)
]

all_other-IsMixed :
    (cs : List Call) (p : ℕ) → IsClean p → 0 < others cs → IsMixed (perform_all cs p)
all_other-IsMixed [] p c o = absurd (omega arith)
all_other-IsMixed (call ∷ cs) p c o = elim (Bool-cases (logs_other call)) [
  | inl e ↦ all-IsMixed cs (perform call p).1 (perform_other-IsMixed call p c e)
  | inr e ↦ all_other-IsMixed cs (perform call p).1 (perform-IsClean call p c e) (ground arith)
]

nat-cases : (n : ℕ) → (n ≡ 0) ⊎ (0 < n)
nat-cases zero = inl refl
nat-cases (suc n) = inr (omega arith)

to_syslog-logged :
    (text message : List ℕ) (l : TraceLevel) (p q : ℕ) (m : List ℕ)
    → (to_syslog text message l p).0 ≡ logged q m
    → q ≡ bit_or p (syslog_trace_level l)
unfolding to_syslog
to_syslog-logged text message l p q m e = ground arith

trace-logged :
    (h : TraceParms) (level : TraceLevel) (text : List ℕ) (p q : ℕ) (m : List ℕ)
    → (trace (some h) level text p).0 ≡ logged q m
    → q ≡ bit_or p (syslog_trace_level h.level)
unfolding trace
trace-logged h level text p q m e =
    ground (arith, to_syslog-logged text (trace_message h level text) h.level p q m)

-- After any calls of trace and verify_trace from the start of the program, a message that a handle of
-- level T_ERROR hands to syslog has the severity LOG_ERR exactly when none of the calls before has
-- handed it a message from a handle of another level; if one has, the message is marked LOG_DEBUG.
pub error-severity :
    (cs : List Call) (h : TraceParms) (level : TraceLevel) (text : List ℕ) (q : ℕ) (m : List ℕ)
    → h.level ≡ t_error
    → (trace (some h) level text (perform_all cs log_user)).0 ≡ logged q m
    → ((others cs ≡ 0) × (q ≡ bit_or log_user 3)) ⊎ ((0 < others cs) × (q ≡ bit_or log_user 7))
unfolding syslog_trace_level
error-severity cs h level text q m l e =
    let p = perform_all cs log_user in
    let same =
      trace-logged h level text p q m e
      ∙ ap (λ (x : TraceLevel). bit_or p (syslog_trace_level x)) l in
    elim (nat-cases (others cs)) [
      | inl quiet ↦ inl (quiet, same ∙ clean-error p (all-IsClean cs log_user (inl refl) quiet))
      | inr loud ↦ inr (loud, same ∙ mixed-error p (all_other-IsMixed cs log_user (inl refl) loud))
    ]
