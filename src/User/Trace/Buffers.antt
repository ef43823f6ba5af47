-- ===== src/User/Trace/Buffers.antt =====
-- When a message is written past the end of the buffers of trace.
use osal.Base.{ℕ, ◌+◌, ◌≤◌, ◌≡◌, ◌↔◌, ◌⊎◌, some, List, [], ◌∷◌, ◌++◌, arith, length}
use osal.Base.Text.{codes}
use osal.User.Trace.{
  TraceLevel, rank, TraceParms, overrun, level_string, to_syslog, trace_message, trace,
}

length-append {ℓ} : {A : Type ℓ} (xs ys : List A) → length (xs ++ ys) ≡ length xs + length ys
length-append [] ys = omega arith
length-append (x ∷ xs) ys = omega (arith, length-append xs ys)

-- The characters of a message: five are the format's own.
length-trace_message :
    (h : TraceParms) (level : TraceLevel) (text : List ℕ)
    → length (trace_message h level text)
      ≡ length h.subsys + length h.label + length (level_string level) + length text + 5
unfolding trace_message
length-trace_message h level text = omega (
  arith,
  length-append h.subsys (
      codes "_"
      ++ (h.label ++ (codes ":" ++ (level_string level ++ (codes ":" ++ (text ++ codes " \n")))))),
  length-append h.label (codes ":" ++ (level_string level ++ (codes ":" ++ (text ++ codes " \n")))),
  length-append (level_string level) (codes ":" ++ (text ++ codes " \n")),
  length-append text (codes " \n"),
)

to_syslog-overrun :
    (text message : List ℕ) (l : TraceLevel) (p : ℕ)
    → ((to_syslog text message l p).0 ≡ overrun) ↔ ((512 ≤ length text) ⊎ (512 ≤ length message))
unfolding to_syslog
to_syslog-overrun text message l p = (λ e. ground arith, λ e. ground arith)

-- A call of trace writes past the end of a buffer exactly when the level of its message is not above
-- that of its handle and the text, with the names of the handle, the name of the level and the five
-- characters of the format, leaves no room for the 0 at the end in 512 characters. The text is not
-- cut off, as the printing functions do.
pub trace-overrun_iff :
    (h : TraceParms) (level : TraceLevel) (text : List ℕ) (p : ℕ)
    → ((trace (some h) level text p).0 ≡ overrun) ↔ (
        (rank level ≤ rank h.level)
        × (507 ≤ length h.subsys + length h.label + length (level_string level) + length text))
unfolding trace
trace-overrun_iff h level text p =
    let size = length-trace_message h level text in
    let sent = to_syslog-overrun text (trace_message h level text) h.level p in
    (λ e. ground (arith, size, sent.0), λ e. ground (arith, size, sent.1))
