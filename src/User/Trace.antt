-- ===== src/User/Trace.antt =====
-- linux_user/src/osal_trace.c: messages to syslog and to the terminal. What the formatting of a
-- message comes to is an argument, the list of its characters. The lists of optional arguments and
-- the backtrace are left out.
pub mod Severity
pub mod Buffers
mod Tests
use Prim.Native.Nat.{bit_or}
use osal.Base.{
  ℕ, ◌-◌, ◌≤◌, Bool, true, false, Option, none, some, List, [], ◌∷◌, ◌++◌, ltb, leb, if◌then◌else◌,
  length,
}
use osal.Base.Text.{codes}
use osal.Base.Slices.{take}

-- `TRACE_LEVEL`.
pub data TraceLevel : Type 0 where
  t_none t_error t_warning t_info : TraceLevel

abbrev pub rank : TraceLevel → ℕ
rank t_none = 0
rank t_error = 1
rank t_warning = 2
rank t_info = 3

-- `TRACE_PARMS`.
pub record TraceParms : Type 0 where
  pub label : List ℕ
  pub subsys : List ℕ
  pub level : TraceLevel

abbrev maxstr : ℕ
maxstr = 512

unfoldable pub level_string : TraceLevel → List ℕ
level_string t_none = codes " "
level_string t_error = codes " *** ERROR *** "
level_string t_warning = codes "WARNING "
level_string t_info = codes "INFO"

-- The severities LOG_DEBUG, LOG_ERR, LOG_WARNING and LOG_INFO of syslog.
unfoldable pub syslog_trace_level : TraceLevel → ℕ
syslog_trace_level t_none = 7
syslog_trace_level t_error = 3
syslog_trace_level t_warning = 4
syslog_trace_level t_info = 6

-- LOG_USER, what the static variable `priority` begins with.
abbrev pub log_user : ℕ
log_user = 8

-- `allocated` says whether malloc succeeds.
pub trace_init : (allocated : Bool) (subsys name : List ℕ) (level : TraceLevel) → Option TraceParms
trace_init false subsys name level = none
trace_init true subsys name level = some (record { label = name; subsys = subsys; level = level })

-- What a call of trace does: it complains of the handle, says nothing, writes past the end of one of
-- its buffers, or calls syslog with a priority and a message.
pub data Outcome : Type 0 where
  invalid silent overrun : Outcome
  logged : (priority : ℕ) (message : List ℕ) → Outcome

-- A text and the 0 behind it are in a buffer.
unfoldable pub fits : List ℕ → Bool
fits s = ltb (length s) maxstr

unfoldable pub trace_message : TraceParms → TraceLevel → (text : List ℕ) → List ℕ
unfolding level_string
trace_message h level text =
    h.subsys
    ++ (codes "_"
        ++ (h.label ++ (codes ":" ++ (level_string level ++ (codes ":" ++ (text ++ codes " \n"))))))

-- Both buffers are filled before the priority is.
unfoldable pub to_syslog : (text message : List ℕ) (level : TraceLevel) (priority : ℕ) → Outcome × ℕ
unfolding fits syslog_trace_level
to_syslog text message level priority =
    let p = bit_or priority (syslog_trace_level level) in
    if fits text
    then if fits message then (logged p message, p) else (overrun, priority)
    else (overrun, priority)

-- The second result is `priority` afterwards. The severity is that of the handle's level.
unfoldable pub trace :
    Option TraceParms → (level : TraceLevel) (text : List ℕ) (priority : ℕ) → Outcome × ℕ
unfolding to_syslog trace_message
trace none level text priority = (invalid, priority)
trace (some h) level text priority =
    if leb (rank level) (rank h.level)
    then to_syslog text (trace_message h level text) h.level priority
    else (silent, priority)

unfoldable pub verify_message : (text : List ℕ) → List ℕ
unfolding level_string
verify_message text = codes "VERIFY:" ++ (level_string t_error ++ (text ++ codes "\n"))

unfoldable pub verify_trace : (text : List ℕ) (priority : ℕ) → Outcome × ℕ
unfolding to_syslog verify_message
verify_trace text priority = to_syslog text (verify_message text) t_error priority

-- What vsnprintf leaves of a text in a buffer.
abbrev cut : List ℕ → List ℕ
cut text = take (maxstr - 1) text

-- What is printed by the variable `osal_debug`, a natural number; none for nothing.
unfoldable pub os_debug : (osal_debug : ℕ) (text : List ℕ) → Option (List ℕ)
os_debug osal_debug text = if leb 3 osal_debug then some (codes "DEBUG: " ++ cut text) else none

unfoldable pub os_print : (osal_debug : ℕ) (text : List ℕ) → Option (List ℕ)
os_print osal_debug text = if leb 2 osal_debug then some (cut text) else none

unfoldable pub os_info : (text : List ℕ) → Option (List ℕ)
os_info text = some (cut text)

unfoldable pub os_error : (osal_debug : ℕ) (text : List ℕ) → Option (List ℕ)
os_error osal_debug text = if leb 1 osal_debug then some (codes "ERROR: " ++ cut text) else none
