-- ===== src/Kernel/Trace.antt =====
-- linux_kernel/src/osal_trace.c: messages to the kernel's log, by the module's parameter `osal_debug`.
-- What the formatting of a message comes to is an argument, the list of its characters.
use osal.Base.{ℕ, Option, none, some, List, ◌++◌, leb, if◌then◌else◌}
use osal.Base.Text.{codes}
use osal.Base.Slices.{take}

-- What vsnprintf leaves of a text in a buffer of MAXSTR characters.
abbrev cut : List ℕ → List ℕ
cut text = take 511 text

-- What is printed, none for nothing.
unfoldable pub os_debug : (osal_debug : ℕ) (text : List ℕ) → Option (List ℕ)
os_debug osal_debug text = if leb 3 osal_debug then some (codes "DEBUG: " ++ cut text) else none

unfoldable pub os_print : (osal_debug : ℕ) (text : List ℕ) → Option (List ℕ)
os_print osal_debug text = if leb 2 osal_debug then some (cut text) else none

unfoldable pub os_error : (osal_debug : ℕ) (text : List ℕ) → Option (List ℕ)
os_error osal_debug text = if leb 1 osal_debug then some (codes "ERROR: " ++ cut text) else none
