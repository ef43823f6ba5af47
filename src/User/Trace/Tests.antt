-- ===== src/User/Trace/Tests.antt =====
-- A warning, and an error behind it.
use osal.Base.{ℕ, zero, suc, ◌+◌, ◌≤◌, ◌<◌, ◌≡◌, refl, ap, ◌↔◌, ◌⊎◌, some, List, [], ◌∷◌, length}
use osal.Base.Text.{codes}
use Prim.Native.Nat.{bit_or}
use osal.User.Trace.{
  t_error, t_warning, TraceParms, rank, logged, overrun, trace, level_string, log_user, os_error,
}
use osal.User.Trace.Severity.{tracing, others, perform_all, error-severity}
use osal.User.Trace.Buffers.{trace-overrun_iff}

abbrev errors : TraceParms
errors = record { label = codes "BUS"; subsys = codes "PCI"; level = t_error }

abbrev warnings : TraceParms
warnings = record errors { level = t_warning }

-- The message of a handle for errors goes to syslog as a message for debugging.
demoted :
    trace
      (some errors)
      t_error
      (codes "gone")
      (perform_all (tracing warnings t_warning (codes "slow") ∷ []) log_user)
    ≡ (logged 15 (codes "PCI_BUS: *** ERROR *** :gone \n"), 15)
unfolding trace level_string
demoted = refl

printed : os_error 1 (codes "gone") ≡ some (codes "ERROR: gone")
unfolding os_error
printed = refl

error-severity_example :
    ((others (tracing warnings t_warning (codes "slow") ∷ []) ≡ 0) × (15 ≡ bit_or log_user 3))
    ⊎ ((0 < others (tracing warnings t_warning (codes "slow") ∷ [])) × (15 ≡ bit_or log_user 7))
error-severity_example =
    error-severity (tracing warnings t_warning (codes "slow") ∷ []) errors t_error (codes "gone") 15
      (codes "PCI_BUS: *** ERROR *** :gone \n") refl (ap (λ r. r.0) demoted)

abbrev filler : ℕ → List ℕ
filler zero = []
filler (suc n) = b'x' ∷ filler n

trace-overrun_iff_example :
    ((trace (some errors) t_error (filler 500) 8).0 ≡ overrun)
    ↔ ((rank t_error ≤ rank t_error) × (507 ≤ 3 + 3 + length (level_string t_error) + 500))
trace-overrun_iff_example = trace-overrun_iff errors t_error (filler 500) 8
