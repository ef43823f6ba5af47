-- ===== src/Types.antt =====
-- include/osal_type.h and linux_user/include/os/osal_type.h: result codes and object states.
-- `osal_result`.
pub data OsalResult : Type 0 where
  error success invalid_state invalid_handle invalid_param not_implemented : OsalResult
  invalid_operation invalid_setting insufficient_resources insufficient_memory : OsalResult
  invalid_permission completed not_done pending timeout canceled reject overrun : OsalResult
  not_found unavailable busy disconnect duplicate status_count : OsalResult

-- `osal_state_t`.
pub data OsalState : Type 0 where
  uninitialized initialized destroying destroyed : OsalState
