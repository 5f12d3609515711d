-- ===== src/Errors.antt =====
-- The exceptions: src/m8flow_core/errors.py, and the builtin ones that the services raise.
-- Messages are left out: no caller inspects them.
use m8flow_bpmn_core.Base.{Bool, true, false}

pub data Error : Type 0 where
  -- the hierarchy under `BpmnCoreError`
  bpmn_core_error : Error
  validation_error : Error
  invalid_state_error : Error
  authorization_error : Error
  not_found_error : Error
  service_task_execution_error : Error
  call_activity_resolution_error : Error
  -- builtin exceptions, and `InvalidPermissionTargetError`, a `ValueError`
  value_error : Error
  invalid_permission_target_error : Error
  type_error : Error
  key_error : Error
  runtime_error : Error

-- `isinstance(error, BpmnCoreError)`
unfoldable pub is_bpmn_core_error : Error → Bool
is_bpmn_core_error Error.bpmn_core_error = true
is_bpmn_core_error Error.validation_error = true
is_bpmn_core_error Error.invalid_state_error = true
is_bpmn_core_error Error.authorization_error = true
is_bpmn_core_error Error.not_found_error = true
is_bpmn_core_error Error.service_task_execution_error = true
is_bpmn_core_error Error.call_activity_resolution_error = true
is_bpmn_core_error _ = false
