-- ===== src/ProcessInstances/Lifecycle.antt =====
-- Suspending, erroring, scheduling a retry and terminating:
-- src/m8flow_core/services/process_instances.py.
pub mod Access
pub mod Events
pub mod Effects
pub mod Ending
use m8flow_bpmn_core.Base.{
  ℕ, String, Bool, true, false, Option, none, some, List, [], ◌==◌, Nat_Eq, String_Eq,
  if◌then◌else◌,
}
use m8flow_bpmn_core.Base.Text.Decimal.{show_nat}
use m8flow_bpmn_core.Errors.{Error}
use m8flow_bpmn_core.Model.Json.{Fields, end, field, number, moment}
use m8flow_bpmn_core.Model.Status.{ProcessInstanceStatus, has_terminal_status}
use m8flow_bpmn_core.Model.Event.{EventType, ProcessLifecycleEventType}
use m8flow_bpmn_core.Model.Permission.{PermissionResourceType}
use m8flow_bpmn_core.Model.Process.{Timestamp, ProcessInstance}
use m8flow_bpmn_core.Model.Scheduler.{SchedulerJob, SchedulerJobType}
use m8flow_bpmn_core.Session.{
  Action, Result, ok, err, pure, raise, lift, resolve_timestamp, ◌>>=◌, ◌>>◌, update,
}
use m8flow_bpmn_core.Tables.{process_instances}
use m8flow_bpmn_core.TenantUsers.{ensure_user_belongs_to_tenant}
use m8flow_bpmn_core.Authorization.Commands.{
  process_suspend_command, process_retry_command, process_terminate_command,
}
use m8flow_bpmn_core.Authorization.Policy.{AuthorizationPolicy, require_command_authorization}
use m8flow_bpmn_core.SchedulerJobs.{
  build_scheduler_job_key, upsert_scheduler_job, delete_scheduler_job,
}
use m8flow_bpmn_core.ProcessInstances.{
  ensure_user_if_given, load_process_instance, record_process_instance_event,
}
use m8flow_bpmn_core.ProcessInstances.RuntimeState.{close_process_instance_runtime_state}

-- Attributes of the loaded instance are set.
unfoldable pub set_instance : ℕ → (ProcessInstance → ProcessInstance) → Action (Unit {0})
set_instance instance_id change = update process_instances (λ p. p.id == instance_id) change

unfoldable pub record_lifecycle_event :
    String → ℕ → ProcessLifecycleEventType → Timestamp → Option ℕ → Action (Unit {0})
record_lifecycle_event tenant_id instance_id kind at user_id =
    record_process_instance_event tenant_id instance_id (ok (EventType.lifecycle kind)) (some at)
      none user_id
    >>= λ _. pure tt

unfoldable pub process_retry_scheduler_job_key : ℕ → Result String
process_retry_scheduler_job_key instance_id =
    build_scheduler_job_key SchedulerJobType.process_retry (some instance_id) none none

-- The first three checks of every lifecycle operation: the user, the instance, the permission.
unfoldable pub authorized_instance :
    AuthorizationPolicy → String → ℕ → ℕ → String → Action ProcessInstance
authorized_instance policy tenant_id instance_id user_id command_key = do
  ensure_user_belongs_to_tenant tenant_id user_id >>= λ _. pure tt
  instance_row ← load_process_instance tenant_id instance_id
  require_command_authorization policy tenant_id user_id command_key
      PermissionResourceType.process_instance (show_nat instance_row.id) none
  pure instance_row

unfoldable pub suspended_fields : Timestamp → ProcessInstance → ProcessInstance
suspended_fields at p = record p { status = ProcessInstanceStatus.suspended; updated_at = some at }

unfoldable pub ended_fields : ProcessInstanceStatus → Timestamp → ProcessInstance → ProcessInstance
ended_fields status at p = record p { status = status; ended_at = some at; updated_at = some at }

abbrev pub touched : Timestamp → ProcessInstance → ProcessInstance
touched at p = record p { task_updated_at = some at }

-- After the checks, by the status: return, raise, or suspend.
unfoldable pub suspend_from :
    ProcessInstanceStatus → String → ProcessInstance → ℕ → Option Timestamp → Action ProcessInstance
suspend_from ProcessInstanceStatus.suspended tenant_id p user_id suspended_at = pure p
suspend_from status tenant_id p user_id suspended_at =
    if has_terminal_status status then raise Error.invalid_state_error else do
      at ← resolve_timestamp suspended_at
      set_instance p.id (suspended_fields at)
      record_lifecycle_event tenant_id p.id ProcessLifecycleEventType.process_instance_suspended at
          (some user_id)
      pure (suspended_fields at p)

unfoldable pub suspend_process_instance :
    AuthorizationPolicy → String → ℕ → ℕ → Option Timestamp → Action ProcessInstance
suspend_process_instance policy tenant_id instance_id user_id suspended_at = do
  p ← authorized_instance policy tenant_id instance_id user_id process_suspend_command
  suspend_from p.status tenant_id p user_id suspended_at

-- Sets the end of the instance, closes its tasks and work items, and records the event.
unfoldable pub end_instance :
    ProcessInstanceStatus
    → ProcessLifecycleEventType
    → String
    → ProcessInstance
    → Option ℕ
    → Option Timestamp
    → Action ProcessInstance
end_instance status event tenant_id p user_id ended_at = do
  at ← resolve_timestamp ended_at
  set_instance p.id (ended_fields status at)
  close_process_instance_runtime_state p.id at user_id
  record_lifecycle_event tenant_id p.id event at user_id
  pure (touched at (ended_fields status at p))

unfoldable pub error_from :
    ProcessInstanceStatus
    → String
    → ProcessInstance
    → Option ℕ
    → Option Timestamp
    → Action ProcessInstance
error_from ProcessInstanceStatus.error tenant_id p user_id errored_at = pure p
error_from ProcessInstanceStatus.complete tenant_id p user_id errored_at =
    raise Error.invalid_state_error
error_from ProcessInstanceStatus.terminated tenant_id p user_id errored_at =
    raise Error.invalid_state_error
error_from status tenant_id p user_id errored_at =
    end_instance ProcessInstanceStatus.error ProcessLifecycleEventType.process_instance_error
      tenant_id p user_id errored_at

unfoldable pub error_process_instance :
    String → ℕ → Option ℕ → Option Timestamp → Action ProcessInstance
error_process_instance tenant_id instance_id user_id errored_at = do
  ensure_user_if_given tenant_id user_id
  p ← load_process_instance tenant_id instance_id
  error_from p.status tenant_id p user_id errored_at

unfoldable pub terminate_from :
    ProcessInstanceStatus → String → ProcessInstance → ℕ → Option Timestamp → Action ProcessInstance
terminate_from ProcessInstanceStatus.terminated tenant_id p user_id terminated_at = pure p
terminate_from ProcessInstanceStatus.complete tenant_id p user_id terminated_at =
    raise Error.invalid_state_error
terminate_from ProcessInstanceStatus.error tenant_id p user_id terminated_at =
    raise Error.invalid_state_error
terminate_from status tenant_id p user_id terminated_at =
    end_instance ProcessInstanceStatus.terminated
      ProcessLifecycleEventType.process_instance_terminated tenant_id p (some user_id) terminated_at

unfoldable pub terminate_process_instance :
    AuthorizationPolicy → String → ℕ → ℕ → Option Timestamp → Action ProcessInstance
terminate_process_instance policy tenant_id instance_id user_id terminated_at = do
  p ← authorized_instance policy tenant_id instance_id user_id process_terminate_command
  terminate_from p.status tenant_id p user_id terminated_at

abbrev pub retry_payload : ℕ → Timestamp → Fields
retry_payload user_id at =
    field "requested_by_user_id" (number user_id) (field "scheduled_at" (moment at) end)

unfoldable pub schedule_from :
    ProcessInstanceStatus
    → String
    → ProcessInstance
    → ℕ
    → Timestamp
    → Option Timestamp
    → Action SchedulerJob
schedule_from ProcessInstanceStatus.error tenant_id p user_id retry_at scheduled_at = do
  at ← resolve_timestamp scheduled_at
  key ← lift (process_retry_scheduler_job_key p.id)
  upsert_scheduler_job tenant_id key SchedulerJobType.process_retry retry_at (some p.id)
      p.bpmn_process_definition_id (retry_payload user_id at) (some at) (some at)
schedule_from status tenant_id p user_id retry_at scheduled_at = raise Error.invalid_state_error

unfoldable pub schedule_process_instance_retry :
    AuthorizationPolicy → String → ℕ → ℕ → Timestamp → Option Timestamp → Action SchedulerJob
schedule_process_instance_retry policy tenant_id instance_id user_id retry_at scheduled_at = do
  p ← authorized_instance policy tenant_id instance_id user_id process_retry_command
  schedule_from p.status tenant_id p user_id retry_at scheduled_at

-- `_delete_scheduled_process_retry_job`
unfoldable pub delete_scheduled_process_retry_job : String → ℕ → Action (Unit {0})
delete_scheduled_process_retry_job tenant_id instance_id = do
  key ← lift (process_retry_scheduler_job_key instance_id)
  delete_scheduler_job tenant_id key >>= λ _. pure tt
