-- ===== src/ProcessInstances/Reactivation.antt =====
-- Resuming and retrying: src/m8flow_core/services/process_instance_reactivation.py. Both call the
-- workflow runtime, which is a parameter.
use m8flow_bpmn_core.Base.{ℕ, String, Option, none, some, ◌==◌, Nat_Eq, find}
use m8flow_bpmn_core.Errors.{Error}
use m8flow_bpmn_core.Model.Status.{ProcessInstanceStatus}
use m8flow_bpmn_core.Model.Event.{ProcessLifecycleEventType}
use m8flow_bpmn_core.Model.Process.{Timestamp, ProcessInstance}
use m8flow_bpmn_core.Session.{Action, pure, raise, gets, resolve_timestamp, ◌>>=◌, ◌>>◌}
use m8flow_bpmn_core.Authorization.Commands.{process_resume_command, process_retry_command}
use m8flow_bpmn_core.Authorization.Policy.{AuthorizationPolicy}
use m8flow_bpmn_core.ProcessInstances.RuntimeState.{reopen_process_instance_runtime_state}
use m8flow_bpmn_core.ProcessInstances.Lifecycle.{
  set_instance, record_lifecycle_event, authorized_instance, delete_scheduled_process_retry_job,
}
use m8flow_bpmn_core.WorkflowRuntime.{WorkflowRuntime}

abbrev row_or : Option ProcessInstance → ProcessInstance → ProcessInstance
row_or none p = p
row_or (some q) p = q

-- The loaded object as it stands now, after other calls have set its attributes.
unfoldable pub current : ProcessInstance → Action ProcessInstance
current p = gets (λ db. row_or (find (λ q. q.id == p.id) db.process_instances.rows) p)

unfoldable pub running_fields : Timestamp → ProcessInstance → ProcessInstance
running_fields at p = record p { status = ProcessInstanceStatus.running; updated_at = some at }

unfoldable pub retried_fields : Timestamp → ProcessInstance → ProcessInstance
retried_fields at p = record p {
  status = ProcessInstanceStatus.running;
  ended_at = none;
  updated_at = some at;
}

module _ (runtime : WorkflowRuntime) where
  unfoldable pub resume_from :
      ProcessInstanceStatus
      → String
      → ProcessInstance
      → ℕ
      → Option Timestamp
      → Action ProcessInstance
  resume_from ProcessInstanceStatus.running tenant_id p user_id resumed_at = pure p
  resume_from ProcessInstanceStatus.suspended tenant_id p user_id resumed_at = do
    at ← resolve_timestamp resumed_at
    set_instance p.id (running_fields at)
    runtime.sync_open_work_item_potential_owners tenant_id p.id
    record_lifecycle_event tenant_id p.id ProcessLifecycleEventType.process_instance_resumed at
        (some user_id)
    current p
  -- a terminal instance, or one that is not suspended: two messages of one error
  resume_from status tenant_id p user_id resumed_at = raise Error.invalid_state_error

  unfoldable pub resume_process_instance :
      AuthorizationPolicy → String → ℕ → ℕ → Option Timestamp → Action ProcessInstance
  resume_process_instance policy tenant_id instance_id user_id resumed_at = do
    p ← authorized_instance policy tenant_id instance_id user_id process_resume_command
    resume_from p.status tenant_id p user_id resumed_at

  unfoldable pub retry_from :
      ProcessInstanceStatus
      → String
      → ProcessInstance
      → ℕ
      → Option Timestamp
      → Action ProcessInstance
  retry_from ProcessInstanceStatus.error tenant_id p user_id retried_at = do
    at ← resolve_timestamp retried_at
    set_instance p.id (retried_fields at)
    reopen_process_instance_runtime_state p.id at
    runtime.retry_errored_service_task_workflow_if_needed tenant_id p.id at
    delete_scheduled_process_retry_job tenant_id p.id
    record_lifecycle_event tenant_id p.id ProcessLifecycleEventType.process_instance_retried at
        (some user_id)
    runtime.retry_errored_service_task_workflow_if_needed tenant_id p.id at
    runtime.sync_open_work_item_potential_owners tenant_id p.id
    current p
  retry_from status tenant_id p user_id retried_at = raise Error.invalid_state_error

  unfoldable pub retry_process_instance :
      AuthorizationPolicy → String → ℕ → ℕ → Option Timestamp → Action ProcessInstance
  retry_process_instance policy tenant_id instance_id user_id retried_at = do
    p ← authorized_instance policy tenant_id instance_id user_id process_retry_command
    retry_from p.status tenant_id p user_id retried_at
