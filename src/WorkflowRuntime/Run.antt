-- ===== src/WorkflowRuntime/Run.antt =====
-- A run of the workflow, and what becomes of an instance whose service task fails:
-- `_run_workflow_with_service_task_failure_handling` and what it calls in
-- src/m8flow_core/services/workflow_runtime.py. The independent session works on the committed
-- database, which is `none` where the session has no engine to open one on.
pub mod Failure
use m8flow_bpmn_core.Base.{
  ℕ, String, Bool, true, false, ◌&&◌, Option, none, some, List, [], ◌∷◌, ◌==◌, Nat_Eq, String_Eq,
  if◌then◌else◌, keep,
}
use m8flow_bpmn_core.Errors.{Error}
use m8flow_bpmn_core.Model.Status.{ProcessInstanceStatus}
use m8flow_bpmn_core.Model.Event.{EventType, TaskEventType}
use m8flow_bpmn_core.Model.Process.{Timestamp, ProcessInstance}
use m8flow_bpmn_core.Model.Database.{Database}
use m8flow_bpmn_core.Session.{Action, ok, err, pure, raise, ◌>>=◌, ◌>>◌, update}
use m8flow_bpmn_core.Tables.{process_instances}
use m8flow_bpmn_core.ProcessInstances.{load_process_instance, record_process_instance_event}
use m8flow_bpmn_core.ProcessInstances.Lifecycle.{error_process_instance}
use m8flow_bpmn_core.WorkflowRuntime.Engine.{Engine, EngineTask}
use m8flow_bpmn_core.WorkflowRuntime.WorkItemRows.{sync_inactive_work_items}
use m8flow_bpmn_core.WorkflowRuntime.StateRows.{
  persist_workflow_state, persist_workflow_recovery_state,
}

unfoldable pub first_id : List EngineTask → Option String
first_id [] = none
first_id (t ∷ ts) = some t.id

unfoldable pub record_failed_task : ProcessInstance → Option String → Timestamp → Action (Unit {0})
record_failed_task p none at = pure tt
record_failed_task p (some guid) at =
    record_process_instance_event p.m8f_tenant_id p.id
      (ok (EventType.task_event TaskEventType.task_failed)) (some at) (some guid) none
    >>= λ _. pure tt

abbrev started_or : Option Timestamp → Timestamp → Option Timestamp
started_or none at = some at
started_or (some t) at = some t

-- An instance in error is made running, so that it can be put in error again.
unfoldable pub failing_status : ProcessInstanceStatus → ProcessInstanceStatus
failing_status ProcessInstanceStatus.error = ProcessInstanceStatus.running
failing_status status = status

unfoldable pub failing_fields : Timestamp → ProcessInstance → ProcessInstance
failing_fields at p = record p {
  started_at = started_or p.started_at at;
  status = failing_status p.status;
}

module _ (engine : Engine) where
  unfoldable pub errored_service_tasks : engine.Workflow → List EngineTask
  errored_service_tasks w = keep (λ t. t.spec_type == "ServiceTask") (engine.errors w)

  -- `if recovery_only: …`
  unfoldable pub persist_failed_state :
      Bool → ProcessInstance → engine.Workflow → Timestamp → Action (Unit {0})
  persist_failed_state true p w at = persist_workflow_recovery_state engine p w
  persist_failed_state false p w at = do
    persist_workflow_state engine p w at
    sync_inactive_work_items p (engine.ready_manual w) at

  unfoldable pub transition_process_instance_to_error_for_service_task_failure :
      Bool → ProcessInstance → engine.Workflow → Timestamp → Action (Unit {0})
  transition_process_instance_to_error_for_service_task_failure recovery_only p w at = do
    persist_failed_state recovery_only p w at
    record_failed_task p (first_id (errored_service_tasks w)) at
    update process_instances (λ x. x.id == p.id) (failing_fields at)
    error_process_instance p.m8f_tenant_id p.id none (some at) >>= λ _. pure tt

  unfoldable pub failure_in_session : String → ℕ → engine.Workflow → Timestamp → Action (Unit {0})
  failure_in_session tenant_id instance_id w at = do
    p ← load_process_instance tenant_id instance_id
    transition_process_instance_to_error_for_service_task_failure true p w at

  -- Whether the failure was stored, and the committed database: a session that raises is rolled back.
  unfoldable pub persist_service_task_failure_state_in_independent_session :
      Option Database → String → ℕ → engine.Workflow → Timestamp → Bool × Option Database
  persist_service_task_failure_state_in_independent_session none tenant_id instance_id w at =
      (false, none)
  persist_service_task_failure_state_in_independent_session (some committed) tenant_id instance_id w
        at =
      let (outcome, left) = failure_in_session tenant_id instance_id w at committed in
      elim outcome [ err e ↦ (false, some committed) | ok _ ↦ (true, some left) ]

  -- The failure's own error is raised in each case.
  unfoldable pub on_service_task_failure :
      Option Database
      → Bool
      → ProcessInstance
      → engine.Workflow
      → Timestamp
      → Action engine.Workflow
  on_service_task_failure committed autonomous p w at =
      let stored =
        persist_service_task_failure_state_in_independent_session committed p.m8f_tenant_id p.id w
          at in
      if autonomous && stored.0 then raise Error.service_task_execution_error else (do
        transition_process_instance_to_error_for_service_task_failure false p w at
        raise Error.service_task_execution_error)

  unfoldable pub run_outcome :
      Option Database
      → Bool
      → ProcessInstance
      → Timestamp
      → Option Error
      → engine.Workflow
      → Action engine.Workflow
  run_outcome committed autonomous p at none w = pure w
  run_outcome committed autonomous p at (some Error.service_task_execution_error) w =
      on_service_task_failure committed autonomous p w at
  run_outcome committed autonomous p at (some e) w = raise e

  unfoldable pub run_workflow_with_service_task_failure_handling :
      Option Database
      → Bool
      → ProcessInstance
      → engine.Workflow
      → Timestamp
      → Action engine.Workflow
  run_workflow_with_service_task_failure_handling committed autonomous p w at =
      let (raised, after) = engine.run_all w in run_outcome committed autonomous p at raised after
