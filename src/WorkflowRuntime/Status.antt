-- ===== src/WorkflowRuntime/Status.antt =====
-- What a run leaves in the instance: `_update_process_instance_status_from_workflow` and
-- `_archive_completed_workflow_runtime_state` of src/m8flow_core/services/workflow_runtime.py. The
-- times of the `bpmn_process` row, which no service reads, are left out.
use m8flow_bpmn_core.Base.{
  ℕ, Bool, true, false, none, some, List, [], ◌∷◌, map, ◌==◌, Nat_Eq, if◌then◌else◌, keep,
}
use m8flow_bpmn_core.Model.Status.{ProcessInstanceStatus}
use m8flow_bpmn_core.Model.Process.{Timestamp, ProcessInstance}
use m8flow_bpmn_core.Session.{Action, gets, ◌>>=◌, ◌>>◌, update}
use m8flow_bpmn_core.Tables.{process_instances, future_tasks}
use m8flow_bpmn_core.TenantUsers.{member}
use m8flow_bpmn_core.ProcessInstances.RuntimeState.{task_of, archive_future_task}
use m8flow_bpmn_core.WorkflowRuntime.Engine.{Engine, EngineTask}

unfoldable pub is_empty : List EngineTask → Bool
is_empty [] = true
is_empty (t ∷ ts) = false

unfoldable pub completed_fields : Timestamp → ProcessInstance → ProcessInstance
completed_fields at p = record p {
  status = ProcessInstanceStatus.complete;
  ended_at = some at;
  updated_at = some at;
}

unfoldable pub open_fields : ProcessInstanceStatus → Timestamp → ProcessInstance → ProcessInstance
open_fields status at p = record p {
  status = status;
  ended_at = none;
  updated_at = some at;
  task_updated_at = some at;
}

unfoldable pub archive_completed_workflow_runtime_state : ℕ → Timestamp → Action (Unit {0})
archive_completed_workflow_runtime_state instance_id at = do
  guids ← gets (λ db. map (λ t. t.guid) (keep (task_of instance_id) db.tasks.rows))
  update future_tasks (λ f. member f.guid guids) (archive_future_task at)

module _ (engine : Engine) where
  -- The status of a workflow that goes on.
  unfoldable pub open_status : engine.Workflow → ProcessInstanceStatus
  open_status w =
      if is_empty (engine.ready_manual w)
      then (if is_empty (engine.waiting w)
          then ProcessInstanceStatus.running
          else ProcessInstanceStatus.waiting)
      else ProcessInstanceStatus.user_input_required

  unfoldable pub update_process_instance_status_from_workflow :
      ℕ → engine.Workflow → Timestamp → Action (Unit {0})
  update_process_instance_status_from_workflow instance_id w at =
      if engine.is_completed w
      then (do
        update process_instances (λ p. p.id == instance_id) (completed_fields at)
        archive_completed_workflow_runtime_state instance_id at)
      else update process_instances (λ p. p.id == instance_id) (open_fields (open_status w) at)
