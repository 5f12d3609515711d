-- ===== src/WorkflowRuntime/StoredWorkflows.antt =====
-- The operations on stored workflows as the interface that the other services take. The start of a
-- workflow from a timer is still a parameter.
use m8flow_bpmn_core.Base.{ℕ, String, Option, some}
use m8flow_bpmn_core.Model.Json.{Value}
use m8flow_bpmn_core.Model.Process.{Timestamp}
use m8flow_bpmn_core.Model.Database.{Database}
use m8flow_bpmn_core.Session.{Action}
use m8flow_bpmn_core.LaneAssignment.{LaneTexts}
use m8flow_bpmn_core.WorkflowRuntime.{WorkflowRuntime}
use m8flow_bpmn_core.WorkflowRuntime.Engine.{Engine}
use m8flow_bpmn_core.WorkflowRuntime.Operations.{
  advance_process_instance_workflow, retry_errored_service_task_workflow_if_needed,
  sync_open_work_item_potential_owners, refresh_waiting_process_instance_workflow,
}

abbrev pub stored_workflows :
    Engine
    → LaneTexts
    → (String → Option Value)
    → Option Database
    → (String → ℕ → ℕ → String → Timestamp → Action (Unit {0}))
    → WorkflowRuntime
stored_workflows engine texts literal_eval committed initialize = record {
  advance_process_instance_workflow = λ t i guid at.
      advance_process_instance_workflow engine texts literal_eval committed t i guid (some at);
  retry_errored_service_task_workflow_if_needed = λ t i at.
      retry_errored_service_task_workflow_if_needed engine texts literal_eval committed t i
        (some at);
  sync_open_work_item_potential_owners =
      λ t i. sync_open_work_item_potential_owners engine texts literal_eval t i;
  refresh_waiting_process_instance_workflow = λ t i at.
      refresh_waiting_process_instance_workflow engine texts literal_eval committed t i (some at);
  initialize_from_timer_start_definition = initialize;
}
