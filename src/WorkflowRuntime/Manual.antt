-- ===== src/WorkflowRuntime/Manual.antt =====
-- Manual tasks that a run leaves ready: `_materialize_ready_manual_tasks` of
-- src/m8flow_core/services/workflow_runtime.py.
use m8flow_bpmn_core.Base.{Option, none, some, List, [], ◌∷◌, Nat_Eq, String_Eq, Option_Eq}
use m8flow_bpmn_core.Errors.{Error}
use m8flow_bpmn_core.Model.Json.{Fields}
use m8flow_bpmn_core.Model.Process.{Timestamp, ProcessInstance, ProcessDefinition}
use m8flow_bpmn_core.Model.Task.{WorkItem}
use m8flow_bpmn_core.Session.{Action, pure, gets, or_raise, ◌>>=◌, ◌>>◌}
use m8flow_bpmn_core.LaneAssignment.{LaneTexts}
use m8flow_bpmn_core.LaneAssignment.Owners.{assign_work_item_potential_owners}
use m8flow_bpmn_core.WorkflowRuntime.Engine.{Engine, EngineTask}
use m8flow_bpmn_core.WorkflowRuntime.WorkItemRows.{current_ready_manual_tasks}
use m8flow_bpmn_core.WorkflowRuntime.TaskRows.{
  upsert_task_definition, upsert_task_model, upsert_work_item, upsert_future_task,
}
use m8flow_bpmn_core.WorkflowRuntime.StateRows.{definition_of}

-- `definition.properties_json if definition is not None else None`
unfoldable pub properties_of : Option ProcessDefinition → Option Fields
properties_of none = none
properties_of (some d) = some d.properties_json

module _ (engine : Engine) (texts : LaneTexts) where
  unfoldable pub materialize_single_manual_task :
      ProcessInstance → EngineTask → Timestamp → Action WorkItem
  materialize_single_manual_task p task at = do
    or_raise Error.validation_error p.bpmn_process_id >>= λ _. pure tt
    definition_id ← or_raise Error.validation_error p.bpmn_process_definition_id
    task_definition ← upsert_task_definition p.m8f_tenant_id definition_id task
    row ← upsert_task_model engine p task_definition task at
    item ← upsert_work_item p row at
    definition ← definition_of p
    assign_work_item_potential_owners texts p item.id task.lane task.data_value
        (properties_of definition)
    upsert_future_task p.m8f_tenant_id task.id at >>= λ _. pure tt
    pure item

  unfoldable pub materialize_tasks :
      ProcessInstance → List EngineTask → Timestamp → Action (List WorkItem)
  materialize_tasks p [] at = pure []
  materialize_tasks p (task ∷ rest) at = do
    item ← materialize_single_manual_task p task at
    later ← materialize_tasks p rest at
    pure (item ∷ later)

  unfoldable pub materialize_ready_manual_tasks :
      ProcessInstance → engine.Workflow → Timestamp → Action (List WorkItem)
  materialize_ready_manual_tasks p w at = do
    ready ← gets (λ db. current_ready_manual_tasks db p.id (engine.ready_manual w))
    materialize_tasks p ready at
