-- ===== src/WorkflowRuntime/Operations.antt =====
-- The operations on a stored workflow: `advance_process_instance_workflow`,
-- `retry_errored_service_task_workflow_if_needed`, `sync_open_work_item_potential_owners`,
-- `_refresh_waiting_process_instance_workflow` and `repair_process_instance_runtime_representation` of
-- src/m8flow_core/services/workflow_runtime.py.
use m8flow_bpmn_core.Base.{
  ℕ, String, Bool, true, false, not, ◌&&◌, ◌||◌, Option, none, some, List, [], ◌∷◌, ◌==◌, Nat_Eq,
  String_Eq, Option_Eq, if◌then◌else◌, find,
}
use m8flow_bpmn_core.Base.Text.{strip}
use m8flow_bpmn_core.Model.Json.{Value, Fields, null, boolean, text, end, field, put}
use m8flow_bpmn_core.Model.Status.{ProcessInstanceStatus}
use m8flow_bpmn_core.Model.Process.{Timestamp, ProcessInstance, ProcessInstanceMetadata}
use m8flow_bpmn_core.Model.Task.{WorkItem}
use m8flow_bpmn_core.Model.Database.{Database}
use m8flow_bpmn_core.Session.{Action, pure, lift, resolve_timestamp, ◌>>=◌, ◌>>◌, select, for_each}
use m8flow_bpmn_core.Tables.{work_items}
use m8flow_bpmn_core.LaneAssignment.{LaneTexts}
use m8flow_bpmn_core.LaneAssignment.Owners.{assign_work_item_potential_owners}
use m8flow_bpmn_core.ProcessInstances.{load_process_instance, get_process_instance_metadata}
use m8flow_bpmn_core.WorkflowRuntime.Engine.{Engine, EngineTask}
use m8flow_bpmn_core.WorkflowRuntime.WorkItemRows.{sync_inactive_work_items}
use m8flow_bpmn_core.WorkflowRuntime.Status.{update_process_instance_status_from_workflow}
use m8flow_bpmn_core.WorkflowRuntime.StateRows.{persist_workflow_state, definition_of}
use m8flow_bpmn_core.WorkflowRuntime.Manual.{properties_of, materialize_ready_manual_tasks}
use m8flow_bpmn_core.WorkflowRuntime.Run.{
  errored_service_tasks, run_workflow_with_service_task_failure_handling,
}

-- `has_terminal_status`
unfoldable pub has_terminal_status : ProcessInstanceStatus → Bool
has_terminal_status ProcessInstanceStatus.complete = true
has_terminal_status ProcessInstanceStatus.error = true
has_terminal_status ProcessInstanceStatus.terminated = true
has_terminal_status _ = false

unfoldable pub is_empty_data : Fields → Bool
is_empty_data end = true
is_empty_data (field key v rest) = false

-- `data.update(other)`
unfoldable pub update_fields : Fields → Fields → Fields
update_fields fs end = fs
update_fields fs (field key v rest) = update_fields (put key v fs) rest

-- An item of the loop over `open_work_items`: open, and of a task.
unfoldable pub is_synced_item : ℕ → WorkItem → Bool
is_synced_item instance_id w =
    w.process_instance_id == instance_id
    && (not w.completed && elim w.task_guid [ none ↦ false | some _ ↦ true ])

unfoldable pub task_with_guid : List EngineTask → Option String → Option EngineTask
task_with_guid tasks guid = find (λ t. guid == some t.id) tasks

-- `ast.literal_eval` gives a value, or raises on a text that is no literal.
module _ (engine : Engine) (texts : LaneTexts) (literal_eval : String → Option Value) where
  unfoldable pub coerce_metadata_value : String → Value
  coerce_metadata_value value =
      let normalized = strip value in
      let lower = texts.lower normalized in
      if lower == "true"
      then boolean true
      else if lower == "false"
      then boolean false
      else if lower == "none" || lower == "null"
      then null
      else elim (literal_eval normalized) [ none ↦ text value | some v ↦ v ]

  unfoldable pub metadata_payload : Fields → List ProcessInstanceMetadata → Fields
  metadata_payload payload [] = payload
  metadata_payload payload (m ∷ ms) =
      metadata_payload (put m.key (coerce_metadata_value m.value) payload) ms

  unfoldable pub load_process_instance_metadata_payload : String → ℕ → Action Fields
  load_process_instance_metadata_payload tenant_id instance_id = do
    rows ← get_process_instance_metadata tenant_id instance_id
    pure (metadata_payload end rows)

  unfoldable pub apply_metadata_to_workflow : Fields → engine.Workflow → engine.Workflow
  apply_metadata_to_workflow metadata w =
      if is_empty_data metadata
      then w
      else engine.update_tree_data metadata (engine.update_workflow_data metadata w)

  unfoldable pub workflow_data_of_task : Fields → engine.Workflow → engine.Workflow
  workflow_data_of_task metadata w =
      if is_empty_data metadata then w else engine.update_workflow_data metadata w

  -- The four calls after a run, in their order.
  unfoldable pub store_run : ProcessInstance → engine.Workflow → Timestamp → Action (Unit {0})
  store_run p w at = do
    persist_workflow_state engine p w at
    sync_inactive_work_items p (engine.ready_manual w) at
    materialize_ready_manual_tasks engine texts p w at >>= λ _. pure tt
    update_process_instance_status_from_workflow engine p.id w at

  unfoldable pub run_and_store :
      Option Database → Bool → ProcessInstance → engine.Workflow → Timestamp → Action (Unit {0})
  run_and_store committed autonomous p w at = do
    after ← run_workflow_with_service_task_failure_handling engine committed autonomous p w at
    store_run p after at

  unfoldable pub advance_stored :
      Option Database → ProcessInstance → String → Option Timestamp → String → Action (Unit {0})
  advance_stored committed p guid completed_at state = do
    at ← resolve_timestamp completed_at
    metadata ← load_process_instance_metadata_payload p.m8f_tenant_id p.id
    w ←
        lift (
          engine.complete_task guid metadata
            (workflow_data_of_task metadata (engine.restore state)))
    run_and_store committed false p w at

  -- On the instance that was loaded: without a workflow, or ended, it is left as it is.
  unfoldable pub on_live_workflow :
      ProcessInstance → (String → Action (Unit {0})) → Action (Unit {0})
  on_live_workflow p go = elim p.workflow_state_json [
    | none ↦ pure tt
    | some state ↦ if has_terminal_status p.status then pure tt else go state
  ]

  unfoldable pub advance_process_instance_workflow :
      Option Database → String → ℕ → String → Option Timestamp → Action ProcessInstance
  advance_process_instance_workflow committed tenant_id instance_id guid completed_at = do
    p ← load_process_instance tenant_id instance_id
    on_live_workflow p (advance_stored committed p guid completed_at)
    load_process_instance tenant_id instance_id

  unfoldable pub refresh_stored :
      Option Database → ProcessInstance → Option Timestamp → String → Action (Unit {0})
  refresh_stored committed p occurred_at state = do
    at ← resolve_timestamp occurred_at
    run_and_store committed true p (engine.refresh_waiting_tasks (engine.restore state)) at

  unfoldable pub refresh_waiting_process_instance_workflow :
      Option Database → String → ℕ → Option Timestamp → Action (Unit {0})
  refresh_waiting_process_instance_workflow committed tenant_id instance_id occurred_at = do
    p ← load_process_instance tenant_id instance_id
    on_live_workflow p (refresh_stored committed p occurred_at)

  unfoldable pub reset_tasks : List EngineTask → Fields → engine.Workflow → engine.Workflow
  reset_tasks [] data_fields w = w
  reset_tasks (t ∷ ts) data_fields w =
      reset_tasks ts data_fields (engine.reset_from_task_id t.id data_fields w)

  unfoldable pub retry_tasks :
      Option Database
      → ProcessInstance
      → Timestamp
      → Fields
      → engine.Workflow
      → List EngineTask
      → Action (Unit {0})
  retry_tasks committed p at metadata w [] = pure tt
  retry_tasks committed p at metadata w (t ∷ ts) =
      run_and_store committed true p
        (reset_tasks (t ∷ ts) (update_fields (engine.workflow_data w) metadata) w) at

  unfoldable pub retry_stored :
      Option Database → ProcessInstance → Option Timestamp → String → Action (Unit {0})
  retry_stored committed p occurred_at state = do
    at ← resolve_timestamp occurred_at
    metadata ← load_process_instance_metadata_payload p.m8f_tenant_id p.id
    let w = apply_metadata_to_workflow metadata (engine.restore state)
    retry_tasks committed p at metadata w (errored_service_tasks engine w)

  -- Whatever the status is: the caller has made the instance running.
  unfoldable pub retry_errored_service_task_workflow_if_needed :
      Option Database → String → ℕ → Option Timestamp → Action (Unit {0})
  retry_errored_service_task_workflow_if_needed committed tenant_id instance_id occurred_at = do
    p ← load_process_instance tenant_id instance_id
    elim p.workflow_state_json [
      | none ↦ pure tt
      | some state ↦ retry_stored committed p occurred_at state
    ]

  unfoldable pub sync_item_owners : ProcessInstance → List EngineTask → WorkItem → Action (Unit {0})
  sync_item_owners p ready item = elim (task_with_guid ready item.task_guid) [
    | none ↦ pure tt
    | some task ↦ do
      definition ← definition_of p
      assign_work_item_potential_owners texts p item.id task.lane task.data_value
          (properties_of definition)
  ]

  unfoldable pub sync_owners_stored : ProcessInstance → String → Action (Unit {0})
  sync_owners_stored p state = do
    items ← select work_items (is_synced_item p.id)
    for_each items (sync_item_owners p (engine.ready_manual (engine.restore state)))

  unfoldable pub sync_open_work_item_potential_owners : String → ℕ → Action (Unit {0})
  sync_open_work_item_potential_owners tenant_id instance_id = do
    p ← load_process_instance tenant_id instance_id
    elim p.workflow_state_json [ none ↦ pure tt | some state ↦ sync_owners_stored p state ]

  unfoldable pub repair_process_instance_runtime_representation :
      String → ℕ → Option Timestamp → Action ProcessInstance
  repair_process_instance_runtime_representation tenant_id instance_id occurred_at = do
    p ← load_process_instance tenant_id instance_id
    elim p.workflow_state_json [
      | none ↦ pure tt
      | some state ↦ resolve_timestamp occurred_at >>= λ at.
          persist_workflow_state engine p (engine.restore state) at
    ]
    load_process_instance tenant_id instance_id
