-- ===== src/WorkItems.antt =====
-- The claim state of work items: src/m8flow_core/services/work_items.py, and the properties of
-- `WorkItemModel` (src/m8flow_core/models/work_item.py) that read the task behind an item.
use m8flow_bpmn_core.Base.{
  ℕ, String, Bool, true, false, Option, none, some, ◌==◌, String_Eq, Nat_Eq, Option_Eq, find,
}
use m8flow_bpmn_core.Model.Json.{Value, Fields, null, get, as_text}
use m8flow_bpmn_core.Model.Status.{WorkItemState}
use m8flow_bpmn_core.Model.Process.{Timestamp}
use m8flow_bpmn_core.Model.Task.{TaskDefinition, Task, WorkItem}
use m8flow_bpmn_core.Model.Database.{Database}

unfoldable pub state_value : WorkItemState → String
state_value WorkItemState.ready = "READY"
state_value WorkItemState.claimed = "CLAIMED"
state_value WorkItemState.completed = "COMPLETED"
state_value WorkItemState.terminated = "TERMINATED"
state_value WorkItemState.cancelled = "CANCELLED"
state_value WorkItemState.error = "ERROR"

unfoldable pub claim_work_item : ℕ → Timestamp → WorkItem → WorkItem
claim_work_item user_id at item = record item {
  actual_owner_id = some user_id;
  task_status = WorkItemState.claimed;
  updated_at = some at;
}

unfoldable pub complete_work_item : ℕ → Timestamp → WorkItem → WorkItem
complete_work_item user_id at item = record item {
  completed = true;
  completed_by_user_id = some user_id;
  actual_owner_id = some user_id;
  task_status = WorkItemState.completed;
  updated_at = some at;
}

-- `if user_id is not None: item.actual_owner_id = user_id`
abbrev pub owner_or : Option ℕ → Option ℕ → Option ℕ
owner_or none owner = owner
owner_or (some user_id) _ = some user_id

unfoldable pub close_work_item : WorkItemState → Timestamp → Option ℕ → WorkItem → WorkItem
close_work_item state at user_id item = record item {
  completed = true;
  completed_by_user_id = user_id;
  task_status = state;
  updated_at = some at;
  actual_owner_id = owner_or user_id item.actual_owner_id;
}

unfoldable pub reopen_work_item : Timestamp → WorkItem → WorkItem
reopen_work_item at item = record item {
  completed = false;
  completed_by_user_id = none;
  actual_owner_id = none;
  task_status = WorkItemState.ready;
  updated_at = some at;
}

-- The same assignments in another order.
unfoldable pub prepare_work_item_for_ready_state : Timestamp → WorkItem → WorkItem
prepare_work_item_for_ready_state at item = record item {
  task_status = WorkItemState.ready;
  completed = false;
  completed_by_user_id = none;
  actual_owner_id = none;
  updated_at = some at;
}

-- The relationship `work_item.task_model`.
unfoldable pub task_model : Database → WorkItem → Option Task
task_model db item = elim item.task_guid [
  | none ↦ none
  | some guid ↦ find (λ t. t.guid == guid) db.tasks.rows
]

abbrev text_field : String → Fields → Option String
text_field key fields = elim (get key fields) [ none ↦ none | some v ↦ as_text v ]

abbrev name_or : Option String → String → Option String
name_or none identifier = some identifier
name_or (some name) _ = some name

unfoldable pub definition_task_name : Option TaskDefinition → Option String
definition_task_name none = none
definition_task_name (some d) =
    name_or (text_field "__m8f_task_identifier" d.properties_json) d.bpmn_identifier

-- `work_item.task_name`
unfoldable pub task_name : Database → WorkItem → Option String
task_name db item = elim (task_model db item) [
  | none ↦ none
  | some t ↦
      definition_task_name (find (λ d. d.id == t.task_definition_id) db.task_definitions.rows)
]

-- `value is None`, of `properties.get("lane")`.
abbrev no_value : Option Value → Bool
no_value none = true
no_value (some null) = true
no_value (some _) = false

abbrev runtime_lane : Option Fields → Option String
runtime_lane none = none
runtime_lane (some info) = text_field "lane" info

unfoldable pub task_lane : Task → Option String
task_lane t = elim (no_value (get "lane" t.properties_json)) [
  | true ↦ runtime_lane t.runtime_info
  | false ↦ text_field "lane" t.properties_json
]

-- `work_item.lane_name`
unfoldable pub lane_name : Database → WorkItem → Option String
lane_name db item = elim (task_model db item) [ none ↦ none | some t ↦ task_lane t ]
