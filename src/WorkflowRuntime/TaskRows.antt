-- ===== src/WorkflowRuntime/TaskRows.antt =====
-- Rows of task definitions, tasks, future tasks and work items, written from what the serializer says
-- of a workflow: the `_upsert_…` functions of src/m8flow_core/services/workflow_runtime.py. The
-- content hashes of a task's data, which no service reads, are left out.
use Prim.Native.String.{◌++◌ as append}
use m8flow_bpmn_core.Base.{
  ℕ, String, Bool, true, false, ◌&&◌, Option, none, some, ◌==◌, Nat_Eq, String_Eq, Option_Eq,
  if◌then◌else◌,
}
use m8flow_bpmn_core.Base.Text.{is_blank}
use m8flow_bpmn_core.Errors.{Error}
use m8flow_bpmn_core.Model.Json.{
  Value, Fields, null, boolean, number, text, object, end, field, get, put, drop_key, as_text,
}
use m8flow_bpmn_core.Model.Status.{TaskState, WorkItemState}
use m8flow_bpmn_core.Model.Process.{Timestamp, ProcessInstance}
use m8flow_bpmn_core.Model.Task.{TaskDefinition, Task, FutureTask, WorkItem}
use m8flow_bpmn_core.Session.{
  Action, Result, ok, err, pure, raise, lift, or_raise, ◌>>=◌, ◌>>◌, add, add_keyed, update, first,
}
use m8flow_bpmn_core.Tables.{task_definitions, tasks, future_tasks, work_items, process_instances}
use m8flow_bpmn_core.WorkItems.{prepare_work_item_for_ready_state}
use m8flow_bpmn_core.WorkflowRuntime.Engine.{Engine, EngineTask}

-- `f"{prefix}::{identifier}"`, if there is a prefix.
unfoldable pub prefixed : Option String → String → String
prefixed none identifier = identifier
prefixed (some prefix) identifier = append prefix (append "::" identifier)

-- `isinstance(value, str) and value`
unfoldable pub text_given : Option Value → Option String
text_given (some (text s)) = if is_blank s then none else some s
text_given _ = none

unfoldable pub text_of_option : Option Value → Option String
text_of_option none = none
text_of_option (some v) = as_text v

-- `payload.setdefault(key, value)`
unfoldable pub set_default : String → Value → Fields → Fields
set_default key v fs = elim (get key fs) [ none ↦ put key v fs | some _ ↦ fs ]

unfoldable pub is_definition : String → ℕ → String → TaskDefinition → Bool
is_definition tenant_id definition_id identifier d =
    d.m8f_tenant_id == tenant_id
    && (d.bpmn_process_definition_id == definition_id && d.bpmn_identifier == identifier)

unfoldable pub upsert_task_definition_from_payload :
    String → ℕ → String → Fields → Action TaskDefinition
upsert_task_definition_from_payload tenant_id definition_id identifier payload = do
  existing ← first task_definitions (is_definition tenant_id definition_id identifier)
  let serialized = set_default "__m8f_task_identifier" (text identifier) payload
  typename ← or_raise Error.validation_error (text_given (get "typename" serialized))
  let name = text_of_option (get "bpmn_name" serialized)
  elim existing [
    | none ↦ add task_definitions λ id. record {
      id = id;
      m8f_tenant_id = tenant_id;
      bpmn_process_definition_id = definition_id;
      bpmn_identifier = identifier;
      bpmn_name = name;
      typename = typename;
      properties_json = serialized;
    }
    | some d ↦ do
      let changed = λ (x : TaskDefinition). record x {
        bpmn_name = name;
        typename = typename;
        properties_json = serialized;
      }
      update task_definitions (λ x. x.id == d.id) changed
      pure (changed d)
  ]

-- `isinstance(payload, Mapping)`, or else the error.
unfoldable pub mapping_or_error : Value → Result Fields
mapping_or_error (object fs) = ok fs
mapping_or_error _ = err Error.validation_error

-- `isinstance(value, str) and value`, of the task's name in its specification.
unfoldable pub name_given : Option String → Option String
name_given none = none
name_given (some s) = if is_blank s then none else some s

unfoldable pub upsert_task_definition : String → ℕ → EngineTask → Action TaskDefinition
upsert_task_definition tenant_id definition_id task = do
  payload ← lift (mapping_or_error task.spec_payload)
  source ← or_raise Error.validation_error (name_given task.spec_name)
  upsert_task_definition_from_payload tenant_id definition_id (prefixed task.parent_name source)
      (put "__m8f_task_identifier" (text source) payload)

unfoldable pub state_number : Option Value → Result ℕ
state_number (some (number n)) = ok n
state_number _ = err Error.validation_error

unfoldable pub is_terminal_state : TaskState → Bool
is_terminal_state TaskState.completed = true
is_terminal_state TaskState.cancelled = true
is_terminal_state TaskState.error = true
is_terminal_state _ = false

unfoldable pub value_or : Value → Option Value → Value
value_or d none = d
value_or d (some v) = v

unfoldable pub runtime_info_of : String → String → TaskDefinition → Fields
runtime_info_of guid state_name d = field "spiff_task_id" (text guid) (
    field "spiff_task_state" (text state_name) (
      field "manual" (value_or (boolean false) (get "manual" d.properties_json))
        (field "lane" (value_or null (get "lane" d.properties_json)) end)))

abbrev or_now : Option Timestamp → Timestamp → Option Timestamp
or_now none at = some at
or_now (some t) at = some t

module _ (engine : Engine) where
  -- A payload with no key and a state that is no number is refused.
  unfoldable pub upsert_task_model_from_payload :
      ProcessInstance → TaskDefinition → Fields → Timestamp → Action Task
  upsert_task_model_from_payload p definition payload at = do
    guid ← or_raise Error.validation_error (text_given (get "id" payload))
    existing ← first tasks (λ t. t.guid == guid)
    n ← lift (state_number (get "state" payload))
    let state = engine.state_of n
    let ended_at = if is_terminal_state state then some at else none
    let properties = drop_key "data" payload
    let info = some (runtime_info_of guid (engine.state_name state) definition)
    elim existing [
      | none ↦ elim p.bpmn_process_id [
        | none ↦ raise Error.validation_error
        | some _ ↦ add_keyed tasks (record {
          guid = guid;
          m8f_tenant_id = p.m8f_tenant_id;
          process_instance_id = p.id;
          task_definition_id = definition.id;
          state = state;
          properties_json = properties;
          runtime_info = info;
          started_at = some at;
          ended_at = ended_at;
        })
      ]
      | some task ↦ do
        let changed = λ (t : Task). record t {
          process_instance_id = p.id;
          task_definition_id = definition.id;
          state = state;
          properties_json = properties;
          runtime_info = info;
          started_at = or_now t.started_at at;
          ended_at = ended_at;
        }
        update tasks (λ t. t.guid == guid) changed
        pure (changed task)
    ]

  unfoldable pub upsert_task_model :
      ProcessInstance → TaskDefinition → EngineTask → Timestamp → Action Task
  upsert_task_model p definition task at = do
    payload ← lift (mapping_or_error task.payload)
    upsert_task_model_from_payload p definition payload at

unfoldable pub is_item_of_instance : String → ℕ → String → WorkItem → Bool
is_item_of_instance tenant_id instance_id guid w =
    w.m8f_tenant_id == tenant_id
    && (w.process_instance_id == instance_id && w.task_guid == some guid)

-- `process_instance.task_updated_at = occurred_at`, at the end.
unfoldable pub touch_task_time : ℕ → Timestamp → Action (Unit {0})
touch_task_time instance_id at =
    update process_instances (λ p. p.id == instance_id)
      (λ p. record p { task_updated_at = some at })

unfoldable pub upsert_work_item : ProcessInstance → Task → Timestamp → Action WorkItem
upsert_work_item p task at = do
  existing ← first work_items (is_item_of_instance p.m8f_tenant_id p.id task.guid)
  item ← elim existing [
    | none ↦ add work_items λ id. record {
      id = id;
      m8f_tenant_id = p.m8f_tenant_id;
      process_instance_id = p.id;
      task_guid = some task.guid;
      lane_assignment_id = none;
      completed_by_user_id = none;
      actual_owner_id = none;
      task_status = WorkItemState.ready;
      completed = false;
      updated_at = some at;
      created_at = some at;
    }
    | some found ↦ do
      let prepared = λ (w : WorkItem).
          prepare_work_item_for_ready_state at (record w { task_guid = some task.guid })
      update work_items (λ w. w.id == found.id) prepared
      pure (prepared found)
  ]
  touch_task_time p.id at
  pure item

unfoldable pub upsert_future_task : String → String → Timestamp → Action FutureTask
upsert_future_task tenant_id guid at = do
  existing ← first future_tasks (λ f. f.guid == guid)
  elim existing [
    | none ↦ add_keyed future_tasks (record {
      guid = guid;
      m8f_tenant_id = tenant_id;
      run_at = at;
      completed = false;
      archived_for_process_instance_status = false;
      updated_at = at;
    })
    | some found ↦ do
      let again = λ (f : FutureTask). record f {
        run_at = at;
        completed = false;
        archived_for_process_instance_status = false;
        updated_at = at;
      }
      update future_tasks (λ f. f.guid == guid) again
      pure (again found)
  ]
