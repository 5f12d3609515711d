-- ===== src/WorkflowRuntime/StateRows.antt =====
-- The rows behind a stored workflow: `_persist_workflow_state`, `_persist_workflow_recovery_state` and
-- what they call in src/m8flow_core/services/workflow_runtime.py. The state is the instance's property
-- `workflow_state_json`; the rest of the `bpmn_process` row, which no service reads, is left out.
use m8flow_bpmn_core.Base.{
  ℕ, String, Bool, true, false, not, ◌&&◌, ◌||◌, Option, none, some, List, [], ◌∷◌, ◌++◌, ◌==◌,
  Nat_Eq, String_Eq, Option_Eq, if◌then◌else◌,
}
use m8flow_bpmn_core.Base.Text.{after_prefix}
use m8flow_bpmn_core.Errors.{Error}
use m8flow_bpmn_core.Model.Json.{
  Value, Fields, text, object, end, field, get, put, drop_key, as_object,
}
use m8flow_bpmn_core.Model.Process.{Timestamp, ProcessInstance, ProcessDefinition}
use m8flow_bpmn_core.Session.{
  Action, Result, ok, err, pure, raise, lift, or_raise, ◌>>=◌, ◌>>◌, update, first, for_each,
}
use m8flow_bpmn_core.Tables.{process_definitions, process_instances, task_definitions}
use m8flow_bpmn_core.WorkflowRuntime.Engine.{Engine}
use m8flow_bpmn_core.WorkflowRuntime.TaskRows.{
  prefixed, text_of_option, upsert_task_definition_from_payload, upsert_task_model_from_payload,
}
use m8flow_bpmn_core.WorkflowRuntime.TimerJobs.{sync_intermediate_timer_scheduler_job}

unfoldable pub mapping_at_key : String → Fields → Option Fields
mapping_at_key key fs = elim (get key fs) [ none ↦ none | some v ↦ as_object v ]

-- `key.startswith(prefix)`
unfoldable pub starts_with : String → String → Bool
starts_with prefix s = elim (after_prefix prefix s) [ none ↦ false | some _ ↦ true ]

unfoldable pub has_field : String → Fields → Bool
has_field key fs = elim (get key fs) [ none ↦ false | some _ ↦ true ]

-- The stored properties over those of the serialized specification: the library's own, and those
-- that the specification does not have.
unfoldable pub merge_properties : Fields → Fields → Fields
merge_properties merged end = merged
merge_properties merged (field key v rest) =
    merge_properties
      (if starts_with "__m8f_" key || not (has_field key merged) then put key v merged else merged)
      rest

abbrev pub model_identifier_key : String
model_identifier_key = "__m8f_process_model_identifier"

-- The setter of `process_model_identifier`, where there is no explicit one.
unfoldable pub with_model_identifier : String → Fields → Fields
with_model_identifier identifier properties =
    elim (text_of_option (get model_identifier_key properties)) [
      | none ↦ put model_identifier_key (text identifier) properties
      | some _ ↦ properties
    ]

unfoldable pub sync_task_specs : String → ℕ → Option String → Fields → Action (Unit {0})
sync_task_specs tenant_id definition_id prefix end = pure tt
sync_task_specs tenant_id definition_id prefix (field name v rest) =
    let one : Action (Unit {0}) = elim (as_object v) [
      | none ↦ pure tt
      | some payload ↦
          upsert_task_definition_from_payload tenant_id definition_id (prefixed prefix name)
            (put "__m8f_task_identifier" (text name) payload)
          >>= λ _. pure tt
    ] in
    one >>= λ _. sync_task_specs tenant_id definition_id prefix rest

unfoldable pub sync_serialized_task_specs : String → ℕ → Option String → Fields → Action (Unit {0})
sync_serialized_task_specs tenant_id definition_id prefix spec = do
  specs ← or_raise Error.validation_error (mapping_at_key "task_specs" spec)
  sync_task_specs tenant_id definition_id prefix specs

-- `for subprocess_name, subprocess_spec in subprocess_specs.items()`
unfoldable pub sync_subprocess_specs : String → ℕ → Fields → Action (Unit {0})
sync_subprocess_specs tenant_id definition_id end = pure tt
sync_subprocess_specs tenant_id definition_id (field name v rest) =
    let one : Action (Unit {0}) = elim (as_object v) [
      | none ↦ pure tt
      | some spec ↦ sync_serialized_task_specs tenant_id definition_id (some name) spec
    ] in
    one >>= λ _. sync_subprocess_specs tenant_id definition_id rest

unfoldable pub synced_definition : String → String → Fields → ProcessDefinition → ProcessDefinition
synced_definition model_identifier name spec d = record d {
  bpmn_identifier = name;
  properties_json =
      merge_properties (drop_key "task_specs" spec)
        (with_model_identifier model_identifier d.properties_json);
}

abbrev subprocess_fields : Option Fields → Fields
subprocess_fields none = end
subprocess_fields (some fs) = fs

unfoldable pub sync_definition_row :
    ProcessInstance → ProcessDefinition → Fields → Action (Unit {0})
sync_definition_row p d workflow = do
  spec ← or_raise Error.validation_error (mapping_at_key "spec" workflow)
  name ← or_raise Error.validation_error (text_of_option (get "name" spec))
  update process_definitions (λ x. x.id == d.id)
      (synced_definition p.process_model_identifier name spec)
  sync_serialized_task_specs p.m8f_tenant_id d.id none spec
  sync_subprocess_specs p.m8f_tenant_id d.id
      (subprocess_fields (mapping_at_key "subprocess_specs" workflow))

-- The relationship `process_instance.bpmn_process_definition`.
unfoldable pub definition_of : ProcessInstance → Action (Option ProcessDefinition)
definition_of p = elim p.bpmn_process_definition_id [
  | none ↦ pure none
  | some id ↦ first process_definitions (λ d. d.id == id)
]

unfoldable pub sync_process_definition_from_workflow : ProcessInstance → Fields → Action (Unit {0})
sync_process_definition_from_workflow p workflow = do
  found ← definition_of p
  elim found [ none ↦ pure tt | some d ↦ sync_definition_row p d workflow ]

-- A serialized task: the identifier of its definition, and its payload.
abbrev pub TaskRow : Type 0
TaskRow = String × Fields

-- A task whose payload is no mapping is passed over; one without a specification is refused.
unfoldable pub own_task_rows : Option String → Fields → Result (List TaskRow)
own_task_rows prefix end = ok []
own_task_rows prefix (field guid v rest) =
    let later = own_task_rows prefix rest in
    elim (as_object v) [
      | none ↦ later
      | some payload ↦ elim (text_of_option (get "task_spec" payload)) [
        | none ↦ err Error.validation_error
        | some name ↦ elim later [
          | err e ↦ err e
          | ok rows ↦ ok ((prefixed prefix name, payload) ∷ rows)
        ]
      ]
    ]

unfoldable pub append_rows : Result (List TaskRow) → Result (List TaskRow) → Result (List TaskRow)
append_rows (err e) later = err e
append_rows (ok rows) (err e) = err e
append_rows (ok rows) (ok more) = ok (rows ++ more)

-- The rows of one workflow, from its `tasks`.
unfoldable pub rows_of_tasks : Option String → Fields → Result (List TaskRow)
rows_of_tasks prefix workflow = elim (mapping_at_key "tasks" workflow) [
  | none ↦ ok []
  | some fs ↦ own_task_rows prefix fs
]

-- The recursion into `subprocesses`: first its own tasks, then those of its subprocesses, each under
-- the name of its specification.
unfoldable mutual
  pub rows_in_subprocesses : Fields → Result (List TaskRow)
  rows_in_subprocesses end = ok []
  rows_in_subprocesses (field key v rest) =
      let here = rows_of_value v in
      let later = rows_in_subprocesses rest in if key == "subprocesses" then here else later

  pub rows_of_value : Value → Result (List TaskRow)
  rows_of_value (object subprocesses) = rows_of_each subprocesses
  rows_of_value _ = ok []

  pub rows_of_each : Fields → Result (List TaskRow)
  rows_of_each end = ok []
  rows_of_each (field name v rest) = append_rows (rows_of_subprocess v) (rows_of_each rest)

  pub rows_of_subprocess : Value → Result (List TaskRow)
  rows_of_subprocess (object subprocess) =
      let nested = rows_in_subprocesses subprocess in
      elim (text_of_option (get "spec" subprocess)) [
        | none ↦ err Error.validation_error
        | some name ↦ append_rows (rows_of_tasks (some name) subprocess) nested
      ]
  rows_of_subprocess _ = ok []

unfoldable pub iter_serialized_task_rows : Fields → Result (List TaskRow)
iter_serialized_task_rows workflow =
    append_rows (rows_of_tasks none workflow) (rows_in_subprocesses workflow)

module _ (engine : Engine) where
  -- Two rows of one identifier would leave the last in the dictionary; the unique key of the table
  -- allows one.
  unfoldable pub sync_task_row : ProcessInstance → ℕ → Timestamp → TaskRow → Action (Unit {0})
  sync_task_row p definition_id at (identifier, payload) = do
    found ← first task_definitions (λ d.
        d.m8f_tenant_id == p.m8f_tenant_id
        && (d.bpmn_process_definition_id == definition_id && d.bpmn_identifier == identifier))
    definition ← or_raise Error.validation_error found
    upsert_task_model_from_payload engine p definition payload at >>= λ _. pure tt

  unfoldable pub sync_task_rows : ProcessInstance → ℕ → Timestamp → List TaskRow → Action (Unit {0})
  sync_task_rows p definition_id at [] = raise Error.validation_error
  sync_task_rows p definition_id at (row ∷ rows) =
      for_each (row ∷ rows) (sync_task_row p definition_id at)

  unfoldable pub sync_task_models_from_workflow :
      ProcessInstance → Fields → Timestamp → Action (Unit {0})
  sync_task_models_from_workflow p workflow at = do
    definition_id ← or_raise Error.validation_error p.bpmn_process_definition_id
    rows ← lift (iter_serialized_task_rows workflow)
    sync_task_rows p definition_id at rows

  -- An instance without a `bpmn_process` row has nowhere to put the state.
  unfoldable pub sync_bpmn_process_from_workflow : ProcessInstance → String → Action (Unit {0})
  sync_bpmn_process_from_workflow p state = elim p.bpmn_process_id [
    | none ↦ pure tt
    | some _ ↦
        update process_instances (λ x. x.id == p.id)
          (λ x. record x { workflow_state_json = some state })
  ]

  unfoldable pub persist_workflow_state :
      ProcessInstance → engine.Workflow → Timestamp → Action (Unit {0})
  persist_workflow_state p w at = do
    sync_process_definition_from_workflow p (engine.to_dict w)
    sync_bpmn_process_from_workflow p (engine.serialize w)
    sync_task_models_from_workflow p (engine.to_dict w) at
    sync_intermediate_timer_scheduler_job p (engine.waiting w) at

  unfoldable pub persist_workflow_recovery_state :
      ProcessInstance → engine.Workflow → Action (Unit {0})
  persist_workflow_recovery_state p w = sync_bpmn_process_from_workflow p (engine.serialize w)
