-- ===== src/WorkflowRuntime/Engine.antt =====
-- SpiffWorkflow as src/m8flow_core/services/workflow_runtime.py uses it: a workflow is a value, and a
-- call that mutates it returns the value that it becomes.
use m8flow_bpmn_core.Base.{ℕ, String, Bool, Option, List}
use m8flow_bpmn_core.Errors.{Error}
use m8flow_bpmn_core.Model.Json.{Value, Fields}
use m8flow_bpmn_core.Model.Status.{TaskState}
use m8flow_bpmn_core.Session.{Result}

-- A task of a workflow. `spec_payload` and `payload` are the serializer's `to_dict` of the task's
-- specification and of the task; `parent_name` is the name of the specification of the subprocess
-- that the task is in, if it is in one; `internal_data` is there if it is a mapping.
pub record EngineTask : Type 0 where
  pub id : String
  pub spec_name : Option String
  pub spec_type : String
  pub parent_name : Option String
  pub is_top_level : Bool
  pub lane : Value
  pub data_value : Value
  pub spec_payload : Value
  pub payload : Value
  pub is_timer : Bool
  pub event_definition_type : String
  pub internal_data : Option Fields

-- `restore` puts the connectors in place too. `run_all(halt_on_manual=True)` may raise, and leaves a
-- workflow then too. The functions after `is_completed` are `get_tasks` with a state: READY manual
-- ones, READY, WAITING and ERROR.
pub record Engine : Type 1 where
  pub Workflow : Type 0
  pub restore : String → Workflow
  pub serialize : Workflow → String
  pub to_dict : Workflow → Fields
  pub run_all : Workflow → Option Error × Workflow
  pub refresh_waiting_tasks : Workflow → Workflow
  pub is_completed : Workflow → Bool
  pub ready_manual : Workflow → List EngineTask
  pub ready : Workflow → List EngineTask
  pub waiting : Workflow → List EngineTask
  pub errors : Workflow → List EngineTask
  -- `get_task_from_id(…)`, `set_data(…)` where there is something to set, and `complete()`
  pub complete_task : String → Fields → Workflow → Result Workflow
  -- `internal_data["event_value"]` of a task, set
  pub set_event_value : String → Value → Workflow → Workflow
  pub reset_from_task_id : String → Fields → Workflow → Workflow
  -- `workflow.data`, its update, and the update of the task tree's data
  pub workflow_data : Workflow → Fields
  pub update_workflow_data : Fields → Workflow → Workflow
  pub update_tree_data : Fields → Workflow → Workflow
  -- `TaskState.get_name`, as the state and as its text
  pub state_of : ℕ → TaskState
  pub state_name : TaskState → String
