-- ===== src/Model/Task.antt =====
-- Tasks and the work items over them: models/task.py, models/task_definition.py,
-- models/future_task.py, models/work_item.py, models/work_item_user.py.
use m8flow_bpmn_core.Base.{ℕ, String, Option, Bool}
use m8flow_bpmn_core.Model.Json.{Fields}
use m8flow_bpmn_core.Model.Status.{TaskState, WorkItemState}
use m8flow_bpmn_core.Model.Process.{Timestamp}

pub record TaskDefinition : Type 0 where
  pub id : ℕ
  pub m8f_tenant_id : String
  pub bpmn_process_definition_id : ℕ
  pub bpmn_identifier : String
  pub bpmn_name : Option String
  pub typename : String
  pub properties_json : Fields

pub record Task : Type 0 where
  pub guid : String
  pub m8f_tenant_id : String
  pub process_instance_id : ℕ
  pub task_definition_id : ℕ
  pub state : TaskState
  pub properties_json : Fields
  pub runtime_info : Option Fields
  pub started_at : Option Timestamp
  pub ended_at : Option Timestamp

pub record FutureTask : Type 0 where
  pub guid : String
  pub m8f_tenant_id : String
  pub run_at : Timestamp
  pub completed : Bool
  pub archived_for_process_instance_status : Bool
  pub updated_at : Timestamp

pub record WorkItem : Type 0 where
  pub id : ℕ
  pub m8f_tenant_id : String
  pub process_instance_id : ℕ
  pub task_guid : Option String
  pub lane_assignment_id : Option ℕ
  pub completed_by_user_id : Option ℕ
  pub actual_owner_id : Option ℕ
  pub task_status : WorkItemState
  pub completed : Bool
  pub updated_at : Option Timestamp
  pub created_at : Option Timestamp

pub data WorkItemUserAddedBy : Type 0 where
  process_initiator lane_owner lane_assignment : WorkItemUserAddedBy

pub record WorkItemUser : Type 0 where
  pub m8f_tenant_id : String
  pub work_item_id : ℕ
  pub user_id : ℕ
  pub added_by : Option WorkItemUserAddedBy
