-- ===== src/Model/Process.antt =====
-- Process definitions, instances, their events and metadata: models/bpmn_process_definition.py,
-- models/process_instance.py, models/process_instance_event.py,
-- models/process_instance_metadata.py. A timestamp is a number of microseconds.
use m8flow_bpmn_core.Base.{ℕ, String, Option}
use m8flow_bpmn_core.Model.Json.{Fields}
use m8flow_bpmn_core.Model.Status.{ProcessInstanceStatus}
use m8flow_bpmn_core.Model.Event.{ProcessInstanceEventCategory, EventType}

abbrev pub Timestamp : Type 0
Timestamp = ℕ

pub record ProcessDefinition : Type 0 where
  pub id : ℕ
  pub m8f_tenant_id : String
  pub bpmn_identifier : String
  pub properties_json : Fields

-- `workflow_state_json` is the property of that name: the serialized workflow, if there is one.
pub record ProcessInstance : Type 0 where
  pub id : ℕ
  pub m8f_tenant_id : String
  pub process_model_identifier : String
  pub process_model_display_name : String
  pub summary : Option String
  pub process_initiator_id : ℕ
  pub bpmn_process_definition_id : Option ℕ
  pub bpmn_process_id : Option ℕ
  pub status : ProcessInstanceStatus
  pub started_at : Option Timestamp
  pub ended_at : Option Timestamp
  pub task_updated_at : Option Timestamp
  pub updated_at : Option Timestamp
  pub created_at : Option Timestamp
  pub workflow_state_json : Option String

pub record ProcessInstanceEvent : Type 0 where
  pub id : ℕ
  pub m8f_tenant_id : String
  pub process_instance_id : ℕ
  pub task_guid : Option String
  pub event_type : EventType
  pub category : ProcessInstanceEventCategory
  pub occurred_at : Timestamp
  pub user_id : Option ℕ

pub record ProcessInstanceMetadata : Type 0 where
  pub id : ℕ
  pub m8f_tenant_id : String
  pub process_instance_id : ℕ
  pub key : String
  pub value : String
  pub updated_at : Timestamp
  pub created_at : Timestamp
