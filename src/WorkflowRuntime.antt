-- ===== src/WorkflowRuntime.antt =====
-- What the other services call of src/m8flow_core/services/workflow_runtime.py: an interface that they
-- take as a parameter. The modules below it model the file itself, over SpiffWorkflow as a parameter.
pub mod Engine
pub mod WorkItemRows
pub mod Status
pub mod TimerJobs
pub mod TaskRows
pub mod StateRows
pub mod Manual
pub mod Run
pub mod Operations
pub mod TimerStarts
pub mod StoredWorkflows
use m8flow_bpmn_core.Base.{ℕ, String}
use m8flow_bpmn_core.Model.Process.{Timestamp, ProcessInstance}
use m8flow_bpmn_core.Session.{Action}

pub record WorkflowRuntime : Type 0 where
  pub advance_process_instance_workflow : String → ℕ → String → Timestamp → Action ProcessInstance
  pub retry_errored_service_task_workflow_if_needed : String → ℕ → Timestamp → Action (Unit {0})
  pub sync_open_work_item_potential_owners : String → ℕ → Action (Unit {0})
  pub refresh_waiting_process_instance_workflow : String → ℕ → Timestamp → Action (Unit {0})
  pub initialize_from_timer_start_definition :
      String → ℕ → ℕ → String → Timestamp → Action (Unit {0})
