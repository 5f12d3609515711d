-- ===== src/Model/Scheduler.antt =====
-- Scheduler jobs: models/scheduler_job.py.
use m8flow_bpmn_core.Base.{ℕ, String, Option}
use m8flow_bpmn_core.Model.Json.{Fields}
use m8flow_bpmn_core.Model.Process.{Timestamp}

pub data SchedulerJobType : Type 0 where
  intermediate_timer process_retry timer_start : SchedulerJobType

unfoldable pub job_type_value : SchedulerJobType → String
job_type_value SchedulerJobType.intermediate_timer = "intermediate_timer"
job_type_value SchedulerJobType.process_retry = "process_retry"
job_type_value SchedulerJobType.timer_start = "timer_start"

pub record SchedulerJob : Type 0 where
  pub id : ℕ
  pub m8f_tenant_id : String
  pub job_key : String
  pub job_type : SchedulerJobType
  pub process_instance_id : Option ℕ
  pub bpmn_process_definition_id : Option ℕ
  pub locked_by : Option String
  pub locked_at : Option Timestamp
  pub run_at : Timestamp
  pub payload_json : Fields
  pub updated_at : Timestamp
  pub created_at : Timestamp
