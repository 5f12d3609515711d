-- ===== src/Tests/Workflow.antt =====
-- Runs of a small workflow engine: a workflow is the number of its manual tasks that are done.
use m8flow_bpmn_core.Base.{
  ℕ, zero, suc, String, Bool, true, false, Option, none, some, List, [], ◌∷◌, map, ◌≡◌, ◌↔◌, refl,
  arith,
}
use m8flow_bpmn_core.Errors.{Error}
use m8flow_bpmn_core.Model.Json.{null, number, text, moment, end, field}
use m8flow_bpmn_core.Model.Status.{ProcessInstanceStatus, TaskState}
use m8flow_bpmn_core.Model.Process.{ProcessInstance}
use m8flow_bpmn_core.Model.Scheduler.{SchedulerJobType}
use m8flow_bpmn_core.Model.Task.{WorkItem}
use m8flow_bpmn_core.Model.Database.{Database}
use m8flow_bpmn_core.Session.{Result, ok, err, pure}
use m8flow_bpmn_core.Authorization.Policy.{database_policy}
use m8flow_bpmn_core.LaneAssignment.{LaneTexts}
use m8flow_bpmn_core.Tasks.{claim_write, complete_task}
use m8flow_bpmn_core.WorkflowRuntime.StoredWorkflows.{stored_workflows}
use m8flow_bpmn_core.SchedulerJobs.{build_scheduler_job_key}
use m8flow_bpmn_core.SchedulerJobs.Store.{job_at}
use m8flow_bpmn_core.WorkflowRuntime.Engine.{Engine, EngineTask}
use m8flow_bpmn_core.WorkflowRuntime.WorkItemRows.{sync_inactive_work_items}
use m8flow_bpmn_core.WorkflowRuntime.WorkItemRows.Steps.{Has, Items, settled}
use m8flow_bpmn_core.WorkflowRuntime.WorkItemRows.Inactive.{sync_inactive_work_items-settles}
use m8flow_bpmn_core.WorkflowRuntime.TimerJobs.{
  TimerPayload, timer_payloads_of, sync_intermediate_timer_scheduler_job,
}
use m8flow_bpmn_core.WorkflowRuntime.TimerJobs.Earliest.{
  intermediate_timers, IsTimerJob, sync_intermediate_timer-IsTimerJob,
}
use m8flow_bpmn_core.WorkflowRuntime.Run.{run_workflow_with_service_task_failure_handling}
use m8flow_bpmn_core.WorkflowRuntime.Run.Failure.{run_workflow_iff}
use m8flow_bpmn_core.Tests.Samples.{sample, item_row, instance_row}
use m8flow_bpmn_core.Tests.Evaluated.{evaluated}

abbrev instance : ProcessInstance
instance = instance_row 1 ProcessInstanceStatus.user_input_required

abbrev task_at : String → Bool → EngineTask
task_at id is_timer = record {
  id = id;
  spec_name = some "step";
  spec_type = "UserTask";
  parent_name = none;
  is_top_level = true;
  lane = null;
  data_value = null;
  spec_payload = null;
  payload = null;
  is_timer = is_timer;
  event_definition_type = "TimeDateEventDefinition";
  internal_data = some (field "event_value" (moment 1500000) end);
}

-- The workflow 0 cannot go on: its service task raises.
abbrev raises : ℕ → Option Error
raises zero = some Error.service_task_execution_error
raises (suc n) = none

abbrev counting_engine : Engine
counting_engine = record {
  Workflow = ℕ;
  restore = λ s. 1;
  serialize = λ n. "1";
  to_dict = λ n. end;
  run_all = λ n. (raises n, n);
  refresh_waiting_tasks = λ n. n;
  is_completed = λ n. false;
  ready_manual = λ n. task_at "g1" false ∷ [];
  ready = λ n. [];
  waiting = λ n. [];
  errors = λ n. [];
  complete_task = λ guid data_fields n. ok n;
  set_event_value = λ guid v n. n;
  reset_from_task_id = λ guid data_fields n. n;
  workflow_data = λ n. end;
  update_workflow_data = λ fs n. n;
  update_tree_data = λ fs n. n;
  state_of = λ n. TaskState.ready;
  state_name = λ s. "READY";
}

run_workflow_iff_example :
    (run_workflow_with_service_task_failure_handling counting_engine
        (some sample)
        true
        instance
        1
        5
        sample
      ≡ (ok 1, sample))
    ↔ (((counting_engine.run_all 1).0 ≡ none)
        × ((counting_engine.run_all 1).1 ≡ 1)
        × (sample ≡ sample))
run_workflow_iff_example =
    run_workflow_iff counting_engine (some sample) true instance 5 1 1 sample sample

-- The run of the workflow 0 raises the task's error, also where the failure is stored.
failure_raised :
    (run_workflow_with_service_task_failure_handling counting_engine
      (some sample)
      true
      instance
      0
      5
      sample).0
    ≡ err Error.service_task_execution_error
unfolding evaluated
failure_raised = refl

sample-Has : Has instance sample
unfolding evaluated
sample-Has = (instance, refl)

-- The workflow has no manual task ready, so that the open item of the instance is closed.
sync_inactive_work_items-settles_example :
    Items
      (sync_inactive_work_items instance [] 5)
      sample
      (map (settled instance sample [] 5) sample.work_items.rows)
sync_inactive_work_items-settles_example =
    sync_inactive_work_items-settles instance sample [] 5 sample-Has (
      (λ e. omega (arith, e), (λ e. omega (arith, e), tt)),
      ((λ e. omega (arith, e), tt), (tt, tt)),
    )

abbrev timers : List EngineTask
timers = task_at "g1" true ∷ []

abbrev payload : TimerPayload
payload = record {
  task_guid = "g1";
  task_spec_name = some "step";
  event_value = moment 1500000;
  run_at_in_seconds = 2;
  fields = field "task_guid" (text "g1") (
      field "task_spec_name" (text "step") (
        field "task_spec_type" (text "UserTask") (
          field "event_definition_type" (text "TimeDateEventDefinition")
            (field "event_value" (moment 1500000) (field "run_at_in_seconds" (number 2) end)))));
}

timers_read : timer_payloads_of (intermediate_timers timers) ≡ ok (payload ∷ [])
unfolding evaluated
timers_read = refl

sync_intermediate_timer-IsTimerJob_example :
    (key : String) × (build_scheduler_job_key SchedulerJobType.intermediate_timer
        (some instance.id)
        none
        none
      ≡ ok key)
    × ((sync_intermediate_timer_scheduler_job instance timers 5 sample).0 ≡ ok tt)
    × IsTimerJob (intermediate_timers timers) (
        job_at
          (sync_intermediate_timer_scheduler_job instance timers 5 sample).1
          instance.m8f_tenant_id
          key)
sync_intermediate_timer-IsTimerJob_example =
    sync_intermediate_timer-IsTimerJob instance timers 5 (payload ∷ []) sample timers_read

-- A user completes the claimed item, over the workflows that are stored.
abbrev claimed : Database
claimed = (claim_write "acme" (item_row 1 1 "g1") 1 sample).1

abbrev completed_item : Result WorkItem → Option Bool
completed_item outcome = elim outcome [ err e ↦ none | ok item ↦ some item.completed ]

abbrev no_texts : LaneTexts
no_texts = record { lower = λ s. s; lower_trim = λ s. s; hexdigest = λ s. s }

item_completed :
    completed_item
      (complete_task
        (stored_workflows counting_engine no_texts (λ s. none) none (λ t d u name at. pure tt))
        database_policy
        "acme"
        1
        1
        (some 7)
        []
        claimed).0
    ≡ some true
unfolding evaluated
item_completed = refl
