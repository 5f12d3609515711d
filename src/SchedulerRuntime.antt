-- ===== src/SchedulerRuntime.antt =====
-- The worker's pass over the due jobs: src/m8flow_core/services/scheduler_runtime.py.
pub mod TimerStart
pub mod Locks
pub mod Claims
pub mod Batch
use Prim.Native.String.{◌++◌ as append}
use m8flow_bpmn_core.Base.{
  ℕ, suc, String, Bool, true, false, ◌&&◌, ◌||◌, Option, none, some, List, [], ◌∷◌, ◌++◌, map, ◌==◌,
  Nat_Eq, String_Eq, if◌then◌else◌, find,
}
use m8flow_bpmn_core.Base.Text.{is_blank, strip}
use m8flow_bpmn_core.Errors.{Error, is_bpmn_core_error}
use m8flow_bpmn_core.Model.Json.{Fields, number, negative, text, object, end, field, get, as_text}
use m8flow_bpmn_core.Model.Status.{ProcessInstanceStatus}
use m8flow_bpmn_core.Model.Tenancy.{Tenant, User}
use m8flow_bpmn_core.Model.Process.{Timestamp, ProcessInstance, ProcessDefinition}
use m8flow_bpmn_core.Model.Scheduler.{SchedulerJobType, SchedulerJob}
use m8flow_bpmn_core.Session.{
  Action, Result, ok, err, pure, raise, gets, lift, or_raise, raise_if, resolve_timestamp, attempt,
  ◌>>=◌, ◌>>◌, add, update, first, for_each,
}
use m8flow_bpmn_core.Tables.{users, process_definitions, scheduler_jobs}
use m8flow_bpmn_core.Authorization.Commands.{role_admin}
use m8flow_bpmn_core.Authorization.Policy.{AuthorizationPolicy}
use m8flow_bpmn_core.Authorization.Grants.{ensure_v1_role}
use m8flow_bpmn_core.SchedulerJobs.{
  list_due_scheduler_jobs, delete_scheduler_job, upsert_scheduler_job,
}
use m8flow_bpmn_core.ProcessInstances.{load_process_instance}
use m8flow_bpmn_core.ProcessInstances.Reactivation.{retry_process_instance}
use m8flow_bpmn_core.WorkflowRuntime.{WorkflowRuntime}
use m8flow_bpmn_core.SchedulerRuntime.TimerStart.{
  scheduler_job_timer_task, scheduler_job_task_spec_name, next_timer_start_task_payload_after_fire,
  payload_run_at,
}

-- `_normalize_worker_id`
unfoldable pub normalize_worker_id : String → Result String
normalize_worker_id worker_id =
    let normalized = strip worker_id in
    if is_blank normalized then err Error.validation_error else ok normalized

unfoldable pub lock_job : String → Timestamp → SchedulerJob → SchedulerJob
lock_job worker_id at job = record job {
  locked_by = some worker_id;
  locked_at = some at;
  updated_at = at;
}

unfoldable pub claim_due_scheduler_jobs :
    Option Timestamp → ℕ → String → Option String → Action (List SchedulerJob)
claim_due_scheduler_jobs now limit worker_id tenant_id = do
  worker ← lift (normalize_worker_id worker_id)
  at ← resolve_timestamp now
  due ← list_due_scheduler_jobs (some at) limit tenant_id
  for_each due (λ job. update scheduler_jobs (λ j. j.id == job.id) (lock_job worker at))
  pure (map (lock_job worker at) due)

-- `_release_scheduler_job_lock`: nothing happens if the job is gone. Errors of the database, after
-- which its `session.get` would raise, are not modelled.
unfoldable pub release_scheduler_job_lock : SchedulerJob → Timestamp → Action (Unit {0})
release_scheduler_job_lock job at =
    update scheduler_jobs (λ j. j.id == job.id)
      (λ j. record j { locked_by = none; locked_at = none; updated_at = at })

unfoldable pub drop_job : SchedulerJob → Action (Unit {0})
drop_job job = delete_scheduler_job job.m8f_tenant_id job.job_key >>= λ _. pure tt

-- `type(actor_user_id) is not int`. A negative number is an `int` that is no user's key, which
-- the retry finds out first.
unfoldable pub scheduler_job_user_id : Fields → String → Result ℕ
scheduler_job_user_id payload key = elim (get key payload) [
  | some (number n) ↦ ok n
  | some (negative n) ↦ err Error.not_found_error
  | _ ↦ err Error.validation_error
]

-- The statuses in which an instance waits for a timer.
unfoldable pub awaits_timer : ProcessInstanceStatus → Bool
awaits_timer ProcessInstanceStatus.waiting = true
awaits_timer ProcessInstanceStatus.user_input_required = true
awaits_timer _ = false

unfoldable pub has_workflow : ProcessInstance → Bool
has_workflow p = elim p.workflow_state_json [ none ↦ false | some _ ↦ true ]

unfoldable pub is_errored : ProcessInstanceStatus → Bool
is_errored ProcessInstanceStatus.error = true
is_errored _ = false

-- `process_definition is None or process_definition.source_bpmn_xml is None`
unfoldable pub has_source : Option ProcessDefinition → Bool
has_source none = false
has_source (some d) = elim (get "__m8f_source_bpmn_xml" d.properties_json) [
  | some (text _) ↦ true
  | _ ↦ false
]

abbrev pub timer_start_system_name : String
timer_start_system_name = "__m8f_timer_start__"

-- The tenant by its key, or else by its slug.
unfoldable pub find_tenant : List Tenant → String → Option Tenant
find_tenant tenants tenant_id = elim (find (λ (t : Tenant). t.id == tenant_id) tenants) [
  | some t ↦ some t
  | none ↦ find (λ t. t.slug == tenant_id) tenants
]

-- `_ensure_timer_start_system_user`; the dates of a user are not modelled.
unfoldable pub ensure_timer_start_system_user : String → Action User
ensure_timer_start_system_user tenant_id = do
  tenant ← or_raise Error.not_found_error (← gets (λ db. find_tenant db.tenants tenant_id))
  let service_id = append timer_start_system_name (append ":" tenant.id)
  existing ← first users (λ u. u.service == tenant.id && u.service_id == service_id)
  user ← elim existing as (λ _. Action User) [
    | some u ↦ pure u
    | none ↦ add users λ id. record {
      id = id;
      username = timer_start_system_name;
      email = none;
      service = tenant.id;
      service_id = service_id;
      realm_identifier = none;
      external_org_id = none;
      external_user_id = none;
    }
  ]
  ensure_v1_role tenant.id role_admin (user.id ∷ []) >>= λ _. pure tt
  pure user

-- `_reschedule_or_delete_timer_start_job`
unfoldable pub reschedule_or_delete_timer_start_job :
    SchedulerJob → Fields → Timestamp → Action (Unit {0})
reschedule_or_delete_timer_start_job job timer_task at = do
  next ← lift (next_timer_start_task_payload_after_fire timer_task)
  elim next [
    | none ↦ drop_job job
    | some payload ↦ do
      run_at ← lift (payload_run_at payload)
      upsert_scheduler_job job.m8f_tenant_id job.job_key SchedulerJobType.timer_start run_at none
            job.bpmn_process_definition_id
            (field "scheduled_from" (text "timer_start_runtime")
              (field "timer_task" (object payload) end))
            (some at) none
          >>= λ _. pure tt
  ]

module _ (runtime : WorkflowRuntime) (policy : AuthorizationPolicy) where
  unfoldable pub execute_intermediate_timer_job : SchedulerJob → Timestamp → Action (Unit {0})
  execute_intermediate_timer_job job at = elim job.process_instance_id [
    | none ↦ drop_job job
    | some instance_id ↦ do
      p ← load_process_instance job.m8f_tenant_id instance_id
      if awaits_timer p.status && has_workflow p
          then runtime.refresh_waiting_process_instance_workflow job.m8f_tenant_id instance_id at
          else drop_job job
  ]

  unfoldable pub execute_process_retry_job : SchedulerJob → Timestamp → Action (Unit {0})
  execute_process_retry_job job at = elim job.process_instance_id [
    | none ↦ drop_job job
    | some instance_id ↦ do
      p ← load_process_instance job.m8f_tenant_id instance_id
      if is_errored p.status
          then (do
            user_id ← lift (scheduler_job_user_id job.payload_json "requested_by_user_id")
            retry_process_instance runtime policy job.m8f_tenant_id instance_id user_id (some at)
                >>= λ _. pure tt)
          else drop_job job
  ]

  unfoldable pub execute_timer_start_job : SchedulerJob → Timestamp → Action (Unit {0})
  execute_timer_start_job job at = elim job.bpmn_process_definition_id [
    | none ↦ drop_job job
    | some definition_id ↦ do
      definition ←
          first process_definitions
            (λ d. d.m8f_tenant_id == job.m8f_tenant_id && d.id == definition_id)
      if has_source definition
          then (do
            timer_task ← lift (scheduler_job_timer_task job.payload_json)
            user ← ensure_timer_start_system_user job.m8f_tenant_id
            name ← lift (scheduler_job_task_spec_name timer_task)
            runtime.initialize_from_timer_start_definition job.m8f_tenant_id definition_id user.id
                name at
            reschedule_or_delete_timer_start_job job timer_task at)
          else drop_job job
  ]

  -- `_execute_claimed_scheduler_job`; the model admits no other type of job.
  unfoldable pub execute_claimed_scheduler_job :
      SchedulerJobType → SchedulerJob → Timestamp → Action (Unit {0})
  execute_claimed_scheduler_job SchedulerJobType.intermediate_timer job at =
      execute_intermediate_timer_job job at
  execute_claimed_scheduler_job SchedulerJobType.process_retry job at =
      execute_process_retry_job job at
  execute_claimed_scheduler_job SchedulerJobType.timer_start job at = execute_timer_start_job job at

  -- An error that is none of the library's own is wrapped.
  abbrev pub batch_error : Error → Error
  batch_error e = if is_bpmn_core_error e then e else Error.bpmn_core_error

  -- The loop of `run_due_scheduler_jobs`: how many jobs were processed, and the errors.
  unfoldable pub run_claimed_jobs :
      List SchedulerJob → Timestamp → ℕ → List (String × Error) → Action (ℕ × List (String × Error))
  run_claimed_jobs [] at processed errors = pure (processed, errors)
  run_claimed_jobs (job ∷ jobs) at processed errors = do
    outcome ← attempt (execute_claimed_scheduler_job job.job_type job at)
    elim outcome [
      | ok _ ↦ run_claimed_jobs jobs at (suc processed) errors
      | err e ↦ do
        release_scheduler_job_lock job at
        run_claimed_jobs jobs at processed (errors ++ (job.job_key, batch_error e) ∷ [])
    ]

  unfoldable pub run_due_scheduler_jobs : Option Timestamp → ℕ → String → Option String → Action ℕ
  run_due_scheduler_jobs now limit worker_id tenant_id = do
    at ← resolve_timestamp now
    claimed ← claim_due_scheduler_jobs (some at) limit worker_id tenant_id
    (processed, errors) ← run_claimed_jobs claimed at 0 []
    elim errors [ [] ↦ pure processed | (_, e) ∷ [] ↦ raise e | _ ↦ raise Error.bpmn_core_error ]
