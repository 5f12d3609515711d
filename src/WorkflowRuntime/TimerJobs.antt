-- ===== src/WorkflowRuntime/TimerJobs.antt =====
-- Scheduler jobs of waiting timers: the `_collect_…_payloads` and `_sync_…_scheduler_job` functions of
-- src/m8flow_core/services/workflow_runtime.py. Times are microseconds.
pub mod Sorting
pub mod DueTimes
pub mod Earliest
use Prim.Native.Nat.{◌*◌, Ordering}
use Prim.Native.String.{compare}
use m8flow_bpmn_core.Base.{
  ℕ, ◌+◌, ◌/◌, String, Bool, true, false, not, ◌&&◌, ◌||◌, Option, none, some, List, [], ◌∷◌, ◌==◌,
  Nat_Eq, String_Eq, Option_Eq, if◌then◌else◌, ltb, leb, keep, any,
}
use m8flow_bpmn_core.Base.Text.{is_blank, strip}
use m8flow_bpmn_core.Errors.{Error}
use m8flow_bpmn_core.Model.Json.{
  Value, Fields, Items, null, number, text, moment, array, object, end, field, nil, cons, get, put,
}
use m8flow_bpmn_core.Model.Process.{Timestamp, ProcessInstance}
use m8flow_bpmn_core.Model.Scheduler.{SchedulerJobType, SchedulerJob}
use m8flow_bpmn_core.Session.{
  Action, Result, ok, err, pure, gets, lift, ◌>>=◌, ◌>>◌, delete, for_each,
}
use m8flow_bpmn_core.Tables.{scheduler_jobs}
use m8flow_bpmn_core.TenantUsers.{member}
use m8flow_bpmn_core.SchedulerJobs.{
  build_scheduler_job_key, upsert_scheduler_job, delete_scheduler_job,
}
use m8flow_bpmn_core.WorkflowRuntime.Engine.{Engine, EngineTask}

-- A timer's payload, with the fields that the services read: the rest is in `fields`.
pub record TimerPayload : Type 0 where
  pub task_guid : String
  pub task_spec_name : Option String
  pub event_value : Value
  pub run_at_in_seconds : ℕ
  pub fields : Fields

-- `math.ceil(due_at.timestamp())`
unfoldable pub ceil_seconds : Timestamp → ℕ
ceil_seconds t = (t + 999999) / 1000000

-- `_waiting_timer_event_value`: a text, which is a date or no date, or a mapping.
unfoldable pub waiting_timer_event_value : EngineTask → Result Value
waiting_timer_event_value task = elim task.internal_data [
  | none ↦ err Error.validation_error
  | some fs ↦ elim (get "event_value" fs) [
    | some (text s) ↦ ok (text s)
    | some (moment t) ↦ ok (moment t)
    | some (object v) ↦ ok (object v)
    | _ ↦ err Error.validation_error
  ]
]

-- `datetime.fromisoformat` raises on a text that is no date.
unfoldable pub moment_in_seconds : Value → Result ℕ
moment_in_seconds (moment t) = ok (ceil_seconds t)
moment_in_seconds (text s) = err Error.value_error
moment_in_seconds _ = err Error.validation_error

-- The member `next` of a recurring timer's value: a text that is not empty.
unfoldable pub next_in_seconds : Option Value → Result ℕ
next_in_seconds (some (moment t)) = ok (ceil_seconds t)
next_in_seconds (some (text s)) =
    if is_blank s then err Error.validation_error else err Error.value_error
next_in_seconds _ = err Error.validation_error

unfoldable pub timer_event_run_at_in_seconds : Value → Result ℕ
timer_event_run_at_in_seconds (object fs) = next_in_seconds (get "next" fs)
timer_event_run_at_in_seconds v = moment_in_seconds v

-- Which tasks count: those of the top level's start events only, or all others.
unfoldable pub is_start_event : EngineTask → Bool
is_start_event t = t.spec_type == "StartEvent" && t.is_top_level

unfoldable pub text_or_null : Option String → Value
text_or_null none = null
text_or_null (some s) = text s

unfoldable pub timer_payload : EngineTask → Result TimerPayload
timer_payload task = elim (waiting_timer_event_value task) [
  | err e ↦ err e
  | ok v ↦ elim (timer_event_run_at_in_seconds v) [
    | err e ↦ err e
    | ok seconds ↦ ok (record {
      task_guid = task.id;
      task_spec_name = task.spec_name;
      event_value = v;
      run_at_in_seconds = seconds;
      fields = field "task_guid" (text task.id) (
          field "task_spec_name" (text_or_null task.spec_name) (
            field "task_spec_type" (text task.spec_type) (
              field "event_definition_type" (text task.event_definition_type)
                (field "event_value" v (field "run_at_in_seconds" (number seconds) end)))));
    })
  ]
]

unfoldable pub timer_payloads_of : List EngineTask → Result (List TimerPayload)
timer_payloads_of [] = ok []
timer_payloads_of (t ∷ ts) = elim (timer_payload t) [
  | err e ↦ err e
  | ok payload ↦ elim (timer_payloads_of ts) [
    | err e ↦ err e
    | ok payloads ↦ ok (payload ∷ payloads)
  ]
]

-- `<` of two texts, by code points.
unfoldable pub text_before : String → String → Bool
text_before a b = elim (compare a b) [ Ordering.lt ↦ true | _ ↦ false ]

-- The sort key: the time, and the task's key among equal times.
unfoldable pub payload_before : TimerPayload → TimerPayload → Bool
payload_before a b =
    ltb a.run_at_in_seconds b.run_at_in_seconds
    || (a.run_at_in_seconds == b.run_at_in_seconds && text_before a.task_guid b.task_guid)

unfoldable pub insert_payload : TimerPayload → List TimerPayload → List TimerPayload
insert_payload x [] = x ∷ []
insert_payload x (y ∷ ys) =
    let later = insert_payload x ys in if payload_before y x then y ∷ later else x ∷ y ∷ ys

unfoldable pub sort_payloads : List TimerPayload → List TimerPayload
sort_payloads [] = []
sort_payloads (x ∷ xs) = insert_payload x (sort_payloads xs)

unfoldable pub collect_waiting_timer_payloads : Bool → List EngineTask → Result (List TimerPayload)
collect_waiting_timer_payloads start_events waiting =
    let wanted = λ (t : EngineTask).
      t.is_timer && (if start_events then is_start_event t else not (is_start_event t)) in
    elim (timer_payloads_of (keep wanted waiting)) [
      | err e ↦ err e
      | ok payloads ↦ ok (sort_payloads payloads)
    ]

-- `min(…)` of the times, of a list that is not empty.
unfoldable pub least_run_at : TimerPayload → List TimerPayload → ℕ
least_run_at p [] = p.run_at_in_seconds
least_run_at p (q ∷ qs) =
    let rest = least_run_at q qs in
    if leb p.run_at_in_seconds rest then p.run_at_in_seconds else rest

unfoldable pub payload_items : List TimerPayload → Items
payload_items [] = nil
payload_items (p ∷ ps) = cons (object p.fields) (payload_items ps)

unfoldable pub timer_tasks_payload : List TimerPayload → Fields
timer_tasks_payload payloads =
    field "scheduled_from" (text "workflow_runtime")
      (field "timer_tasks" (array (payload_items payloads)) end)

-- The job of an instance's timers, at the earliest of their times.
unfoldable pub intermediate_timer_job :
    ProcessInstance → String → Timestamp → List TimerPayload → Action (Unit {0})
intermediate_timer_job p job_key at [] =
    delete_scheduler_job p.m8f_tenant_id job_key >>= λ _. pure tt
intermediate_timer_job p job_key at (first_one ∷ rest) =
    upsert_scheduler_job p.m8f_tenant_id job_key SchedulerJobType.intermediate_timer
      (least_run_at first_one rest * 1000000) (some p.id) p.bpmn_process_definition_id
      (timer_tasks_payload (first_one ∷ rest)) (some at) (some at)
    >>= λ _. pure tt

unfoldable pub sync_intermediate_timer_scheduler_job :
    ProcessInstance → List EngineTask → Timestamp → Action (Unit {0})
sync_intermediate_timer_scheduler_job p waiting at = do
  job_key ← lift (build_scheduler_job_key SchedulerJobType.intermediate_timer (some p.id) none none)
  payloads ← lift (collect_waiting_timer_payloads false waiting)
  intermediate_timer_job p job_key at payloads

unfoldable pub timer_start_job : String → ℕ → Timestamp → TimerPayload → Action String
timer_start_job tenant_id definition_id at payload =
    let qualifier = elim payload.task_spec_name as (λ _. String) [ none ↦ "" | some s ↦ strip s ] in
    if is_blank qualifier then lift (err Error.validation_error) else (do
      job_key ← lift (
          build_scheduler_job_key SchedulerJobType.timer_start none (some definition_id)
            (some qualifier))
      upsert_scheduler_job tenant_id job_key SchedulerJobType.timer_start
          (payload.run_at_in_seconds * 1000000) none (some definition_id)
          (field "scheduled_from" (text "process_definition_import")
            (field "timer_task" (object payload.fields) end))
          (some at) (some at)
      pure job_key)

unfoldable pub timer_start_jobs : String → ℕ → Timestamp → List TimerPayload → Action (List String)
timer_start_jobs tenant_id definition_id at [] = pure []
timer_start_jobs tenant_id definition_id at (p ∷ ps) = do
  job_key ← timer_start_job tenant_id definition_id at p
  later ← timer_start_jobs tenant_id definition_id at ps
  pure (job_key ∷ later)

unfoldable pub is_timer_start : SchedulerJobType → Bool
is_timer_start SchedulerJobType.timer_start = true
is_timer_start _ = false

-- The jobs of the definition's timers, and no others: those that are not expected go.
unfoldable pub sync_timer_start_scheduler_jobs :
    String → ℕ → Timestamp → List TimerPayload → Action (Unit {0})
sync_timer_start_scheduler_jobs tenant_id definition_id at payloads = do
  expected ← timer_start_jobs tenant_id definition_id at payloads
  delete scheduler_jobs (λ j.
        j.m8f_tenant_id == tenant_id
        && (is_timer_start j.job_type
            && (j.bpmn_process_definition_id == some definition_id
                && not (member j.job_key expected))))
      >>= λ _. pure tt
