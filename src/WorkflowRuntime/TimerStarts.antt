-- ===== src/WorkflowRuntime/TimerStarts.antt =====
-- Starting a workflow at its timer: `_force_waiting_timer_start_task_due` and what it calls in
-- src/m8flow_core/services/workflow_runtime.py.
use m8flow_bpmn_core.Base.{
  String, Bool, true, false, not, ◌&&◌, ◌||◌, Option, none, some, List, ◌==◌, Nat_Eq, String_Eq,
  Option_Eq, if◌then◌else◌, any, find,
}
use m8flow_bpmn_core.Errors.{Error}
use m8flow_bpmn_core.Model.Json.{Value, text, moment, object, get, put}
use m8flow_bpmn_core.Model.Process.{ProcessInstance}
use m8flow_bpmn_core.Model.Status.{WorkItemState}
use m8flow_bpmn_core.Model.Task.{WorkItem}
use m8flow_bpmn_core.Session.{Action, Result, ok, err, select}
use m8flow_bpmn_core.Tables.{work_items}
use m8flow_bpmn_core.WorkflowRuntime.Engine.{Engine, EngineTask}
use m8flow_bpmn_core.WorkflowRuntime.Status.{is_empty}

-- "1970-01-01T00:00:00+00:00"
abbrev pub forced_due_value : Value
forced_due_value = moment 0

-- A text, which is a date or no date, or a mapping.
unfoldable pub forced_due_timer_event_value : Option Value → Result Value
forced_due_timer_event_value (some (text s)) = ok forced_due_value
forced_due_timer_event_value (some (moment t)) = ok forced_due_value
forced_due_timer_event_value (some (object fs)) = ok (object (put "next" forced_due_value fs))
forced_due_timer_event_value _ = err Error.validation_error

unfoldable pub is_start_spec : EngineTask → Bool
is_start_spec t = t.spec_type == "StartEvent"

-- The tests of the loop over the waiting tasks.
unfoldable pub is_timer_start_named : String → EngineTask → Bool
is_timer_start_named name t = is_start_spec t && (t.is_timer && t.spec_name == some name)

unfoldable pub is_ready_status : WorkItemState → Bool
is_ready_status WorkItemState.ready = true
is_ready_status _ = false

unfoldable pub get_ready_work_items : ProcessInstance → Action (List WorkItem)
get_ready_work_items p =
    select work_items
      (λ w. w.process_instance_id == p.id && (not w.completed && is_ready_status w.task_status))

module _ (engine : Engine) where
  unfoldable pub workflow_has_progressed_past_timer_start : engine.Workflow → Bool
  workflow_has_progressed_past_timer_start w =
      engine.is_completed w
      || (not (is_empty (engine.ready w)) || any (λ t. not (is_start_spec t)) (engine.waiting w))

  -- The task's event value is set in the workflow.
  unfoldable pub force_task_due : EngineTask → engine.Workflow → Result (Bool × engine.Workflow)
  force_task_due task w = elim task.internal_data [
    | none ↦ err Error.validation_error
    | some fs ↦ elim (forced_due_timer_event_value (get "event_value" fs)) [
      | err e ↦ err e
      | ok v ↦ ok (true, engine.set_event_value task.id v w)
    ]
  ]

  unfoldable pub force_waiting_timer_start_task_due :
      engine.Workflow → String → Result (Bool × engine.Workflow)
  force_waiting_timer_start_task_due w name =
      if workflow_has_progressed_past_timer_start w
      then ok (false, w)
      else elim (find (is_timer_start_named name) (engine.waiting w)) [
        | none ↦ err Error.validation_error
        | some task ↦ force_task_due task w
      ]
