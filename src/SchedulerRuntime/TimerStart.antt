-- ===== src/SchedulerRuntime/TimerStart.antt =====
-- The payload of a timer start job and what it becomes after a run:
-- src/m8flow_core/services/scheduler_runtime.py. Numbers in a payload are whole.
pub mod Cycles
use m8flow_bpmn_core.Base.{
  ℕ, zero, suc, ◌+◌, ◌*◌, ◌/◌, String, Bool, true, false, Option, none, some, ◌==◌, if◌then◌else◌,
  ltb,
}
use m8flow_bpmn_core.Base.Text.{is_blank, strip}
use m8flow_bpmn_core.Errors.{Error}
use m8flow_bpmn_core.Model.Json.{
  Value, Fields, null, boolean, number, negative, text, moment, array, object, end, field, get, put,
}
use m8flow_bpmn_core.Model.Process.{Timestamp}
use m8flow_bpmn_core.Session.{Result, ok, err}

infixl 5 ◌>>=◌
abbrev ◌>>=◌ : {A B : Type 0} → Result A → (A → Result B) → Result B
ok a >>= f = f a
err e >>= f = err e

abbrev pub second : ℕ
second = 1_000_000

-- `_scheduler_job_timer_task`
unfoldable pub scheduler_job_timer_task : Fields → Result Fields
scheduler_job_timer_task payload = elim (get "timer_task" payload) [
  | some (object timer_task) ↦ ok timer_task
  | _ ↦ err Error.validation_error
]

-- `_scheduler_job_task_spec_name`. A text that is a date is not blank, and names no task.
unfoldable pub scheduler_job_task_spec_name : Fields → Result String
scheduler_job_task_spec_name timer_task = elim (get "task_spec_name" timer_task) [
  | some (text name) ↦ if is_blank (strip name) then err Error.validation_error else ok name
  | _ ↦ err Error.validation_error
]

-- `next`: a text that is not empty; `datetime.fromisoformat` refuses one that is no date.
unfoldable pub next_due : Fields → Result Timestamp
next_due event_value = elim (get "next" event_value) [
  | some (moment t) ↦ ok t
  | some (text s) ↦ if is_blank s then err Error.validation_error else err Error.value_error
  | _ ↦ err Error.validation_error
]

-- `duration`: a positive number of seconds. A Boolean is an `int`.
unfoldable pub positive_duration : Fields → Result ℕ
positive_duration event_value = elim (get "duration" event_value) [
  | some (number (suc n)) ↦ ok (suc n)
  | some (boolean true) ↦ ok 1
  | _ ↦ err Error.validation_error
]

-- `cycles`: without a value the timer repeats for ever; the inner `none` ends it.
unfoldable pub remaining_cycles : Fields → Result (Option (Option ℕ))
remaining_cycles event_value = elim (get "cycles" event_value) [
  | none ↦ ok (some none)
  | some null ↦ ok (some none)
  | some (number (suc (suc n))) ↦ ok (some (some (suc n)))
  | some (number (suc zero)) ↦ ok none
  | some (number zero) ↦ ok none
  | some (negative n) ↦ ok none
  | _ ↦ err Error.validation_error
]

abbrev pub with_cycles : Option ℕ → Fields → Fields
with_cycles none event_value = event_value
with_cycles (some n) event_value = put "cycles" (number n) event_value

-- `math.ceil(due_at.timestamp())`
unfoldable pub run_at_in_seconds : Timestamp → ℕ
run_at_in_seconds t = (t + 999_999) / second

unfoldable pub following_payload : Fields → Timestamp → ℕ → Option ℕ → Fields
following_payload timer_task due duration cycles =
    let following = due + duration * second in
    let event_value =
      with_cycles cycles
        (field "next" (moment following) (field "duration" (number duration) end)) in
    put "run_at_in_seconds" (number (run_at_in_seconds following))
      (put "event_value" (object event_value) timer_task)

-- The check of `next` reads its date only after the other fields are checked.
unfoldable pub next_is_text : Fields → Bool
next_is_text event_value = elim (get "next" event_value) [
  | some (moment t) ↦ true
  | some (text s) ↦ if is_blank s then false else true
  | _ ↦ false
]

unfoldable pub next_recurring : Fields → Fields → Result (Option Fields)
next_recurring timer_task event_value =
    if next_is_text event_value
    then (positive_duration event_value >>= λ duration.
        remaining_cycles event_value >>= λ remaining. elim remaining [
          | none ↦ ok none
          | some cycles ↦ next_due event_value >>= λ due.
              ok (some (following_payload timer_task due duration cycles))
        ])
    else err Error.validation_error

-- `_next_timer_start_task_payload_after_fire`: `none` where the timer does not fire again.
unfoldable pub next_timer_start_task_payload_after_fire : Fields → Result (Option Fields)
next_timer_start_task_payload_after_fire timer_task = elim (get "event_value" timer_task) [
  | some (text s) ↦ ok none
  | some (moment t) ↦ ok none
  | some (object event_value) ↦ next_recurring timer_task event_value
  | _ ↦ err Error.validation_error
]

-- `float(payload["run_at_in_seconds"])`, as a timestamp.
unfoldable pub payload_run_at : Fields → Result Timestamp
payload_run_at payload = elim (get "run_at_in_seconds" payload) [
  | some (number n) ↦ ok (n * second)
  | _ ↦ err Error.key_error
]
