-- ===== src/SchedulerRuntime/TimerStart/Cycles.antt =====
-- How often a recurring timer start fires, and when.
use m8flow_bpmn_core.Base.{
  ℕ, zero, suc, ◌+◌, ◌*◌, none, some, List, [], ◌∷◌, ◌≡◌, refl, ◌∙◌, arith, String_Eq,
}
use m8flow_bpmn_core.Model.Json.{Fields, number, moment, object, end, field, get, put}
use m8flow_bpmn_core.Model.Json.Lookup.{get-put, get-put_other}
use m8flow_bpmn_core.Model.Process.{Timestamp}
use m8flow_bpmn_core.Session.{ok}
use m8flow_bpmn_core.SchedulerRuntime.TimerStart.{
  second, next_due, positive_duration, remaining_cycles, run_at_in_seconds, following_payload,
  next_is_text, next_recurring, next_timer_start_task_payload_after_fire, payload_run_at,
  with_cycles,
}

-- A timer that is due at a time, recurs after so many seconds, and has so many cycles left.
pub record IsTimer (due duration cycles : ℕ) (payload : Fields) : Type 0 where
  pub event_value : Fields
  pub holds_event : get "event_value" payload ≡ some (object event_value)
  pub holds_next : get "next" event_value ≡ some (moment due)
  pub holds_duration : get "duration" event_value ≡ some (number (suc duration))
  pub holds_cycles : get "cycles" event_value ≡ some (number cycles)

-- The times at which a timer fires again: each run writes the payload of the next one, until
-- nothing is left.
pub data Fires : Fields → List Timestamp → Type 0 where
  last :
      {payload : Fields}
      → next_timer_start_task_payload_after_fire payload ≡ ok none
      → Fires payload []
  again :
      {payload following : Fields} {at : Timestamp} {later : List Timestamp}
      → next_timer_start_task_payload_after_fire payload ≡ ok (some following)
      → payload_run_at following ≡ ok at
      → Fires following later
      → Fires payload (at ∷ later)

-- The dates that follow one another, each rounded up to a whole second.
abbrev pub dates : ℕ → ℕ → ℕ → List Timestamp
dates due duration zero = []
dates due duration (suc n) =
    run_at_in_seconds (due + suc duration * second) * second
    ∷ dates (due + suc duration * second) duration n

module _ (due duration n : ℕ) (payload : Fields)
    (timer : IsTimer due duration (suc (suc n)) payload) where
  abbrev following : Fields
  following = following_payload payload due (suc duration) (some (suc n))

  abbrev next_due_at : Timestamp
  next_due_at = due + suc duration * second

  abbrev next_event : Fields
  next_event =
      with_cycles (some (suc n))
        (field "next" (moment next_due_at) (field "duration" (number (suc duration)) end))

  following-next : next_timer_start_task_payload_after_fire payload ≡ ok (some following)
  unfolding next_timer_start_task_payload_after_fire next_recurring next_is_text positive_duration
      remaining_cycles next_due
  following-next =
      ground (arith, timer.holds_event, timer.holds_next, timer.holds_duration, timer.holds_cycles)

  following-run_at :
      payload_run_at following ≡ ok (run_at_in_seconds (due + suc duration * second) * second)
  unfolding payload_run_at following_payload
  following-run_at = ground (
    arith,
    get-put "run_at_in_seconds" (number (run_at_in_seconds next_due_at))
        (put "event_value" (object next_event) payload),
  )

  following-IsTimer : IsTimer (due + suc duration * second) duration (suc n) following
  unfolding following_payload get put
  following-IsTimer = record {
    event_value = next_event;
    holds_event =
        get-put_other "event_value" "run_at_in_seconds" (number (run_at_in_seconds next_due_at))
          (put "event_value" (object next_event) payload) refl
        ∙ get-put "event_value" (object next_event) payload;
    holds_next = refl;
    holds_duration = refl;
    holds_cycles = refl;
  }

last-next :
    (due duration : ℕ) (payload : Fields)
    → IsTimer due duration 1 payload
    → next_timer_start_task_payload_after_fire payload ≡ ok none
unfolding next_timer_start_task_payload_after_fire next_recurring next_is_text positive_duration
    remaining_cycles next_due
last-next due duration payload timer =
    ground (arith, timer.holds_event, timer.holds_next, timer.holds_duration, timer.holds_cycles)

-- A recurring timer with n + 1 cycles left fires n times after the run that is due, each time one
-- duration after the last date, at the next whole second; then it ends.
pub timer_start-Fires :
    (due duration n : ℕ) (payload : Fields)
    → IsTimer due duration (suc n) payload
    → Fires payload (dates due duration n)
timer_start-Fires due duration zero payload timer = last (last-next due duration payload timer)
timer_start-Fires due duration (suc n) payload timer =
    again (following-next due duration n payload timer)
      (following-run_at due duration n payload timer)
      (timer_start-Fires (due + suc duration * second) duration n
        (following due duration n payload timer) (following-IsTimer due duration n payload timer))
