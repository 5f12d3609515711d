-- ===== src/WorkflowRuntime/TimerJobs/DueTimes.antt =====
-- When a waiting timer is due, and the second that its payload holds.
use Prim.Native.Nat.{◌*◌}
use m8flow_bpmn_core.Base.{
  ℕ, ◌+◌, ◌<◌, ◌≤◌, ◌⊎◌, some, ◌≡◌, inl, inr, subst, arith, Option-cases, Bool-cases,
}
use m8flow_bpmn_core.Base.Text.{is_blank}
use m8flow_bpmn_core.Model.Json.{Value, Fields, get, moment, object, text}
use m8flow_bpmn_core.Model.Process.{Timestamp}
use m8flow_bpmn_core.Session.{ok}
use m8flow_bpmn_core.WorkflowRuntime.Engine.{EngineTask}
use m8flow_bpmn_core.WorkflowRuntime.TimerJobs.{
  TimerPayload, timer_payload, ceil_seconds, waiting_timer_event_value,
  timer_event_run_at_in_seconds, moment_in_seconds, next_in_seconds,
}

-- The time at which a waiting timer fires, by the engine's data: a date, or the next date of a timer
-- that recurs.
abbrev pub IsDueAt : EngineTask → Timestamp → Type 0
IsDueAt task due =
    (fs : Fields) × (task.internal_data ≡ some fs)
    × ((get "event_value" fs ≡ some (moment due))
        ⊎ ((os : Fields) × (get "event_value" fs ≡ some (object os))
            × (get "next" os ≡ some (moment due))))

-- The second of a payload is the first one at which its task is due.
abbrev pub IsTimed : EngineTask → ℕ → Type 0
IsTimed task second =
    (due : Timestamp) × IsDueAt task due
    × (due ≤ second * 1000000)
    × (second * 1000000 < due + 1000000)

ceil_seconds-first :
    (t : Timestamp) → (t ≤ ceil_seconds t * 1000000) × (ceil_seconds t * 1000000 < t + 1000000)
unfolding ceil_seconds
ceil_seconds-first t = (omega arith, omega arith)

next-IsTimed :
    (task : EngineTask) (fs os : Fields) (v : Value) (q : TimerPayload)
    → task.internal_data ≡ some fs
    → get "event_value" fs ≡ some (object os)
    → get "next" os ≡ some v
    → timer_payload task ≡ ok q
    → IsTimed task q.run_at_in_seconds
unfolding timer_payload waiting_timer_event_value timer_event_run_at_in_seconds next_in_seconds
next-IsTimed task fs os (moment d) q e f g h =
    let same : ceil_seconds d ≡ q.run_at_in_seconds = ground (arith, e, f, g, h) in
    subst (IsTimed task) same
      (d, (fs, e, inr (os, f, g)), (ceil_seconds-first d).0, (ceil_seconds-first d).1)
next-IsTimed task fs os (text s) q e f g h = elim (Bool-cases (is_blank s)) [
  | inl b ↦ absurd (ground (arith, e, f, g, h, b))
  | inr b ↦ absurd (ground (arith, e, f, g, h, b))
]
next-IsTimed task fs os _ q e f g h = absurd (ground (arith, e, f, g, h))

value-IsTimed :
    (task : EngineTask) (fs : Fields) (v : Value) (q : TimerPayload)
    → task.internal_data ≡ some fs
    → get "event_value" fs ≡ some v
    → timer_payload task ≡ ok q
    → IsTimed task q.run_at_in_seconds
unfolding timer_payload waiting_timer_event_value timer_event_run_at_in_seconds moment_in_seconds
    next_in_seconds
value-IsTimed task fs (moment d) q e f h =
    let same : ceil_seconds d ≡ q.run_at_in_seconds = ground (arith, e, f, h) in
    subst (IsTimed task) same
      (d, (fs, e, inl f), (ceil_seconds-first d).0, (ceil_seconds-first d).1)
value-IsTimed task fs (object os) q e f h = elim (Option-cases (get "next" os)) [
  | inl g ↦ absurd (ground (arith, e, f, g, h))
  | inr (v, g) ↦ next-IsTimed task fs os v q e f g h
]
value-IsTimed task fs _ q e f h = absurd (ground (arith, e, f, h))

pub timer_payload-IsTimed :
    (task : EngineTask) (q : TimerPayload)
    → timer_payload task ≡ ok q
    → IsTimed task q.run_at_in_seconds
unfolding timer_payload waiting_timer_event_value
timer_payload-IsTimed task q h = elim (Option-cases task.internal_data) [
  | inl e ↦ absurd (ground (arith, e, h))
  | inr (fs, e) ↦ elim (Option-cases (get "event_value" fs)) [
    | inl f ↦ absurd (ground (arith, e, f, h))
    | inr (v, f) ↦ value-IsTimed task fs v q e f h
  ]
]
