-- ===== src/Model/Event.antt =====
-- The event types and their categories: models/process_instance_event.py.
use m8flow_bpmn_core.Base.{String, Option, List, [], ◌∷◌, ◌==◌, String_Eq, find}

pub data ProcessInstanceEventCategory : Type 0 where
  process task : ProcessInstanceEventCategory

pub data ProcessLifecycleEventType : Type 0 where
  process_instance_created process_instance_suspended process_instance_resumed
        process_instance_error process_instance_retried process_instance_completed
        process_instance_terminated :
      ProcessLifecycleEventType

pub data TaskEventType : Type 0 where
  task_completed task_failed task_cancelled : TaskEventType

pub data EventType : Type 0 where
  lifecycle : ProcessLifecycleEventType → EventType
  task_event : TaskEventType → EventType

-- `_CATEGORY_BY_EVENT_TYPE`, as `validate_event_type` reads it.
unfoldable pub event_category_for_type : EventType → ProcessInstanceEventCategory
event_category_for_type (EventType.lifecycle _) = ProcessInstanceEventCategory.process
event_category_for_type (EventType.task_event _) = ProcessInstanceEventCategory.task

unfoldable pub event_type_value : EventType → String
event_type_value (EventType.lifecycle ProcessLifecycleEventType.process_instance_created) =
    "process_instance_created"
event_type_value (EventType.lifecycle ProcessLifecycleEventType.process_instance_suspended) =
    "process_instance_suspended"
event_type_value (EventType.lifecycle ProcessLifecycleEventType.process_instance_resumed) =
    "process_instance_resumed"
event_type_value (EventType.lifecycle ProcessLifecycleEventType.process_instance_error) =
    "process_instance_error"
event_type_value (EventType.lifecycle ProcessLifecycleEventType.process_instance_retried) =
    "process_instance_retried"
event_type_value (EventType.lifecycle ProcessLifecycleEventType.process_instance_completed) =
    "process_instance_completed"
event_type_value (EventType.lifecycle ProcessLifecycleEventType.process_instance_terminated) =
    "process_instance_terminated"
event_type_value (EventType.task_event TaskEventType.task_completed) = "task_completed"
event_type_value (EventType.task_event TaskEventType.task_failed) = "task_failed"
event_type_value (EventType.task_event TaskEventType.task_cancelled) = "task_cancelled"

-- The members, in the order of `_CATEGORY_BY_EVENT_TYPE`.
abbrev pub all_event_types : List EventType
all_event_types =
    EventType.lifecycle ProcessLifecycleEventType.process_instance_created
    ∷ EventType.lifecycle ProcessLifecycleEventType.process_instance_suspended
    ∷ EventType.lifecycle ProcessLifecycleEventType.process_instance_resumed
    ∷ EventType.lifecycle ProcessLifecycleEventType.process_instance_error
    ∷ EventType.lifecycle ProcessLifecycleEventType.process_instance_retried
    ∷ EventType.lifecycle ProcessLifecycleEventType.process_instance_completed
    ∷ EventType.lifecycle ProcessLifecycleEventType.process_instance_terminated
    ∷ EventType.task_event TaskEventType.task_completed
    ∷ EventType.task_event TaskEventType.task_failed
    ∷ EventType.task_event TaskEventType.task_cancelled
    ∷ []

-- The member with this text, which the lookup in `_CATEGORY_BY_EVENT_TYPE` finds or not.
unfoldable pub event_type_of : String → Option EventType
event_type_of value = find (λ t. event_type_value t == value) all_event_types
