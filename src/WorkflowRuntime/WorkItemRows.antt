-- ===== src/WorkflowRuntime/WorkItemRows.antt =====
-- Work items of a workflow's manual tasks: `_sync_inactive_work_items` and what it calls in
-- src/m8flow_core/services/workflow_runtime.py.
pub mod Steps
pub mod Inactive
use m8flow_bpmn_core.Base.{
  ℕ, String, Bool, true, false, not, ◌&&◌, Option, none, some, List, [], ◌∷◌, map, ◌==◌, Nat_Eq,
  String_Eq, Option_Eq, if◌then◌else◌, find, keep,
}
use m8flow_bpmn_core.Model.Status.{TaskState, WorkItemState}
use m8flow_bpmn_core.Model.Event.{EventType, TaskEventType}
use m8flow_bpmn_core.Model.Process.{Timestamp, ProcessInstance}
use m8flow_bpmn_core.Model.Task.{Task, FutureTask, WorkItem}
use m8flow_bpmn_core.Model.Database.{Database}
use m8flow_bpmn_core.Session.{Action, ok, pure, gets, ◌>>=◌, ◌>>◌, update, select, for_each}
use m8flow_bpmn_core.Tables.{work_items, future_tasks}
use m8flow_bpmn_core.TenantUsers.{member}
use m8flow_bpmn_core.WorkItems.{task_model, close_work_item}
use m8flow_bpmn_core.ProcessInstances.{record_process_instance_event}
use m8flow_bpmn_core.WorkflowRuntime.Engine.{EngineTask}

-- `session.get(TaskModel, guid)`
unfoldable pub get_task : Database → String → Option Task
get_task db guid = find (λ t. t.guid == guid) db.tasks.rows

unfoldable pub is_ready : TaskState → Bool
is_ready TaskState.ready = true
is_ready _ = false

-- The tests of `_current_ready_manual_tasks`: the row is there, of the instance, and ready.
unfoldable pub has_ready_row : Database → ℕ → EngineTask → Bool
has_ready_row db instance_id task = elim (get_task db task.id) [
  | none ↦ false
  | some t ↦ t.process_instance_id == instance_id && is_ready t.state
]

unfoldable pub current_ready_manual_tasks : Database → ℕ → List EngineTask → List EngineTask
current_ready_manual_tasks db instance_id = keep (has_ready_row db instance_id)

unfoldable pub inactive_work_item_status : Option TaskState → WorkItemState
inactive_work_item_status (some TaskState.cancelled) = WorkItemState.cancelled
inactive_work_item_status (some TaskState.completed) = WorkItemState.completed
inactive_work_item_status (some TaskState.error) = WorkItemState.error
inactive_work_item_status _ = WorkItemState.terminated

unfoldable pub inactive_work_item_event_type : Option TaskState → Option TaskEventType
inactive_work_item_event_type (some TaskState.cancelled) = some TaskEventType.task_cancelled
inactive_work_item_event_type (some TaskState.error) = some TaskEventType.task_failed
inactive_work_item_event_type _ = none

unfoldable pub complete_future_task : Timestamp → FutureTask → FutureTask
complete_future_task at f = record f { completed = true; updated_at = at }

-- `if event_type is not None: record_process_instance_event(…)`
unfoldable pub record_event_if :
    Option TaskEventType → ProcessInstance → Option String → Timestamp → Action (Unit {0})
record_event_if none p guid at = pure tt
record_event_if (some kind) p guid at =
    record_process_instance_event p.m8f_tenant_id p.id (ok (EventType.task_event kind)) (some at)
      guid none
    >>= λ _. pure tt

-- The future task behind the item, if there are both.
unfoldable pub close_future_task : Option Task → Timestamp → Action (Unit {0})
close_future_task none at = pure tt
close_future_task (some t) at =
    update future_tasks (λ f. f.guid == t.guid) (complete_future_task at)

-- The item as it is in the loop: nothing closes it in between, so its own test is that of the query.
unfoldable pub close_inactive_work_item :
    ProcessInstance → WorkItem → Option TaskState → Timestamp → Action (Unit {0})
close_inactive_work_item p item state at = do
  update work_items (λ w. w.id == item.id)
      (close_work_item (inactive_work_item_status state) at none)
  behind ← gets (λ db. task_model db item)
  close_future_task behind at
  record_event_if (inactive_work_item_event_type state) p item.task_guid at

abbrev pub state_of_task : Option Task → Option TaskState
state_of_task none = none
state_of_task (some t) = some t.state

-- `work_item.task_guid in ready_manual_task_guids`
unfoldable pub is_ready_guid : List String → Option String → Bool
is_ready_guid guids none = false
is_ready_guid guids (some guid) = member guid guids

-- The body of the loop, on the task behind the item.
unfoldable pub sync_item_on :
    ProcessInstance → List String → Timestamp → WorkItem → Option Task → Action (Unit {0})
sync_item_on p guids at item behind =
    if not (is_ready_guid guids item.task_guid)
    then close_inactive_work_item p item (state_of_task behind) at
    else elim behind [
      | none ↦ pure tt
      | some t ↦
          if is_ready t.state then pure tt else close_inactive_work_item p item (some t.state) at
    ]

unfoldable pub sync_work_item :
    ProcessInstance → List String → Timestamp → WorkItem → Action (Unit {0})
sync_work_item p guids at item = do
  behind ← gets (λ db. task_model db item)
  sync_item_on p guids at item behind

unfoldable pub is_open_item : String → ℕ → WorkItem → Bool
is_open_item tenant_id instance_id w =
    w.m8f_tenant_id == tenant_id && (w.process_instance_id == instance_id && not w.completed)

unfoldable pub sync_inactive_work_items :
    ProcessInstance → List EngineTask → Timestamp → Action (Unit {0})
sync_inactive_work_items p ready_manual at = do
  guids ← gets (λ db. map (λ t. t.id) (current_ready_manual_tasks db p.id ready_manual))
  items ← select work_items (is_open_item p.m8f_tenant_id p.id)
  for_each items (sync_work_item p guids at)
