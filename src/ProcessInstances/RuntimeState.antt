-- ===== src/ProcessInstances/RuntimeState.antt =====
-- What a lifecycle operation does to the tasks and work items of an instance:
-- `_close_process_instance_runtime_state` and `_reopen_process_instance_runtime_state` of
-- src/m8flow_core/services/process_instances.py.
pub mod Closing
use m8flow_bpmn_core.Base.{
  ℕ, String, Bool, true, false, ◌&&◌, ◌||◌, not, Option, none, some, List, [], map, ◌==◌, Nat_Eq,
  String_Eq, any, keep, if◌then◌else◌,
}
use m8flow_bpmn_core.Model.Status.{TaskState, WorkItemState}
use m8flow_bpmn_core.Model.Process.{Timestamp, ProcessInstance}
use m8flow_bpmn_core.Model.Task.{Task, FutureTask, WorkItem}
use m8flow_bpmn_core.Session.{Action, pure, gets, ◌>>=◌, ◌>>◌, update}
use m8flow_bpmn_core.Tables.{process_instances, tasks, future_tasks, work_items}
use m8flow_bpmn_core.TenantUsers.{member}
use m8flow_bpmn_core.WorkItems.{close_work_item, reopen_work_item}

unfoldable pub is_completed_task : TaskState → Bool
is_completed_task TaskState.completed = true
is_completed_task _ = false

unfoldable pub is_terminated_task : TaskState → Bool
is_terminated_task TaskState.terminated = true
is_terminated_task _ = false

unfoldable pub is_terminated_item : WorkItemState → Bool
is_terminated_item WorkItemState.terminated = true
is_terminated_item _ = false

-- The relationships `process_instance.tasks` and `.work_items` go by the instance's key.
unfoldable pub task_of : ℕ → Task → Bool
task_of instance_id t = t.process_instance_id == instance_id

unfoldable pub item_of : ℕ → WorkItem → Bool
item_of instance_id w = w.process_instance_id == instance_id

-- The body of the first loop, on the task itself.
unfoldable pub close_task : Timestamp → Task → Task
close_task at t = record t {
  state = if is_completed_task t.state then t.state else TaskState.terminated;
  ended_at = some at;
}

unfoldable pub reopen_task : Timestamp → Task → Task
reopen_task at t = record t { state = TaskState.ready; started_at = none; ended_at = none }

unfoldable pub archive_future_task : Timestamp → FutureTask → FutureTask
archive_future_task at f = record f {
  completed = true;
  archived_for_process_instance_status = true;
  updated_at = at;
}

unfoldable pub restore_future_task : Timestamp → FutureTask → FutureTask
restore_future_task at f = record f {
  completed = false;
  archived_for_process_instance_status = false;
  updated_at = at;
}

-- `process_instance.task_updated_at = occurred_at`
unfoldable pub touch_tasks : ℕ → Timestamp → Action (Unit {0})
touch_tasks instance_id at =
    update process_instances (λ p. p.id == instance_id)
      (λ p. record p { task_updated_at = some at })

unfoldable pub close_process_instance_runtime_state : ℕ → Timestamp → Option ℕ → Action (Unit {0})
close_process_instance_runtime_state instance_id at user_id = do
  touch_tasks instance_id at
  guids ← gets (λ db. map (λ t. t.guid) (keep (task_of instance_id) db.tasks.rows))
  update tasks (task_of instance_id) (close_task at)
  update future_tasks (λ f. member f.guid guids) (archive_future_task at)
  update work_items (λ w. item_of instance_id w && not w.completed)
      (close_work_item WorkItemState.terminated at user_id)

-- The loop passes over an item whose status is not TERMINATED and that is not completed.
unfoldable pub is_reopened : ℕ → WorkItem → Bool
is_reopened instance_id w =
    item_of instance_id w && not (not (is_terminated_item w.task_status) && not w.completed)

unfoldable pub reopen_process_instance_runtime_state : ℕ → Timestamp → Action (Unit {0})
reopen_process_instance_runtime_state instance_id at = do
  touch_tasks instance_id at
  let terminated = λ (t : Task). task_of instance_id t && is_terminated_task t.state
  guids ← gets (λ db. map (λ t. t.guid) (keep terminated db.tasks.rows))
  update tasks terminated (reopen_task at)
  update future_tasks (λ f. member f.guid guids) (restore_future_task at)
  update work_items (is_reopened instance_id) (reopen_work_item at)
