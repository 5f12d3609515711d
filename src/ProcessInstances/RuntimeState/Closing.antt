-- ===== src/ProcessInstances/RuntimeState/Closing.antt =====
-- What closing and reopening leave in the tables of work items and tasks.
use m8flow_bpmn_core.Base.{
  ℕ, true, false, ◌&&◌, not, Option, ◌≡◌, ◌⊎◌, inl, inr, refl, arith, if◌then◌else◌, All, keep,
  All-updated, keep-update_where,
}
use m8flow_bpmn_core.Model.Status.{TaskState, WorkItemState}
use m8flow_bpmn_core.Model.Process.{Timestamp}
use m8flow_bpmn_core.Model.Task.{Task, WorkItem}
use m8flow_bpmn_core.Model.Database.{Database}
use m8flow_bpmn_core.Session.{ok, update}
use m8flow_bpmn_core.WorkItems.{close_work_item, reopen_work_item}
use m8flow_bpmn_core.ProcessInstances.RuntimeState.{
  task_of, item_of, is_completed_task, is_terminated_task, is_reopened, close_task, reopen_task,
  touch_tasks, close_process_instance_runtime_state, reopen_process_instance_runtime_state,
}

-- No work item of the instance is open, and no task can run any more.
abbrev pub IsClosed : ℕ → Database → Type 0
IsClosed i db =
    All (λ (w : WorkItem). item_of i w ≡ true → w.completed ≡ true) db.work_items.rows
    × All
        (λ (t : Task).
          task_of i t ≡ true → (t.state ≡ TaskState.completed) ⊎ (t.state ≡ TaskState.terminated))
        db.tasks.rows

-- The work items and tasks of the other instances are the same, in the same order.
abbrev pub KeepsOthers : ℕ → Database → Database → Type 0
KeepsOthers i db db' =
    (keep (λ w. not (item_of i w)) db'.work_items.rows
      ≡ keep (λ w. not (item_of i w)) db.work_items.rows)
    × (keep (λ t. not (task_of i t)) db'.tasks.rows ≡ keep (λ t. not (task_of i t)) db.tasks.rows)

module _ (i : ℕ) (at : Timestamp) where
  close_task-ended :
      (t : Task)
      → ((close_task at t).state ≡ TaskState.completed)
        ⊎ ((close_task at t).state ≡ TaskState.terminated)
  unfolding close_task is_completed_task
  close_task-ended t =
      elim t.state
        as (λ s.
          ((if (is_completed_task s) then s else TaskState.terminated) ≡ TaskState.completed)
          ⊎ ((if (is_completed_task s) then s else TaskState.terminated) ≡ TaskState.terminated)) [
            | TaskState.completed ↦ inl refl
            | _ ↦ inr refl
          ]

  close_item-closed :
      (user_id : Option ℕ) (w : WorkItem)
      → (item_of i w && not w.completed) ≡ true
      → (close_work_item WorkItemState.terminated at user_id w).completed ≡ true
  unfolding close_work_item
  close_item-closed user_id w s = refl

  close_item-other :
      (user_id : Option ℕ) (w : WorkItem)
      → (item_of i w && not w.completed) ≡ true
      → (not (item_of i w) ≡ false)
        × (not (item_of i (close_work_item WorkItemState.terminated at user_id w)) ≡ false)
  unfolding close_work_item item_of
  close_item-other user_id w s = (ground arith, ground arith)

  close_task-other :
      (t : Task)
      → task_of i t ≡ true
      → (not (task_of i t) ≡ false) × (not (task_of i (close_task at t)) ≡ false)
  unfolding close_task task_of
  close_task-other t s = (ground arith, ground arith)

  reopen_item-opens : (w : WorkItem) → (reopen_work_item at w).completed ≡ false
  unfolding reopen_work_item
  reopen_item-opens w = refl

  open_before : (w : WorkItem) → is_reopened i w ≡ false → item_of i w ≡ true → w.completed ≡ false
  unfolding is_reopened
  open_before w s o = ground arith

  reopen_item-other :
      (w : WorkItem)
      → is_reopened i w ≡ true
      → (not (item_of i w) ≡ false) × (not (item_of i (reopen_work_item at w)) ≡ false)
  unfolding reopen_work_item item_of is_reopened
  reopen_item-other w s = (ground arith, ground arith)

  reopen_task-other :
      (t : Task)
      → (task_of i t && is_terminated_task t.state) ≡ true
      → (not (task_of i t) ≡ false) × (not (task_of i (reopen_task at t)) ≡ false)
  unfolding reopen_task task_of
  reopen_task-other t s = (ground arith, ground arith)

  -- Closing succeeds. It leaves the instance closed: each of its work items completed, each of its
  -- tasks completed or terminated. The work items and tasks of other instances stay as they were.
  pub close_process_instance_runtime_state-IsClosed :
      (user_id : Option ℕ) (db : Database)
      → ((close_process_instance_runtime_state i at user_id db).0 ≡ ok tt)
        × IsClosed i (close_process_instance_runtime_state i at user_id db).1
        × KeepsOthers i db (close_process_instance_runtime_state i at user_id db).1
  unfolding close_process_instance_runtime_state touch_tasks update
  close_process_instance_runtime_state-IsClosed user_id db = (
    refl,
    (
      All-updated _ _ _ db.work_items.rows (λ w s _. close_item-closed user_id w s)
          (λ w s o. ground arith),
      All-updated _ _ _ db.tasks.rows (λ t s _. close_task-ended t) (λ t s o. ground arith),
    ),
    (
      keep-update_where _ _ _ db.work_items.rows (λ w s. close_item-other user_id w s),
      keep-update_where _ _ _ db.tasks.rows (λ t s. close_task-other t s),
    ),
  )

  -- Reopening succeeds, and no work item of the instance is completed any more: not those that the
  -- error closed, and not those that a user had completed before the error. The work items and
  -- tasks of other instances stay as they were.
  pub reopen_process_instance_runtime_state-reopens :
      (db : Database)
      → ((reopen_process_instance_runtime_state i at db).0 ≡ ok tt)
        × All
            (λ (w : WorkItem). item_of i w ≡ true → w.completed ≡ false)
            (reopen_process_instance_runtime_state i at db).1.work_items.rows
        × KeepsOthers i db (reopen_process_instance_runtime_state i at db).1
  unfolding reopen_process_instance_runtime_state touch_tasks update
  reopen_process_instance_runtime_state-reopens db = (
    refl,
    All-updated _ _ _ db.work_items.rows (λ w s _. reopen_item-opens w)
        (λ w s o. open_before w s o),
    (
      keep-update_where _ _ _ db.work_items.rows (λ w s. reopen_item-other w s),
      keep-update_where _ _ _ db.tasks.rows (λ t s. reopen_task-other t s),
    ),
  )
