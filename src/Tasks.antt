-- ===== src/Tasks.antt =====
-- Worklists, claims and completions: src/m8flow_core/services/tasks.py.
pub mod Claims
pub mod Completion
use m8flow_bpmn_core.Base.{
  ℕ, String, Bool, true, false, ◌&&◌, ◌||◌, not, Option, none, some, List, [], ◌∷◌, ◌==◌, Nat_Eq,
  String_Eq, Option_Eq, if◌then◌else◌, find, any, keep, length,
}
use m8flow_bpmn_core.Base.Text.{is_blank}
use m8flow_bpmn_core.Base.Text.Decimal.{show_nat}
use m8flow_bpmn_core.Errors.{Error}
use m8flow_bpmn_core.Model.Json.{Value, Fields, null, boolean, number, text, end, field}
use m8flow_bpmn_core.Model.Status.{ProcessInstanceStatus, TaskState, WorkItemState}
use m8flow_bpmn_core.Model.Event.{EventType, ProcessLifecycleEventType, TaskEventType}
use m8flow_bpmn_core.Model.Permission.{PermissionResourceType}
use m8flow_bpmn_core.Model.Process.{Timestamp, ProcessInstance}
use m8flow_bpmn_core.Model.Task.{WorkItem, WorkItemUser, WorkItemUserAddedBy, Task}
use m8flow_bpmn_core.Model.Database.{Database}
use m8flow_bpmn_core.Session.{
  Action, ok, pure, raise, gets, or_raise, raise_if, now, resolve_timestamp, ◌>>=◌, ◌>>◌, add,
  update, first, select, for_each,
}
use m8flow_bpmn_core.Tables.{process_instances, tasks, future_tasks, work_items, work_item_users}
use m8flow_bpmn_core.TenantUsers.{ensure_user_belongs_to_tenant}
use m8flow_bpmn_core.Authorization.Commands.{task_claim_command, task_complete_command}
use m8flow_bpmn_core.Authorization.Policy.{AuthorizationPolicy, require_command_authorization}
use m8flow_bpmn_core.WorkItems.{
  state_value, claim_work_item, complete_work_item, task_model, task_name, lane_name,
}
use m8flow_bpmn_core.ProcessInstances.{
  ensure_user_if_given, record_process_instance_event, upsert_process_instance_metadata, has_status,
}
use m8flow_bpmn_core.WorkflowRuntime.{WorkflowRuntime}

-- The `exists` over the potential owners, with the tenant of the row.
unfoldable pub is_potential_owner : Database → String → ℕ → ℕ → Bool
is_potential_owner db tenant_id item_id user_id =
    any (λ r. r.work_item_id == item_id && (r.m8f_tenant_id == tenant_id && r.user_id == user_id))
      db.work_item_users.rows

unfoldable pub is_open_item : String → WorkItem → Bool
is_open_item tenant_id w = w.m8f_tenant_id == tenant_id && not w.completed

unfoldable pub get_pending_tasks : String → Option ℕ → Action (List WorkItem)
get_pending_tasks tenant_id none = select work_items (is_open_item tenant_id)
get_pending_tasks tenant_id (some user_id) = do
  ensure_user_belongs_to_tenant tenant_id user_id >>= λ _. pure tt
  db ← gets (λ db. db)
  select work_items (λ w. is_open_item tenant_id w && is_potential_owner db tenant_id w.id user_id)

-- The `exists` over the members of the item's lane group.
unfoldable pub member_of_lane_group : Database → ℕ → WorkItem → Bool
member_of_lane_group db user_id w =
    any (λ u. some u.group_id == w.lane_assignment_id && u.user_id == user_id)
      db.user_group_assignments.rows

unfoldable pub already_potential_owner : Database → ℕ → WorkItem → Bool
already_potential_owner db user_id w =
    any (λ r. r.work_item_id == w.id && r.user_id == user_id) db.work_item_users.rows

unfoldable pub has_lane_group : WorkItem → Bool
has_lane_group w = elim w.lane_assignment_id [ none ↦ false | some _ ↦ true ]

unfoldable pub newly_assigned : Database → String → ℕ → WorkItem → Bool
newly_assigned db tenant_id user_id w =
    is_open_item tenant_id w
    && (has_lane_group w
        && (member_of_lane_group db user_id w && not (already_potential_owner db user_id w)))

unfoldable pub lane_row : String → ℕ → WorkItem → WorkItemUser
lane_row tenant_id user_id w = record {
  m8f_tenant_id = tenant_id;
  work_item_id = w.id;
  user_id = user_id;
  added_by = some WorkItemUserAddedBy.lane_assignment;
}

unfoldable pub assign_pending_tasks_for_user : String → ℕ → Action (List WorkItem)
assign_pending_tasks_for_user tenant_id user_id = do
  ensure_user_belongs_to_tenant tenant_id user_id >>= λ _. pure tt
  db ← gets (λ db. db)
  found ← select work_items (newly_assigned db tenant_id user_id)
  for_each found (λ w. add work_item_users (λ _. lane_row tenant_id user_id w) >>= λ _. pure tt)
  pure found

unfoldable pub load_work_item : String → ℕ → Action WorkItem
load_work_item tenant_id item_id = do
  found ← first work_items (λ w. w.m8f_tenant_id == tenant_id && w.id == item_id)
  or_raise Error.not_found_error found

-- `_user_is_assigned`
unfoldable pub user_is_assigned : String → ℕ → ℕ → Action Bool
user_is_assigned tenant_id item_id user_id =
    gets (λ db. is_potential_owner db tenant_id item_id user_id)

abbrev or_null : {A : Type 0} → (A → Value) → Option A → Value
or_null f none = null
or_null f (some a) = f a

-- `_task_authorization_metadata`
unfoldable pub task_authorization_metadata : Database → WorkItem → Fields
task_authorization_metadata db w = field "work_item_id" (number w.id) (
    field "process_instance_id" (number w.process_instance_id) (
      field "task_guid" (or_null text w.task_guid) (
        field "task_name" (or_null text (task_name db w)) (
          field "task_status" (text (state_value w.task_status)) (
            field "actual_owner_id" (or_null number w.actual_owner_id) (
              field "lane_name" (or_null text (lane_name db w)) (
                field "lane_assignment_id" (or_null number w.lane_assignment_id)
                  (field "completed" (boolean w.completed) end))))))))

-- `item.task_guid or str(item.id)`
unfoldable pub task_resource_id : WorkItem → String
task_resource_id w = elim w.task_guid [
  | none ↦ show_nat w.id
  | some guid ↦ if is_blank guid then show_nat w.id else guid
]

unfoldable pub authorize_task :
    AuthorizationPolicy → String → ℕ → String → WorkItem → Action (Unit {0})
authorize_task policy tenant_id user_id command_key w = do
  metadata ← gets (λ db. task_authorization_metadata db w)
  require_command_authorization policy tenant_id user_id command_key PermissionResourceType.task
      (task_resource_id w) (some metadata)

-- `owner is not None and owner != user_id`
unfoldable pub owned_by_another : Option ℕ → ℕ → Bool
owned_by_another none user_id = false
owned_by_another (some owner) user_id = not (owner == user_id)

-- The reads and checks of `claim_task`, up to the compare-and-set.
unfoldable pub claim_check : AuthorizationPolicy → String → ℕ → ℕ → Action WorkItem
claim_check policy tenant_id item_id user_id = do
  ensure_user_belongs_to_tenant tenant_id user_id >>= λ _. pure tt
  item ← load_work_item tenant_id item_id
  authorize_task policy tenant_id user_id task_claim_command item
  raise_if item.completed Error.invalid_state_error
  assigned ← user_is_assigned tenant_id item.id user_id
  raise_if (not assigned) Error.authorization_error
  raise_if (owned_by_another item.actual_owner_id user_id) Error.authorization_error
  pure item

-- The WHERE clause of the compare-and-set.
unfoldable pub is_claimable : String → ℕ → ℕ → WorkItem → Bool
is_claimable tenant_id item_id user_id w =
    (w.id == item_id && w.m8f_tenant_id == tenant_id)
    && (not w.completed && not (owned_by_another w.actual_owner_id user_id))

-- `process_instance.task_updated_at = …`, if there is such an instance.
unfoldable pub touch_instance : ℕ → Timestamp → Action (Unit {0})
touch_instance instance_id at =
    update process_instances (λ p. p.id == instance_id)
      (λ p. record p { task_updated_at = some at })

-- The compare-and-set, `rowcount != 1`, and what follows it.
unfoldable pub claim_write : String → WorkItem → ℕ → Action WorkItem
claim_write tenant_id item user_id = do
  at ← now
  claimed ← select work_items (is_claimable tenant_id item.id user_id)
  update work_items (is_claimable tenant_id item.id user_id) (claim_work_item user_id at)
  raise_if (not (length claimed == 1)) Error.invalid_state_error
  refreshed ← first work_items (λ w. w.id == item.id)
  row ← or_raise Error.runtime_error refreshed
  touch_instance row.process_instance_id at
  pure row

unfoldable pub claim_task : AuthorizationPolicy → String → ℕ → ℕ → Action WorkItem
claim_task policy tenant_id item_id user_id = do
  item ← claim_check policy tenant_id item_id user_id
  claim_write tenant_id item user_id

-- `_persist_task_payload`
unfoldable pub persist_task_payload :
    String → ℕ → List (String × String) → Timestamp → Action (Unit {0})
persist_task_payload tenant_id instance_id [] at = pure tt
persist_task_payload tenant_id instance_id ((key, value) ∷ payload) at = do
  upsert_process_instance_metadata tenant_id instance_id key value at (some at) >>= λ _. pure tt
  persist_task_payload tenant_id instance_id payload at

unfoldable pub completed_task : Timestamp → Task → Task
completed_task at t = record t { state = TaskState.completed; ended_at = some at }

-- The checks of `complete_task`.
unfoldable pub complete_check : AuthorizationPolicy → String → ℕ → ℕ → Action WorkItem
complete_check policy tenant_id item_id user_id = do
  ensure_user_belongs_to_tenant tenant_id user_id >>= λ _. pure tt
  item ← load_work_item tenant_id item_id
  authorize_task policy tenant_id user_id task_complete_command item
  raise_if item.completed Error.invalid_state_error
  assigned ← user_is_assigned tenant_id item.id user_id
  raise_if (not assigned) Error.authorization_error
  owner ← or_raise Error.invalid_state_error item.actual_owner_id
  raise_if (not (owner == user_id)) Error.authorization_error
  pure item

-- The rows of the task behind the item: the task itself, and its future task.
unfoldable pub complete_task_rows : WorkItem → Timestamp → Action (Unit {0})
complete_task_rows item at = elim item.task_guid [
  | none ↦ pure tt
  | some guid ↦ do
    update tasks (λ t. t.guid == guid) (completed_task at)
    update future_tasks (λ f. f.guid == guid) (λ f. record f { completed = true })
]

abbrev guid_or_empty : Option String → String
guid_or_empty none = ""
guid_or_empty (some guid) = guid

unfoldable pub record_completion : String → WorkItem → ℕ → Timestamp → EventType → Action (Unit {0})
record_completion tenant_id item user_id at kind =
    record_process_instance_event tenant_id item.process_instance_id (ok kind) (some at)
      item.task_guid (some user_id)
    >>= λ _. pure tt

-- What follows the completion on the instance: nothing but its date if it has no workflow.
unfoldable pub advance_after_completion :
    WorkflowRuntime → String → WorkItem → ℕ → Timestamp → Option String → Action (Unit {0})
advance_after_completion runtime tenant_id item user_id at none = pure tt
advance_after_completion runtime tenant_id item user_id at (some _) = do
  p ←
      runtime.advance_process_instance_workflow tenant_id item.process_instance_id
        (guid_or_empty item.task_guid) at
  record_completion tenant_id item user_id at (EventType.task_event TaskEventType.task_completed)
  if has_status p.status ProcessInstanceStatus.complete
      then record_completion tenant_id item user_id at
          (EventType.lifecycle ProcessLifecycleEventType.process_instance_completed)
      else pure tt

unfoldable pub complete_instance :
    WorkflowRuntime → String → WorkItem → ℕ → Timestamp → Action (Unit {0})
complete_instance runtime tenant_id item user_id at = do
  found ← first process_instances (λ p. p.id == item.process_instance_id)
  elim found [
    | none ↦ pure tt
    | some p ↦ do
      touch_instance p.id at
      advance_after_completion runtime tenant_id item user_id at p.workflow_state_json
  ]

unfoldable pub complete_task :
    WorkflowRuntime
    → AuthorizationPolicy
    → String
    → ℕ
    → ℕ
    → Option Timestamp
    → List (String × String)
    → Action WorkItem
complete_task runtime policy tenant_id item_id user_id completed_at payload = do
  item ← complete_check policy tenant_id item_id user_id
  at ← resolve_timestamp completed_at
  persist_task_payload tenant_id item.process_instance_id payload at
  update work_items (λ w. w.id == item.id) (complete_work_item user_id at)
  complete_task_rows item at
  complete_instance runtime tenant_id item user_id at
  pure (complete_work_item user_id at item)
