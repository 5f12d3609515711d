-- ===== src/Model/Database.antt =====
-- What a SQLAlchemy session sees: the tables, and the clock that `datetime.now(UTC)` reads.
use m8flow_bpmn_core.Base.{ℕ, suc, List, [], ◌∷◌, ◌++◌}
use m8flow_bpmn_core.Model.Tenancy.{Tenant, User}
use m8flow_bpmn_core.Model.Permission.{
  Group, UserGroupAssignment, Principal, PermissionTarget, PermissionAssignment,
}
use m8flow_bpmn_core.Model.Process.{
  Timestamp, ProcessDefinition, ProcessInstance, ProcessInstanceEvent, ProcessInstanceMetadata,
}
use m8flow_bpmn_core.Model.Task.{TaskDefinition, Task, FutureTask, WorkItem, WorkItemUser}
use m8flow_bpmn_core.Model.Scheduler.{SchedulerJob}

-- A table whose primary key the database counts up: rows in order of insertion.
pub record Table (R : Type 0) : Type 0 where
  pub rows : List R
  pub next_id : ℕ

abbrev pub empty_table : {R : Type 0} → Table R
empty_table = record { rows = []; next_id = 1 }

-- `session.add` of a row and the flush that gives it its key.
abbrev pub insert_row : {R : Type 0} → (ℕ → R) → Table R → Table R
insert_row make t = record { rows = t.rows ++ (make t.next_id ∷ []); next_id = suc t.next_id }

pub record Database : Type 0 where
  pub tenants : List Tenant
  pub users : Table User
  pub groups : Table Group
  pub user_group_assignments : Table UserGroupAssignment
  pub principals : Table Principal
  pub permission_targets : Table PermissionTarget
  pub permission_assignments : Table PermissionAssignment
  pub process_definitions : Table ProcessDefinition
  pub process_instances : Table ProcessInstance
  pub process_instance_events : Table ProcessInstanceEvent
  pub process_instance_metadata : Table ProcessInstanceMetadata
  pub task_definitions : Table TaskDefinition
  pub tasks : Table Task
  pub future_tasks : Table FutureTask
  pub work_items : Table WorkItem
  pub work_item_users : Table WorkItemUser
  pub scheduler_jobs : Table SchedulerJob
  -- the n-th reading of the clock, and how many readings there were
  pub clock : ℕ → Timestamp
  pub readings : ℕ
