-- ===== src/Tables.antt =====
-- The tables of the session, one reference for each. A table whose key is not counted up is held
-- as a table too, and its counter is not read.
use m8flow_bpmn_core.Model.Tenancy.{User}
use m8flow_bpmn_core.Model.Permission.{
  Group, UserGroupAssignment, Principal, PermissionTarget, PermissionAssignment,
}
use m8flow_bpmn_core.Model.Process.{
  ProcessInstance, ProcessInstanceEvent, ProcessInstanceMetadata, ProcessDefinition,
}
use m8flow_bpmn_core.Model.Task.{TaskDefinition, Task, FutureTask, WorkItem, WorkItemUser}
use m8flow_bpmn_core.Model.Scheduler.{SchedulerJob}
use m8flow_bpmn_core.Session.{TableRef}

abbrev pub groups : TableRef Group
groups = record { get = λ db. db.groups; set = λ t db. record db { groups = t } }

abbrev pub user_group_assignments : TableRef UserGroupAssignment
user_group_assignments = record {
  get = λ db. db.user_group_assignments;
  set = λ t db. record db { user_group_assignments = t };
}

abbrev pub principals : TableRef Principal
principals = record { get = λ db. db.principals; set = λ t db. record db { principals = t } }

abbrev pub permission_targets : TableRef PermissionTarget
permission_targets = record {
  get = λ db. db.permission_targets;
  set = λ t db. record db { permission_targets = t };
}

abbrev pub permission_assignments : TableRef PermissionAssignment
permission_assignments = record {
  get = λ db. db.permission_assignments;
  set = λ t db. record db { permission_assignments = t };
}

abbrev pub process_definitions : TableRef ProcessDefinition
process_definitions = record {
  get = λ db. db.process_definitions;
  set = λ t db. record db { process_definitions = t };
}

abbrev pub process_instances : TableRef ProcessInstance
process_instances = record {
  get = λ db. db.process_instances;
  set = λ t db. record db { process_instances = t };
}

abbrev pub process_instance_events : TableRef ProcessInstanceEvent
process_instance_events = record {
  get = λ db. db.process_instance_events;
  set = λ t db. record db { process_instance_events = t };
}

abbrev pub process_instance_metadata : TableRef ProcessInstanceMetadata
process_instance_metadata = record {
  get = λ db. db.process_instance_metadata;
  set = λ t db. record db { process_instance_metadata = t };
}

abbrev pub task_definitions : TableRef TaskDefinition
task_definitions = record {
  get = λ db. db.task_definitions;
  set = λ t db. record db { task_definitions = t };
}

abbrev pub tasks : TableRef Task
tasks = record { get = λ db. db.tasks; set = λ t db. record db { tasks = t } }

abbrev pub future_tasks : TableRef FutureTask
future_tasks = record { get = λ db. db.future_tasks; set = λ t db. record db { future_tasks = t } }

abbrev pub work_items : TableRef WorkItem
work_items = record { get = λ db. db.work_items; set = λ t db. record db { work_items = t } }

abbrev pub work_item_users : TableRef WorkItemUser
work_item_users = record {
  get = λ db. db.work_item_users;
  set = λ t db. record db { work_item_users = t };
}

abbrev pub scheduler_jobs : TableRef SchedulerJob
scheduler_jobs = record {
  get = λ db. db.scheduler_jobs;
  set = λ t db. record db { scheduler_jobs = t };
}

abbrev pub users : TableRef User
users = record { get = λ db. db.users; set = λ t db. record db { users = t } }
