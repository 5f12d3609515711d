-- ===== src/Tests/Samples.antt =====
-- A tenant with two users, two instances, their tasks and work items, and three scheduler jobs.
use m8flow_bpmn_core.Base.{ℕ, ◌+◌, String, true, false, none, some, [], ◌∷◌}
use m8flow_bpmn_core.Model.Json.{end}
use m8flow_bpmn_core.Model.Status.{ProcessInstanceStatus, WorkItemState, TaskState}
use m8flow_bpmn_core.Model.Permission.{
  PermitDeny, PermissionAction, PermissionResourceType, PermissionAssignment, PermissionTarget,
  Principal, Group, UserGroupAssignment,
}
use m8flow_bpmn_core.Model.Tenancy.{Tenant, User}
use m8flow_bpmn_core.Model.Process.{Timestamp, ProcessInstance}
use m8flow_bpmn_core.Model.Task.{Task, WorkItem, WorkItemUser}
use m8flow_bpmn_core.Model.Scheduler.{SchedulerJobType, SchedulerJob}
use m8flow_bpmn_core.Model.Database.{Database, empty_table}
use m8flow_bpmn_core.Session.{pure}
use m8flow_bpmn_core.WorkflowRuntime.{WorkflowRuntime}
use m8flow_bpmn_core.ProcessInstances.{load_process_instance}

abbrev pub acme : Tenant
acme = record { id = "acme"; slug = "acme-inc" }

abbrev pub user_row : ℕ → User
user_row id = record {
  id = id;
  username = "u";
  email = none;
  service = "http://kc/realms/acme";
  service_id = "s";
  realm_identifier = none;
  external_org_id = none;
  external_user_id = none;
}

abbrev pub instance_row : ℕ → ProcessInstanceStatus → ProcessInstance
instance_row id status = record {
  id = id;
  m8f_tenant_id = "acme";
  process_model_identifier = "m";
  process_model_display_name = "M";
  summary = none;
  process_initiator_id = 1;
  bpmn_process_definition_id = none;
  bpmn_process_id = none;
  status = status;
  started_at = none;
  ended_at = none;
  task_updated_at = none;
  updated_at = none;
  created_at = none;
  workflow_state_json = none;
}

abbrev pub task_row : String → ℕ → TaskState → Task
task_row guid instance_id state = record {
  guid = guid;
  m8f_tenant_id = "acme";
  process_instance_id = instance_id;
  task_definition_id = 1;
  state = state;
  properties_json = end;
  runtime_info = none;
  started_at = none;
  ended_at = none;
}

abbrev pub item_row : ℕ → ℕ → String → WorkItem
item_row id instance_id guid = record {
  id = id;
  m8f_tenant_id = "acme";
  process_instance_id = instance_id;
  task_guid = some guid;
  lane_assignment_id = none;
  completed_by_user_id = none;
  actual_owner_id = none;
  task_status = WorkItemState.ready;
  completed = false;
  updated_at = none;
  created_at = none;
}

-- An item that user 1 has completed.
abbrev pub done_row : ℕ → ℕ → String → WorkItem
done_row id instance_id guid = record (item_row id instance_id guid) {
  completed_by_user_id = some 1;
  actual_owner_id = some 1;
  task_status = WorkItemState.completed;
  completed = true;
}

abbrev pub owner_row : ℕ → ℕ → WorkItemUser
owner_row item_id user_id = record {
  m8f_tenant_id = "acme";
  work_item_id = item_id;
  user_id = user_id;
  added_by = none;
}

abbrev pub job_row : ℕ → String → Timestamp → SchedulerJob
job_row id key run_at = record {
  id = id;
  m8f_tenant_id = "acme";
  job_key = key;
  job_type = SchedulerJobType.process_retry;
  process_instance_id = none;
  bpmn_process_definition_id = none;
  locked_by = none;
  locked_at = none;
  run_at = run_at;
  payload_json = end;
  updated_at = 0;
  created_at = 0;
}

abbrev assignment_row : ℕ → ℕ → PermissionAssignment
assignment_row id principal_id = record {
  id = id;
  principal_id = principal_id;
  permission_target_id = 1;
  grant_type = PermitDeny.permit;
  permission = PermissionAction.all;
}

abbrev pub own_principal : Principal
own_principal = record { id = 1; user_id = some 1; group_id = none }

abbrev pub group_principal : Principal
group_principal = record { id = 2; user_id = none; group_id = some 1 }

abbrev pub user_group : Group
user_group = record { id = 1; name = none; identifier = some "acme:user"; authorization_key = none }

abbrev pub membership : UserGroupAssignment
membership = record { id = 1; user_id = 2; group_id = 1 }

abbrev tenant_target : PermissionTarget
tenant_target = record {
  id = 1;
  command = none;
  resource_type = PermissionResourceType.tenant;
  resource_id = some "acme";
}

-- Both users may do everything: user 1 by an assignment, user 2 through a group.
abbrev pub sample : Database
sample = record {
  tenants = acme ∷ [];
  users = record { rows = user_row 1 ∷ user_row 2 ∷ []; next_id = 3 };
  groups = record { rows = user_group ∷ []; next_id = 2 };
  user_group_assignments = record { rows = membership ∷ []; next_id = 2 };
  principals = record { rows = own_principal ∷ group_principal ∷ []; next_id = 3 };
  permission_targets = record { rows = tenant_target ∷ []; next_id = 2 };
  permission_assignments = record {
    rows = assignment_row 1 1 ∷ assignment_row 2 2 ∷ [];
    next_id = 3;
  };
  process_definitions = empty_table;
  process_instances = record {
    rows =
        instance_row 1 ProcessInstanceStatus.user_input_required
        ∷ instance_row 2 ProcessInstanceStatus.complete
        ∷ [];
    next_id = 3;
  };
  process_instance_events = empty_table;
  process_instance_metadata = empty_table;
  task_definitions = empty_table;
  tasks = record {
    rows =
        task_row "g1" 1 TaskState.ready
        ∷ task_row "g2" 1 TaskState.completed
        ∷ task_row "g3" 2 TaskState.completed
        ∷ [];
    next_id = 1;
  };
  future_tasks = empty_table;
  work_items = record {
    rows = item_row 1 1 "g1" ∷ done_row 2 1 "g2" ∷ done_row 3 2 "g3" ∷ [];
    next_id = 4;
  };
  work_item_users = record { rows = owner_row 1 1 ∷ owner_row 1 2 ∷ []; next_id = 1 };
  scheduler_jobs = record {
    rows = job_row 1 "a" 20 ∷ job_row 2 "b" 10 ∷ job_row 3 "c" 30 ∷ [];
    next_id = 4;
  };
  clock = λ n. 1000 + n;
  readings = 0;
}

-- A workflow runtime that finds nothing to do.
abbrev pub idle_runtime : WorkflowRuntime
idle_runtime = record {
  advance_process_instance_workflow = λ t i guid at. load_process_instance t i;
  retry_errored_service_task_workflow_if_needed = λ t i at. pure tt;
  sync_open_work_item_potential_owners = λ t i. pure tt;
  refresh_waiting_process_instance_workflow = λ t i at. pure tt;
  initialize_from_timer_start_definition = λ t d u name at. pure tt;
}
