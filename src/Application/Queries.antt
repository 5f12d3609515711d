-- ===== src/Application/Queries.antt =====
-- Queries of a host: src/m8flow_core/application/queries.py, and `execute_query` of
-- src/m8flow_core/application/dispatcher.py.
pub mod Sorted
pub mod Isolation
use m8flow_bpmn_core.Base.{ℕ, String, Option, List}
use m8flow_bpmn_core.Model.Process.{ProcessInstance, ProcessInstanceEvent, ProcessInstanceMetadata}
use m8flow_bpmn_core.Model.Task.{WorkItem}
use m8flow_bpmn_core.Session.{Action, pure, ◌>>=◌}
use m8flow_bpmn_core.ProcessInstances.{
  load_process_instance, list_process_instances, get_process_instance_events,
  get_process_instance_metadata, list_error_process_instances, list_suspended_process_instances,
  list_terminated_process_instances,
}
use m8flow_bpmn_core.Tasks.{get_pending_tasks}

-- The classes of queries; a status is its text.
pub data Query : Type 0 where
  get_pending_tasks_query : String → Option ℕ → Query
  get_process_instance_events_query : String → ℕ → Query
  get_process_instance_metadata_query : String → ℕ → Query
  get_process_instance_query : String → ℕ → Query
  list_error_process_instances_query : String → Query
  list_process_instances_query : String → Option String → Query
  list_suspended_process_instances_query : String → Query
  list_terminated_process_instances_query : String → Query

-- The attribute `tenant_id` of a query.
unfoldable pub query_tenant_id : Query → String
query_tenant_id (get_pending_tasks_query tenant_id user_id) = tenant_id
query_tenant_id (get_process_instance_events_query tenant_id instance_id) = tenant_id
query_tenant_id (get_process_instance_metadata_query tenant_id instance_id) = tenant_id
query_tenant_id (get_process_instance_query tenant_id instance_id) = tenant_id
query_tenant_id (list_error_process_instances_query tenant_id) = tenant_id
query_tenant_id (list_process_instances_query tenant_id status) = tenant_id
query_tenant_id (list_suspended_process_instances_query tenant_id) = tenant_id
query_tenant_id (list_terminated_process_instances_query tenant_id) = tenant_id

-- What `execute_query` returns, which in the source is any object.
pub data Answer : Type 0 where
  work_items : List WorkItem → Answer
  events : List ProcessInstanceEvent → Answer
  metadata : List ProcessInstanceMetadata → Answer
  instance_row : ProcessInstance → Answer
  instances : List ProcessInstance → Answer

unfoldable pub execute_query : Query → Action Answer
execute_query (get_pending_tasks_query tenant_id user_id) =
    get_pending_tasks tenant_id user_id >>= λ rows. pure (work_items rows)
execute_query (get_process_instance_events_query tenant_id instance_id) =
    get_process_instance_events tenant_id instance_id >>= λ rows. pure (events rows)
execute_query (get_process_instance_metadata_query tenant_id instance_id) =
    get_process_instance_metadata tenant_id instance_id >>= λ rows. pure (metadata rows)
execute_query (get_process_instance_query tenant_id instance_id) =
    load_process_instance tenant_id instance_id >>= λ p. pure (instance_row p)
execute_query (list_error_process_instances_query tenant_id) =
    list_error_process_instances tenant_id >>= λ rows. pure (instances rows)
execute_query (list_process_instances_query tenant_id status) =
    list_process_instances tenant_id status >>= λ rows. pure (instances rows)
execute_query (list_suspended_process_instances_query tenant_id) =
    list_suspended_process_instances tenant_id >>= λ rows. pure (instances rows)
execute_query (list_terminated_process_instances_query tenant_id) =
    list_terminated_process_instances tenant_id >>= λ rows. pure (instances rows)
