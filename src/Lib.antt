-- ===== src/Lib.antt =====
-- A model of m8flow-core, a library that runs BPMN processes in a relational database, and what the
-- model's theorems show. Paths are from the repository's root.
--
-- A caller opens a SQLAlchemy session and calls a service; a service reads and writes rows, and
-- returns or raises. Here a session is a `Database` (Model/Database.antt), a record with one table
-- for each model, and the clock that `datetime.now(UTC)` reads. A service is an `Action`
-- (Session.antt): a function from the database to a result and the database that it leaves, also
-- after an error, since the caller owns the transaction. Queries are searches in the lists of rows,
-- which stand in the order of their keys; an UPDATE rewrites the rows that its condition selects.
--
-- The parts, and the files of src/m8flow_core that they model:
--   Errors - errors.py, and the builtin exceptions that the services raise.
--   Model - the rows and enumerations of models/; Model/Json.antt holds the JSON columns.
--   Session, Tables - what the services use of a session; Session/Calls.antt has lemmas on chains of
--     calls.
--   TenantUsers - services/tenant_users.py: which users belong to a tenant.
--   Authorization - services/authorization.py: the command table, requests, the database policy
--     (Policy), and the rows that grants find or create (Grants).
--   WorkItems - services/work_items.py: the claim states of a work item.
--   SchedulerJobs - services/scheduler_jobs.py: jobs by their keys.
--   ProcessInstances - services/process_instances.py: instances, events and metadata, the lifecycle
--     (Lifecycle) and what it does to tasks and work items (RuntimeState); Reactivation is
--     services/process_instance_reactivation.py.
--   Tasks - services/tasks.py: worklists, claims and completions.
--   SchedulerRuntime - services/scheduler_runtime.py: the worker's pass over the due jobs; TimerStart
--     is the payload of recurring timers.
--   LaneAssignment - services/lane_assignment.py: the configuration of lanes and its validation, the
--     groups of lanes (Groups), and the potential owners of a work item (Owners).
--   WorkflowRuntime - services/workflow_runtime.py. The root is the interface that the other services
--     take as a parameter: the operations that they call. Below it, over SpiffWorkflow as a parameter
--     (Engine): the operations on a stored workflow (Operations), a run and the failure of a service
--     task (Run), the rows that a run writes (StateRows, TaskRows, Manual, WorkItemRows, TimerJobs), the
--     status that it leaves (Status), and timer starts that are forced (TimerStarts). StoredWorkflows
--     fills the interface with them, but for the start of a workflow.
--   ServiceTasks - services/service_tasks.py: the ids of operations (OperationIds) and the registry of
--     connectors (Registry); Proxy is services/connector_proxy_service_tasks.py, with the HTTP call as
--     a parameter.
--   Application - application: the queries of a host and their dispatch (Queries).
-- Functions have the names of the Python functions, without a leading underscore. The policy in force,
-- a context variable of the program, is an argument. `claim_task` is `claim_check`, its reads, and
-- `claim_write`, its compare-and-set, so that two callers can be interleaved between them; and the
-- guards by status of a lifecycle operation are the function ending in `_from`.
--
-- SpiffWorkflow, the hash function, the lower case of a text and `ast.literal_eval` are parameters
-- (Engine, LaneTexts, `literal_eval`). The session that stores the failure of a service task on its own
-- works on the committed database, a further argument; what it commits is not seen by the session that
-- goes on, which then raises.
--
-- Timestamps are microseconds. Numbers in payloads are whole, and a text that is a date is a value of
-- its own. Texts are trimmed by Python's table of white space. Loops are over lists. Only the decimal
-- digits of a number (Base/Text/Decimal.antt) are computed on fuel: as much as the number plus one,
-- and no number has more digits than that.
--
-- A row that is added or changed is in its table at once, as it is after a flush: rows that are
-- pending in the session are not modelled. Nor are unique constraints, foreign keys and errors of the
-- database: after a failed flush, for instance, a call such as `session.get` in
-- `_release_scheduler_job_lock` raises out of the worker's loop. Workers that claim jobs at the same
-- time, which docs/reference/limitations.md calls unsafe, are not modelled either: claims of jobs
-- follow one another.
--
-- Not modelled: SpiffWorkflow; `ensure_work_item`, which no service calls; of workflow_runtime.py the
-- start of workflows, called activities and version snapshots; the import of definitions, the dispatch
-- of commands, Keycloak administration, migrations and the sample application. The conflict clause of
-- `_get_or_create` serves concurrent transactions, and a session is one transaction here. Messages of
-- errors, and columns that no service reads, are left out.
--
-- Tests runs the model on small databases.
pub mod Base
pub mod Errors
pub mod Model
pub mod Session
pub mod Tables
pub mod TenantUsers
pub mod Authorization
pub mod WorkItems
pub mod LaneAssignment
pub mod ServiceTasks
pub mod SchedulerJobs
pub mod WorkflowRuntime
pub mod ProcessInstances
pub mod Tasks
pub mod SchedulerRuntime
pub mod Application
pub mod Tests
