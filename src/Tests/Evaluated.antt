-- ===== src/Tests/Evaluated.antt =====
-- The definitions of the model, opened together for the runs.
use mathlib.Core.List.{flat_map}
use m8flow_bpmn_core.Application.Queries.{query_tenant_id, execute_query}
use m8flow_bpmn_core.Authorization.Commands.{
  authorization_spec_for_command, command_authorization_specs, authorization_spec_for_command_key,
  v1_basic_role_command_keys,
}
use m8flow_bpmn_core.Authorization.Grants.{
  get_or_create, find_or_create_group, add_user_to_group, find_or_create_principal_for_user,
  find_or_create_principal_for_group, stored_component, blank_but_given,
  find_or_create_permission_target, same_grant_type, find_or_create_permission_assignment,
  grant_permission_to_group, grant_permission_to_user, grant_command_permissions_to_group,
  tenant_role_group_identifier, role_command_keys, ensure_v1_role,
}
use m8flow_bpmn_core.Authorization.Policy.{
  is_permission, is_resource_type, is_deny, is_permit, normalize_resource_component,
  group_identifier_applies_to_tenant, command_matches, id_matches, resource_matches,
  permission_target_of, target_matches_request, permission_assignment_matches_request,
  group_principal_ids, contains_id, principal_ids, permission_assignments_for_user, decide_from,
  matching_assignments, database_policy, build_authorization_request, resolve_authorization_policy,
  require_command_authorization,
}
use m8flow_bpmn_core.Base.{find, any, keep, update_where}
use m8flow_bpmn_core.Base.Text.{
  is_space, is_blank, lstrip, rstrip_when, strip, has_char, before_char, after_last_char,
  after_prefix, last_piece, contains,
}
use m8flow_bpmn_core.Base.Text.Decimal.{show_nat, is_digit}
use m8flow_bpmn_core.Errors.{is_bpmn_core_error}
use m8flow_bpmn_core.LaneAssignment.{
  hex_digit, hex_prefix, as_array, hash_input, texts_of, extend_lane, has_lane, check_requested,
  normalized, normalized_tenant, resolve_lane_assignment_id, normalize_lane_text,
  normalize_lane_name, group_lane_owners, lane_owner_identifiers, usable_lanes,
  configured_initiator_lanes, requested_lanes, known_lanes, validate_initiator_list,
  validate_initiator_value, validate_initiator_lanes, lane_group_identifier,
}
use m8flow_bpmn_core.LaneAssignment.Groups.{
  lower_group, least_group, has_id, insert_id, sorted_ids, assigned, add_group_members,
  tenant_group_members, is_legacy_group, renames_to, use_group, find_or_create_lane_group,
}
use m8flow_bpmn_core.LaneAssignment.Owners.{
  tenant_members, names_user, lookup_local_part, lookup_owner, users_for, add_users,
  lane_owners_from, lane_owners, set_owners, label_of, initiator, is_owner_of, add_potential_owner,
  add_missing_potential_owners, definition_lane_owners, mapping_at, effective_lane_owners,
  enroll_lane_owners, resolve_owners, enroll_definition_lane_owners, value_at, set_lane_group,
  group_of_lane, with_group, owners_in_lane, resolve_potential_owners,
  assign_work_item_potential_owners,
}
use m8flow_bpmn_core.Model.Event.{event_category_for_type, event_type_value, event_type_of}
use m8flow_bpmn_core.Model.Json.{get, put, drop_key, as_text, as_object}
use m8flow_bpmn_core.Model.Permission.{Action-discrete, ResourceType-discrete, PermitDeny-discrete}
use m8flow_bpmn_core.Model.Scheduler.{job_type_value}
use m8flow_bpmn_core.Model.Status.{
  status_value, Status-discrete, has_terminal_status, active_statuses,
}
use m8flow_bpmn_core.ProcessInstances.{
  ensure_user_if_given, create_process_instance, is_instance, load_process_instance,
  normalize_status, has_status, list_process_instances, record_process_instance_event, event_before,
  insert_event, sort_events, get_process_instance_events, is_metadata,
  upsert_process_instance_metadata, metadata_before, insert_metadata, sort_metadata,
  get_process_instance_metadata, list_error_process_instances, list_suspended_process_instances,
  list_terminated_process_instances,
}
use m8flow_bpmn_core.ProcessInstances.Lifecycle.{
  set_instance, record_lifecycle_event, process_retry_scheduler_job_key, authorized_instance,
  suspended_fields, ended_fields, suspend_from, suspend_process_instance, end_instance, error_from,
  error_process_instance, terminate_from, terminate_process_instance, schedule_from,
  schedule_process_instance_retry, delete_scheduled_process_retry_job,
}
use m8flow_bpmn_core.ProcessInstances.Reactivation.{
  current, running_fields, retried_fields, resume_from, resume_process_instance, retry_from,
  retry_process_instance,
}
use m8flow_bpmn_core.ProcessInstances.RuntimeState.{
  is_completed_task, is_terminated_task, is_terminated_item, task_of, item_of, close_task,
  reopen_task, archive_future_task, restore_future_task, touch_tasks,
  close_process_instance_runtime_state, is_reopened, reopen_process_instance_runtime_state,
}
use m8flow_bpmn_core.SchedulerJobs.{
  id_part, qualifier_part, blank_qualifier, build_scheduler_job_key, has_key, upsert_scheduler_job,
  is_due, due_before, insert_due, sort_due, list_due_scheduler_jobs, delete_scheduler_job,
}
use m8flow_bpmn_core.SchedulerRuntime.{
  normalize_worker_id, lock_job, claim_due_scheduler_jobs, release_scheduler_job_lock, drop_job,
  scheduler_job_user_id, awaits_timer, has_workflow, is_errored, has_source, find_tenant,
  ensure_timer_start_system_user, reschedule_or_delete_timer_start_job,
  execute_intermediate_timer_job, execute_process_retry_job, execute_timer_start_job,
  execute_claimed_scheduler_job, run_claimed_jobs, run_due_scheduler_jobs,
}
use m8flow_bpmn_core.SchedulerRuntime.TimerStart.{
  scheduler_job_timer_task, scheduler_job_task_spec_name, next_due, positive_duration,
  remaining_cycles, run_at_in_seconds, following_payload, next_is_text, next_recurring,
  next_timer_start_task_payload_after_fire, payload_run_at,
}
use m8flow_bpmn_core.ServiceTasks.OperationIds.{
  normalize_non_blank, operation_id_of_parts, build_service_task_operation_id, onto_first,
  split_at_char, two_parts, split_service_task_operation_id, execute_path,
  build_connector_proxy_execute_path,
}
use m8flow_bpmn_core.ServiceTasks.Proxy.{
  normalize_base_url, normalize_connector_key, normalize_timeout_seconds, is_reserved,
  parameters_payload, with_task_data, with_callback_url, connector_proxy_request_payload,
  is_error_value, is_error_payload, proxy_outcome, connector_proxy_json_request, is_command_id,
  post_request, proxy_execute, check_commands, connector_proxy_service_task_connector,
}
use m8flow_bpmn_core.ServiceTasks.Proxy.Catalog.{
  parameter_name, parameter_names, parse_connector_proxy_parameter_definitions, entry_with_id,
  catalog_entry, catalog_entries, command_before, insert_command, sort_commands, catalog_of,
  fetch_connector_proxy_command_definitions, insert_in_group, commands_by_connector_key,
  connectors_of, build_connector_proxy_service_task_connectors,
  build_connector_proxy_service_task_registry,
}
use m8flow_bpmn_core.ServiceTasks.Proxy.Payload.{reserved_value}
use m8flow_bpmn_core.ServiceTasks.Registry.{
  service_task_command_definition, operation_id, service_task_request, request_connector_key,
  request_command_name, connector_at, set_connector, register_connector, register_connectors,
  resolve_service_task_registry, unregister_connector, get_connector, list_connectors, all_commands,
  list_commands, find_command, get_command, connector_of_request, execute,
}
use m8flow_bpmn_core.Session.{add, add_keyed, update, delete, first, select, for_each}
use m8flow_bpmn_core.Tasks.{
  is_potential_owner, is_open_item, get_pending_tasks, member_of_lane_group,
  already_potential_owner, has_lane_group, newly_assigned, lane_row, assign_pending_tasks_for_user,
  load_work_item, user_is_assigned, task_authorization_metadata, task_resource_id, authorize_task,
  owned_by_another, claim_check, is_claimable, touch_instance, claim_write, claim_task,
  persist_task_payload, completed_task, complete_check, complete_task_rows, record_completion,
  advance_after_completion, complete_instance, complete_task,
}
use m8flow_bpmn_core.TenantUsers.{
  identifier_of, identifier_of_option, service_realm, realm_identifiers, user_tenant_identifiers,
  member, user_belongs_to_tenant, tenant_row_identifiers, tenant_identifiers_for, get_user,
  ensure_user_belongs_to_tenant,
}
use m8flow_bpmn_core.WorkItems.{
  state_value, claim_work_item, complete_work_item, close_work_item, reopen_work_item,
  prepare_work_item_for_ready_state, task_model, definition_task_name, task_name, task_lane,
  lane_name,
}
use m8flow_bpmn_core.WorkflowRuntime.Manual.{
  properties_of, materialize_single_manual_task, materialize_tasks, materialize_ready_manual_tasks,
}
use m8flow_bpmn_core.WorkflowRuntime.Operations.{
  is_empty_data, update_fields, is_synced_item, task_with_guid, coerce_metadata_value,
  metadata_payload, load_process_instance_metadata_payload, apply_metadata_to_workflow,
  workflow_data_of_task, store_run, run_and_store, advance_stored, on_live_workflow,
  advance_process_instance_workflow, refresh_stored, refresh_waiting_process_instance_workflow,
  reset_tasks, retry_tasks, retry_stored, retry_errored_service_task_workflow_if_needed,
  sync_item_owners, sync_owners_stored, sync_open_work_item_potential_owners,
  repair_process_instance_runtime_representation,
}
use m8flow_bpmn_core.WorkflowRuntime.Run.{
  first_id, record_failed_task, failing_status, failing_fields, errored_service_tasks,
  persist_failed_state, transition_process_instance_to_error_for_service_task_failure,
  failure_in_session, persist_service_task_failure_state_in_independent_session,
  on_service_task_failure, run_outcome, run_workflow_with_service_task_failure_handling,
}
use m8flow_bpmn_core.WorkflowRuntime.StateRows.{
  mapping_at_key, starts_with, has_field, merge_properties, with_model_identifier, sync_task_specs,
  sync_serialized_task_specs, sync_subprocess_specs, synced_definition, sync_definition_row,
  definition_of, sync_process_definition_from_workflow, own_task_rows, append_rows, rows_of_tasks,
  iter_serialized_task_rows, sync_task_row, sync_task_rows, sync_task_models_from_workflow,
  sync_bpmn_process_from_workflow, persist_workflow_state, persist_workflow_recovery_state,
}
use m8flow_bpmn_core.WorkflowRuntime.Status.{
  is_empty, completed_fields, open_fields, archive_completed_workflow_runtime_state, open_status,
  update_process_instance_status_from_workflow,
}
use m8flow_bpmn_core.WorkflowRuntime.TaskRows.{
  prefixed, text_given, text_of_option, set_default, is_definition,
  upsert_task_definition_from_payload, mapping_or_error, name_given, upsert_task_definition,
  state_number, is_terminal_state, value_or, runtime_info_of, upsert_task_model_from_payload,
  upsert_task_model, is_item_of_instance, touch_task_time, upsert_work_item, upsert_future_task,
}
use m8flow_bpmn_core.WorkflowRuntime.TimerJobs.{
  ceil_seconds, waiting_timer_event_value, moment_in_seconds, next_in_seconds,
  timer_event_run_at_in_seconds, is_start_event, text_or_null, timer_payload, timer_payloads_of,
  text_before, payload_before, insert_payload, sort_payloads, collect_waiting_timer_payloads,
  least_run_at, payload_items, timer_tasks_payload, intermediate_timer_job,
  sync_intermediate_timer_scheduler_job, timer_start_job, timer_start_jobs, is_timer_start,
  sync_timer_start_scheduler_jobs,
}
use m8flow_bpmn_core.WorkflowRuntime.TimerStarts.{
  forced_due_timer_event_value, is_start_spec, is_timer_start_named, is_ready_status,
  get_ready_work_items, workflow_has_progressed_past_timer_start, force_task_due,
  force_waiting_timer_start_task_due,
}
use m8flow_bpmn_core.WorkflowRuntime.WorkItemRows.{
  get_task, is_ready, has_ready_row, current_ready_manual_tasks, inactive_work_item_status,
  inactive_work_item_event_type, complete_future_task, record_event_if, close_future_task,
  close_inactive_work_item, is_ready_guid, sync_item_on, sync_work_item, sync_inactive_work_items,
}
use m8flow_bpmn_core.WorkflowRuntime.WorkItemRows.Steps.{settled}

-- A declaration that unfolds this one computes through all of them.
unfoldable pub evaluated : Unit {0}
unfolding flat_map query_tenant_id execute_query authorization_spec_for_command
    command_authorization_specs authorization_spec_for_command_key v1_basic_role_command_keys
    get_or_create find_or_create_group add_user_to_group find_or_create_principal_for_user
    find_or_create_principal_for_group stored_component blank_but_given
    find_or_create_permission_target same_grant_type find_or_create_permission_assignment
    grant_permission_to_group grant_permission_to_user grant_command_permissions_to_group
    tenant_role_group_identifier role_command_keys ensure_v1_role is_permission is_resource_type
    is_deny is_permit normalize_resource_component group_identifier_applies_to_tenant
    command_matches id_matches resource_matches permission_target_of target_matches_request
    permission_assignment_matches_request group_principal_ids contains_id principal_ids
    permission_assignments_for_user decide_from matching_assignments database_policy
    build_authorization_request resolve_authorization_policy require_command_authorization find any
    keep update_where is_space is_blank lstrip rstrip_when strip has_char before_char
    after_last_char after_prefix last_piece contains show_nat is_digit is_bpmn_core_error hex_digit
    hex_prefix as_array hash_input texts_of extend_lane has_lane check_requested normalized
    normalized_tenant resolve_lane_assignment_id normalize_lane_text normalize_lane_name
    group_lane_owners lane_owner_identifiers usable_lanes configured_initiator_lanes requested_lanes
    known_lanes validate_initiator_list validate_initiator_value validate_initiator_lanes
    lane_group_identifier lower_group least_group has_id insert_id sorted_ids assigned
    add_group_members tenant_group_members is_legacy_group renames_to use_group
    find_or_create_lane_group tenant_members names_user lookup_local_part lookup_owner users_for
    add_users lane_owners_from lane_owners set_owners label_of initiator is_owner_of
    add_potential_owner add_missing_potential_owners definition_lane_owners mapping_at
    effective_lane_owners enroll_lane_owners resolve_owners enroll_definition_lane_owners value_at
    set_lane_group group_of_lane with_group owners_in_lane resolve_potential_owners
    assign_work_item_potential_owners event_category_for_type event_type_value event_type_of get put
    drop_key as_text as_object Action-discrete ResourceType-discrete PermitDeny-discrete
    job_type_value status_value Status-discrete has_terminal_status active_statuses
    ensure_user_if_given create_process_instance is_instance load_process_instance normalize_status
    has_status list_process_instances record_process_instance_event event_before insert_event
    sort_events get_process_instance_events is_metadata upsert_process_instance_metadata
    metadata_before insert_metadata sort_metadata get_process_instance_metadata
    list_error_process_instances list_suspended_process_instances list_terminated_process_instances
    set_instance record_lifecycle_event process_retry_scheduler_job_key authorized_instance
    suspended_fields ended_fields suspend_from suspend_process_instance end_instance error_from
    error_process_instance terminate_from terminate_process_instance schedule_from
    schedule_process_instance_retry delete_scheduled_process_retry_job current running_fields
    retried_fields resume_from resume_process_instance retry_from retry_process_instance
    is_completed_task is_terminated_task is_terminated_item task_of item_of close_task reopen_task
    archive_future_task restore_future_task touch_tasks close_process_instance_runtime_state
    is_reopened reopen_process_instance_runtime_state id_part qualifier_part blank_qualifier
    build_scheduler_job_key has_key upsert_scheduler_job is_due due_before insert_due sort_due
    list_due_scheduler_jobs delete_scheduler_job normalize_worker_id lock_job
    claim_due_scheduler_jobs release_scheduler_job_lock drop_job scheduler_job_user_id awaits_timer
    has_workflow is_errored has_source find_tenant ensure_timer_start_system_user
    reschedule_or_delete_timer_start_job execute_intermediate_timer_job execute_process_retry_job
    execute_timer_start_job execute_claimed_scheduler_job run_claimed_jobs run_due_scheduler_jobs
    scheduler_job_timer_task scheduler_job_task_spec_name next_due positive_duration
    remaining_cycles run_at_in_seconds following_payload next_is_text next_recurring
    next_timer_start_task_payload_after_fire payload_run_at normalize_non_blank
    operation_id_of_parts build_service_task_operation_id onto_first split_at_char two_parts
    split_service_task_operation_id execute_path build_connector_proxy_execute_path
    normalize_base_url normalize_connector_key normalize_timeout_seconds is_reserved
    parameters_payload with_task_data with_callback_url connector_proxy_request_payload
    is_error_value is_error_payload proxy_outcome connector_proxy_json_request is_command_id
    post_request proxy_execute check_commands connector_proxy_service_task_connector parameter_name
    parameter_names parse_connector_proxy_parameter_definitions entry_with_id catalog_entry
    catalog_entries command_before insert_command sort_commands catalog_of
    fetch_connector_proxy_command_definitions insert_in_group commands_by_connector_key
    connectors_of build_connector_proxy_service_task_connectors
    build_connector_proxy_service_task_registry reserved_value service_task_command_definition
    operation_id service_task_request request_connector_key request_command_name connector_at
    set_connector register_connector register_connectors resolve_service_task_registry
    unregister_connector get_connector list_connectors all_commands list_commands find_command
    get_command connector_of_request execute add add_keyed update delete first select for_each
    is_potential_owner is_open_item get_pending_tasks member_of_lane_group already_potential_owner
    has_lane_group newly_assigned lane_row assign_pending_tasks_for_user load_work_item
    user_is_assigned task_authorization_metadata task_resource_id authorize_task owned_by_another
    claim_check is_claimable touch_instance claim_write claim_task persist_task_payload
    completed_task complete_check complete_task_rows record_completion advance_after_completion
    complete_instance complete_task identifier_of identifier_of_option service_realm
    realm_identifiers user_tenant_identifiers member user_belongs_to_tenant tenant_row_identifiers
    tenant_identifiers_for get_user ensure_user_belongs_to_tenant state_value claim_work_item
    complete_work_item close_work_item reopen_work_item prepare_work_item_for_ready_state task_model
    definition_task_name task_name task_lane lane_name properties_of materialize_single_manual_task
    materialize_tasks materialize_ready_manual_tasks is_empty_data update_fields is_synced_item
    task_with_guid coerce_metadata_value metadata_payload load_process_instance_metadata_payload
    apply_metadata_to_workflow workflow_data_of_task store_run run_and_store advance_stored
    on_live_workflow advance_process_instance_workflow refresh_stored
    refresh_waiting_process_instance_workflow reset_tasks retry_tasks retry_stored
    retry_errored_service_task_workflow_if_needed sync_item_owners sync_owners_stored
    sync_open_work_item_potential_owners repair_process_instance_runtime_representation first_id
    record_failed_task failing_status failing_fields errored_service_tasks persist_failed_state
    transition_process_instance_to_error_for_service_task_failure failure_in_session
    persist_service_task_failure_state_in_independent_session on_service_task_failure run_outcome
    run_workflow_with_service_task_failure_handling mapping_at_key starts_with has_field
    merge_properties with_model_identifier sync_task_specs sync_serialized_task_specs
    sync_subprocess_specs synced_definition sync_definition_row definition_of
    sync_process_definition_from_workflow own_task_rows append_rows rows_of_tasks
    iter_serialized_task_rows sync_task_row sync_task_rows sync_task_models_from_workflow
    sync_bpmn_process_from_workflow persist_workflow_state persist_workflow_recovery_state is_empty
    completed_fields open_fields archive_completed_workflow_runtime_state open_status
    update_process_instance_status_from_workflow prefixed text_given text_of_option set_default
    is_definition upsert_task_definition_from_payload mapping_or_error name_given
    upsert_task_definition state_number is_terminal_state value_or runtime_info_of
    upsert_task_model_from_payload upsert_task_model is_item_of_instance touch_task_time
    upsert_work_item upsert_future_task ceil_seconds waiting_timer_event_value moment_in_seconds
    next_in_seconds timer_event_run_at_in_seconds is_start_event text_or_null timer_payload
    timer_payloads_of text_before payload_before insert_payload sort_payloads
    collect_waiting_timer_payloads least_run_at payload_items timer_tasks_payload
    intermediate_timer_job sync_intermediate_timer_scheduler_job timer_start_job timer_start_jobs
    is_timer_start sync_timer_start_scheduler_jobs forced_due_timer_event_value is_start_spec
    is_timer_start_named is_ready_status get_ready_work_items
    workflow_has_progressed_past_timer_start force_task_due force_waiting_timer_start_task_due
    get_task is_ready has_ready_row current_ready_manual_tasks inactive_work_item_status
    inactive_work_item_event_type complete_future_task record_event_if close_future_task
    close_inactive_work_item is_ready_guid sync_item_on sync_work_item sync_inactive_work_items
    settled
evaluated = tt
