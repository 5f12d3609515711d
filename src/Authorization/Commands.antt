-- ===== src/Authorization/Commands.antt =====
-- The command table of services/authorization.py.
use m8flow_bpmn_core.Base.{String, Option, none, some, List, [], ◌∷◌, map, ◌==◌, String_Eq, find}
use m8flow_bpmn_core.Errors.{Error}
use m8flow_bpmn_core.Model.Permission.{PermissionAction, PermissionResourceType}
use m8flow_bpmn_core.Session.{Result, ok, err}

abbrev pub task_claim_command : String
task_claim_command = "task.claim"

abbrev pub task_complete_command : String
task_complete_command = "task.complete"

abbrev pub process_start_command : String
process_start_command = "process.start"

abbrev pub process_create_command : String
process_create_command = "process.create"

abbrev pub process_definition_import_command : String
process_definition_import_command = "process_definition.import"

abbrev pub process_workflow_initialize_command : String
process_workflow_initialize_command = "process.initialize_workflow"

abbrev pub process_metadata_upsert_command : String
process_metadata_upsert_command = "process.metadata.upsert"

abbrev pub process_event_record_command : String
process_event_record_command = "process.event.record"

abbrev pub process_suspend_command : String
process_suspend_command = "process.suspend"

abbrev pub process_resume_command : String
process_resume_command = "process.resume"

abbrev pub process_error_command : String
process_error_command = "process.error"

abbrev pub process_retry_command : String
process_retry_command = "process.retry"

abbrev pub process_terminate_command : String
process_terminate_command = "process.terminate"

pub record CommandAuthorizationSpec : Type 0 where
  pub command_key : String
  pub permission : PermissionAction
  pub resource_type : PermissionResourceType
  pub actor_field_name : Option String

-- The command classes of application/commands.py, in the order of `COMMAND_AUTHORIZATION_SPECS`.
pub data CommandType : Type 0 where
  claim_task complete_task create_process_instance import_bpmn_process_definition
        initialize_process_instance_from_definition initialize_process_instance_workflow
        upsert_process_instance_metadata record_process_instance_event suspend_process_instance
        resume_process_instance error_process_instance retry_process_instance
        schedule_process_instance_retry terminate_process_instance :
      CommandType

abbrev pub command_types : List CommandType
command_types =
    CommandType.claim_task ∷ CommandType.complete_task ∷ CommandType.create_process_instance
    ∷ CommandType.import_bpmn_process_definition
    ∷ CommandType.initialize_process_instance_from_definition
    ∷ CommandType.initialize_process_instance_workflow
    ∷ CommandType.upsert_process_instance_metadata ∷ CommandType.record_process_instance_event
    ∷ CommandType.suspend_process_instance ∷ CommandType.resume_process_instance
    ∷ CommandType.error_process_instance ∷ CommandType.retry_process_instance
    ∷ CommandType.schedule_process_instance_retry ∷ CommandType.terminate_process_instance ∷ []

abbrev spec :
    String → PermissionAction → PermissionResourceType → Option String → CommandAuthorizationSpec
spec key permission resource actor = record {
  command_key = key;
  permission = permission;
  resource_type = resource;
  actor_field_name = actor;
}

-- `COMMAND_AUTHORIZATION_SPECS`, which has an entry for each class.
unfoldable pub authorization_spec_for_command : CommandType → CommandAuthorizationSpec
authorization_spec_for_command CommandType.claim_task =
    spec task_claim_command PermissionAction.execute PermissionResourceType.task (some "user_id")
authorization_spec_for_command CommandType.complete_task =
    spec task_complete_command PermissionAction.execute PermissionResourceType.task (some "user_id")
authorization_spec_for_command CommandType.create_process_instance =
    spec process_create_command PermissionAction.create PermissionResourceType.process_instance
      (some "process_initiator_id")
authorization_spec_for_command CommandType.import_bpmn_process_definition =
    spec process_definition_import_command PermissionAction.create
      PermissionResourceType.process_definition (some "user_id")
authorization_spec_for_command CommandType.initialize_process_instance_from_definition =
    spec process_start_command PermissionAction.start PermissionResourceType.process_model
      (some "process_initiator_id")
authorization_spec_for_command CommandType.initialize_process_instance_workflow =
    spec process_workflow_initialize_command PermissionAction.execute
      PermissionResourceType.process_instance none
authorization_spec_for_command CommandType.upsert_process_instance_metadata =
    spec process_metadata_upsert_command PermissionAction.update
      PermissionResourceType.process_instance none
authorization_spec_for_command CommandType.record_process_instance_event =
    spec process_event_record_command PermissionAction.create
      PermissionResourceType.process_instance (some "user_id")
authorization_spec_for_command CommandType.suspend_process_instance =
    spec process_suspend_command PermissionAction.execute PermissionResourceType.process_instance
      (some "user_id")
authorization_spec_for_command CommandType.resume_process_instance =
    spec process_resume_command PermissionAction.execute PermissionResourceType.process_instance
      (some "user_id")
authorization_spec_for_command CommandType.error_process_instance =
    spec process_error_command PermissionAction.execute PermissionResourceType.process_instance
      (some "user_id")
authorization_spec_for_command CommandType.retry_process_instance =
    spec process_retry_command PermissionAction.execute PermissionResourceType.process_instance
      (some "user_id")
authorization_spec_for_command CommandType.schedule_process_instance_retry =
    spec process_retry_command PermissionAction.execute PermissionResourceType.process_instance
      (some "user_id")
authorization_spec_for_command CommandType.terminate_process_instance =
    spec process_terminate_command PermissionAction.execute PermissionResourceType.process_instance
      (some "user_id")

-- `COMMAND_AUTHORIZATION_SPECS.values()`
unfoldable pub command_authorization_specs : List CommandAuthorizationSpec
command_authorization_specs = map authorization_spec_for_command command_types

abbrev or_key_error : Option CommandAuthorizationSpec → Result CommandAuthorizationSpec
or_key_error none = err Error.key_error
or_key_error (some s) = ok s

-- `COMMAND_AUTHORIZATION_SPECS_BY_KEY[command_key]`. Two classes have the key "process.retry", at
-- equal specs, so the first entry of a key is as good as the last.
unfoldable pub authorization_spec_for_command_key : String → Result CommandAuthorizationSpec
authorization_spec_for_command_key key =
    or_key_error (find (λ s. s.command_key == key) command_authorization_specs)

abbrev pub role_user : String
role_user = "user"

abbrev pub role_manager : String
role_manager = "manager"

abbrev pub role_admin : String
role_admin = "admin"

-- `V1_BASIC_ROLE_COMMAND_KEYS`, for the names in `BASIC_ROLE_NAMES`.
unfoldable pub v1_basic_role_command_keys : List (String × List String)
v1_basic_role_command_keys =
    (role_user, process_start_command ∷ task_claim_command ∷ task_complete_command ∷ [])
    ∷ (role_manager, task_claim_command ∷ task_complete_command ∷ [])
    ∷ (
      role_admin,
      process_start_command ∷ task_claim_command ∷ task_complete_command
          ∷ process_definition_import_command ∷ process_suspend_command ∷ process_resume_command
          ∷ process_retry_command ∷ process_terminate_command ∷ [],
    )
    ∷ []
