-- ===== src/ServiceTasks/Registry.antt =====
-- The registry of connectors: the dataclasses and `ServiceTaskRegistry` of
-- src/m8flow_core/services/service_tasks.py. What a connector raises is in its result.
pub mod Execution
use m8flow_bpmn_core.Base.{
  String, Bool, false, not, Option, none, some, List, [], ◌∷◌, ◌++◌, map, ◌==◌, String_Eq,
  if◌then◌else◌, keep,
}
use m8flow_bpmn_core.Base.Text.{has_char}
use m8flow_bpmn_core.Errors.{Error}
use m8flow_bpmn_core.Model.Json.{Value, Fields}
use m8flow_bpmn_core.Session.{Result, ok, err}
use m8flow_bpmn_core.ServiceTasks.OperationIds.{
  normalize_non_blank, build_service_task_operation_id, split_service_task_operation_id,
}

pub record ServiceTaskCommandDefinition : Type 0 where
  pub connector_key : String
  pub command_name : String

-- `__post_init__`: the names are kept without their outer blanks, and have no slash.
unfoldable pub service_task_command_definition :
    String → String → Result ServiceTaskCommandDefinition
service_task_command_definition connector_key command_name =
    elim (normalize_non_blank connector_key) [
      | err e ↦ err e
      | ok key ↦ elim (normalize_non_blank command_name) [
        | err e ↦ err e
        | ok name ↦
            if has_char b'/' key
            then err Error.validation_error
            else if has_char b'/' name
            then err Error.validation_error
            else ok (record { connector_key = key; command_name = name })
      ]
    ]

unfoldable pub operation_id : ServiceTaskCommandDefinition → Result String
operation_id d = build_service_task_operation_id d.connector_key d.command_name

-- A request holds its operation's id as it was given, if that can be split.
pub record ServiceTaskRequest : Type 0 where
  pub operation : String
  pub parameters : Option Fields
  pub task_data : Option Fields
  pub callback_url : Option String

-- `__post_init__`
unfoldable pub service_task_request :
    String → Option Fields → Option Fields → Option String → Result ServiceTaskRequest
service_task_request operation parameters task_data callback_url =
    elim (split_service_task_operation_id operation) [
      | err e ↦ err e
      | ok _ ↦ ok (record {
        operation = operation;
        parameters = parameters;
        task_data = task_data;
        callback_url = callback_url;
      })
    ]

unfoldable pub request_connector_key : ServiceTaskRequest → Result String
request_connector_key request = elim (split_service_task_operation_id request.operation) [
  | err e ↦ err e
  | ok (connector_key, command_name) ↦ ok connector_key
]

unfoldable pub request_command_name : ServiceTaskRequest → Result String
request_command_name request = elim (split_service_task_operation_id request.operation) [
  | err e ↦ err e
  | ok (connector_key, command_name) ↦ ok command_name
]

pub record ServiceTaskResult : Type 0 where
  pub payload : Option Value

pub record ServiceTaskConnector : Type 0 where
  pub connector_key : String
  pub commands : List ServiceTaskCommandDefinition
  pub run : ServiceTaskRequest → Result ServiceTaskResult

-- The dictionary `_connectors`, in the order of its keys.
abbrev pub ServiceTaskRegistry : Type 0
ServiceTaskRegistry = List (String × ServiceTaskConnector)

unfoldable pub connector_at : String → ServiceTaskRegistry → Option ServiceTaskConnector
connector_at key [] = none
connector_at key ((k, c) ∷ rest) = if k == key then some c else connector_at key rest

-- `self._connectors[key] = connector`
unfoldable pub set_connector :
    String → ServiceTaskConnector → ServiceTaskRegistry → ServiceTaskRegistry
set_connector key c [] = (key, c) ∷ []
set_connector key c ((k, d) ∷ rest) =
    let later = set_connector key c rest in if k == key then (k, c) ∷ rest else (k, d) ∷ later

unfoldable pub register_connector :
    ServiceTaskConnector → Bool → ServiceTaskRegistry → Result ServiceTaskRegistry
register_connector c replace registry = elim (normalize_non_blank c.connector_key) [
  | err e ↦ err e
  | ok key ↦
      if has_char b'/' key then err Error.validation_error else elim (connector_at key registry) [
        | none ↦ ok (set_connector key c registry)
        | some _ ↦ if replace then ok (set_connector key c registry) else err Error.validation_error
      ]
]

-- `__init__`, from the empty dictionary: the connectors are registered one after the other.
unfoldable pub register_connectors :
    List ServiceTaskConnector → ServiceTaskRegistry → Result ServiceTaskRegistry
register_connectors [] registry = ok registry
register_connectors (c ∷ cs) registry = elim (register_connector c false registry) [
  | err e ↦ err e
  | ok after ↦ register_connectors cs after
]

-- The registry that is given, or what the active factory makes, or the default one. The factories
-- are the host's, and the active one is a context variable.
unfoldable pub resolve_service_task_registry :
    Option ServiceTaskRegistry
    → Option (Unit {0} → ServiceTaskRegistry)
    → (Unit {0} → ServiceTaskRegistry)
    → ServiceTaskRegistry
resolve_service_task_registry (some registry) active_factory default_factory = registry
resolve_service_task_registry none (some factory) default_factory = factory tt
resolve_service_task_registry none none default_factory = default_factory tt

unfoldable pub unregister_connector : String → ServiceTaskRegistry → Result ServiceTaskRegistry
unregister_connector connector_key registry = elim (normalize_non_blank connector_key) [
  | err e ↦ err e
  | ok key ↦ elim (connector_at key registry) [
    | none ↦ err Error.not_found_error
    | some _ ↦ ok (keep (λ (k, _). not (k == key)) registry)
  ]
]

unfoldable pub get_connector : String → ServiceTaskRegistry → Result ServiceTaskConnector
get_connector connector_key registry = elim (normalize_non_blank connector_key) [
  | err e ↦ err e
  | ok key ↦ elim (connector_at key registry) [ none ↦ err Error.not_found_error | some c ↦ ok c ]
]

unfoldable pub list_connectors : ServiceTaskRegistry → List String
list_connectors = map (λ (key, _). key)

unfoldable pub all_commands : ServiceTaskRegistry → List ServiceTaskCommandDefinition
all_commands [] = []
all_commands ((key, c) ∷ rest) = c.commands ++ all_commands rest

unfoldable pub list_commands :
    Option String → ServiceTaskRegistry → Result (List ServiceTaskCommandDefinition)
list_commands none registry = ok (all_commands registry)
list_commands (some connector_key) registry = elim (get_connector connector_key registry) [
  | err e ↦ err e
  | ok c ↦ ok c.commands
]

-- The loop over a connector's commands. Both sides of the comparison may raise.
unfoldable pub find_command :
    String → String → List ServiceTaskCommandDefinition → Result ServiceTaskCommandDefinition
find_command connector_key command_name [] = err Error.not_found_error
find_command connector_key command_name (d ∷ ds) =
    let later = find_command connector_key command_name ds in
    elim (operation_id d) [
      | err e ↦ err e
      | ok own ↦ elim (build_service_task_operation_id connector_key command_name) [
        | err e ↦ err e
        | ok wanted ↦ if own == wanted then ok d else later
      ]
    ]

unfoldable pub get_command : String → ServiceTaskRegistry → Result ServiceTaskCommandDefinition
get_command id registry = elim (split_service_task_operation_id id) [
  | err e ↦ err e
  | ok (connector_key, command_name) ↦ elim (get_connector connector_key registry) [
    | err e ↦ err e
    | ok c ↦ find_command connector_key command_name c.commands
  ]
]

unfoldable pub connector_of_request :
    ServiceTaskRequest → ServiceTaskRegistry → Result ServiceTaskConnector
connector_of_request request registry = elim (request_connector_key request) [
  | err e ↦ err e
  | ok connector_key ↦ get_connector connector_key registry
]

unfoldable pub execute : ServiceTaskRequest → ServiceTaskRegistry → Result ServiceTaskResult
execute request registry = elim (get_command request.operation registry) [
  | err e ↦ err e
  | ok _ ↦ elim (connector_of_request request registry) [ err e ↦ err e | ok c ↦ c.run request ]
]
