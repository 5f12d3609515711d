-- ===== src/ServiceTasks/Proxy/Catalog.antt =====
-- The connectors that a proxy's catalog names: `fetch_connector_proxy_command_definitions` and the
-- two `build_…` functions of src/m8flow_core/services/connector_proxy_service_tasks.py.
use Prim.Native.String.{compare}
use Prim.Native.Nat.{Ordering}
use m8flow_bpmn_core.Base.{
  ℕ, String, Bool, true, false, Option, none, some, List, [], ◌∷◌, ◌++◌, String_Eq, if◌then◌else◌,
}
use m8flow_bpmn_core.Errors.{Error}
use m8flow_bpmn_core.Model.Json.{Value, Fields, Items, array, nil, cons, get, as_text, as_object}
use m8flow_bpmn_core.Session.{Result, ok, err}
use m8flow_bpmn_core.ServiceTasks.OperationIds.{
  normalize_non_blank, split_service_task_operation_id,
}
use m8flow_bpmn_core.ServiceTasks.Registry.{
  ServiceTaskCommandDefinition, service_task_command_definition, ServiceTaskConnector,
  ServiceTaskRegistry, register_connectors,
}
use m8flow_bpmn_core.ServiceTasks.Proxy.{
  ProxyCall, normalize_base_url, connector_proxy_json_request,
  connector_proxy_service_task_connector,
}

-- A parameter of the catalog, by its name: an object with an id that is not blank.
unfoldable pub parameter_name : Value → Result String
parameter_name v = elim (as_object v) [
  | none ↦ err Error.service_task_execution_error
  | some fs ↦ elim (get "id" fs) [
    | none ↦ err Error.service_task_execution_error
    | some id ↦ elim (as_text id) [
      | none ↦ err Error.service_task_execution_error
      | some name ↦ normalize_non_blank name
    ]
  ]
]

unfoldable pub parameter_names : Items → Result (List String)
parameter_names nil = ok []
parameter_names (cons v rest) =
    let later = parameter_names rest in
    elim (parameter_name v) [
      | err e ↦ err e
      | ok name ↦ elim later [ err e ↦ err e | ok names ↦ ok (name ∷ names) ]
    ]

unfoldable pub parse_connector_proxy_parameter_definitions : Fields → Result (List String)
parse_connector_proxy_parameter_definitions entry = elim (get "parameters" entry) [
  | none ↦ ok []
  | some (array xs) ↦ parameter_names xs
  | some _ ↦ err Error.service_task_execution_error
]

-- The definition of an entry with this id.
unfoldable pub entry_with_id : String → Fields → Result ServiceTaskCommandDefinition
entry_with_id id entry = elim (split_service_task_operation_id id) [
  | err e ↦ err e
  | ok (connector_key, command_name) ↦ elim (parse_connector_proxy_parameter_definitions entry) [
    | err e ↦ err e
    | ok _ ↦ service_task_command_definition connector_key command_name
  ]
]

unfoldable pub catalog_entry : Value → Result ServiceTaskCommandDefinition
catalog_entry v = elim (as_object v) [
  | none ↦ err Error.service_task_execution_error
  | some entry ↦ elim (get "id" entry) [
    | none ↦ err Error.service_task_execution_error
    | some raw ↦ elim (as_text raw) [
      | none ↦ err Error.service_task_execution_error
      | some id ↦ entry_with_id id entry
    ]
  ]
]

unfoldable pub catalog_entries : Items → Result (List ServiceTaskCommandDefinition)
catalog_entries nil = ok []
catalog_entries (cons v rest) =
    let later = catalog_entries rest in
    elim (catalog_entry v) [
      | err e ↦ err e
      | ok d ↦ elim later [ err e ↦ err e | ok ds ↦ ok (d ∷ ds) ]
    ]

-- The sort key: the connector's key, and the command's name.
unfoldable pub command_before : ServiceTaskCommandDefinition → ServiceTaskCommandDefinition → Bool
command_before a b = elim (compare a.connector_key b.connector_key) [
  | Ordering.lt ↦ true
  | Ordering.gt ↦ false
  | Ordering.eq ↦ elim (compare a.command_name b.command_name) [ Ordering.lt ↦ true | _ ↦ false ]
]

unfoldable pub insert_command :
    ServiceTaskCommandDefinition
    → List ServiceTaskCommandDefinition
    → List ServiceTaskCommandDefinition
insert_command d [] = d ∷ []
insert_command d (x ∷ xs) =
    let later = insert_command d xs in if command_before x d then x ∷ later else d ∷ x ∷ xs

unfoldable pub sort_commands : List ServiceTaskCommandDefinition → List ServiceTaskCommandDefinition
sort_commands [] = []
sort_commands (d ∷ ds) = insert_command d (sort_commands ds)

unfoldable pub catalog_of : Option Value → Result (List ServiceTaskCommandDefinition)
catalog_of (some (array xs)) = elim (catalog_entries xs) [
  | err e ↦ err e
  | ok ds ↦ ok (sort_commands ds)
]
catalog_of _ = err Error.service_task_execution_error

unfoldable pub fetch_connector_proxy_command_definitions :
    ProxyCall → String → ℕ → Result (List ServiceTaskCommandDefinition)
fetch_connector_proxy_command_definitions call base_url timeout =
    elim (normalize_base_url base_url) [
      | err e ↦ err e
      | ok url ↦ elim (connector_proxy_json_request call url "/v1/commands" none timeout) [
        | err e ↦ err e
        | ok (body, status) ↦ catalog_of body
      ]
    ]

-- `groups.setdefault(key, []).append(command)`, with the keys in the order of `sorted`.
unfoldable pub insert_in_group :
    ServiceTaskCommandDefinition
    → List (String × List ServiceTaskCommandDefinition)
    → List (String × List ServiceTaskCommandDefinition)
insert_in_group d [] = (d.connector_key, d ∷ []) ∷ []
insert_in_group d ((key, ds) ∷ rest) =
    let later = insert_in_group d rest in
    elim (compare d.connector_key key) [
      | Ordering.lt ↦ (d.connector_key, d ∷ []) ∷ (key, ds) ∷ rest
      | Ordering.eq ↦ (key, ds ++ (d ∷ [])) ∷ rest
      | Ordering.gt ↦ (key, ds) ∷ later
    ]

unfoldable pub commands_by_connector_key :
    List (String × List ServiceTaskCommandDefinition)
    → List ServiceTaskCommandDefinition
    → List (String × List ServiceTaskCommandDefinition)
commands_by_connector_key groups [] = groups
commands_by_connector_key groups (d ∷ ds) = commands_by_connector_key (insert_in_group d groups) ds

unfoldable pub connectors_of :
    ProxyCall
    → String
    → ℕ
    → List (String × List ServiceTaskCommandDefinition)
    → Result (List ServiceTaskConnector)
connectors_of call base_url timeout [] = ok []
connectors_of call base_url timeout ((key, ds) ∷ rest) =
    let later = connectors_of call base_url timeout rest in
    elim (connector_proxy_service_task_connector call key base_url ds timeout) [
      | err e ↦ err e
      | ok c ↦ elim later [ err e ↦ err e | ok cs ↦ ok (c ∷ cs) ]
    ]

unfoldable pub build_connector_proxy_service_task_connectors :
    ProxyCall → String → ℕ → Result (List ServiceTaskConnector)
build_connector_proxy_service_task_connectors call base_url timeout =
    elim (fetch_connector_proxy_command_definitions call base_url timeout) [
      | err e ↦ err e
      | ok ds ↦ connectors_of call base_url timeout (commands_by_connector_key [] ds)
    ]

unfoldable pub build_connector_proxy_service_task_registry :
    ProxyCall → String → ℕ → Result ServiceTaskRegistry
build_connector_proxy_service_task_registry call base_url timeout =
    elim (build_connector_proxy_service_task_connectors call base_url timeout) [
      | err e ↦ err e
      | ok cs ↦ register_connectors cs []
    ]
