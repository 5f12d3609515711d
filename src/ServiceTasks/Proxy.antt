-- ===== src/ServiceTasks/Proxy.antt =====
-- The connector that calls a proxy over HTTP: src/m8flow_core/services/connector_proxy_service_tasks.py.
-- The call itself is a parameter, with the joining of the URL and the reading of JSON. Timeouts are
-- microseconds, of which 0 is refused.
pub mod Payload
pub mod Catalog
use Prim.Native.Char.{code}
use Prim.Native.String.{compare}
use Prim.Native.Nat.{Ordering}
use m8flow_bpmn_core.Base.{
  ℕ, String, Bool, true, false, not, Option, none, some, List, [], ◌∷◌, ◌++◌, ◌==◌, Nat_Eq,
  String_Eq, if◌then◌else◌, any, keep,
}
use m8flow_bpmn_core.Base.Text.{is_blank, strip, rstrip_when, has_char, after_prefix}
use m8flow_bpmn_core.Errors.{Error}
use m8flow_bpmn_core.Model.Json.{
  Value, Fields, Items, text, array, object, end, field, nil, cons, get, put, as_text, as_object,
}
use m8flow_bpmn_core.Session.{Result, ok, err}
use m8flow_bpmn_core.ServiceTasks.OperationIds.{
  normalize_non_blank, split_service_task_operation_id, build_connector_proxy_execute_path,
}
use m8flow_bpmn_core.ServiceTasks.Registry.{
  ServiceTaskCommandDefinition, service_task_command_definition, operation_id, ServiceTaskRequest,
  request_connector_key, request_command_name, ServiceTaskResult, ServiceTaskConnector,
  ServiceTaskRegistry, register_connectors,
}

-- What comes of a call: the body, parsed, if it is not empty, and the status; or an HTTP or URL error.
pub data ProxyOutcome : Type 0 where
  answered : Option Value → ℕ → ProxyOutcome
  failed : ProxyOutcome

-- A call: the base URL, the path, the payload that is posted (or none, of a GET), and the timeout.
abbrev pub ProxyCall : Type 0
ProxyCall = String → String → Option Fields → ℕ → ProxyOutcome

-- `base_url.strip().rstrip("/")`
unfoldable pub normalize_base_url : String → Result String
normalize_base_url base_url =
    let normalized = rstrip_when (λ c. code c == b'/') (strip base_url) in
    if is_blank normalized then err Error.validation_error else ok normalized

unfoldable pub normalize_connector_key : String → Result String
normalize_connector_key connector_key = elim (normalize_non_blank connector_key) [
  | err e ↦ err e
  | ok key ↦ if has_char b'/' key then err Error.validation_error else ok key
]

unfoldable pub normalize_timeout_seconds : ℕ → Result ℕ
normalize_timeout_seconds timeout = if timeout == 0 then err Error.validation_error else ok timeout

abbrev pub task_data_parameter : String
task_data_parameter = "spiff__task_data"

abbrev pub callback_url_parameter : String
callback_url_parameter = "spiff__callback_url"

-- `name.startswith("spiff__")`
unfoldable pub is_reserved : String → Bool
is_reserved name = elim (after_prefix "spiff__" name) [ none ↦ false | some _ ↦ true ]

-- The loop over the parameters.
unfoldable pub parameters_payload : Fields → Fields → Result Fields
parameters_payload payload end = ok payload
parameters_payload payload (field name v rest) =
    let later = parameters_payload (put name v payload) rest in
    if is_reserved name then err Error.validation_error else later

unfoldable pub with_task_data : Option Fields → Fields → Fields
with_task_data none payload = payload
with_task_data (some fs) payload = put task_data_parameter (object fs) payload

unfoldable pub with_callback_url : Option String → Fields → Result Fields
with_callback_url none payload = ok payload
with_callback_url (some url) payload =
    if is_blank (strip url)
    then err Error.validation_error
    else ok (put callback_url_parameter (text (strip url)) payload)

abbrev pub fields_or_empty : Option Fields → Fields
fields_or_empty none = end
fields_or_empty (some fs) = fs

unfoldable pub connector_proxy_request_payload : ServiceTaskRequest → Result Fields
connector_proxy_request_payload request =
    elim (parameters_payload end (fields_or_empty request.parameters)) [
      | err e ↦ err e
      | ok payload ↦
          with_callback_url request.callback_url (with_task_data request.task_data payload)
    ]

-- `isinstance(raw_error, Mapping) and raw_error`
unfoldable pub is_error_value : Option Value → Bool
is_error_value (some (object (field key v rest))) = true
is_error_value _ = false

unfoldable pub is_error_payload : Option Value → Bool
is_error_payload (some (object fs)) = is_error_value (get "error" fs)
is_error_payload _ = false

unfoldable pub proxy_outcome : ProxyOutcome → Result (Option Value × ℕ)
proxy_outcome failed = err Error.service_task_execution_error
proxy_outcome (answered body status) =
    if is_error_payload body then err Error.service_task_execution_error else ok (body, status)

unfoldable pub connector_proxy_json_request :
    ProxyCall → String → String → Option Fields → ℕ → Result (Option Value × ℕ)
connector_proxy_json_request call base_url path payload timeout =
    elim (normalize_base_url base_url) [
      | err e ↦ err e
      | ok url ↦ elim (normalize_timeout_seconds timeout) [
        | err e ↦ err e
        | ok t ↦ proxy_outcome (call url path payload t)
      ]
    ]

-- `request.operation_id not in self._commands_by_operation_id`
unfoldable pub is_command_id : String → List ServiceTaskCommandDefinition → Bool
is_command_id id commands =
    any (λ d. elim (operation_id d) [ err e ↦ false | ok own ↦ own == id ]) commands

unfoldable pub post_request :
    ProxyCall → String → ℕ → String → ServiceTaskRequest → Result ServiceTaskResult
post_request call base_url timeout key request = elim (connector_proxy_request_payload request) [
  | err e ↦ err e
  | ok payload ↦ elim (request_command_name request) [
    | err e ↦ err e
    | ok name ↦ elim (build_connector_proxy_execute_path key name) [
      | err e ↦ err e
      | ok path ↦ elim (connector_proxy_json_request call base_url path (some payload) timeout) [
        | err e ↦ err e
        | ok (body, status) ↦ ok (record { payload = body })
      ]
    ]
  ]
]

-- `ConnectorProxyServiceTaskConnector.execute`
unfoldable pub proxy_execute :
    ProxyCall
    → String
    → String
    → ℕ
    → List ServiceTaskCommandDefinition
    → ServiceTaskRequest
    → Result ServiceTaskResult
proxy_execute call connector_key base_url timeout commands request =
    elim (request_connector_key request) [
      | err e ↦ err e
      | ok key ↦
          if not (key == connector_key)
          then err Error.validation_error
          else if not (is_command_id request.operation commands)
          then err Error.not_found_error
          else post_request call base_url timeout key request
    ]

-- The loop over the commands: each is of the connector, and has an id.
unfoldable pub check_commands : String → List ServiceTaskCommandDefinition → Result (Unit {0})
check_commands key [] = ok tt
check_commands key (d ∷ ds) =
    let later = check_commands key ds in
    if not (d.connector_key == key)
    then err Error.validation_error
    else elim (operation_id d) [ err e ↦ err e | ok _ ↦ later ]

-- `ConnectorProxyServiceTaskConnector.__init__`
unfoldable pub connector_proxy_service_task_connector :
    ProxyCall
    → String
    → String
    → List ServiceTaskCommandDefinition
    → ℕ
    → Result ServiceTaskConnector
connector_proxy_service_task_connector call connector_key base_url commands timeout =
    elim (normalize_connector_key connector_key) [
      | err e ↦ err e
      | ok key ↦ elim (normalize_base_url base_url) [
        | err e ↦ err e
        | ok url ↦ elim (normalize_timeout_seconds timeout) [
          | err e ↦ err e
          | ok t ↦ elim (check_commands key commands) [
            | err e ↦ err e
            | ok _ ↦ ok (record {
              connector_key = key;
              commands = commands;
              run = proxy_execute call key url t commands;
            })
          ]
        ]
      ]
    ]
