-- ===== src/Tests/Connectors.antt =====
-- A connector with one command, registered and run.
use mathlib.Core.List.Memᴰ
use m8flow_bpmn_core.Base.{
  String, true, false, none, some, [], ◌∷◌, ◌≡◌, refl, ◌==◌, String_Eq, if◌then◌else◌,
}
use m8flow_bpmn_core.Base.Text.{strip}
use m8flow_bpmn_core.Errors.{Error}
use m8flow_bpmn_core.Model.Json.{Fields, text, array, object, end, field, nil, cons, get}
use m8flow_bpmn_core.Session.{Result, ok, err}
use m8flow_bpmn_core.ServiceTasks.OperationIds.{
  build_service_task_operation_id, split_service_task_operation_id,
  build_connector_proxy_execute_path,
}
use m8flow_bpmn_core.ServiceTasks.OperationIds.RoundTrip.{split-build_service_task_operation_id}
use m8flow_bpmn_core.ServiceTasks.Registry.{
  ServiceTaskCommandDefinition, ServiceTaskRequest, ServiceTaskResult, ServiceTaskConnector,
  ServiceTaskRegistry, operation_id, connector_at, register_connector, execute,
}
use m8flow_bpmn_core.ServiceTasks.Registry.Execution.{
  register_connector-connector_at, execute-registered,
}
use m8flow_bpmn_core.ServiceTasks.Proxy.{
  ProxyCall, answered, is_reserved, connector_proxy_request_payload,
  connector_proxy_service_task_connector,
}
use m8flow_bpmn_core.ServiceTasks.Proxy.Catalog.{fetch_connector_proxy_command_definitions}
use m8flow_bpmn_core.ServiceTasks.Proxy.Payload.{
  reserved_value, connector_proxy_request_payload-reserved,
}
use m8flow_bpmn_core.Tests.Evaluated.{evaluated}

abbrev send : ServiceTaskCommandDefinition
send = record { connector_key = "mail"; command_name = "send" }

-- Its key has outer blanks.
abbrev mail : ServiceTaskConnector
mail = record {
  connector_key = " mail";
  commands = send ∷ [];
  run = λ request. ok (record { payload = some (text "sent") });
}

abbrev registered : ServiceTaskRegistry
registered = ("mail", mail) ∷ []

abbrev request : ServiceTaskRequest
request = record {
  operation = "mail/send";
  parameters = none;
  task_data = none;
  callback_url = none;
}

mail_present : register_connector mail false [] ≡ ok registered
unfolding evaluated
mail_present = refl

blanks_built : build_service_task_operation_id " mail" "send " ≡ ok "mail/send"
unfolding evaluated
blanks_built = refl

send_id : operation_id send ≡ ok "mail/send"
unfolding evaluated
send_id = refl

one_key : strip "mail" ≡ strip " mail"
unfolding evaluated
one_key = refl

execute_path_built : build_connector_proxy_execute_path "mail " "send" ≡ ok "/v1/do/mail/send"
unfolding evaluated
execute_path_built = refl

split-build_service_task_operation_id_example :
    split_service_task_operation_id "mail/send" ≡ ok (strip " mail", strip "send ")
split-build_service_task_operation_id_example =
    split-build_service_task_operation_id " mail" "send " "mail/send" blanks_built

register_connector-connector_at_example :
    connector_at "mail" registered
    ≡ (if strip mail.connector_key == "mail" then some mail else connector_at "mail" [])
register_connector-connector_at_example =
    register_connector-connector_at mail false [] registered "mail" mail_present

execute-registered_example : execute request registered ≡ mail.run request
execute-registered_example =
    execute-registered mail false [] registered send request mail_present
      (("mail/send", send_id), tt) (Memᴰ.head refl) one_key send_id

-- The proxy answers with a list of its commands, and with null to a call.
abbrev proxy : ProxyCall
proxy base_url path payload timeout = elim payload [
  | some _ ↦ answered none 200
  | none ↦ answered (some (array (cons (object (field "id" (text "mail/send") end)) nil))) 200
]

abbrev proxy_connector : Result ServiceTaskConnector
proxy_connector = connector_proxy_service_task_connector proxy "mail" "http://proxy/" (send ∷ []) 10

abbrev run_with : Result ServiceTaskConnector → String → Result ServiceTaskResult
run_with connector id = elim connector [
  | err e ↦ err e
  | ok c ↦
      c.run (record { operation = id; parameters = none; task_data = none; callback_url = none })
]

proxy_runs : run_with proxy_connector "mail/send" ≡ ok (record { payload = none })
unfolding evaluated
proxy_runs = refl

-- An id with outer blanks, which the registry accepts, is unknown to the connector.
proxy_refuses_blanks : run_with proxy_connector " mail/send" ≡ err Error.not_found_error
unfolding evaluated
proxy_refuses_blanks = refl

catalog_read : fetch_connector_proxy_command_definitions proxy "http://proxy/" 10 ≡ ok (send ∷ [])
unfolding evaluated
catalog_read = refl

abbrev posted : ServiceTaskRequest
posted = record {
  operation = "mail/send";
  parameters = some (field "to" (text "u") end);
  task_data = none;
  callback_url = some " http://host ";
}

abbrev posted_payload : Fields
posted_payload = field "to" (text "u") (field "spiff__callback_url" (text "http://host") end)

posted_built : connector_proxy_request_payload posted ≡ ok posted_payload
unfolding evaluated
posted_built = refl

callback_reserved : is_reserved "spiff__callback_url" ≡ true
unfolding evaluated
callback_reserved = refl

connector_proxy_request_payload-reserved_example :
    get "spiff__callback_url" posted_payload ≡ reserved_value posted "spiff__callback_url"
connector_proxy_request_payload-reserved_example =
    connector_proxy_request_payload-reserved posted "spiff__callback_url" posted_payload
      callback_reserved posted_built
