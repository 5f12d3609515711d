-- ===== src/ServiceTasks/OperationIds.antt =====
-- The ids of operations: `build_service_task_operation_id`, `split_service_task_operation_id` and
-- `build_connector_proxy_execute_path` of src/m8flow_core/services/service_tasks.py.
pub mod RoundTrip
use Prim.Native.Char.{Char, code}
use Prim.Native.String.{◌++◌ as append}
use m8flow_bpmn_core.Base.{ℕ, String, Bool, ◌||◌, List, [], ◌∷◌, ◌==◌, Nat_Eq, if◌then◌else◌}
use m8flow_bpmn_core.Base.Text.{is_blank, strip, has_char}
use m8flow_bpmn_core.Errors.{Error}
use m8flow_bpmn_core.Session.{Result, ok, err}

unfoldable pub normalize_non_blank : String → Result String
normalize_non_blank value =
    let normalized = strip value in
    if is_blank normalized then err Error.validation_error else ok normalized

-- The two parts of an id, once they are normalized.
unfoldable pub operation_id_of_parts : String → String → Result String
operation_id_of_parts connector_key command_name =
    if has_char b'/' connector_key
    then err Error.validation_error
    else if has_char b'/' command_name
    then err Error.validation_error
    else ok (append connector_key (append "/" command_name))

unfoldable pub build_service_task_operation_id : String → String → Result String
build_service_task_operation_id connector_key command_name =
    elim (normalize_non_blank connector_key) [
      | err e ↦ err e
      | ok key ↦ elim (normalize_non_blank command_name) [
        | err e ↦ err e
        | ok name ↦ operation_id_of_parts key name
      ]
    ]

unfoldable pub onto_first : Char → List String → List String
onto_first c [] = String.◌∷◌ c "" ∷ []
onto_first c (piece ∷ pieces) = String.◌∷◌ c piece ∷ pieces

-- `text.split("c")`
unfoldable pub split_at_char : ℕ → String → List String
split_at_char n String.[] = "" ∷ []
split_at_char n (String.◌∷◌ c s) =
    let rest = split_at_char n s in if code c == n then "" ∷ rest else onto_first c rest

-- Two parts, neither of them blank. They are returned as they stand.
unfoldable pub two_parts : List String → Result (String × String)
two_parts (a ∷ b ∷ []) =
    if is_blank (strip a) || is_blank (strip b) then err Error.validation_error else ok (a, b)
two_parts _ = err Error.validation_error

unfoldable pub split_service_task_operation_id : String → Result (String × String)
split_service_task_operation_id operation_id = elim (normalize_non_blank operation_id) [
  | err e ↦ err e
  | ok normalized ↦ two_parts (split_at_char b'/' normalized)
]

-- `"/v1/do/{connector_key}/{command_name}".format(…)`
unfoldable pub execute_path : String × String → String
execute_path (connector_key, command_name) =
    append "/v1/do/" (append connector_key (append "/" command_name))

unfoldable pub build_connector_proxy_execute_path : String → String → Result String
build_connector_proxy_execute_path connector_key command_name =
    elim (build_service_task_operation_id connector_key command_name) [
      | err e ↦ err e
      | ok operation_id ↦ elim (split_service_task_operation_id operation_id) [
        | err e ↦ err e
        | ok parts ↦ ok (execute_path parts)
      ]
    ]
