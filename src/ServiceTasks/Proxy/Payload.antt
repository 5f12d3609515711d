-- ===== src/ServiceTasks/Proxy/Payload.antt =====
-- Who sets the reserved parameters of a call.
use m8flow_bpmn_core.Base.{
  String, true, false, Option, none, some, ◌≡◌, inl, inr, refl, sym, ap, ◌∙◌, arith, ◌==◌,
  String_Eq, eq_of_test, if◌then◌else◌, Bool-cases,
}
use m8flow_bpmn_core.Base.Text.{is_blank, strip, after_prefix}
use m8flow_bpmn_core.Model.Json.{Value, Fields, text, object, end, field, get, put}
use m8flow_bpmn_core.Model.Json.Lookup.{get-put, get-put_other}
use m8flow_bpmn_core.Session.{ok}
use m8flow_bpmn_core.Session.Calls.{Result-cases}
use m8flow_bpmn_core.Session.Ensures.{ok_injective}
use m8flow_bpmn_core.ServiceTasks.Registry.{ServiceTaskRequest}
use m8flow_bpmn_core.ServiceTasks.Proxy.{
  task_data_parameter, callback_url_parameter, is_reserved, parameters_payload, with_task_data,
  with_callback_url, fields_or_empty, connector_proxy_request_payload,
}

apart : (k name : String) → is_reserved k ≡ false → is_reserved name ≡ true → (k == name) ≡ false
apart k name plain reserved = elim (Bool-cases (k == name)) [
  | inl e ↦ let same : is_reserved k ≡ is_reserved name = ap is_reserved (eq_of_test k name e) in cc
  | inr e ↦ e
]

-- No parameter of the request sets a reserved name.
parameters_payload-reserved :
    (name : String) (fs payload out : Fields)
    → is_reserved name ≡ true
    → parameters_payload payload fs ≡ ok out
    → get name out ≡ get name payload
unfolding parameters_payload
parameters_payload-reserved name end payload out reserved h = ap (get name) (sym (ok_injective h))
parameters_payload-reserved name (field k v rest) payload out reserved h =
    elim (Bool-cases (is_reserved k)) [
      | inl e ↦ absurd (ground (arith, e, h))
      | inr e ↦
          parameters_payload-reserved name rest (put k v payload) out reserved
            (ground (arith, e, h))
          ∙ get-put_other name k v payload (apart k name e reserved)
    ]

-- The values that the runtime gives to a request's reserved parameters.
abbrev pub task_data_value : Option Fields → Option Value
task_data_value none = none
task_data_value (some fs) = some (object fs)

abbrev pub callback_value : Option String → Option Value
callback_value none = none
callback_value (some url) = some (text (strip url))

unfoldable pub reserved_value : ServiceTaskRequest → String → Option Value
reserved_value request name =
    if callback_url_parameter == name
    then callback_value request.callback_url
    else if task_data_parameter == name
    then task_data_value request.task_data
    else none

with_task_data-get :
    (name : String) (task_data : Option Fields) (payload : Fields)
    → get name payload ≡ none
    → get name (with_task_data task_data payload)
      ≡ (if task_data_parameter == name then task_data_value task_data else none)
unfolding with_task_data
with_task_data-get name none payload free = elim (Bool-cases (task_data_parameter == name)) [
  | inl e ↦ rw e free
  | inr e ↦ rw e free
]
with_task_data-get name (some fs) payload free = elim (Bool-cases (task_data_parameter == name)) [
  | inl e ↦
      rw (e, ← eq_of_test task_data_parameter name e)
        (get-put task_data_parameter (object fs) payload)
  | inr e ↦ rw e (get-put_other name task_data_parameter (object fs) payload e ∙ free)
]

with_callback_url-get :
    (name : String) (url : Option String) (payload out : Fields)
    → with_callback_url url payload ≡ ok out
    → get callback_url_parameter payload ≡ none
    → get name out
      ≡ (if callback_url_parameter == name then callback_value url else get name payload)
unfolding with_callback_url
with_callback_url-get name none payload out h free =
    let same : get name out ≡ get name payload = ap (get name) (sym (ok_injective h)) in
    elim (Bool-cases (callback_url_parameter == name)) [
      | inl e ↦
          let there = sym (eq_of_test callback_url_parameter name e) in
          rw e (same ∙ ap (λ x. get x payload) there ∙ free)
      | inr e ↦ rw e same
    ]
with_callback_url-get name (some url) payload out h free =
    elim (Bool-cases (is_blank (strip url))) [
      | inl b ↦ absurd (ground (arith, b, h))
      | inr b ↦
          let value = text (strip url) in
          let is_out : put callback_url_parameter value payload ≡ out = ground (arith, b, h) in
          let same : get name out ≡ get name (put callback_url_parameter value payload) =
            ap (get name) (sym is_out) in
          elim (Bool-cases (callback_url_parameter == name)) [
            | inl e ↦
                let there = sym (eq_of_test callback_url_parameter name e) in
                rw e (
                  same
                  ∙ ap (λ x. get x (put callback_url_parameter value payload)) there
                  ∙ get-put callback_url_parameter value payload)
            | inr e ↦ rw e (same ∙ get-put_other name callback_url_parameter value payload e)
          ]
    ]

-- Where the payload of a call is built, a name with the reserved prefix leads to what the runtime
-- gave: the task's data, the trimmed URL of the callback, and nothing under any other such name. No
-- parameter of the request can take its place.
pub connector_proxy_request_payload-reserved :
    (request : ServiceTaskRequest) (name : String) (payload : Fields)
    → is_reserved name ≡ true
    → connector_proxy_request_payload request ≡ ok payload
    → get name payload ≡ reserved_value request name
unfolding connector_proxy_request_payload reserved_value get is_reserved after_prefix
connector_proxy_request_payload-reserved request name payload reserved h =
    let fs = fields_or_empty request.parameters in
    elim (Result-cases (parameters_payload end fs)) [
      | inl (e, f) ↦ absurd (ground (arith, f, h))
      | inr (own, f) ↦
          let whole = with_task_data request.task_data own in
          let called : with_callback_url request.callback_url whole ≡ ok payload =
            ground (arith, f, h) in
          let free =
            with_task_data-get callback_url_parameter request.task_data own
              (parameters_payload-reserved callback_url_parameter fs end own refl f) in
          with_callback_url-get name request.callback_url whole payload called free
          ∙ ap
              (λ x.
                if callback_url_parameter == name then callback_value request.callback_url else x)
              (with_task_data-get name request.task_data own
                (parameters_payload-reserved name fs end own reserved f))
    ]
