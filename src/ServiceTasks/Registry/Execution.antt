-- ===== src/ServiceTasks/Registry/Execution.antt =====
-- Registered connectors and the requests for their commands.
use mathlib.Core.List.Memᴰ
use mathlib.Core.List.Memᴰ.{Memᴰ}
use m8flow_bpmn_core.Base.{
  String, Bool, true, false, not, none, some, List, [], ◌∷◌, ◌≡◌, inl, inr, refl, sym, ap, ◌∙◌,
  subst, arith, ◌==◌, String_Eq, eq_of_test, ==_refl, if◌then◌else◌, keep, All, Bool-cases,
  Option-cases,
}
use m8flow_bpmn_core.Base.Text.{strip, has_char}
use m8flow_bpmn_core.Session.{ok}
use m8flow_bpmn_core.Session.Ensures.{ok_injective}
use m8flow_bpmn_core.ServiceTasks.OperationIds.{build_service_task_operation_id}
use m8flow_bpmn_core.ServiceTasks.OperationIds.RoundTrip.{
  normalized-cases, normalized-strip, build-strip, build-parts,
  split-build_service_task_operation_id,
}
use m8flow_bpmn_core.ServiceTasks.Registry.{
  ServiceTaskCommandDefinition, operation_id, ServiceTaskRequest, request_connector_key,
  ServiceTaskConnector, ServiceTaskRegistry, connector_at, set_connector, register_connector,
  unregister_connector, get_connector, find_command, get_command, connector_of_request, execute,
}

apart : (key k j : String) → (j == key) ≡ false → j ≡ k → (key == k) ≡ false
apart key k j e same = elim (Bool-cases (key == k)) [
  | inl f ↦
      let found : (j == key) ≡ true =
        ap (λ x. x == key) (same ∙ sym (eq_of_test key k f)) ∙ ==_refl key in
      cc
  | inr f ↦ f
]

connector_at-set :
    (key k : String) (c : ServiceTaskConnector) (registry : ServiceTaskRegistry)
    → connector_at k (set_connector key c registry)
      ≡ (if key == k then some c else connector_at k registry)
unfolding connector_at set_connector
connector_at-set key k c [] = refl
connector_at-set key k c ((j, d) ∷ rest) = elim (Bool-cases (j == key)) [
  | inl e ↦
      let same : (key == k) ≡ (j == k) = ap (λ x. x == k) (sym (eq_of_test j key e)) in
      elim (Bool-cases (j == k)) [ inl f ↦ rw (e, same, f) refl | inr f ↦ rw (e, same, f) refl ]
  | inr e ↦ elim (Bool-cases (j == k)) [
    | inl f ↦
        let other : (key == k) ≡ false = apart key k j e (eq_of_test j k f) in rw (e, f, other) refl
    | inr f ↦ rw (e, f) (connector_at-set key k c rest)
  ]
]

-- Once a connector is registered, its key without outer blanks leads to it, also where it replaces
-- another, and every other key leads to what it led to before.
pub register_connector-connector_at :
    (c : ServiceTaskConnector) (replace : Bool) (registry after : ServiceTaskRegistry) (k : String)
    → register_connector c replace registry ≡ ok after
    → connector_at k after
      ≡ (if strip c.connector_key == k then some c else connector_at k registry)
unfolding register_connector
register_connector-connector_at c replace registry after k h =
    elim (normalized-cases c.connector_key) [
      | inl e ↦ absurd (ground (arith, e, h))
      | inr (e, solid) ↦
          let is_set : set_connector (strip c.connector_key) c registry ≡ after =
            elim (Bool-cases (has_char b'/' (strip c.connector_key))) [
              | inl f ↦ absurd (ground (arith, e, f, h))
              | inr f ↦ elim (Option-cases (connector_at (strip c.connector_key) registry)) [
                | inl g ↦ ground (arith, e, f, g, h)
                | inr (d, g) ↦ elim (Bool-cases replace) [
                  | inl r ↦ ground (arith, e, f, g, r, h)
                  | inr r ↦ absurd (ground (arith, e, f, g, r, h))
                ]
              ]
            ] in
          subst
            (λ r.
              connector_at k r
              ≡ (if strip c.connector_key == k then some c else connector_at k registry))
            is_set (connector_at-set (strip c.connector_key) k c registry)
    ]

connector_at-keep :
    (key k : String) (registry : ServiceTaskRegistry)
    → connector_at k (keep (λ (j, _). not (j == key)) registry)
      ≡ (if key == k then none else connector_at k registry)
unfolding connector_at keep
connector_at-keep key k [] = ground arith
connector_at-keep key k ((j, d) ∷ rest) =
    let later = connector_at-keep key k rest in
    elim (Bool-cases (j == key)) [
      | inl e ↦
          let same : (key == k) ≡ (j == k) = ap (λ x. x == k) (sym (eq_of_test j key e)) in
          elim (Bool-cases (j == k)) [
            | inl f ↦ ground (arith, e, same, f, later)
            | inr f ↦ ground (arith, e, same, f, later)
          ]
      | inr e ↦ elim (Bool-cases (j == k)) [
        | inl f ↦
            let other : (key == k) ≡ false = apart key k j e (eq_of_test j k f) in
            rw (e, f, other) refl
        | inr f ↦ rw (e, f) later
      ]
    ]

-- Once a connector is unregistered, its key leads to none, and every other key leads to what it led
-- to before.
pub unregister_connector-connector_at :
    (connector_key : String) (registry after : ServiceTaskRegistry) (k : String)
    → unregister_connector connector_key registry ≡ ok after
    → connector_at k after ≡ (if strip connector_key == k then none else connector_at k registry)
unfolding unregister_connector
unregister_connector-connector_at connector_key registry after k h =
    elim (normalized-cases connector_key) [
      | inl e ↦ absurd (ground (arith, e, h))
      | inr (e, solid) ↦ elim (Option-cases (connector_at (strip connector_key) registry)) [
        | inl g ↦ absurd (ground (arith, e, g, h))
        | inr (d, g) ↦
            let is_kept : keep (λ (j, _). not (j == strip connector_key)) registry ≡ after =
              ground (arith, e, g, h) in
            subst
              (λ r.
                connector_at k r
                ≡ (if strip connector_key == k then none else connector_at k registry))
              is_kept (connector_at-keep (strip connector_key) k registry)
      ]
    ]

find_command-found :
    (key name id : String) (d : ServiceTaskCommandDefinition)
    (ds : List ServiceTaskCommandDefinition)
    → build_service_task_operation_id key name ≡ ok id
    → operation_id d ≡ ok id
    → All (λ x. (own : String) × (operation_id x ≡ ok own)) ds
    → Memᴰ d ds
    → (found : ServiceTaskCommandDefinition) × (find_command key name ds ≡ ok found)
unfolding find_command
find_command-found key name id d [] built own valid m = absurd (Memᴰ.not-nil m)
find_command-found key name id d (x ∷ xs) built own ((i, e), valid) m =
    elim (Bool-cases (i == id)) [
      | inl f ↦ (x, ground (arith, e, built, f))
      | inr f ↦ elim (Memᴰ.cases_cons m) [
        | inl same ↦
            let is_id : i ≡ id = ok_injective (sym e ∙ ap operation_id (sym same) ∙ own) in
            let equal : (i == id) ≡ true = ap (λ z. z == id) is_id ∙ ==_refl id in
            (x, ground (arith, equal, f))
        | inr later ↦
            let (found, g) = find_command-found key name id d xs built own valid later in
            (found, ground (arith, e, built, f, g))
      ]
    ]

-- A request for a command of a connector that has been registered is run by that connector: the id is
-- that of one of its commands, whose own ids can all be built, and whose connector's key is, up to
-- outer blanks, the connector's.
pub execute-registered :
    (c : ServiceTaskConnector) (replace : Bool) (registry after : ServiceTaskRegistry)
    (d : ServiceTaskCommandDefinition) (request : ServiceTaskRequest)
    → register_connector c replace registry ≡ ok after
    → All (λ x. (own : String) × (operation_id x ≡ ok own)) c.commands
    → Memᴰ d c.commands
    → strip d.connector_key ≡ strip c.connector_key
    → operation_id d ≡ ok request.operation
    → execute request after ≡ c.run request
unfolding execute get_command connector_of_request request_connector_key get_connector operation_id
execute-registered c replace registry after d request registered valid m same own =
    let id = request.operation in
    let key = strip d.connector_key in
    let name = strip d.command_name in
    let (text, solid_key, solid_name, no_slash, no_other) =
      build-parts d.connector_key d.command_name id own in
    let parts = split-build_service_task_operation_id d.connector_key d.command_name id own in
    let is_key : (strip c.connector_key == key) ≡ true =
      ap (λ x. x == key) (sym same) ∙ ==_refl key in
    let at_key : connector_at key after ≡ some c =
      register_connector-connector_at c replace registry after key registered
      ∙ ap (λ b. if b then some c else connector_at key registry) is_key in
    let normalized = normalized-strip d.connector_key solid_key in
    let built = build-strip d.connector_key d.command_name ∙ own in
    let (found, command) = find_command-found key name id d c.commands built own valid m in
    ground (arith, parts, normalized, at_key, command)
