-- ===== src/ProcessInstances.antt =====
-- Process instances, their events and metadata: src/m8flow_core/services/process_instances.py.
-- The lifecycle operations are in a child.
pub mod RuntimeState
pub mod Lifecycle
pub mod Reactivation
pub mod Final
pub mod Log
use m8flow_bpmn_core.Base.{
  ℕ, String, Bool, true, false, ◌&&◌, ◌||◌, Option, none, some, List, [], ◌∷◌, ◌==◌, Nat_Eq,
  String_Eq, Option_Eq, if◌then◌else◌, ltb, keep, find,
}
use Prim.Native.Nat.{Ordering}
use Prim.Native.String.{compare}
use mathlib.Core.Logic.{ite}
use m8flow_bpmn_core.Errors.{Error}
use m8flow_bpmn_core.Model.Status.{
  ProcessInstanceStatus, Status-discrete, status_value, all_statuses,
}
use m8flow_bpmn_core.Model.Event.{EventType, event_type_of, event_category_for_type}
use m8flow_bpmn_core.Model.Process.{
  Timestamp, ProcessInstance, ProcessInstanceEvent, ProcessInstanceMetadata,
}
use m8flow_bpmn_core.Model.Tenancy.{User}
use m8flow_bpmn_core.Session.{
  Action, Result, ok, err, pure, raise, gets, lift, or_raise, resolve_timestamp, ◌>>=◌, ◌>>◌, add,
  update, first, select,
}
use m8flow_bpmn_core.Tables.{process_instances, process_instance_events, process_instance_metadata}
use m8flow_bpmn_core.TenantUsers.{ensure_user_belongs_to_tenant}

-- `if user_id is not None: ensure_user_belongs_to_tenant(…)`
unfoldable pub ensure_user_if_given : String → Option ℕ → Action (Unit {0})
ensure_user_if_given tenant_id none = pure tt
ensure_user_if_given tenant_id (some user_id) = do
  ensure_user_belongs_to_tenant tenant_id user_id >>= λ _. pure tt

abbrev or_some : Option Timestamp → Timestamp → Option Timestamp
or_some none d = some d
or_some (some t) _ = some t

unfoldable pub create_process_instance :
    String
    → String
    → String
    → ℕ
    → ℕ
    → ℕ
    → Option String
    → Option Timestamp
    → Option Timestamp
    → Action ProcessInstance
create_process_instance tenant_id model_identifier display_name initiator definition_id process_id
      summary created_at updated_at =
    do
      ensure_user_belongs_to_tenant tenant_id initiator >>= λ _. pure tt
      at ← resolve_timestamp created_at
      add process_instances λ id. record {
        id = id;
        m8f_tenant_id = tenant_id;
        process_model_identifier = model_identifier;
        process_model_display_name = display_name;
        summary = summary;
        process_initiator_id = initiator;
        bpmn_process_definition_id = some definition_id;
        bpmn_process_id = some process_id;
        status = ProcessInstanceStatus.not_started;
        started_at = none;
        ended_at = none;
        task_updated_at = none;
        updated_at = or_some updated_at at;
        created_at = some at;
        workflow_state_json = none;
      }

unfoldable pub is_instance : String → ℕ → ProcessInstance → Bool
is_instance tenant_id instance_id p = p.m8f_tenant_id == tenant_id && p.id == instance_id

-- `_load_process_instance`, and `get_process_instance`, which calls it.
unfoldable pub load_process_instance : String → ℕ → Action ProcessInstance
load_process_instance tenant_id instance_id = do
  found ← first process_instances (is_instance tenant_id instance_id)
  or_raise Error.not_found_error found

-- `ProcessInstanceStatus(value)`
unfoldable pub normalize_status : String → Result ProcessInstanceStatus
normalize_status value = elim (find (λ s. status_value s == value) all_statuses) [
  | none ↦ err Error.value_error
  | some s ↦ ok s
]

unfoldable pub has_status : ProcessInstanceStatus → ProcessInstanceStatus → Bool
unfolding Status-discrete
has_status s t = ite (Status-discrete s t) true false

-- The keys are counted up, so the order of the rows is the order by `id`.
unfoldable pub list_process_instances : String → Option String → Action (List ProcessInstance)
list_process_instances tenant_id none = select process_instances (λ p. p.m8f_tenant_id == tenant_id)
list_process_instances tenant_id (some value) = do
  status ← lift (normalize_status value)
  select process_instances (λ p. p.m8f_tenant_id == tenant_id && has_status p.status status)

-- The event type is what the model's validator makes of the argument, after the clock is read.
unfoldable pub record_process_instance_event :
    String
    → ℕ
    → Result EventType
    → Option Timestamp
    → Option String
    → Option ℕ
    → Action ProcessInstanceEvent
record_process_instance_event tenant_id instance_id event_type occurred_at task_guid user_id = do
  ensure_user_if_given tenant_id user_id
  load_process_instance tenant_id instance_id >>= λ _. pure tt
  at ← resolve_timestamp occurred_at
  kind ← lift event_type
  add process_instance_events λ id. record {
    id = id;
    m8f_tenant_id = tenant_id;
    process_instance_id = instance_id;
    task_guid = task_guid;
    event_type = kind;
    category = event_category_for_type kind;
    occurred_at = at;
    user_id = user_id;
  }

-- `ORDER BY occurred_at, id`
unfoldable pub event_before : ProcessInstanceEvent → ProcessInstanceEvent → Bool
event_before a b =
    ltb a.occurred_at b.occurred_at || (a.occurred_at == b.occurred_at && ltb a.id b.id)

unfoldable pub insert_event :
    ProcessInstanceEvent → List ProcessInstanceEvent → List ProcessInstanceEvent
insert_event e [] = e ∷ []
insert_event e (f ∷ fs) =
    let later = insert_event e fs in if event_before f e then f ∷ later else e ∷ f ∷ fs

unfoldable pub sort_events : List ProcessInstanceEvent → List ProcessInstanceEvent
sort_events [] = []
sort_events (e ∷ es) = insert_event e (sort_events es)

unfoldable pub get_process_instance_events : String → ℕ → Action (List ProcessInstanceEvent)
get_process_instance_events tenant_id instance_id = do
  load_process_instance tenant_id instance_id >>= λ _. pure tt
  events ←
      select process_instance_events
        (λ e. e.m8f_tenant_id == tenant_id && e.process_instance_id == instance_id)
  pure (sort_events events)

unfoldable pub is_metadata : String → ℕ → String → ProcessInstanceMetadata → Bool
is_metadata tenant_id instance_id key m =
    m.m8f_tenant_id == tenant_id && (m.process_instance_id == instance_id && m.key == key)

abbrev created_or : Option Timestamp → Timestamp → Timestamp
created_or none d = d
created_or (some t) _ = t

unfoldable pub upsert_process_instance_metadata :
    String → ℕ → String → String → Timestamp → Option Timestamp → Action ProcessInstanceMetadata
upsert_process_instance_metadata tenant_id instance_id key value updated_at created_at = do
  load_process_instance tenant_id instance_id >>= λ _. pure tt
  existing ← first process_instance_metadata (is_metadata tenant_id instance_id key)
  elim existing [
    | none ↦ add process_instance_metadata λ id. record {
      id = id;
      m8f_tenant_id = tenant_id;
      process_instance_id = instance_id;
      key = key;
      value = value;
      updated_at = updated_at;
      created_at = created_or created_at updated_at;
    }
    | some m ↦ do
      let changed = λ (r : ProcessInstanceMetadata). record r {
        value = value;
        updated_at = updated_at;
        created_at = created_or created_at r.created_at;
      }
      update process_instance_metadata (λ r. r.id == m.id) changed
      pure (changed m)
  ]

-- `ORDER BY key, id`, with the texts by their code points.
unfoldable pub metadata_before : ProcessInstanceMetadata → ProcessInstanceMetadata → Bool
metadata_before a b = elim (compare a.key b.key) [
  | Ordering.lt ↦ true
  | Ordering.eq ↦ ltb a.id b.id
  | Ordering.gt ↦ false
]

unfoldable pub insert_metadata :
    ProcessInstanceMetadata → List ProcessInstanceMetadata → List ProcessInstanceMetadata
insert_metadata m [] = m ∷ []
insert_metadata m (n ∷ ns) =
    let later = insert_metadata m ns in if metadata_before n m then n ∷ later else m ∷ n ∷ ns

unfoldable pub sort_metadata : List ProcessInstanceMetadata → List ProcessInstanceMetadata
sort_metadata [] = []
sort_metadata (m ∷ ms) = insert_metadata m (sort_metadata ms)

unfoldable pub get_process_instance_metadata : String → ℕ → Action (List ProcessInstanceMetadata)
get_process_instance_metadata tenant_id instance_id = do
  load_process_instance tenant_id instance_id >>= λ _. pure tt
  rows ←
      select process_instance_metadata
        (λ m. m.m8f_tenant_id == tenant_id && m.process_instance_id == instance_id)
  pure (sort_metadata rows)

unfoldable pub list_error_process_instances : String → Action (List ProcessInstance)
list_error_process_instances tenant_id =
    list_process_instances tenant_id (some (status_value ProcessInstanceStatus.error))

unfoldable pub list_suspended_process_instances : String → Action (List ProcessInstance)
list_suspended_process_instances tenant_id =
    list_process_instances tenant_id (some (status_value ProcessInstanceStatus.suspended))

unfoldable pub list_terminated_process_instances : String → Action (List ProcessInstance)
list_terminated_process_instances tenant_id =
    list_process_instances tenant_id (some (status_value ProcessInstanceStatus.terminated))
