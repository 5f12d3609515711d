-- ===== src/ProcessInstances/Lifecycle/Events.antt =====
-- Calls that go through: the checks depend on few tables, and an event is appended.
use m8flow_bpmn_core.Base.{
  ℕ, String, Option, none, some, ◌≡◌, inl, inr, refl, arith, find, ◌==◌, Nat_Eq, String_Eq, ==_refl,
  update_where, find-update_where,
}
use m8flow_bpmn_core.Model.Event.{EventType, ProcessLifecycleEventType, event_category_for_type}
use m8flow_bpmn_core.Model.Process.{Timestamp, ProcessInstance, ProcessInstanceEvent}
use m8flow_bpmn_core.Model.Database.{Database, insert_row}
use m8flow_bpmn_core.Session.{ok, add}
use m8flow_bpmn_core.TenantUsers.{get_user, tenant_identifiers_for, ensure_user_belongs_to_tenant}
use m8flow_bpmn_core.Authorization.Policy.{AuthorizationPolicy}
use m8flow_bpmn_core.ProcessInstances.{
  is_instance, ensure_user_if_given, record_process_instance_event,
}
use m8flow_bpmn_core.ProcessInstances.Lifecycle.{authorized_instance, record_lifecycle_event}
use m8flow_bpmn_core.ProcessInstances.Lifecycle.Access.{
  IsReadOnly, instance_at, ensure_user_belongs_to_tenant-Reads, load_process_instance-found,
  authorized_instance-cases,
}

-- The user exists and is of the tenant.
abbrev pub IsMember : Database → String → Option ℕ → Type 0
IsMember db t u = ensure_user_if_given t u db ≡ (ok tt, db)

pub IsMember-frame :
    (t : String) (u : Option ℕ) (db db' : Database)
    → db'.users ≡ db.users
    → db'.tenants ≡ db.tenants
    → IsMember db t u
    → IsMember db' t u
unfolding ensure_user_if_given ensure_user_belongs_to_tenant get_user tenant_identifiers_for
IsMember-frame t none db db' us ts h = refl
IsMember-frame t (some u) db db' us ts h = ground (arith, us, ts, h)

authorized_instance-found :
    (policy : AuthorizationPolicy)
    → IsReadOnly policy
    → (t : String) (i u : ℕ) (key : String) (db : Database) (p : ProcessInstance)
    → authorized_instance policy t i u key db ≡ (ok p, db)
    → instance_at db t i ≡ some p
authorized_instance-found policy h t i u key db p r =
    elim (authorized_instance-cases policy h t i u key db) [
      | inl (e, failed) ↦ ground (arith, failed, r)
      | inr (q, found, r') ↦ ground (arith, found, r', r)
    ]

pub authorized_instance-IsMember :
    (policy : AuthorizationPolicy)
    → IsReadOnly policy
    → (t : String) (i u : ℕ) (key : String) (db : Database) (p : ProcessInstance)
    → authorized_instance policy t i u key db ≡ (ok p, db)
    → IsMember db t (some u) × (instance_at db t i ≡ some p)
unfolding ensure_user_if_given authorized_instance
authorized_instance-IsMember policy h t i u key db p r =
    elim (ensure_user_belongs_to_tenant-Reads t u db) [
      | inl (e, failed) ↦ ground (arith, failed, r)
      | inr (user, member) ↦
          (ground (arith, member), authorized_instance-found policy h t i u key db p r)
    ]

-- The event that a lifecycle operation records.
abbrev pub lifecycle_event :
    String → ℕ → ProcessLifecycleEventType → Timestamp → Option ℕ → ℕ → ProcessInstanceEvent
lifecycle_event t i kind at u id = record {
  id = id;
  m8f_tenant_id = t;
  process_instance_id = i;
  task_guid = none;
  event_type = EventType.lifecycle kind;
  category = event_category_for_type (EventType.lifecycle kind);
  occurred_at = at;
  user_id = u;
}

pub record_lifecycle_event-appends :
    (t : String) (i : ℕ) (kind : ProcessLifecycleEventType) (at : Timestamp) (u : Option ℕ)
    (db : Database) (p : ProcessInstance)
    → IsMember db t u
    → instance_at db t i ≡ some p
    → record_lifecycle_event t i kind at u db ≡ (
      ok tt,
      record db {
        process_instance_events =
            insert_row (lifecycle_event t i kind at u) db.process_instance_events;
      },
    )
unfolding record_lifecycle_event record_process_instance_event add
record_lifecycle_event-appends t i kind at u db p member found =
    let loaded = load_process_instance-found t i db p found in ground (arith, member, loaded)

-- The row of the instance, after its attributes are set.
pub instance_at-update :
    (change : ProcessInstance → ProcessInstance) (t : String) (i : ℕ) (db : Database)
    (p : ProcessInstance)
    → ((q : ProcessInstance) → is_instance t i (change q) ≡ is_instance t i q)
    → instance_at db t i ≡ some p
    → find (is_instance t i) (update_where (λ q. q.id == p.id) change db.process_instances.rows)
      ≡ some (change p)
instance_at-update change t i db p same found =
    rw
      (
        find-update_where (is_instance t i) (λ q. q.id == p.id) change db.process_instances.rows
            (λ q _. same q),
        found,
        ==_refl p.id,
      )
      refl
