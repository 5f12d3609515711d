-- ===== src/ProcessInstances/Lifecycle/Access.antt =====
-- How the first checks of a lifecycle operation end, and that they write nothing.
use m8flow_bpmn_core.Base.{
  ℕ, String, not, Option, none, some, ◌≡◌, ◌⊎◌, inl, inr, refl, arith, Bool-cases, Option-cases,
  find,
}
use m8flow_bpmn_core.Base.Text.Decimal.{show_nat}
use m8flow_bpmn_core.Errors.{Error}
use m8flow_bpmn_core.Model.Json.{Fields}
use m8flow_bpmn_core.Model.Permission.{PermissionResourceType}
use m8flow_bpmn_core.Model.Process.{ProcessInstance}
use m8flow_bpmn_core.Model.Database.{Database}
use m8flow_bpmn_core.Session.{Action, ok, err, lift, raise_if, first, ◌>>=◌}
use m8flow_bpmn_core.Session.Calls.{Reads, bind-Reads, raise_if-Reads, lift-Reads}
use m8flow_bpmn_core.TenantUsers.{
  get_user, tenant_identifiers_for, user_belongs_to_tenant, ensure_user_belongs_to_tenant,
}
use m8flow_bpmn_core.Authorization.Policy.{
  AuthorizationPolicy, AuthorizationRequest, AuthorizationDecision, database_policy, decide_from,
  matching_assignments, build_authorization_request, require_command_authorization,
}
use m8flow_bpmn_core.ProcessInstances.{is_instance, ensure_user_if_given, load_process_instance}
use m8flow_bpmn_core.ProcessInstances.Lifecycle.{authorized_instance}

-- A policy that writes nothing.
abbrev pub IsReadOnly : AuthorizationPolicy → Type 0
IsReadOnly policy = (request : AuthorizationRequest) (db : Database) → Reads (policy request) db

pub database_policy-IsReadOnly : IsReadOnly database_policy
unfolding database_policy
database_policy-IsReadOnly request db = elim (Option-cases (get_user db request.actor_user_id)) [
  | inl e ↦ inl (Error.not_found_error, rw e refl)
  | inr (u, e) ↦ inr (decide_from (matching_assignments db request), rw e refl)
]

-- The row that a tenant sees under a key.
abbrev pub instance_at : Database → String → ℕ → Option ProcessInstance
instance_at db tenant_id instance_id =
    find (is_instance tenant_id instance_id) db.process_instances.rows

pub ensure_user_belongs_to_tenant-Reads :
    (tenant_id : String) (user_id : ℕ) (db : Database)
    → Reads (ensure_user_belongs_to_tenant tenant_id user_id) db
unfolding ensure_user_belongs_to_tenant
ensure_user_belongs_to_tenant-Reads t u db = elim (Option-cases (get_user db u)) [
  | inl e ↦ inl (Error.not_found_error, rw e refl)
  | inr (user, e) ↦ elim (Bool-cases (user_belongs_to_tenant user (tenant_identifiers_for db t))) [
    | inl b ↦ inr (user, rw (e, b) refl)
    | inr b ↦ inl (Error.authorization_error, rw (e, b) refl)
  ]
]

pub ensure_user_if_given-Reads :
    (tenant_id : String) (user_id : Option ℕ) (db : Database)
    → Reads (ensure_user_if_given tenant_id user_id) db
unfolding ensure_user_if_given
ensure_user_if_given-Reads t none db = inr (tt, refl)
ensure_user_if_given-Reads t (some u) db = elim (ensure_user_belongs_to_tenant-Reads t u db) [
  | inl (e, r) ↦ inl (e, ground (arith, r))
  | inr (user, r) ↦ inr (tt, ground (arith, r))
]

pub load_process_instance-cases :
    (tenant_id : String) (instance_id : ℕ) (db : Database)
    → (load_process_instance tenant_id instance_id db ≡ (err Error.not_found_error, db))
      ⊎ ((p : ProcessInstance) × (instance_at db tenant_id instance_id ≡ some p)
          × (load_process_instance tenant_id instance_id db ≡ (ok p, db)))
unfolding load_process_instance first
load_process_instance-cases t i db = elim (Option-cases (instance_at db t i)) [
  | inl e ↦ inl (rw e refl)
  | inr (p, e) ↦ inr (p, e, rw e refl)
]

pub load_process_instance-found :
    (tenant_id : String) (instance_id : ℕ) (db : Database) (p : ProcessInstance)
    → instance_at db tenant_id instance_id ≡ some p
    → load_process_instance tenant_id instance_id db ≡ (ok p, db)
unfolding load_process_instance first
load_process_instance-found t i db p e = rw e refl

require-Reads :
    (policy : AuthorizationPolicy)
    → IsReadOnly policy
    → (tenant_id : String) (user_id : ℕ) (key : String) (kind : PermissionResourceType)
      (resource_id : String) (metadata : Option Fields) (db : Database)
    → Reads
        (require_command_authorization policy tenant_id user_id key kind resource_id metadata)
        db
unfolding require_command_authorization
require-Reads policy h t u key kind id metadata db =
    bind-Reads (lift (build_authorization_request t u key none (some kind) (some id) metadata))
      (λ request. policy request >>= after) db (lift-Reads _ db)
      λ request.
        bind-Reads (policy request) after db (h request db)
          λ decision. raise_if-Reads (not decision.allowed) Error.authorization_error db
  where
    after : AuthorizationDecision → Action (Unit {0})
    after decision = raise_if (not decision.allowed) Error.authorization_error

-- A call that comes through the checks has found the instance of the tenant; no call of them
-- writes.
pub authorized_instance-cases :
    (policy : AuthorizationPolicy)
    → IsReadOnly policy
    → (tenant_id : String) (instance_id user_id : ℕ) (key : String) (db : Database)
    → ((e : Error) × (authorized_instance policy tenant_id instance_id user_id key db
          ≡ (err e, db)))
      ⊎ ((p : ProcessInstance) × (instance_at db tenant_id instance_id ≡ some p)
          × (authorized_instance policy tenant_id instance_id user_id key db ≡ (ok p, db)))
unfolding authorized_instance
authorized_instance-cases policy h t i u key db =
    elim (ensure_user_belongs_to_tenant-Reads t u db) [
      | inl (e, failed) ↦ inl (e, ground (arith, failed))
      | inr (user, member) ↦ elim (load_process_instance-cases t i db) [
        | inl failed ↦ inl (Error.not_found_error, ground (arith, member, failed))
        | inr (p, found, loaded) ↦
            elim (require-Reads policy h t u key PermissionResourceType.process_instance
              (show_nat p.id) none db) [
                | inl (e, failed) ↦ inl (e, ground (arith, member, loaded, failed))
                | inr (_, allowed) ↦ inr (p, found, ground (arith, member, loaded, allowed))
              ]
      ]
    ]
