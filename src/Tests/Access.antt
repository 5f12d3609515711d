-- ===== src/Tests/Access.antt =====
-- Membership, principals, decisions and grants on the samples.
use m8flow_bpmn_core.Base.{
  ℕ, true, some, none, [], ◌∷◌, ◌≡◌, ◌↔◌, refl, Bool, ◌==◌, Nat_Eq, Option_Eq, find,
}
use m8flow_bpmn_core.Model.Permission.{
  PermitDeny, PermissionAction, PermissionResourceType, PermissionAssignment, Principal,
}
use m8flow_bpmn_core.Model.Database.{Database}
use m8flow_bpmn_core.Session.{ok}
use m8flow_bpmn_core.Tables.{principals}
use m8flow_bpmn_core.TenantUsers.{get_user, ensure_user_belongs_to_tenant}
use m8flow_bpmn_core.TenantUsers.Membership.{Shares, ensure_user_belongs_to_tenant_iff}
use m8flow_bpmn_core.Authorization.Policy.{
  AuthorizationRequest, AuthorizationDecision, contains_id, principal_ids, database_policy,
}
use m8flow_bpmn_core.Authorization.Decision.{IsGranted, database_policy-allowed}
use m8flow_bpmn_core.Authorization.Principals.{Represents, principal_ids_iff}
use m8flow_bpmn_core.Authorization.Grants.{get_or_create, find_or_create_permission_assignment}
use m8flow_bpmn_core.Authorization.Rows.{
  assignment_at, get_or_create-idempotent, find_or_create_permission_assignment-set,
}
use m8flow_bpmn_core.Tests.Samples.{sample, user_row}
use m8flow_bpmn_core.Tests.Evaluated.{evaluated}

abbrev claim_request : AuthorizationRequest
claim_request = record {
  tenant_id = "acme";
  actor_user_id = 2;
  command_key = "task.claim";
  permission = PermissionAction.execute;
  resource_type = PermissionResourceType.task;
  resource_id = "g1";
  metadata = none;
}

user_two_found : get_user sample 2 ≡ some (user_row 2)
unfolding evaluated
user_two_found = refl

database_policy-allowed_example :
    (d : AuthorizationDecision) × (database_policy claim_request sample ≡ (ok d, sample))
    × ((d.allowed ≡ true) ↔ IsGranted sample claim_request)
database_policy-allowed_example =
    database_policy-allowed sample claim_request (user_row 2) user_two_found

principal_ids_iff_example :
    (contains_id 2 (principal_ids sample 2 ("acme" ∷ [])) ≡ true)
    ↔ Represents sample 2 ("acme" ∷ []) 2
principal_ids_iff_example = principal_ids_iff sample 2 ("acme" ∷ []) 2

ensure_user_belongs_to_tenant_iff_example :
    (ensure_user_belongs_to_tenant "acme-inc" 1 sample ≡ (ok (user_row 1), sample))
    ↔ ((get_user sample 1 ≡ some (user_row 1)) × Shares sample "acme-inc" (user_row 1))
ensure_user_belongs_to_tenant_iff_example =
    ensure_user_belongs_to_tenant_iff "acme-inc" 1 (user_row 1) sample

find_or_create_permission_assignment-set_example :
    (a : PermissionAssignment) × (db' : Database) × (find_or_create_permission_assignment 1 1
        PermissionAction.all PermitDeny.deny sample
      ≡ (ok a, db'))
    × (assignment_at db' 1 1 PermissionAction.all ≡ some a)
    × (a.grant_type ≡ PermitDeny.deny)
find_or_create_permission_assignment-set_example =
    find_or_create_permission_assignment-set 1 1 PermissionAction.all PermitDeny.deny sample

abbrev of_user_two : Principal → Bool
of_user_two p = p.user_id == some 2

abbrev new_principal : ℕ → Principal
new_principal id = record { id = id; user_id = some 2; group_id = none }

get_or_create-idempotent_example :
    (r : Principal) × (db' : Database) × (get_or_create principals of_user_two new_principal sample
      ≡ (ok r, db'))
    × (find of_user_two db'.principals.rows ≡ some r)
    × (of_user_two r ≡ true)
    × (get_or_create principals of_user_two new_principal db' ≡ (ok r, db'))
get_or_create-idempotent_example =
    get_or_create-idempotent principals (λ rows db. refl) of_user_two new_principal sample
      (λ id. refl)
