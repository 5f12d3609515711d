-- ===== src/Authorization/Policy.antt =====
-- Requests, the database policy and the check that the services call: services/authorization.py.
use mathlib.Core.Logic.{ite}
use mathlib.Core.List.{flat_map}
use m8flow_bpmn_core.Base.{
  ℕ, String, Bool, true, false, ◌&&◌, ◌||◌, not, Option, none, some, List, [], ◌∷◌, map, ◌==◌,
  Nat_Eq, String_Eq, Option_Eq, if◌then◌else◌, find, any, keep,
}
use m8flow_bpmn_core.Base.Text.{is_blank, strip, has_char, before_char}
use m8flow_bpmn_core.Errors.{Error}
use m8flow_bpmn_core.Model.Json.{Fields}
use m8flow_bpmn_core.Model.Permission.{
  PermitDeny, PermissionAction, PermissionResourceType, PermissionAssignment, PermissionTarget,
  UserGroupAssignment, Action-discrete, ResourceType-discrete,
}
use m8flow_bpmn_core.Model.Database.{Database}
use m8flow_bpmn_core.Session.{Action, Result, ok, err, gets, lift, or_raise, raise_if, ◌>>=◌, ◌>>◌}
use m8flow_bpmn_core.TenantUsers.{get_user, tenant_identifiers_for, member}
use m8flow_bpmn_core.Authorization.Commands.{authorization_spec_for_command_key}

-- `permission` is one of the actions: no caller passes another text.
pub record AuthorizationRequest : Type 0 where
  pub tenant_id : String
  pub actor_user_id : ℕ
  pub command_key : String
  pub permission : PermissionAction
  pub resource_type : PermissionResourceType
  pub resource_id : String
  pub metadata : Option Fields

-- The reason is a text for people; what the database policy says is one of two.
pub data DenialReason : Type 0 where
  deny_permission_matched no_matching_grant : DenialReason

pub record AuthorizationDecision : Type 0 where
  pub allowed : Bool
  pub reason : Option DenialReason

-- The protocol `AuthorizationPolicy`.
abbrev pub AuthorizationPolicy : Type 0
AuthorizationPolicy = AuthorizationRequest → Action AuthorizationDecision

unfoldable pub is_permission : PermissionAction → PermissionAction → Bool
unfolding Action-discrete
is_permission a b = ite (Action-discrete a b) true false

unfoldable pub is_resource_type : PermissionResourceType → PermissionResourceType → Bool
unfolding ResourceType-discrete
is_resource_type a b = ite (ResourceType-discrete a b) true false

unfoldable pub is_deny : PermissionAssignment → Bool
is_deny a = elim a.grant_type [ PermitDeny.deny ↦ true | PermitDeny.permit ↦ false ]

unfoldable pub is_permit : PermissionAssignment → Bool
is_permit a = elim a.grant_type [ PermitDeny.permit ↦ true | PermitDeny.deny ↦ false ]

unfoldable pub normalize_resource_component : Option String → Option String
normalize_resource_component none = none
normalize_resource_component (some value) =
    let normalized = strip value in if is_blank normalized then none else some normalized

unfoldable pub group_identifier_applies_to_tenant : Option String → List String → Bool
group_identifier_applies_to_tenant none identifiers = false
group_identifier_applies_to_tenant (some raw) identifiers =
    let normalized = strip raw in
    if is_blank normalized
    then false
    else if not (has_char b':' normalized)
    then true
    else member (before_char b':' normalized) identifiers

-- `target_command is not None and target_command != request.command_key`, the other way round.
unfoldable pub command_matches : Option String → String → Bool
command_matches none key = true
command_matches (some command) key = command == key

-- `target_resource_id is None or target_resource_id == …`
unfoldable pub id_matches : Option String → Option String → Bool
id_matches none id = true
id_matches (some target) id = some target == id

unfoldable pub resource_matches : PermissionTarget → AuthorizationRequest → Bool
resource_matches target request =
    let target_id = normalize_resource_component target.resource_id in
    if is_resource_type target.resource_type PermissionResourceType.tenant
    then id_matches target_id (some request.tenant_id)
    else if not (is_resource_type target.resource_type request.resource_type)
    then false
    else id_matches target_id (normalize_resource_component (some request.resource_id))

-- The relationship `assignment.permission_target`.
unfoldable pub permission_target_of : Database → PermissionAssignment → Option PermissionTarget
permission_target_of db a = find (λ t. t.id == a.permission_target_id) db.permission_targets.rows

unfoldable pub target_matches_request :
    Option PermissionTarget → PermissionAssignment → AuthorizationRequest → Bool
target_matches_request none a request = false
target_matches_request (some target) a request =
    if not (
      is_permission a.permission request.permission
      || is_permission a.permission PermissionAction.all)
    then false
    else if not (command_matches target.command request.command_key)
    then false
    else resource_matches target request

unfoldable pub permission_assignment_matches_request :
    Database → AuthorizationRequest → PermissionAssignment → Bool
permission_assignment_matches_request db request a =
    target_matches_request (permission_target_of db a) a request

-- The join of principals, groups and memberships of the user: the principals' keys.
unfoldable pub group_principal_ids : Database → ℕ → List String → List ℕ
group_principal_ids db user_id identifiers =
    flat_map
      (λ p.
        flat_map
          (λ g.
            flat_map (λ (_ : UserGroupAssignment). p.id ∷ [])
              (keep (λ u. u.group_id == g.id && u.user_id == user_id)
                db.user_group_assignments.rows))
          (keep
            (λ g.
              p.group_id == some g.id
              && group_identifier_applies_to_tenant g.identifier identifiers)
            db.groups.rows))
      db.principals.rows

unfoldable pub contains_id : ℕ → List ℕ → Bool
contains_id n = any (λ m. m == n)

unfoldable pub principal_ids : Database → ℕ → List String → List ℕ
principal_ids db user_id identifiers =
    let group_ids = group_principal_ids db user_id identifiers in
    map (λ p. p.id)
      (keep (λ p. p.user_id == some user_id || contains_id p.id group_ids) db.principals.rows)

unfoldable pub permission_assignments_for_user :
    Database → ℕ → List String → List PermissionAssignment
permission_assignments_for_user db user_id identifiers =
    let ids = principal_ids db user_id identifiers in
    keep (λ a. contains_id a.principal_id ids) db.permission_assignments.rows

-- What `DatabaseAuthorizationPolicy` decides from the assignments that match.
unfoldable pub decide_from : List PermissionAssignment → AuthorizationDecision
decide_from matching =
    if any is_deny matching
    then record { allowed = false; reason = some DenialReason.deny_permission_matched }
    else if any is_permit matching
    then record { allowed = true; reason = none }
    else record { allowed = false; reason = some DenialReason.no_matching_grant }

unfoldable pub matching_assignments : Database → AuthorizationRequest → List PermissionAssignment
matching_assignments db request = keep (permission_assignment_matches_request db request) (
    permission_assignments_for_user db request.actor_user_id
      (tenant_identifiers_for db request.tenant_id))

-- `DatabaseAuthorizationPolicy.authorize`
unfoldable pub database_policy : AuthorizationPolicy
database_policy request = do
  or_raise Error.not_found_error (← gets (λ db. get_user db request.actor_user_id))
  gets (λ db. decide_from (matching_assignments db request))

-- `permission or spec.permission`, and so for the resource type.
abbrev pub or_default : {A : Type 0} → Option A → A → A
or_default none d = d
or_default (some a) _ = a

unfoldable pub build_authorization_request :
    String
    → ℕ
    → String
    → Option PermissionAction
    → Option PermissionResourceType
    → Option String
    → Option Fields
    → Result AuthorizationRequest
build_authorization_request tenant actor key permission resource_type resource_id metadata =
    elim (authorization_spec_for_command_key key) [
      | err e ↦ err e
      | ok spec ↦ ok (record {
        tenant_id = tenant;
        actor_user_id = actor;
        command_key = key;
        permission = or_default permission spec.permission;
        resource_type = or_default resource_type spec.resource_type;
        resource_id = or_default resource_id tenant;
        metadata = metadata;
      })
    ]

-- `resolve_authorization_policy(None)`: the policy of the active scope, or else the default one.
unfoldable pub resolve_authorization_policy :
    Option AuthorizationPolicy
    → Option AuthorizationPolicy
    → AuthorizationPolicy
    → AuthorizationPolicy
resolve_authorization_policy (some policy) active default = policy
resolve_authorization_policy none (some policy) default = policy
resolve_authorization_policy none none default = default

-- The services call it with the policy that is in force.
unfoldable pub require_command_authorization :
    AuthorizationPolicy
    → String
    → ℕ
    → String
    → PermissionResourceType
    → String
    → Option Fields
    → Action (Unit {0})
require_command_authorization policy tenant actor key resource_type resource_id metadata = do
  request ← lift (
      build_authorization_request tenant actor key none (some resource_type) (some resource_id)
        metadata)
  decision ← policy request
  raise_if (not decision.allowed) Error.authorization_error
