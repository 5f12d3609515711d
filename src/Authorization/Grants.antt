-- ===== src/Authorization/Grants.antt =====
-- Groups, principals, permission targets and assignments, found or created:
-- services/authorization.py from `_get_or_create` on. The conflict clause of the insert serves
-- concurrent transactions; within one session the row that was looked up and not found is inserted.
use Prim.Native.String.{◌++◌ as append}
use m8flow_bpmn_core.Base.{
  ℕ, String, Bool, true, false, ◌&&◌, Option, none, some, List, [], ◌∷◌, ◌==◌, Nat_Eq, String_Eq,
  Option_Eq, if◌then◌else◌, find,
}
use m8flow_bpmn_core.Base.Text.{is_blank, strip, before_char}
use m8flow_bpmn_core.Errors.{Error}
use m8flow_bpmn_core.Model.Permission.{
  PermitDeny, PermissionAction, PermissionResourceType, PermissionAssignment, PermissionTarget,
  Principal, Group, UserGroupAssignment,
}
use m8flow_bpmn_core.Session.{
  Action, TableRef, pure, lift, or_raise, raise_if, ◌>>=◌, ◌>>◌, add, update, first, for_each,
}
use m8flow_bpmn_core.Tables.{
  groups, user_group_assignments, principals, permission_targets, permission_assignments,
}
use m8flow_bpmn_core.Authorization.Commands.{
  authorization_spec_for_command_key, v1_basic_role_command_keys,
}
use m8flow_bpmn_core.Authorization.Policy.{is_permission, is_resource_type, or_default}

-- `_get_or_create`: the row that the lookup finds, or else a new one, read back.
unfoldable pub get_or_create : {R : Type 0} → TableRef R → (R → Bool) → (ℕ → R) → Action R
get_or_create table lookup values = do
  existing ← first table lookup
  elim existing [
    | some row ↦ pure row
    | none ↦ do add table values; or_raise Error.runtime_error (← first table lookup)
  ]

unfoldable pub find_or_create_group : String → Option String → Action Group
find_or_create_group identifier name = do
  existing ← first groups (λ g. g.identifier == some identifier)
  elim existing [
    | some group ↦ pure group
    | none ↦
        let key = some (append "authorization:" identifier) in
        get_or_create groups (λ g. g.authorization_key == key)
          λ id. record {
            id = id;
            name = some (or_default name identifier);
            identifier = some identifier;
            authorization_key = key;
          }
  ]

unfoldable pub add_user_to_group : ℕ → String → Option String → Action UserGroupAssignment
add_user_to_group user_id group_identifier group_name = do
  group ← find_or_create_group group_identifier group_name
  get_or_create user_group_assignments (λ u. u.user_id == user_id && u.group_id == group.id)
      λ id. record { id = id; user_id = user_id; group_id = group.id }

unfoldable pub find_or_create_principal_for_user : ℕ → Action Principal
find_or_create_principal_for_user user_id =
    get_or_create principals (λ p. p.user_id == some user_id)
      λ id. record { id = id; user_id = some user_id; group_id = none }

unfoldable pub find_or_create_principal_for_group : ℕ → Action Principal
find_or_create_principal_for_group group_id =
    get_or_create principals (λ p. p.group_id == some group_id)
      λ id. record { id = id; user_id = none; group_id = some group_id }

-- `value.strip() or None`, which the validators of `PermissionTargetModel` store.
unfoldable pub stored_component : Option String → Option String
stored_component none = none
stored_component (some value) =
    let normalized = strip value in if is_blank normalized then none else some normalized

unfoldable pub blank_but_given : Option String → Bool
blank_but_given none = false
blank_but_given (some value) = is_blank (strip value)

unfoldable pub find_or_create_permission_target :
    Option String → PermissionResourceType → Option String → Action PermissionTarget
find_or_create_permission_target command resource_type resource_id = do
  raise_if (blank_but_given resource_id) Error.invalid_permission_target_error
  let stored_command = stored_component command
  let stored_id = stored_component resource_id
  get_or_create permission_targets
      (λ t.
        is_resource_type t.resource_type resource_type
        && (t.resource_id == stored_id && t.command == stored_command))
      λ id. record {
        id = id;
        command = stored_command;
        resource_type = resource_type;
        resource_id = stored_id;
      }

unfoldable pub same_grant_type : PermitDeny → PermitDeny → Bool
same_grant_type PermitDeny.permit PermitDeny.permit = true
same_grant_type PermitDeny.deny PermitDeny.deny = true
same_grant_type _ _ = false

-- `_find_or_create_permission_assignment`
unfoldable pub find_or_create_permission_assignment :
    ℕ → ℕ → PermissionAction → PermitDeny → Action PermissionAssignment
find_or_create_permission_assignment principal_id target_id permission grant_type = do
  assignment ←
      get_or_create permission_assignments
        (λ a.
          a.principal_id == principal_id
          && (a.permission_target_id == target_id && is_permission a.permission permission))
        λ id. record {
          id = id;
          principal_id = principal_id;
          permission_target_id = target_id;
          grant_type = grant_type;
          permission = permission;
        }
  if same_grant_type assignment.grant_type grant_type then pure assignment else do
    update permission_assignments (λ a. a.id == assignment.id)
        (λ a. record a { grant_type = grant_type })
    pure (record assignment { grant_type = grant_type })

unfoldable pub grant_permission_to_group :
    String
    → PermissionAction
    → Option String
    → PermissionResourceType
    → Option String
    → PermitDeny
    → Option String
    → Action PermissionAssignment
grant_permission_to_group identifier permission command resource_type resource_id grant name = do
  group ← find_or_create_group identifier name
  principal ← find_or_create_principal_for_group group.id
  target ← find_or_create_permission_target command resource_type resource_id
  find_or_create_permission_assignment principal.id target.id permission grant

unfoldable pub grant_permission_to_user :
    ℕ
    → PermissionAction
    → Option String
    → PermissionResourceType
    → Option String
    → PermitDeny
    → Action PermissionAssignment
grant_permission_to_user user_id permission command resource_type resource_id grant = do
  principal ← find_or_create_principal_for_user user_id
  target ← find_or_create_permission_target command resource_type resource_id
  find_or_create_permission_assignment principal.id target.id permission grant

-- `group_identifier.split(":", 1)[0]` is the tenant that the grants are on.
unfoldable pub grant_command_permissions_to_group :
    String → List String → PermitDeny → Option String → Action (List PermissionAssignment)
grant_command_permissions_to_group identifier [] grant name = pure []
grant_command_permissions_to_group identifier (key ∷ keys) grant name = do
  spec ← lift (authorization_spec_for_command_key key)
  assignment ←
      grant_permission_to_group identifier spec.permission (some spec.command_key)
        PermissionResourceType.tenant (some (before_char b':' identifier)) grant name
  rest ← grant_command_permissions_to_group identifier keys grant name
  pure (assignment ∷ rest)

unfoldable pub tenant_role_group_identifier : String → String → String
tenant_role_group_identifier tenant_id role_name =
    append (strip tenant_id) (append ":" (strip role_name))

-- The command keys of a role, if it is one of `BASIC_ROLE_NAMES`.
unfoldable pub role_command_keys : String → Option (List String)
role_command_keys role = elim (find (λ (name, _). name == role) v1_basic_role_command_keys) [
  | none ↦ none
  | some (_, keys) ↦ some keys
]

unfoldable pub ensure_v1_role : String → String → List ℕ → Action Group
ensure_v1_role tenant_id role_name user_ids = do
  keys ← or_raise Error.key_error (role_command_keys role_name)
  let identifier = tenant_role_group_identifier tenant_id role_name
  group ← find_or_create_group identifier (some role_name)
  for_each user_ids
      (λ user_id. add_user_to_group user_id identifier (some role_name) >>= λ _. pure tt)
  grant_command_permissions_to_group identifier keys PermitDeny.permit (some role_name)
  pure group
