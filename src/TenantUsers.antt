-- ===== src/TenantUsers.antt =====
-- Membership of users in tenants: src/m8flow_core/services/tenant_users.py. A Python set of
-- identifiers is a list of which only the members matter.
pub mod Names
pub mod Membership
use m8flow_bpmn_core.Base.{
  ℕ, String, Bool, true, false, not, ◌||◌, Option, none, some, List, [], ◌∷◌, ◌++◌, ◌==◌, Nat_Eq,
  String_Eq, if◌then◌else◌, find, any,
}
use m8flow_bpmn_core.Base.Text.{
  is_blank, strip, rstrip_when, has_char, before_char, after_last_char, contains, last_piece,
}
use m8flow_bpmn_core.Errors.{Error}
use m8flow_bpmn_core.Model.Tenancy.{Tenant, User}
use m8flow_bpmn_core.Model.Database.{Database}
use m8flow_bpmn_core.Session.{Action, pure, raise, gets, or_raise, raise_if, ◌>>=◌, ◌>>◌}
use Prim.Native.Char.{code}

-- The identifier, if it is not blank after trimming.
unfoldable pub identifier_of : String → List String
identifier_of s = let normalized = strip s in if is_blank normalized then [] else normalized ∷ []

unfoldable pub identifier_of_option : Option String → List String
identifier_of_option none = []
identifier_of_option (some s) = identifier_of s

unfoldable pub service_realm : String → Option String
service_realm service =
    let normalized = rstrip_when (λ c. code c == b'/') service in
    if contains "/realms/" normalized
    then some (before_char b'/' (last_piece "/realms/" normalized))
    else if has_char b'/' normalized
    then some (after_last_char b'/' normalized)
    else if is_blank normalized
    then none
    else some normalized

-- `if service_realm_value: identifiers.add(service_realm_value)`
unfoldable pub realm_identifiers : Option String → List String
realm_identifiers none = []
realm_identifiers (some s) = if is_blank s then [] else s ∷ []

unfoldable pub user_tenant_identifiers : User → List String
user_tenant_identifiers user =
    realm_identifiers (service_realm user.service)
    ++ (identifier_of_option user.realm_identifier
        ++ (identifier_of_option user.external_org_id
            ++ identifier_of_option user.external_user_id))

unfoldable pub member : String → List String → Bool
member s = any (λ t. t == s)

unfoldable pub user_belongs_to_tenant : User → List String → Bool
user_belongs_to_tenant user identifiers =
    any (λ s. member s identifiers) (user_tenant_identifiers user)

unfoldable pub tenant_row_identifiers : Option Tenant → List String
tenant_row_identifiers none = []
tenant_row_identifiers (some t) = identifier_of t.id ++ identifier_of t.slug

unfoldable pub tenant_identifiers_for : Database → String → List String
tenant_identifiers_for db tenant_id =
    identifier_of tenant_id
    ++ tenant_row_identifiers (find (λ t. t.id == tenant_id || t.slug == tenant_id) db.tenants)

-- `session.get(UserModel, user_id)`
unfoldable pub get_user : Database → ℕ → Option User
get_user db user_id = find (λ u. u.id == user_id) db.users.rows

unfoldable pub ensure_user_belongs_to_tenant : String → ℕ → Action User
ensure_user_belongs_to_tenant tenant_id user_id = do
  user ← or_raise Error.not_found_error (← gets (λ db. get_user db user_id))
  identifiers ← gets (λ db. tenant_identifiers_for db tenant_id)
  raise_if (not (user_belongs_to_tenant user identifiers)) Error.authorization_error
  pure user
