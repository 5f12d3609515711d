-- ===== src/LaneAssignment/Owners.antt =====
-- Potential owners of a work item: `_OwnerResolver`, `enroll_definition_lane_owners` and
-- `assign_work_item_potential_owners` of src/m8flow_core/services/lane_assignment.py. The
-- resolver's cache is left out: the lookups only read, and nothing writes users between them.
use m8flow_bpmn_core.Base.{
  ℕ, String, Bool, not, ◌&&◌, ◌||◌, Option, none, some, List, [], ◌∷◌, ◌++◌, map, ◌==◌, Nat_Eq,
  String_Eq, Option_Eq, if◌then◌else◌, any, keep,
}
use m8flow_bpmn_core.Base.Text.{is_blank, strip, has_char, before_char}
use m8flow_bpmn_core.Errors.{Error}
use m8flow_bpmn_core.Model.Json.{Value, Fields, get, as_object}
use m8flow_bpmn_core.Model.Permission.{Group}
use m8flow_bpmn_core.Model.Tenancy.{User}
use m8flow_bpmn_core.Model.Process.{ProcessInstance}
use m8flow_bpmn_core.Model.Task.{
  WorkItemUser, WorkItemUserAddedBy, process_initiator, lane_owner, lane_assignment,
}
use m8flow_bpmn_core.Model.Database.{Database}
use m8flow_bpmn_core.Session.{Action, pure, gets, or_raise, ◌>>=◌, ◌>>◌, add, update, for_each}
use m8flow_bpmn_core.Tables.{work_items, work_item_users}
use m8flow_bpmn_core.TenantUsers.{member, user_belongs_to_tenant, tenant_identifiers_for, get_user}
use m8flow_bpmn_core.LaneAssignment.{
  LaneTexts, normalize_lane_name, lane_owner_identifiers, configured_initiator_lanes,
}
use m8flow_bpmn_core.LaneAssignment.Groups.{
  sorted_ids, add_group_members, tenant_group_members, find_or_create_lane_group,
}

-- The users that pass the test and belong to the tenant.
unfoldable pub tenant_members : Database → List String → (User → Bool) → List User
tenant_members db identifiers condition =
    keep (λ u. user_belongs_to_tenant u identifiers) (keep condition db.users.rows)

unfoldable pub names_user : String → User → Bool
names_user identifier u =
    u.username == identifier || (u.email == some identifier || u.service_id == identifier)

-- The part of an address before the "@".
unfoldable pub lookup_local_part : Database → List String → String → List User
lookup_local_part db identifiers local_part =
    if is_blank local_part
    then []
    else tenant_members db identifiers (λ u. u.username == local_part)

unfoldable pub lookup_owner : Database → List String → String → List User
lookup_owner db identifiers identifier =
    elim (tenant_members db identifiers (names_user identifier)) [
      | u ∷ us ↦ u ∷ us
      | [] ↦
          if has_char b'@' identifier
          then lookup_local_part db identifiers (before_char b'@' identifier)
          else []
    ]

unfoldable pub users_for : Database → List String → String → List User
users_for db identifiers identifier =
    let key = strip identifier in if is_blank key then [] else lookup_owner db identifiers key

-- `for user in matched: owners.setdefault(user.id, user)`
unfoldable pub add_users : List User → List User → List User
add_users owners [] = owners
add_users owners (u ∷ us) =
    add_users (if any (λ o. o.id == u.id) owners then owners else owners ++ (u ∷ [])) us

unfoldable pub lane_owners_from : Database → List String → List User → List String → List User
lane_owners_from db identifiers owners [] = owners
lane_owners_from db identifiers owners (name ∷ names) =
    lane_owners_from db identifiers (add_users owners (users_for db identifiers name)) names

unfoldable pub lane_owners : Database → List String → List String → List User
lane_owners db identifiers names = lane_owners_from db identifiers [] names

-- `{user.id: WorkItemUserAddedBy.lane_owner}` of each user, and `setdefault` of the others.
unfoldable pub set_owners :
    WorkItemUserAddedBy
    → List User
    → List (ℕ × WorkItemUserAddedBy)
    → List (ℕ × WorkItemUserAddedBy)
set_owners label [] owners = owners
set_owners label (u ∷ us) owners =
    set_owners label us
      (if any (λ (id, _). id == u.id) owners then owners else owners ++ ((u.id, label) ∷ []))

unfoldable pub label_of : ℕ → List (ℕ × WorkItemUserAddedBy) → Option WorkItemUserAddedBy
label_of user_id [] = none
label_of user_id ((id, label) ∷ rest) = if id == user_id then some label else label_of user_id rest

unfoldable pub initiator : ProcessInstance → Action User
initiator p = do
  found ← gets (λ db. get_user db p.process_initiator_id)
  or_raise Error.not_found_error found

unfoldable pub is_owner_of : ℕ → ℕ → WorkItemUser → Bool
is_owner_of item_id user_id r = r.work_item_id == item_id && r.user_id == user_id

unfoldable pub add_potential_owner :
    String → ℕ → List (ℕ × WorkItemUserAddedBy) → ℕ → Action (Unit {0})
add_potential_owner tenant_id item_id owners user_id =
    add work_item_users (λ _. record {
      m8f_tenant_id = tenant_id;
      work_item_id = item_id;
      user_id = user_id;
      added_by = label_of user_id owners;
    })
    >>= λ _. pure tt

unfoldable pub add_missing_potential_owners :
    String → ℕ → List (ℕ × WorkItemUserAddedBy) → Action (Unit {0})
add_missing_potential_owners tenant_id item_id owners = do
  missing ← gets (λ db.
      keep (λ id. not (any (is_owner_of item_id id) db.work_item_users.rows))
        (sorted_ids (map (λ (id, _). id) owners)))
  for_each missing (add_potential_owner tenant_id item_id owners)

-- `lane_owners` of the task's data, if that is a mapping; else that of the definition.
unfoldable pub definition_lane_owners : LaneTexts → Option Fields → List (String × List String)
definition_lane_owners texts none = []
definition_lane_owners texts (some properties) =
    lane_owner_identifiers texts (get "lane_owners" properties)

-- A member of the data that is a mapping.
unfoldable pub mapping_at : String → Value → Option Value
mapping_at key data_value = elim (as_object data_value) [
  | none ↦ none
  | some fs ↦ elim (get key fs) [
    | none ↦ none
    | some v ↦ elim (as_object v) [ none ↦ none | some _ ↦ some v ]
  ]
]

unfoldable pub effective_lane_owners :
    LaneTexts → Value → Option Fields → List (String × List String)
effective_lane_owners texts task_data properties = elim (mapping_at "lane_owners" task_data) [
  | some v ↦ lane_owner_identifiers texts (some v)
  | none ↦ definition_lane_owners texts properties
]

-- The groups of the lanes that have owners, with the owners enrolled.
unfoldable pub enroll_lane_owners :
    LaneTexts → String → List (String × List User) → Action (List (String × Option Group))
enroll_lane_owners texts tenant_id [] = pure []
enroll_lane_owners texts tenant_id ((lane, owners) ∷ rest) = do
  group ← find_or_create_lane_group texts tenant_id lane
  elim group [ none ↦ pure tt | some g ↦ add_group_members g owners ]
  later ← enroll_lane_owners texts tenant_id rest
  pure ((lane, group) ∷ later)

-- The users of each lane.
unfoldable pub resolve_owners :
    Database → List String → List (String × List String) → List (String × List User)
resolve_owners db identifiers = map (λ (lane, names). (lane, lane_owners db identifiers names))

unfoldable pub enroll_definition_lane_owners :
    LaneTexts → String → Option Fields → Action (Unit {0})
enroll_definition_lane_owners texts tenant_id properties = do
  owners_by_lane ← gets (λ db.
      resolve_owners db (tenant_identifiers_for db tenant_id)
        (definition_lane_owners texts properties))
  enroll_lane_owners texts tenant_id owners_by_lane >>= λ _. pure tt

unfoldable pub value_at {ℓ} : {V : Type ℓ} → String → List (String × V) → Option V
value_at key [] = none
value_at key ((k, v) ∷ rest) = if k == key then some v else value_at key rest

unfoldable pub set_lane_group : ℕ → Option ℕ → Action (Unit {0})
set_lane_group item_id group_id =
    update work_items (λ w. w.id == item_id) (λ w. record w { lane_assignment_id = group_id })

abbrev pub users_or_none : Option (List User) → List User
users_or_none none = []
users_or_none (some us) = us

-- `groups[lane] if lane in groups else find_or_create_lane_group(…)`
unfoldable pub group_of_lane :
    LaneTexts → String → String → List (String × Option Group) → Action (Option Group)
group_of_lane texts tenant_id lane groups = elim (value_at lane groups) [
  | some group ↦ pure group
  | none ↦ find_or_create_lane_group texts tenant_id lane
]

-- The group's members after the lane's own owners, and the item's group set.
unfoldable pub with_group :
    ℕ
    → List String
    → List (ℕ × WorkItemUserAddedBy)
    → Option Group
    → Action (List (ℕ × WorkItemUserAddedBy))
with_group item_id identifiers owners none = pure owners
with_group item_id identifiers owners (some group) = do
  set_lane_group item_id (some group.id)
  members ← gets (λ db. tenant_group_members db group.id identifiers)
  pure (set_owners lane_assignment members owners)

-- The owners of an item in a lane that is no initiator lane.
unfoldable pub owners_in_lane :
    LaneTexts
    → String
    → ℕ
    → String
    → List String
    → List (String × List String)
    → Action (List (ℕ × WorkItemUserAddedBy))
owners_in_lane texts tenant_id item_id lane initiator_lanes named = do
  identifiers ← gets (λ db. tenant_identifiers_for db tenant_id)
  owners_by_lane ←
      gets (λ db.
        resolve_owners db identifiers (keep (λ (l, _). not (member l initiator_lanes)) named))
  groups ← enroll_lane_owners texts tenant_id owners_by_lane
  let owners = set_owners lane_owner (users_or_none (value_at lane owners_by_lane)) []
  group ← group_of_lane texts tenant_id lane groups
  with_group item_id identifiers owners group

unfoldable pub resolve_potential_owners :
    LaneTexts
    → ProcessInstance
    → ℕ
    → Option String
    → Value
    → Option Fields
    → Action (List (ℕ × WorkItemUserAddedBy))
resolve_potential_owners texts p item_id none task_data properties = do
  user ← initiator p
  pure ((user.id, process_initiator) ∷ [])
resolve_potential_owners texts p item_id (some lane) task_data properties =
    let initiator_lanes = configured_initiator_lanes texts properties in
    if member lane initiator_lanes
    then (do user ← initiator p; pure ((user.id, process_initiator) ∷ []))
    else owners_in_lane texts p.m8f_tenant_id item_id lane initiator_lanes
        (effective_lane_owners texts task_data properties)

unfoldable pub assign_work_item_potential_owners :
    LaneTexts → ProcessInstance → ℕ → Value → Value → Option Fields → Action (Unit {0})
assign_work_item_potential_owners texts p item_id lane_name task_data properties = do
  set_lane_group item_id none
  owners ←
      resolve_potential_owners texts p item_id (normalize_lane_name texts lane_name) task_data
        properties
  add_missing_potential_owners p.m8f_tenant_id item_id owners
