-- ===== src/LaneAssignment/Groups.antt =====
-- The groups of lanes: `find_or_create_lane_group`, `_add_group_members` and
-- `_tenant_group_members` of src/m8flow_core/services/lane_assignment.py.
use m8flow_bpmn_core.Base.{
  ℕ, String, Bool, false, not, ◌&&◌, Option, none, some, List, [], ◌∷◌, map, ◌==◌, Nat_Eq,
  String_Eq, Option_Eq, if◌then◌else◌, ltb, leb, any, keep,
}
use m8flow_bpmn_core.Model.Permission.{Group, UserGroupAssignment}
use m8flow_bpmn_core.Model.Tenancy.{User}
use m8flow_bpmn_core.Model.Database.{Database}
use m8flow_bpmn_core.Session.{
  Action, pure, gets, ◌>>=◌, ◌>>◌, add, add_keyed, update, first, for_each,
}
use m8flow_bpmn_core.Tables.{groups, user_group_assignments}
use m8flow_bpmn_core.TenantUsers.{user_belongs_to_tenant}
use m8flow_bpmn_core.LaneAssignment.{
  LaneTexts, normalized, resolve_lane_assignment_id, lane_group_identifier,
}

-- Of two groups the one with the smaller key.
unfoldable pub lower_group : Group → Option Group → Group
lower_group g none = g
lower_group g (some h) = if leb g.id h.id then g else h

-- `ORDER BY id LIMIT 1`
unfoldable pub least_group : List Group → Option Group
least_group [] = none
least_group (g ∷ gs) = some (lower_group g (least_group gs))

unfoldable pub has_id : ℕ → Group → Bool
has_id group_id g = g.id == group_id

-- A Python set of keys in the order of `sorted`.
unfoldable pub insert_id : ℕ → List ℕ → List ℕ
insert_id n [] = n ∷ []
insert_id n (m ∷ ms) =
    let later = insert_id n ms in
    if n == m then m ∷ ms else if ltb n m then n ∷ m ∷ ms else m ∷ later

unfoldable pub sorted_ids : List ℕ → List ℕ
sorted_ids [] = []
sorted_ids (n ∷ ns) = insert_id n (sorted_ids ns)

unfoldable pub assigned : ℕ → ℕ → UserGroupAssignment → Bool
assigned group_id user_id a = a.group_id == group_id && a.user_id == user_id

-- Users who are assigned to the group are passed over.
unfoldable pub add_group_members : Group → List User → Action (Unit {0})
add_group_members group users = do
  missing ← gets (λ db.
      keep (λ id. not (any (assigned group.id id) db.user_group_assignments.rows))
        (sorted_ids (map (λ u. u.id) users)))
  for_each missing λ user_id.
      add user_group_assignments (λ id. record { id = id; user_id = user_id; group_id = group.id })
      >>= λ _. pure tt

unfoldable pub tenant_group_members : Database → ℕ → List String → List User
tenant_group_members db group_id identifiers =
    keep (λ u. user_belongs_to_tenant u identifiers)
      (keep (λ u. any (assigned group_id u.id) db.user_group_assignments.rows) db.users.rows)

module _ (texts : LaneTexts) where
  -- A group of the lane alone, from before the groups were of tenants.
  unfoldable pub is_legacy_group : String → Group → Bool
  is_legacy_group lane g = elim g.identifier [
    | none ↦ false
    | some identifier ↦ texts.lower_trim identifier == lane
  ]

  -- `stored.strip().lower() == canonical`, of a stored identifier that is not canonical.
  unfoldable pub renames_to : String → Option String → Bool
  renames_to canonical none = false
  renames_to canonical (some stored) = normalized texts stored == canonical

  -- What is made of the group at the computed key.
  unfoldable pub use_group : String → Group → Action (Option Group)
  use_group canonical group =
      if group.identifier == some canonical
      then pure (some group)
      else if renames_to canonical group.identifier
      then (do
        let renamed = λ (g : Group). record g { name = some canonical; identifier = some canonical }
        update groups (has_id group.id) renamed
        pure (some (renamed group)))
      else pure none

  unfoldable pub find_or_create_lane_group : String → String → Action (Option Group)
  find_or_create_lane_group tenant_id lane = do
    let canonical = lane_group_identifier texts lane tenant_id
    let group_id = resolve_lane_assignment_id texts lane (some tenant_id)
    found ← first groups (has_id group_id)
    elim found [
      | some group ↦ use_group canonical group
      | none ↦ do
        legacy ← gets (λ db. least_group (keep (is_legacy_group lane) db.groups.rows))
        elim legacy [
          | some group ↦ pure (some group)
          | none ↦ do
            group ← add_keyed groups (record {
              id = group_id;
              name = some canonical;
              identifier = some canonical;
              authorization_key = none;
            })
            pure (some group)
        ]
    ]
