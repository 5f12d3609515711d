-- ===== src/LaneAssignment/Frame.antt =====
-- What the groups of lanes leave alone: the users, the tenants and the potential owners.
use m8flow_bpmn_core.Base.{
  ℕ, String, not, Option, none, some, List, [], ◌∷◌, map, ◌≡◌, inl, inr, refl, ◌∙◌, arith, Nat_Eq,
  String_Eq, any, keep, find, Option-cases,
}
use m8flow_bpmn_core.Model.Permission.{Group}
use m8flow_bpmn_core.Model.Tenancy.{User}
use m8flow_bpmn_core.Model.Database.{Database}
use m8flow_bpmn_core.Session.{Action, pure, ◌>>=◌, add, update}
use m8flow_bpmn_core.Session.Ensures.{
  IsOrder, Ensures, Anything, bind-Ensures, pure-Ensures, for_each-Ensures, Ensures-outcome,
}
use m8flow_bpmn_core.Tables.{user_group_assignments}
use m8flow_bpmn_core.LaneAssignment.{LaneTexts, resolve_lane_assignment_id, lane_group_identifier}
use m8flow_bpmn_core.LaneAssignment.Groups.{
  has_id, assigned, is_legacy_group, least_group, use_group, find_or_create_lane_group,
  add_group_members, sorted_ids,
}
use m8flow_bpmn_core.LaneAssignment.GroupKeys.{found_group, legacy_group, made_group}
use m8flow_bpmn_core.LaneAssignment.Owners.{
  enroll_lane_owners, set_lane_group, group_of_lane, value_at,
}

-- The tables that say who is a member, and the potential owners, stay.
pub record SameOwners (a b : Database) : Type 0 where
  pub users : b.users ≡ a.users
  pub tenants : b.tenants ≡ a.tenants
  pub owners : b.work_item_users ≡ a.work_item_users

pub same_owners : IsOrder SameOwners
same_owners = record {
  stays = λ a. record { users = refl; tenants = refl; owners = refl };
  trans = λ a b c r s. record {
    users = s.users ∙ r.users;
    tenants = s.tenants ∙ r.tenants;
    owners = s.owners ∙ r.owners;
  };
}

abbrev pub Leaves : {A : Type 0} → Action A → Database → Type 0
Leaves call db = Ensures SameOwners Anything call db

pub leaves :
    {A : Type 0} (call : Action A) (db : Database)
    → (call db).1.users ≡ db.users
    → (call db).1.tenants ≡ db.tenants
    → (call db).1.work_item_users ≡ db.work_item_users
    → Leaves call db
leaves call db u t o = record {
  after = record { users = u; tenants = t; owners = o };
  returned = λ a h. tt;
}

add_group_members-Leaves :
    (g : Group) (us : List User) (db : Database) → Leaves (add_group_members g us) db
unfolding add_group_members add
add_group_members-Leaves g us db =
    let missing =
      keep (λ id. not (any (assigned g.id id) db.user_group_assignments.rows))
        (sorted_ids (map (λ u. u.id) us)) in
    let body : ℕ → Action (Unit {0}) = λ user_id.
      add user_group_assignments (λ id. record { id = id; user_id = user_id; group_id = g.id })
      >>= λ _. pure tt in
    let all =
      for_each-Ensures same_owners missing body db (λ id d. leaves (body id) d refl refl refl) in
    record { after = all.after; returned = λ a h. tt }

pub set_lane_group-Leaves :
    (item : ℕ) (g : Option ℕ) (db : Database) → Leaves (set_lane_group item g) db
unfolding set_lane_group update
set_lane_group-Leaves item g db = leaves (set_lane_group item g) db refl refl refl

module _ (texts : LaneTexts) where
  use_group-Leaves :
      (canonical : String) (g : Group) (db : Database) → Leaves (use_group texts canonical g) db
  unfolding use_group update
  use_group-Leaves canonical g db =
      leaves (use_group texts canonical g) db (ground arith) (ground arith) (ground arith)

  lane_group-Leaves :
      (t lane : String) (db : Database) → Leaves (find_or_create_lane_group texts t lane) db
  lane_group-Leaves t lane db =
      let call = find_or_create_lane_group texts t lane in
      let id = resolve_lane_assignment_id texts lane (some t) in
      elim (Option-cases (find (has_id id) db.groups.rows)) [
        | inr (g, found) ↦
            let used = use_group-Leaves (lane_group_identifier texts lane t) g db in
            Ensures-outcome call db (found_group texts t lane g db found) used.after used.returned
        | inl missing ↦
            elim (Option-cases (least_group (keep (is_legacy_group texts lane) db.groups.rows))) [
              | inr (legacy, e) ↦
                  Ensures-outcome call db (legacy_group texts t lane legacy db missing e)
                    (record { users = refl; tenants = refl; owners = refl }) (λ a h. tt)
              | inl nothing ↦
                  Ensures-outcome call db (made_group texts t lane db missing nothing)
                    (record { users = refl; tenants = refl; owners = refl }) (λ a h. tt)
            ]
      ]

  members-Leaves :
      (group : Option Group) (us : List User) (db : Database)
      → Leaves (elim group [ none ↦ pure tt | some g ↦ add_group_members g us ]) db
  members-Leaves none us db = pure-Ensures same_owners Anything tt db tt
  members-Leaves (some g) us db = add_group_members-Leaves g us db

  pub enroll-Leaves :
      (t : String) (lanes : List (String × List User)) (db : Database)
      → Leaves (enroll_lane_owners texts t lanes) db
  unfolding enroll_lane_owners
  enroll-Leaves t [] db = pure-Ensures same_owners Anything [] db tt
  enroll-Leaves t ((lane, us) ∷ rest) db =
      bind-Ensures same_owners (find_or_create_lane_group texts t lane) _ db
        (lane_group-Leaves t lane db)
        λ group d1 r1 p1.
          bind-Ensures same_owners (elim group [ none ↦ pure tt | some g ↦ add_group_members g us ])
            _ d1 (members-Leaves group us d1)
            λ u d2 r2 p2.
              bind-Ensures same_owners (enroll_lane_owners texts t rest) _ d2
                (enroll-Leaves t rest d2)
                λ later d3 r3 p3. pure-Ensures same_owners Anything ((lane, group) ∷ later) d3 tt

  pub group_of_lane-Leaves :
      (t lane : String) (groups : List (String × Option Group)) (db : Database)
      → Leaves (group_of_lane texts t lane groups) db
  unfolding group_of_lane
  group_of_lane-Leaves t lane groups db = elim (Option-cases (value_at lane groups)) [
    | inl e ↦ rw (e, group_of_lane) (lane_group-Leaves t lane db)
    | inr (group, e) ↦ rw (e, group_of_lane) (pure-Ensures same_owners Anything group db tt)
  ]
