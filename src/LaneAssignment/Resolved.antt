-- ===== src/LaneAssignment/Resolved.antt =====
-- The users that `assign_work_item_potential_owners` finds, before it writes their rows.
use mathlib.Core.List.Memᴰ.{Memᴰ}
use m8flow_bpmn_core.Base.{
  ℕ, String, true, not, Option, none, some, List, [], ◌∷◌, ◌≡◌, inl, inr, refl, sym, ◌∙◌, subst,
  ◌==◌, Nat_Eq, String_Eq, keep, find, All, All-map, find-holds, Bool-cases, eq_of_test,
}
use m8flow_bpmn_core.Errors.{Error}
use m8flow_bpmn_core.Model.Json.{Value, Fields}
use m8flow_bpmn_core.Model.Permission.{Group}
use m8flow_bpmn_core.Model.Tenancy.{User}
use m8flow_bpmn_core.Model.Process.{ProcessInstance}
use m8flow_bpmn_core.Model.Task.{
  WorkItemUserAddedBy, process_initiator, lane_owner, lane_assignment,
}
use m8flow_bpmn_core.Model.Database.{Database, Table}
use m8flow_bpmn_core.Session.{pure, gets, ◌>>=◌}
use m8flow_bpmn_core.Session.Ensures.{
  Ensures, bind-Ensures, pure-Ensures, gets-Ensures, or_raise-Ensures,
}
use m8flow_bpmn_core.TenantUsers.{member, user_belongs_to_tenant, tenant_identifiers_for, get_user}
use m8flow_bpmn_core.LaneAssignment.{LaneTexts, configured_initiator_lanes}
use m8flow_bpmn_core.LaneAssignment.Groups.{tenant_group_members}
use m8flow_bpmn_core.LaneAssignment.Owners.{
  initiator, enroll_lane_owners, set_lane_group, group_of_lane, with_group, value_at,
  owners_in_lane, resolve_potential_owners, set_owners, users_or_none, resolve_owners,
}
use m8flow_bpmn_core.LaneAssignment.Members.{
  Qualifies, AllOwners, IsMember, set_owners-All, members-IsMember, owners_of_lane-IsMember,
}
use m8flow_bpmn_core.LaneAssignment.Frame.{
  SameOwners, same_owners, set_lane_group-Leaves, enroll-Leaves, group_of_lane-Leaves,
}

-- Members at a later moment are members from the start.
pub IsMember-earlier :
    (db d : Database) (ids later : List String) (u : User)
    → SameOwners db d
    → later ≡ ids
    → IsMember d later u
    → IsMember db ids u
IsMember-earlier db d ids later u r e (stored, belongs) = (
  subst (λ (t : Table User). Memᴰ u t.rows) r.users stored,
  subst (λ x. user_belongs_to_tenant u x ≡ true) e belongs,
)

module _ (texts : LaneTexts) where
  -- What is found before the rows are written.
  abbrev pub Found : ProcessInstance → Database → List (ℕ × WorkItemUserAddedBy) → Type 0
  Found p db = AllOwners (Qualifies db p.m8f_tenant_id p.process_initiator_id)

  initiator-Found :
      (p : ProcessInstance) (db : Database)
      → Ensures SameOwners
          (Found p db)
          (initiator p >>= λ user. pure ((user.id, process_initiator) ∷ []))
          db
  unfolding initiator get_user
  initiator-Found p db =
      bind-Ensures same_owners {P = λ (u : User). u.id ≡ p.process_initiator_id} (initiator p) _ db
        (bind-Ensures same_owners
          {P = λ (found : Option User).
            found ≡ find (λ u. u.id == p.process_initiator_id) db.users.rows}
          (gets (λ d. get_user d p.process_initiator_id)) _ db
          (gets-Ensures same_owners _ (λ d. get_user d p.process_initiator_id) db refl)
          λ found d r e. or_raise-Ensures same_owners _ Error.not_found_error found d λ u f.
            let search : find (λ v. v.id == p.process_initiator_id) db.users.rows ≡ some u =
              sym e ∙ f in
            eq_of_test u.id p.process_initiator_id (find-holds _ db.users.rows u search))
        λ u d r e.
          pure-Ensures same_owners (Found p db) ((u.id, process_initiator) ∷ []) d
            (inl (refl, e), tt)

  with_group-Found :
      (p : ProcessInstance) (item : ℕ) (ids : List String) (owners : List (ℕ × WorkItemUserAddedBy))
      (group : Option Group) (db d : Database)
      → SameOwners db d
      → ids ≡ tenant_identifiers_for db p.m8f_tenant_id
      → Found p db owners
      → Ensures SameOwners (Found p db) (with_group item ids owners group) d
  unfolding with_group
  with_group-Found p item ids owners none db d r e h =
      pure-Ensures same_owners (Found p db) owners d h
  with_group-Found p item ids owners (some group) db d r e h =
      bind-Ensures same_owners (set_lane_group item (some group.id)) _ d
        (set_lane_group-Leaves item (some group.id) d)
        λ u d1 r1 p1.
          bind-Ensures same_owners
            {P = All (IsMember db (tenant_identifiers_for db p.m8f_tenant_id))}
            (gets (λ x. tenant_group_members x group.id ids)) _ d1
            (gets-Ensures same_owners _ (λ x. tenant_group_members x group.id ids) d1
              (All-map _
                (λ m.
                  IsMember-earlier db d1 (tenant_identifiers_for db p.m8f_tenant_id) ids m
                    (same_owners.trans db d d1 r r1) e)
                (members-IsMember d1 ids group.id)))
            λ members d2 r2 all.
              pure-Ensures same_owners (Found p db) (set_owners lane_assignment members owners) d2 (
                set_owners-All (Qualifies db p.m8f_tenant_id p.process_initiator_id) lane_assignment
                  members owners h (All-map members (λ m is. inr (inr refl, (m, refl, is))) all))

  in_lane-Found :
      (p : ProcessInstance) (item : ℕ) (lane : String) (lanes : List String)
      (named : List (String × List String)) (db : Database)
      → Ensures SameOwners
          (Found p db)
          (owners_in_lane texts p.m8f_tenant_id item lane lanes named)
          db
  unfolding owners_in_lane
  in_lane-Found p item lane lanes named db =
      let t = p.m8f_tenant_id in
      let free = keep (λ (l, _). not (member l lanes)) named in
      bind-Ensures same_owners {P = λ ids. ids ≡ tenant_identifiers_for db t}
        (gets (λ d. tenant_identifiers_for d t)) _ db
        (gets-Ensures same_owners _ (λ d. tenant_identifiers_for d t) db refl)
        λ ids d r e.
          bind-Ensures same_owners
            {P = λ (by_lane : List (String × List User)).
              All (IsMember db (tenant_identifiers_for db t))
                (users_or_none (value_at lane by_lane))}
            (gets (λ x. resolve_owners x ids free)) _ d
            (gets-Ensures same_owners _ (λ x. resolve_owners x ids free) d
              (All-map _ (λ m. IsMember-earlier db d (tenant_identifiers_for db t) ids m r e)
                (owners_of_lane-IsMember d ids lane free)))
            λ by_lane d1 r1 all.
              bind-Ensures same_owners (enroll_lane_owners texts t by_lane) _ d1
                (enroll-Leaves texts t by_lane d1)
                λ groups d2 r2 p2.
                  bind-Ensures same_owners (group_of_lane texts t lane groups) _ d2
                    (group_of_lane-Leaves texts t lane groups d2)
                    λ group d3 r3 p3.
                      with_group-Found p item ids _ group db d3
                        (same_owners.trans db d d3 r
                          (same_owners.trans d d1 d3 r1 (same_owners.trans d1 d2 d3 r2 r3)))
                        e
                        (set_owners-All (Qualifies db p.m8f_tenant_id p.process_initiator_id)
                          lane_owner (users_or_none (value_at lane by_lane)) [] tt
                          (All-map _ (λ m is. inr (inl refl, (m, refl, is))) all))

  pub resolve-Found :
      (p : ProcessInstance) (item : ℕ) (lane : Option String) (v : Value)
      (properties : Option Fields) (db : Database)
      → Ensures SameOwners (Found p db) (resolve_potential_owners texts p item lane v properties) db
  unfolding resolve_potential_owners
  resolve-Found p item none v properties db = initiator-Found p db
  resolve-Found p item (some lane) v properties db =
      elim (Bool-cases (member lane (configured_initiator_lanes texts properties))) [
        | inl e ↦ rw (e, resolve_potential_owners) (initiator-Found p db)
        | inr e ↦ rw (e, resolve_potential_owners) (in_lane-Found p item lane _ _ db)
      ]
