-- ===== src/LaneAssignment/Assigned.antt =====
-- What the assignment of potential owners writes.
use mathlib.Core.List.{append_assoc, append-nil}
use mathlib.Core.List.Memᴰ.{Memᴰ}
use m8flow_bpmn_core.Base.{
  ℕ, String, false, not, Option, none, some, List, [], ◌∷◌, ◌++◌, map, ◌≡◌, inl, inr, refl, sym, ap,
  ◌∙◌, subst, arith, Nat_Eq, String_Eq, any, keep, All, All-map, mem_of_keep,
}
use m8flow_bpmn_core.Model.Json.{Value, Fields}
use m8flow_bpmn_core.Model.Process.{ProcessInstance}
use m8flow_bpmn_core.Model.Task.{WorkItemUser, WorkItemUserAddedBy}
use m8flow_bpmn_core.Model.Database.{Database, Table}
use m8flow_bpmn_core.Session.{◌>>=◌, add, for_each}
use m8flow_bpmn_core.Session.Ensures.{bind_after}
use m8flow_bpmn_core.TenantUsers.{tenant_identifiers_for}
use m8flow_bpmn_core.LaneAssignment.{LaneTexts, normalize_lane_name}
use m8flow_bpmn_core.LaneAssignment.Groups.{sorted_ids}
use m8flow_bpmn_core.LaneAssignment.Owners.{
  is_owner_of, add_potential_owner, add_missing_potential_owners, set_lane_group,
  resolve_potential_owners, assign_work_item_potential_owners, label_of,
}
use m8flow_bpmn_core.LaneAssignment.Members.{Qualifies, AllOwners, label-All, mem_of_sorted_ids}
use m8flow_bpmn_core.LaneAssignment.Frame.{SameOwners, same_owners, set_lane_group-Leaves}
use m8flow_bpmn_core.LaneAssignment.Resolved.{IsMember-earlier, resolve-Found}

-- The row that a user is added with.
owner_row : String → ℕ → List (ℕ × WorkItemUserAddedBy) → ℕ → WorkItemUser
owner_row t item owners user_id = record {
  m8f_tenant_id = t;
  work_item_id = item;
  user_id = user_id;
  added_by = label_of user_id owners;
}

for_each-rows :
    (t : String) (item : ℕ) (owners : List (ℕ × WorkItemUserAddedBy)) (ids : List ℕ) (db : Database)
    → (for_each ids (add_potential_owner t item owners) db).1.work_item_users.rows
      ≡ db.work_item_users.rows ++ map (owner_row t item owners) ids
unfolding for_each add_potential_owner add owner_row
for_each-rows t item owners [] db = sym (append-nil db.work_item_users.rows)
for_each-rows t item owners (id ∷ ids) db =
    for_each-rows t item owners ids _ ∙ append_assoc db.work_item_users.rows _ _

-- A row that the assignment adds: of the item and the tenant, for a user without a row, who
-- qualifies by its label.
pub record IsAdded (db : Database) (p : ProcessInstance) (item : ℕ) (r : WorkItemUser)
    : Type 0 where
  pub of_item : r.work_item_id ≡ item
  pub of_tenant : r.m8f_tenant_id ≡ p.m8f_tenant_id
  pub is_new : any (is_owner_of item r.user_id) db.work_item_users.rows ≡ false
  pub qualifies : Qualifies db p.m8f_tenant_id p.process_initiator_id r.user_id r.added_by

-- Rows are only added, and only such rows.
abbrev pub AddsOwners : Database → ProcessInstance → ℕ → Database → Type 0
AddsOwners db p item d =
    (added : List WorkItemUser) × (d.work_item_users.rows ≡ db.work_item_users.rows ++ added)
    × All (IsAdded db p item) added

All-of_map :
    {A : Type 0} (Q : WorkItemUser → Type 0) (f : A → WorkItemUser) (xs : List A)
    → ((x : A) → Memᴰ x xs → Q (f x))
    → All Q (map f xs)
All-of_map Q f [] h = tt
All-of_map Q f (x ∷ xs) h = (h x (Memᴰ.head refl), All-of_map Q f xs (λ y m. h y (Memᴰ.tail m)))

add_missing-AddsOwners :
    (p : ProcessInstance) (item : ℕ) (owners : List (ℕ × WorkItemUserAddedBy)) (db d : Database)
    → SameOwners db d
    → AllOwners (Qualifies db p.m8f_tenant_id p.process_initiator_id) owners
    → AddsOwners db p item (add_missing_potential_owners p.m8f_tenant_id item owners d).1
unfolding add_missing_potential_owners owner_row
add_missing-AddsOwners p item owners db d r found =
    let is_missing = λ (id : ℕ). not (any (is_owner_of item id) d.work_item_users.rows) in
    let candidates = sorted_ids (map (λ o. o.0) owners) in
    let missing = keep is_missing candidates in
    (
      map (owner_row p.m8f_tenant_id item owners) missing,
      for_each-rows p.m8f_tenant_id item owners missing d
          ∙ ap
              (λ (t : Table WorkItemUser).
                t.rows ++ map (owner_row p.m8f_tenant_id item owners) missing)
              r.owners,
      All-of_map (IsAdded db p item) (owner_row p.m8f_tenant_id item owners) missing (λ id m.
          let (candidate, absent) = mem_of_keep is_missing candidates id m in
          record {
            of_item = refl;
            of_tenant = refl;
            is_new =
                subst (λ (t : Table WorkItemUser). any (is_owner_of item id) t.rows ≡ false)
                  r.owners (ground (arith, absent));
            qualifies =
                label-All (Qualifies db p.m8f_tenant_id p.process_initiator_id) owners id found
                  (mem_of_sorted_ids id _ candidate);
          }),
    )

Qualifies-earlier :
    (db d : Database) (t : String) (initiator_id user_id : ℕ) (label : Option WorkItemUserAddedBy)
    → SameOwners db d
    → Qualifies d t initiator_id user_id label
    → Qualifies db t initiator_id user_id label
unfolding tenant_identifiers_for
Qualifies-earlier db d t initiator_id user_id label r (inl h) = inl h
Qualifies-earlier db d t initiator_id user_id label r (inr (by, (u, named, is))) =
    let ids : tenant_identifiers_for d t ≡ tenant_identifiers_for db t = rw (r.tenants) refl in
    inr (by, (u, named, IsMember-earlier db d (tenant_identifiers_for db t) _ u r ids is))

-- The assignment, whether it returns or raises, keeps the rows that are there and adds rows of the
-- item for users who had none: the initiator, under that label, or stored users who belong to the
-- tenant, as lane owners or members of the lane's group.
pub assign_work_item_potential_owners-AddsOwners :
    (texts : LaneTexts) (p : ProcessInstance) (item : ℕ) (lane v : Value)
    (properties : Option Fields) (db : Database)
    → AddsOwners db p item (assign_work_item_potential_owners texts p item lane v properties db).1
unfolding assign_work_item_potential_owners
assign_work_item_potential_owners-AddsOwners texts p item lane v properties db =
    let nothing_added : (d : Database) → SameOwners db d → AddsOwners db p item d =
      λ d r. ([], ap (λ (t : Table WorkItemUser). t.rows) r.owners ∙ sym (append-nil _), tt) in
    let add = add_missing_potential_owners p.m8f_tenant_id item in
    let find_owners =
      resolve_potential_owners texts p item (normalize_lane_name texts lane) v properties in
    bind_after (AddsOwners db p item) (set_lane_group item none) (λ _. find_owners >>= add) db
      (set_lane_group-Leaves item none db) nothing_added
      λ u d r k.
        bind_after (AddsOwners db p item) find_owners add d
          (resolve-Found texts p item (normalize_lane_name texts lane) v properties d)
          (λ e s. nothing_added e (same_owners.trans db d e r s))
          λ owners e s found.
            add_missing-AddsOwners p item owners db e (same_owners.trans db d e r s) (
              All-map owners
                (λ o.
                  Qualifies-earlier db d p.m8f_tenant_id p.process_initiator_id o.0 (some o.1) r)
                found)
