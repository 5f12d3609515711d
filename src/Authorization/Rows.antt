-- ===== src/Authorization/Rows.antt =====
-- The rows that grants leave.
use m8flow_bpmn_core.Base.{
  ℕ, Bool, true, ◌&&◌, Option, none, some, ◌≡◌, inl, inr, refl, arith, ◌==◌, Nat_Eq, ==_refl,
  Bool-cases, Option-cases, find, find-append, find-holds, find-update_where,
}
use m8flow_bpmn_core.Model.Permission.{
  PermitDeny, PermissionAction, PermissionAssignment, Action-discrete,
}
use m8flow_bpmn_core.Model.Database.{Database, Table, insert_row}
use m8flow_bpmn_core.Session.{ok, TableRef, add, update, first}
use m8flow_bpmn_core.Tables.{permission_assignments}
use m8flow_bpmn_core.Authorization.Policy.{is_permission}
use m8flow_bpmn_core.Authorization.Grants.{
  get_or_create, same_grant_type, find_or_create_permission_assignment,
}

-- What is set is what is got.
abbrev pub IsStored : {R : Type 0} → TableRef R → Type 0
IsStored {R} table = (rows : Table R) (db : Database) → table.get (table.set rows db) ≡ rows

module _ {R : Type 0} (table : TableRef R) (laws : IsStored table) (lookup : R → Bool)
    (values : ℕ → R) where
  get_or_create-existing :
      (db : Database) (r : R)
      → find lookup (table.get db).rows ≡ some r
      → get_or_create table lookup values db ≡ (ok r, db)
  unfolding get_or_create first
  get_or_create-existing db r h = ground (arith, h)

  get_or_create-missing :
      (db : Database)
      → ((id : ℕ) → lookup (values id) ≡ true)
      → find lookup (table.get db).rows ≡ none
      → (get_or_create table lookup values db
          ≡ (ok (values (table.get db).next_id), table.set (insert_row values (table.get db)) db))
        × (find lookup (table.get (table.set (insert_row values (table.get db)) db)).rows
            ≡ some (values (table.get db).next_id))
  unfolding get_or_create first add
  get_or_create-missing db passes h =
      let stored = laws (insert_row values (table.get db)) db in
      let appended = find-append lookup (table.get db).rows (values (table.get db).next_id) in
      let here = passes (table.get db).next_id in
      (ground (arith, h, stored, appended, here), ground (arith, h, stored, appended, here))

  -- Where a new row passes the lookup, the call returns a row of the table that passes it, and a
  -- second call returns the same row and changes nothing.
  pub get_or_create-idempotent :
      (db : Database)
      → ((id : ℕ) → lookup (values id) ≡ true)
      → (r : R) × (db' : Database) × (get_or_create table lookup values db ≡ (ok r, db'))
        × (find lookup (table.get db').rows ≡ some r)
        × (lookup r ≡ true)
        × (get_or_create table lookup values db' ≡ (ok r, db'))
  get_or_create-idempotent db passes = elim (Option-cases (find lookup (table.get db).rows)) [
    | inr (r, h) ↦
        let again = get_or_create-existing db r h in
        (r, db, again, h, find-holds lookup _ r h, again)
    | inl h ↦
        let (created, found) = get_or_create-missing db passes h in
        (_, _, created, found, passes _, get_or_create-existing _ _ found)
  ]

-- The assignment of a principal to a target for one action.
abbrev pub assignment_at : Database → ℕ → ℕ → PermissionAction → Option PermissionAssignment
assignment_at db principal_id target_id permission =
    find
      (λ (a : PermissionAssignment).
        a.principal_id == principal_id
        && (a.permission_target_id == target_id && is_permission a.permission permission))
      db.permission_assignments.rows

abbrev new_assignment : ℕ → ℕ → PermissionAction → PermitDeny → ℕ → PermissionAssignment
new_assignment principal_id target_id permission grant_type id = record {
  id = id;
  principal_id = principal_id;
  permission_target_id = target_id;
  grant_type = grant_type;
  permission = permission;
}

is_permission_refl : (a : PermissionAction) → is_permission a a ≡ true
unfolding is_permission Action-discrete
is_permission_refl PermissionAction.all = refl
is_permission_refl PermissionAction.create = refl
is_permission_refl PermissionAction.delete = refl
is_permission_refl PermissionAction.execute = refl
is_permission_refl PermissionAction.read = refl
is_permission_refl PermissionAction.start = refl
is_permission_refl PermissionAction.update = refl

same_grant_type-eq : (a b : PermitDeny) → same_grant_type a b ≡ true → a ≡ b
unfolding same_grant_type
same_grant_type-eq a b h = ground (arith, h)

-- The call succeeds, and afterwards the principal has exactly the grant that was asked for, permit
-- or deny, on the target for the action: an earlier grant of the other kind is overwritten.
pub find_or_create_permission_assignment-set :
    (principal_id target_id : ℕ) (permission : PermissionAction) (grant : PermitDeny)
    (db : Database)
    → (a : PermissionAssignment) × (db' : Database) × (find_or_create_permission_assignment
          principal_id target_id permission grant db
        ≡ (ok a, db'))
      × (assignment_at db' principal_id target_id permission ≡ some a)
      × (a.grant_type ≡ grant)
unfolding find_or_create_permission_assignment update
find_or_create_permission_assignment-set principal target permission grant db =
    let lookup = λ (a : PermissionAssignment).
      a.principal_id == principal
      && (a.permission_target_id == target && is_permission a.permission permission) in
    let (r, db1, created, found, passes, _) =
      get_or_create-idempotent permission_assignments (λ _ _. refl) lookup
        (new_assignment principal target permission grant) db
        (λ id. rw (==_refl principal, ==_refl target, is_permission_refl permission) refl) in
    elim (Bool-cases (same_grant_type r.grant_type grant)) [
      | inl same ↦
          (r, db1, ground (arith, created, same), found, same_grant_type-eq r.grant_type grant same)
      | inr differs ↦
          let moved =
            find-update_where lookup (λ a. a.id == r.id) (λ a. record a { grant_type = grant })
              db1.permission_assignments.rows (λ a _. refl) in
          (
            record r { grant_type = grant },
            (update permission_assignments (λ a. a.id == r.id)
                (λ a. record a { grant_type = grant }) db1).1,
            ground (arith, created, differs),
            rw (moved, found, ==_refl r.id) refl,
            refl,
          )
    ]
