-- ===== src/Authorization/Decision.antt =====
-- What the database policy allows.
use mathlib.Core.List.Memᴰ.{Memᴰ}
use m8flow_bpmn_core.Base.{
  true, some, ◌≡◌, ◌≢◌, ◌↔◌, inl, inr, refl, arith, Bool-cases, any, mem_of_keep, keep-mem,
  mem_of_any, any-mem,
}
use m8flow_bpmn_core.Model.Permission.{PermitDeny, PermissionAssignment}
use m8flow_bpmn_core.Model.Tenancy.{User}
use m8flow_bpmn_core.Model.Database.{Database}
use m8flow_bpmn_core.Session.{ok}
use m8flow_bpmn_core.TenantUsers.{get_user, tenant_identifiers_for}
use m8flow_bpmn_core.Authorization.Policy.{
  AuthorizationRequest, AuthorizationDecision, is_deny, is_permit, contains_id, principal_ids,
  permission_assignments_for_user, permission_assignment_matches_request, matching_assignments,
  decide_from, database_policy,
}

-- The assignment is stored, one of the actor's principals holds it, and its target and action fit
-- the request.
pub record Applies (db : Database) (request : AuthorizationRequest) (a : PermissionAssignment)
    : Type 0 where
  pub stored : Memᴰ a db.permission_assignments.rows
  pub held :
      contains_id a.principal_id
        (principal_ids db request.actor_user_id (tenant_identifiers_for db request.tenant_id))
      ≡ true
  pub matches : permission_assignment_matches_request db request a ≡ true

module _ (db : Database) (request : AuthorizationRequest) where
  Applies-of_mem :
      (a : PermissionAssignment) → Memᴰ a (matching_assignments db request) → Applies db request a
  unfolding matching_assignments permission_assignments_for_user
  Applies-of_mem a m =
      let (held, matches) = mem_of_keep _ _ a m in
      let (stored, has) = mem_of_keep _ _ a held in
      record { stored = stored; held = has; matches = matches }

  mem_of_applies :
      (a : PermissionAssignment) → Applies db request a → Memᴰ a (matching_assignments db request)
  unfolding matching_assignments permission_assignments_for_user
  mem_of_applies a h = keep-mem _ _ a (keep-mem _ _ a h.stored h.held) h.matches

  -- A permit applies, and no deny does.
  abbrev pub IsGranted : Type 0
  IsGranted =
      ((a : PermissionAssignment) × Applies db request a × (a.grant_type ≡ PermitDeny.permit))
      × ((a : PermissionAssignment) → Applies db request a → a.grant_type ≢ PermitDeny.deny)

  deny_of_test : (a : PermissionAssignment) → is_deny a ≡ true → a.grant_type ≡ PermitDeny.deny
  unfolding is_deny
  deny_of_test a h = ground arith

  permit_of_test :
      (a : PermissionAssignment) → is_permit a ≡ true → a.grant_type ≡ PermitDeny.permit
  unfolding is_permit
  permit_of_test a h = ground arith

  test_of_deny : (a : PermissionAssignment) → a.grant_type ≡ PermitDeny.deny → is_deny a ≡ true
  unfolding is_deny
  test_of_deny a h = ground arith

  test_of_permit :
      (a : PermissionAssignment) → a.grant_type ≡ PermitDeny.permit → is_permit a ≡ true
  unfolding is_permit
  test_of_permit a h = ground arith

  allowed_of_granted : IsGranted → (decide_from (matching_assignments db request)).allowed ≡ true
  unfolding decide_from
  allowed_of_granted ((a, applies, permit), no_deny) =
      let some_permit =
        any-mem is_permit _ a (mem_of_applies a applies) (test_of_permit a permit) in
      elim (Bool-cases (any is_deny (matching_assignments db request))) [
        | inl e ↦
            let (b, m, deny) = mem_of_any is_deny _ e in
            absurd (no_deny b (Applies-of_mem b m) (deny_of_test b deny))
        | inr e ↦ rw (e, some_permit) refl
      ]

  granted_of_allowed : (decide_from (matching_assignments db request)).allowed ≡ true → IsGranted
  unfolding decide_from
  granted_of_allowed h = elim (Bool-cases (any is_deny (matching_assignments db request))) [
    | inl e ↦ let refused = rw e at h in cc
    | inr e ↦ elim (Bool-cases (any is_permit (matching_assignments db request))) [
      | inl f ↦
          let (a, m, permit) = mem_of_any is_permit _ f in
          (
            (a, Applies-of_mem a m, permit_of_test a permit),
            λ b applies deny.
                let found = any-mem is_deny _ b (mem_of_applies b applies) (test_of_deny b deny) in
                (cc),
          )
      | inr f ↦ let refused = rw (e, f) at h in cc
    ]
  ]

  -- For an actor that exists the policy answers, without writing anything, and the answer is yes
  -- exactly when some stored permit applies to the request and no stored deny does.
  pub database_policy-allowed :
      (user : User)
      → get_user db request.actor_user_id ≡ some user
      → (d : AuthorizationDecision) × (database_policy request db ≡ (ok d, db))
        × ((d.allowed ≡ true) ↔ IsGranted)
  unfolding database_policy
  database_policy-allowed user h = (
    decide_from (matching_assignments db request),
    rw h refl,
    (granted_of_allowed, allowed_of_granted),
  )
