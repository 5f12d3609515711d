-- ===== src/TenantUsers/Membership.antt =====
-- Who belongs to a tenant: who shares an identifier with it.
use mathlib.Core.List.Memᴰ.{Memᴰ}
use m8flow_bpmn_core.Base.{
  ℕ, String, true, some, List, ◌≡◌, ◌↔◌, inl, inr, subst, arith, ◌==◌, String_Eq, eq_of_test,
  ==_refl, Bool-cases, Option-cases, mem_of_any, any-mem,
}
use m8flow_bpmn_core.Model.Tenancy.{User}
use m8flow_bpmn_core.Model.Database.{Database}
use m8flow_bpmn_core.Session.{ok}
use m8flow_bpmn_core.TenantUsers.Names.{IsUserName, IsTenantName, IsUserName-iff, IsTenantName-iff}
use m8flow_bpmn_core.TenantUsers.{
  member, user_belongs_to_tenant, tenant_identifiers_for, get_user, ensure_user_belongs_to_tenant,
}

-- One of the user's names is one of the tenant's.
abbrev pub Shares : Database → String → User → Type 0
Shares db tenant_id user = (s : String) × IsUserName user s × IsTenantName db tenant_id s

pub mem_of_member : (s : String) (xs : List String) → member s xs ≡ true → Memᴰ s xs
unfolding member
mem_of_member s xs h =
    let (t, m, same) = mem_of_any (λ x. x == s) xs h in
    subst (λ x. Memᴰ x xs) (eq_of_test t s same) m

pub member-mem : (s : String) (xs : List String) → Memᴰ s xs → member s xs ≡ true
unfolding member
member-mem s xs m = any-mem (λ x. x == s) xs s m (==_refl s)

belongs-Shares :
    (db : Database) (t : String) (user : User)
    → (user_belongs_to_tenant user (tenant_identifiers_for db t) ≡ true) ↔ Shares db t user
unfolding user_belongs_to_tenant
belongs-Shares db t user = (
  λ h.
      let (s, m, shared) = mem_of_any _ _ h in
      (
        s,
        (IsUserName-iff user s).0 m,
        (IsTenantName-iff db t s).0 (mem_of_member s (tenant_identifiers_for db t) shared),
      ),
  λ (s, own, shared).
      any-mem _ _ s ((IsUserName-iff user s).1 own)
        (member-mem s (tenant_identifiers_for db t) ((IsTenantName-iff db t s).1 shared)),
)

-- The check passes, and returns the row of the user, exactly when there is such a user and a name of
-- the user is one of the tenant. The names of a user are the realm of the user's service, the realm
-- identifier, and the external ids of organisation and user; those of a tenant are the argument, and
-- the key and slug of the row that it finds by key or slug. All but the service's realm are trimmed,
-- and no name is empty.
pub ensure_user_belongs_to_tenant_iff :
    (t : String) (u : ℕ) (user : User) (db : Database)
    → (ensure_user_belongs_to_tenant t u db ≡ (ok user, db))
      ↔ ((get_user db u ≡ some user) × Shares db t user)
unfolding ensure_user_belongs_to_tenant
ensure_user_belongs_to_tenant_iff t u user db = elim (Option-cases (get_user db u)) [
  | inl e ↦ (λ h. ground (arith, e, h), λ (h, _). ground (arith, e, h))
  | inr (found, e) ↦
      elim (Bool-cases (user_belongs_to_tenant found (tenant_identifiers_for db t))) [
        | inl b ↦ (
          λ h.
              let same : found ≡ user = ground (arith, e, b, h) in
              (
                ground (arith, e, same),
                subst (λ x. Shares db t x) same ((belongs-Shares db t found).0 b),
              ),
          λ (h, shares). ground (arith, e, b, h),
        )
        | inr b ↦ (
          λ h. ground (arith, e, b, h),
          λ (h, shares).
              let same : user ≡ found = ground (arith, e, h) in
              let yes = (belongs-Shares db t found).1 (subst (λ x. Shares db t x) same shares) in
              ground (arith, b, yes),
        )
      ]
]
