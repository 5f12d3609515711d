-- ===== src/TenantUsers/Names.antt =====
-- The identifiers of users and of tenants, one by one.
use mathlib.Core.List.Memᴰ
use mathlib.Core.List.Memᴰ.{Memᴰ}
use m8flow_bpmn_core.Base.{
  String, false, ◌||◌, Option, none, some, ◌≡◌, ◌↔◌, inl, inr, refl, sym, ap, subst, arith, ◌==◌,
  String_Eq, [], ◌∷◌, Bool-cases, Option-cases, find, if◌then◌else◌,
}
use m8flow_bpmn_core.Base.Text.{is_blank, strip}
use m8flow_bpmn_core.Model.Tenancy.{Tenant, User}
use m8flow_bpmn_core.Model.Database.{Database}
use m8flow_bpmn_core.TenantUsers.{
  identifier_of, identifier_of_option, service_realm, realm_identifiers, user_tenant_identifiers,
  tenant_row_identifiers, tenant_identifiers_for,
}

-- What is left of a text after trimming, where something is left.
abbrev pub IsTrimmed : String → String → Type 0
IsTrimmed raw s = (strip raw ≡ s) × (is_blank s ≡ false)

-- The name is the realm of the user's service, or one of three trimmed columns.
pub data IsUserName (user : User) (s : String) : Type 0 where
  of_service : service_realm user.service ≡ some s → is_blank s ≡ false → IsUserName user s
  of_realm : (raw : String) → user.realm_identifier ≡ some raw → IsTrimmed raw s → IsUserName user s
  of_org : (raw : String) → user.external_org_id ≡ some raw → IsTrimmed raw s → IsUserName user s
  of_user : (raw : String) → user.external_user_id ≡ some raw → IsTrimmed raw s → IsUserName user s

-- The name is the tenant's argument, or the key or slug of the row that the argument finds, trimmed.
pub data IsTenantName (db : Database) (t s : String) : Type 0 where
  given : IsTrimmed t s → IsTenantName db t s
  of_key :
      (r : Tenant)
      → find (λ x. x.id == t || x.slug == t) db.tenants ≡ some r
      → IsTrimmed r.id s
      → IsTenantName db t s
  of_slug :
      (r : Tenant)
      → find (λ x. x.id == t || x.slug == t) db.tenants ≡ some r
      → IsTrimmed r.slug s
      → IsTenantName db t s

mem_of_singleton : (s t : String) → Memᴰ s (t ∷ []) → t ≡ s
mem_of_singleton s t m = sym (Memᴰ.eq_of_singleton m)

identifier_of-IsTrimmed : (raw s : String) → Memᴰ s (identifier_of raw) ↔ IsTrimmed raw s
unfolding identifier_of
identifier_of-IsTrimmed raw s = elim (Bool-cases (is_blank (strip raw))) [
  | inl e ↦ (
    λ m. absurd (Memᴰ.not-nil (subst (λ b. Memᴰ s (if b then [] else strip raw ∷ [])) e m)),
    λ (same, full). absurd (ground (arith, e, subst (λ x. is_blank x ≡ false) (sym same) full)),
  )
  | inr e ↦ (
    λ m.
        let same =
          mem_of_singleton s (strip raw)
            (subst (λ b. Memᴰ s (if b then [] else strip raw ∷ [])) e m) in
        (same, subst (λ x. is_blank x ≡ false) same e),
    λ (same, full). rw e (Memᴰ.head (sym same)),
  )
]

identifier_of_option-IsTrimmed :
    (o : Option String) (s : String)
    → Memᴰ s (identifier_of_option o) ↔ ((raw : String) × (o ≡ some raw) × IsTrimmed raw s)
unfolding identifier_of_option
identifier_of_option-IsTrimmed none s = (λ m. absurd (Memᴰ.not-nil m), λ (raw, e, h). cc)
identifier_of_option-IsTrimmed (some raw) s = (
  λ m. (raw, refl, (identifier_of-IsTrimmed raw s).0 m),
  λ (other, e, h).
      let same : raw ≡ other = ground (arith, e) in
      (identifier_of-IsTrimmed raw s).1 (subst (λ x. IsTrimmed x s) (sym same) h),
)

realm_identifiers-mem :
    (o : Option String) (s : String)
    → Memᴰ s (realm_identifiers o) ↔ ((o ≡ some s) × (is_blank s ≡ false))
unfolding realm_identifiers
realm_identifiers-mem none s = (λ m. absurd (Memᴰ.not-nil m), λ (e, h). cc)
realm_identifiers-mem (some r) s = elim (Bool-cases (is_blank r)) [
  | inl e ↦ (
    λ m. absurd (Memᴰ.not-nil (subst (λ b. Memᴰ s (if b then [] else r ∷ [])) e m)),
    λ (same, full).
        let r_is_s : r ≡ s = ground (arith, same) in
        absurd (ground (arith, e, subst (λ x. is_blank x ≡ false) (sym r_is_s) full)),
  )
  | inr e ↦ (
    λ m.
        let same = mem_of_singleton s r (subst (λ b. Memᴰ s (if b then [] else r ∷ [])) e m) in
        (ap some same, subst (λ x. is_blank x ≡ false) same e),
    λ (same, full). let r_is_s : r ≡ s = ground (arith, same) in rw e (Memᴰ.head (sym r_is_s)),
  )
]

user_tenant_identifiers-IsUserName :
    (user : User) (s : String) → Memᴰ s (user_tenant_identifiers user) → IsUserName user s
unfolding user_tenant_identifiers
user_tenant_identifiers-IsUserName user s m = elim (Memᴰ.append_cases _ m) [
  | inl h ↦ let (e, full) = (realm_identifiers-mem _ s).0 h in IsUserName.of_service e full
  | inr more ↦ elim (Memᴰ.append_cases _ more) [
    | inl h ↦
        let (raw, e, t) = (identifier_of_option-IsTrimmed _ s).0 h in IsUserName.of_realm raw e t
    | inr rest ↦ elim (Memᴰ.append_cases _ rest) [
      | inl h ↦
          let (raw, e, t) = (identifier_of_option-IsTrimmed _ s).0 h in IsUserName.of_org raw e t
      | inr h ↦
          let (raw, e, t) = (identifier_of_option-IsTrimmed _ s).0 h in IsUserName.of_user raw e t
    ]
  ]
]

IsUserName-mem :
    (user : User) (s : String) → IsUserName user s → Memᴰ s (user_tenant_identifiers user)
unfolding user_tenant_identifiers
IsUserName-mem user s (IsUserName.of_service e full) =
    Memᴰ.append_left _ ((realm_identifiers-mem _ s).1 (e, full))
IsUserName-mem user s (IsUserName.of_realm raw e t) =
    Memᴰ.append_right _ (Memᴰ.append_left _ ((identifier_of_option-IsTrimmed _ s).1 (raw, e, t)))
IsUserName-mem user s (IsUserName.of_org raw e t) =
    Memᴰ.append_right _ (
      Memᴰ.append_right _ (Memᴰ.append_left _ ((identifier_of_option-IsTrimmed _ s).1 (raw, e, t))))
IsUserName-mem user s (IsUserName.of_user raw e t) =
    Memᴰ.append_right (realm_identifiers (service_realm user.service)) (
      Memᴰ.append_right (identifier_of_option user.realm_identifier) (
        Memᴰ.append_right (identifier_of_option user.external_org_id)
          ((identifier_of_option-IsTrimmed _ s).1 (raw, e, t))))

pub IsUserName-iff :
    (user : User) (s : String) → Memᴰ s (user_tenant_identifiers user) ↔ IsUserName user s
IsUserName-iff user s = (user_tenant_identifiers-IsUserName user s, IsUserName-mem user s)

row_name-IsTenantName :
    (db : Database) (t s : String)
    → Memᴰ s (tenant_row_identifiers (find (λ x. x.id == t || x.slug == t) db.tenants))
    → IsTenantName db t s
unfolding tenant_row_identifiers
row_name-IsTenantName db t s m =
    elim (Option-cases (find (λ (x : Tenant). x.id == t || x.slug == t) db.tenants)) [
      | inl e ↦ absurd (Memᴰ.not-nil (subst (λ o. Memᴰ s (tenant_row_identifiers o)) e m))
      | inr (r, e) ↦
          elim (Memᴰ.append_cases _ (subst (λ o. Memᴰ s (tenant_row_identifiers o)) e m)) [
            | inl h ↦ IsTenantName.of_key r e ((identifier_of-IsTrimmed r.id s).0 h)
            | inr h ↦ IsTenantName.of_slug r e ((identifier_of-IsTrimmed r.slug s).0 h)
          ]
    ]

IsTenantName-mem :
    (db : Database) (t s : String) → IsTenantName db t s → Memᴰ s (tenant_identifiers_for db t)
unfolding tenant_identifiers_for tenant_row_identifiers
IsTenantName-mem db t s (IsTenantName.given h) =
    Memᴰ.append_left _ ((identifier_of-IsTrimmed t s).1 h)
IsTenantName-mem db t s (IsTenantName.of_key r e h) = Memᴰ.append_right _ (
    subst (λ o. Memᴰ s (tenant_row_identifiers o)) (sym e)
      (Memᴰ.append_left _ ((identifier_of-IsTrimmed r.id s).1 h)))
IsTenantName-mem db t s (IsTenantName.of_slug r e h) = Memᴰ.append_right _ (
    subst (λ o. Memᴰ s (tenant_row_identifiers o)) (sym e)
      (Memᴰ.append_right _ ((identifier_of-IsTrimmed r.slug s).1 h)))

tenant_identifiers_for-IsTenantName :
    (db : Database) (t s : String) → Memᴰ s (tenant_identifiers_for db t) → IsTenantName db t s
unfolding tenant_identifiers_for
tenant_identifiers_for-IsTenantName db t s m = elim (Memᴰ.append_cases _ m) [
  | inl h ↦ IsTenantName.given ((identifier_of-IsTrimmed t s).0 h)
  | inr h ↦ row_name-IsTenantName db t s h
]

pub IsTenantName-iff :
    (db : Database) (t s : String) → Memᴰ s (tenant_identifiers_for db t) ↔ IsTenantName db t s
IsTenantName-iff db t s = (tenant_identifiers_for-IsTenantName db t s, IsTenantName-mem db t s)
