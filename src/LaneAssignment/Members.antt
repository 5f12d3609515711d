-- ===== src/LaneAssignment/Members.antt =====
-- Who becomes a potential owner: the parts of the lookups that keep to the tenant's members.
use mathlib.Core.List.Memᴰ
use mathlib.Core.List.Memᴰ.{Memᴰ}
use m8flow_bpmn_core.Base.{
  ℕ, String, Bool, true, Option, some, List, [], ◌∷◌, map, ◌≡◌, ◌⊎◌, inl, inr, refl, subst, arith,
  ◌==◌, Nat_Eq, String_Eq, eq_of_test, ==_refl, any, keep, ltb, All, All-append, Bool-cases,
  mem_of_keep,
}
use m8flow_bpmn_core.Base.Text.{is_blank, strip, has_char, before_char}
use m8flow_bpmn_core.Model.Tenancy.{User}
use m8flow_bpmn_core.Model.Task.{
  WorkItemUserAddedBy, process_initiator, lane_owner, lane_assignment,
}
use m8flow_bpmn_core.Model.Database.{Database}
use m8flow_bpmn_core.TenantUsers.{user_belongs_to_tenant, tenant_identifiers_for}
use m8flow_bpmn_core.LaneAssignment.Groups.{tenant_group_members, insert_id, sorted_ids}
use m8flow_bpmn_core.LaneAssignment.Owners.{
  tenant_members, names_user, lookup_local_part, lookup_owner, users_for, add_users,
  lane_owners_from, lane_owners, set_owners, label_of, value_at, resolve_owners, users_or_none,
}

-- A stored user who belongs to the tenant with these identifiers.
abbrev pub IsMember : Database → List String → User → Type 0
IsMember db identifiers u = Memᴰ u db.users.rows × (user_belongs_to_tenant u identifiers ≡ true)

module _ (db : Database) (identifiers : List String) where
  All-of_mem :
      (us : List User)
      → ((u : User) → Memᴰ u us → IsMember db identifiers u)
      → All (IsMember db identifiers) us
  All-of_mem [] h = tt
  All-of_mem (u ∷ us) h = (h u (Memᴰ.head refl), All-of_mem us (λ v m. h v (Memᴰ.tail m)))

  kept-IsMember :
      (p : User → Bool)
      → All
          (IsMember db identifiers)
          (keep (λ u. user_belongs_to_tenant u identifiers) (keep p db.users.rows))
  kept-IsMember p = All-of_mem _ (λ u m.
      let (inner, belongs) = mem_of_keep (λ v. user_belongs_to_tenant v identifiers) _ u m in
      ((mem_of_keep p db.users.rows u inner).0, belongs))

  pub members-IsMember :
      (group_id : ℕ) → All (IsMember db identifiers) (tenant_group_members db group_id identifiers)
  unfolding tenant_group_members
  members-IsMember group_id = kept-IsMember _

  exact_or-All :
      (P : User → Type 0) (exact other : List User)
      → All P exact
      → All P other
      → All P (elim exact [ u ∷ us ↦ u ∷ us | [] ↦ other ])
  exact_or-All P [] other h k = k
  exact_or-All P (u ∷ us) other h k = h

  lookup_local_part-IsMember :
      (local : String) → All (IsMember db identifiers) (lookup_local_part db identifiers local)
  unfolding lookup_local_part tenant_members
  lookup_local_part-IsMember local = elim (Bool-cases (is_blank local)) [
    | inl e ↦ rw e tt
    | inr e ↦ rw e (kept-IsMember _)
  ]

  lookup-IsMember :
      (name : String) → All (IsMember db identifiers) (lookup_owner db identifiers name)
  unfolding lookup_owner tenant_members
  lookup-IsMember name =
      exact_or-All (IsMember db identifiers) _ _ (kept-IsMember (names_user name))
        (elim (Bool-cases (has_char b'@' name)) [
          | inl e ↦ rw e (lookup_local_part-IsMember (before_char b'@' name))
          | inr e ↦ rw e tt
        ])

  users_for-IsMember :
      (name : String) → All (IsMember db identifiers) (users_for db identifiers name)
  unfolding users_for
  users_for-IsMember name = elim (Bool-cases (is_blank (strip name))) [
    | inl e ↦ rw e tt
    | inr e ↦ rw e (lookup-IsMember (strip name))
  ]

  add_users-All :
      (P : User → Type 0) (us owners : List User)
      → All P owners
      → All P us
      → All P (add_users owners us)
  unfolding add_users
  add_users-All P [] owners h k = h
  add_users-All P (u ∷ us) owners h (pu, k) = elim (Bool-cases (any (λ o. o.id == u.id) owners)) [
    | inl e ↦ add_users-All P us _ (rw e h) k
    | inr e ↦ add_users-All P us _ (rw e (All-append P owners (u ∷ []) h (pu, tt))) k
  ]

  lane_owners_from-IsMember :
      (names : List String) (owners : List User)
      → All (IsMember db identifiers) owners
      → All (IsMember db identifiers) (lane_owners_from db identifiers owners names)
  unfolding lane_owners_from
  lane_owners_from-IsMember [] owners h = h
  lane_owners_from-IsMember (name ∷ names) owners h =
      lane_owners_from-IsMember names _ (add_users-All _ _ owners h (users_for-IsMember name))

  pub owners_of_lane-IsMember :
      (lane : String) (named : List (String × List String))
      → All
          (IsMember db identifiers)
          (users_or_none (value_at lane (resolve_owners db identifiers named)))
  unfolding resolve_owners value_at lane_owners
  owners_of_lane-IsMember lane [] = tt
  owners_of_lane-IsMember lane ((key, names) ∷ rest) = elim (Bool-cases (key == lane)) [
    | inl e ↦ rw e (lane_owners_from-IsMember names [] tt)
    | inr e ↦ rw e (owners_of_lane-IsMember lane rest)
  ]

-- How a user qualifies, and with which label.
abbrev pub Qualifies : Database → String → ℕ → ℕ → Option WorkItemUserAddedBy → Type 0
Qualifies db tenant_id initiator_id user_id label =
    ((label ≡ some process_initiator) × (user_id ≡ initiator_id))
    ⊎ (((label ≡ some lane_owner) ⊎ (label ≡ some lane_assignment))
        × ((u : User) × (u.id ≡ user_id) × IsMember db (tenant_identifiers_for db tenant_id) u))

module _ (P : ℕ → Option WorkItemUserAddedBy → Type 0) where
  -- Owners with labels, each of which qualifies.
  abbrev pub AllOwners : List (ℕ × WorkItemUserAddedBy) → Type 0
  AllOwners = All (λ o. P o.0 (some o.1))

  pub set_owners-All :
      (label : WorkItemUserAddedBy) (us : List User) (owners : List (ℕ × WorkItemUserAddedBy))
      → AllOwners owners
      → All (λ u. P u.id (some label)) us
      → AllOwners (set_owners label us owners)
  unfolding set_owners
  set_owners-All label [] owners h k = h
  set_owners-All label (u ∷ us) owners h (pu, k) =
      elim (Bool-cases (any (λ (id, _). id == u.id) owners)) [
        | inl e ↦ set_owners-All label us _ (rw e h) k
        | inr e ↦
            set_owners-All label us _ (rw e (All-append _ owners ((u.id, label) ∷ []) h (pu, tt))) k
      ]

  -- The label that a user is added with is the one that the user qualifies by.
  pub label-All :
      (owners : List (ℕ × WorkItemUserAddedBy)) (user_id : ℕ)
      → AllOwners owners
      → Memᴰ user_id (map (λ o. o.0) owners)
      → P user_id (label_of user_id owners)
  unfolding label_of
  label-All [] user_id h m = absurd (Memᴰ.not-nil m)
  label-All ((id, label) ∷ rest) user_id (p, h) m = elim (Bool-cases (id == user_id)) [
    | inl e ↦ rw e (subst (λ k. P k (some label)) (eq_of_test id user_id e) p)
    | inr e ↦ elim (Memᴰ.cases_cons m) [
      | inl same ↦ absurd (ground (arith, e, same, ==_refl user_id))
      | inr later ↦ rw e (label-All rest user_id h later)
    ]
  ]

mem_of_insert_id : (n k : ℕ) (ms : List ℕ) → Memᴰ k (insert_id n ms) → (k ≡ n) ⊎ Memᴰ k ms
unfolding insert_id
mem_of_insert_id n k [] m = Memᴰ.cases_cons m
mem_of_insert_id n k (x ∷ ms) m = elim (Bool-cases (n == x)) [
  | inl e ↦ inr (rw e at m)
  | inr e ↦ elim (Bool-cases (ltb n x)) [
    | inl l ↦ Memᴰ.cases_cons (rw (e, l) at m)
    | inr l ↦ elim (Memᴰ.cases_cons (rw (e, l) at m)) [
      | inl same ↦ inr (Memᴰ.head same)
      | inr later ↦ elim (mem_of_insert_id n k ms later) [
        | inl here ↦ inl here
        | inr there ↦ inr (Memᴰ.tail there)
      ]
    ]
  ]
]

pub mem_of_sorted_ids : (k : ℕ) (ns : List ℕ) → Memᴰ k (sorted_ids ns) → Memᴰ k ns
unfolding sorted_ids
mem_of_sorted_ids k [] m = m
mem_of_sorted_ids k (n ∷ ns) m = elim (mem_of_insert_id n k _ m) [
  | inl same ↦ Memᴰ.head same
  | inr later ↦ Memᴰ.tail (mem_of_sorted_ids k ns later)
]
