-- ===== src/Authorization/Principals.antt =====
-- Which principals stand for a user in a tenant.
use mathlib.Core.List.{flat_map}
use mathlib.Core.List.Memᴰ
use mathlib.Core.List.Memᴰ.{Memᴰ}
use m8flow_bpmn_core.Base.{
  Option, none, false, ◌⊎◌, String_Eq, ℕ, String, true, ◌&&◌, some, List, [], ◌∷◌, ◌≡◌, ◌↔◌, inl,
  inr, refl, sym, subst, arith, ◌==◌, Nat_Eq, Option_Eq, eq_of_test, ==_refl, Bool-cases,
  mem_of_keep, keep-mem, mem_of_any, any-mem,
}
use m8flow_bpmn_core.Base.Text.{is_blank, strip, has_char, before_char}
use m8flow_bpmn_core.TenantUsers.Membership.{mem_of_member, member-mem}
use m8flow_bpmn_core.Model.Permission.{Principal, Group, UserGroupAssignment}
use m8flow_bpmn_core.Model.Database.{Database}
use m8flow_bpmn_core.Authorization.Policy.{
  contains_id, group_identifier_applies_to_tenant, group_principal_ids, principal_ids,
}

-- The identifier is a name that is not blank and, if it has a colon, begins with an identifier of the
-- tenant up to the colon.
abbrev pub AppliesTo : Option String → List String → Type 0
AppliesTo identifier identifiers =
    (raw : String) × (identifier ≡ some raw)
    × (is_blank (strip raw) ≡ false)
    × ((has_char b':' (strip raw) ≡ false) ⊎ Memᴰ (before_char b':' (strip raw)) identifiers)

applies-AppliesTo :
    (identifier : Option String) (identifiers : List String)
    → group_identifier_applies_to_tenant identifier identifiers ≡ true
    → AppliesTo identifier identifiers
unfolding group_identifier_applies_to_tenant
applies-AppliesTo none identifiers h = cc
applies-AppliesTo (some raw) identifiers h = elim (Bool-cases (is_blank (strip raw))) [
  | inl b ↦ absurd (ground (arith, b, h))
  | inr b ↦ (
    raw,
    refl,
    b,
    elim (Bool-cases (has_char b':' (strip raw))) [
      | inr c ↦ inl c
      | inl c ↦
          inr (mem_of_member (before_char b':' (strip raw)) identifiers (ground (arith, b, c, h)))
    ],
  )
]

AppliesTo-applies :
    (identifier : Option String) (identifiers : List String)
    → AppliesTo identifier identifiers
    → group_identifier_applies_to_tenant identifier identifiers ≡ true
unfolding group_identifier_applies_to_tenant
AppliesTo-applies identifier identifiers (raw, e, b, inl c) = rw (e, b, c) refl
AppliesTo-applies identifier identifiers (raw, e, b, inr m) =
    elim (Bool-cases (has_char b':' (strip raw))) [
      | inr c ↦ rw (e, b, c) refl
      | inl c ↦ rw (e, b, c) (member-mem (before_char b':' (strip raw)) identifiers m)
    ]

-- The principal is the user's own, or that of a group with the user as a member, whose identifier
-- names the tenant or no tenant.
pub data Represents (db : Database) (user_id : ℕ) (identifiers : List String) (n : ℕ) : Type 0 where
  own :
      (p : Principal)
      → Memᴰ p db.principals.rows
      → p.user_id ≡ some user_id
      → p.id ≡ n
      → Represents db user_id identifiers n
  of_group :
      (p : Principal) (g : Group) (u : UserGroupAssignment)
      → Memᴰ p db.principals.rows
      → Memᴰ g db.groups.rows
      → Memᴰ u db.user_group_assignments.rows
      → p.group_id ≡ some g.id
      → AppliesTo g.identifier identifiers
      → u.group_id ≡ g.id
      → u.user_id ≡ user_id
      → p.id ≡ n
      → Represents db user_id identifiers n

module _ {A B : Type 0} (f : A → List B) where
  mem_of_flat_map :
      (xs : List A) (b : B) → Memᴰ b (flat_map f xs) → (a : A) × Memᴰ a xs × Memᴰ b (f a)
  unfolding flat_map
  mem_of_flat_map [] b m = absurd (Memᴰ.not-nil m)
  mem_of_flat_map (x ∷ xs) b m = elim (Memᴰ.append_cases (f x) m) [
    | inl here ↦ (x, Memᴰ.head refl, here)
    | inr later ↦ let (a, ma, mb) = mem_of_flat_map xs b later in (a, Memᴰ.tail ma, mb)
  ]

  flat_map-mem : (xs : List A) (a : A) (b : B) → Memᴰ a xs → Memᴰ b (f a) → Memᴰ b (flat_map f xs)
  unfolding flat_map
  flat_map-mem [] a b m h = absurd (Memᴰ.not-nil m)
  flat_map-mem (x ∷ xs) a b m h = elim (Memᴰ.cases_cons m) [
    | inl same ↦ Memᴰ.append_left (flat_map f xs) (subst (λ y. Memᴰ b (f y)) same h)
    | inr later ↦ Memᴰ.append_right (f x) (flat_map-mem xs a b later h)
  ]

module _ (db : Database) (user_id : ℕ) (identifiers : List String) where
  group_id-Represents :
      (n : ℕ)
      → Memᴰ n (group_principal_ids db user_id identifiers)
      → Represents db user_id identifiers n
  unfolding group_principal_ids
  group_id-Represents n m =
      let (p, mp, m1) = mem_of_flat_map _ db.principals.rows n m in
      let (g, mg, m2) = mem_of_flat_map _ _ n m1 in
      let (u, mu, m3) = mem_of_flat_map _ _ n m2 in
      let (mg', gh) = mem_of_keep _ db.groups.rows g mg in
      let (mu', uh) = mem_of_keep _ db.user_group_assignments.rows u mu in
      Represents.of_group p g u mp mg' mu' (eq_of_test p.group_id (some g.id) (ground (arith, gh)))
        (applies-AppliesTo g.identifier identifiers (ground (arith, gh)))
        (eq_of_test u.group_id g.id (ground (arith, uh)))
        (eq_of_test u.user_id user_id (ground (arith, uh))) (sym (Memᴰ.eq_of_singleton m3))

  contains-mem : (n : ℕ) (xs : List ℕ) → contains_id n xs ≡ true → Memᴰ n xs
  unfolding contains_id
  contains-mem n xs h =
      let (m, mem, same) = mem_of_any _ xs h in subst (λ k. Memᴰ k xs) (eq_of_test m n same) mem

  mem-contains : (n : ℕ) (xs : List ℕ) → Memᴰ n xs → contains_id n xs ≡ true
  unfolding contains_id
  mem-contains n xs m = any-mem (λ k. k == n) xs n m (==_refl n)

  principal_ids-Represents :
      (n : ℕ)
      → contains_id n (principal_ids db user_id identifiers) ≡ true
      → Represents db user_id identifiers n
  unfolding principal_ids
  principal_ids-Represents n h =
      let (p, mp, same) = Memᴰ.of_map _ _ (contains-mem n _ h) in
      let (mp', ph) = mem_of_keep _ db.principals.rows p mp in
      elim (Bool-cases (p.user_id == some user_id)) [
        | inl his ↦ Represents.own p mp' (eq_of_test p.user_id (some user_id) his) same
        | inr other ↦
            subst (Represents db user_id identifiers) same
              (group_id-Represents p.id (contains-mem p.id _ (ground (arith, ph, other))))
      ]

  Represents-principal_ids :
      (n : ℕ)
      → Represents db user_id identifiers n
      → contains_id n (principal_ids db user_id identifiers) ≡ true
  unfolding principal_ids group_principal_ids
  Represents-principal_ids n (Represents.own p mp his same) = mem-contains n _ (
      Memᴰ.cast (sym same) (
        Memᴰ.map _
          (keep-mem _ db.principals.rows p mp (ground (arith, his, ==_refl (some user_id))))))
  Represents-principal_ids n (Represents.of_group p g u mp mg mu gid applies ugid uuid same) =
      mem-contains n _ (
        Memᴰ.cast (sym same) (
          Memᴰ.map _ (
            keep-mem _ db.principals.rows p mp (
              ground (
                arith,
                mem-contains p.id (group_principal_ids db user_id identifiers) (
                    flat_map-mem _ db.principals.rows p p.id mp (
                      flat_map-mem _ _ g p.id
                        (keep-mem
                          (λ x.
                            p.group_id == some x.id
                            && group_identifier_applies_to_tenant x.identifier identifiers)
                          db.groups.rows g mg
                          (ground (
                            arith,
                            gid,
                            AppliesTo-applies g.identifier identifiers applies,
                            ==_refl (some g.id),
                          )))
                        (flat_map-mem _ _ u p.id
                          (keep-mem (λ x. x.group_id == g.id && x.user_id == user_id)
                            db.user_group_assignments.rows u mu
                            (ground (arith, ugid, uuid, ==_refl g.id, ==_refl user_id)))
                          (Memᴰ.head refl)))),
              )))))

  -- The principals whose assignments count for a user are exactly those that stand for the user: the
  -- stored principals of the user, and those of the stored groups that have the user as a member and
  -- whose trimmed identifier is not empty and begins, if it has a colon, with one of the identifiers
  -- up to the colon.
  pub principal_ids_iff :
      (n : ℕ)
      → (contains_id n (principal_ids db user_id identifiers) ≡ true)
        ↔ Represents db user_id identifiers n
  principal_ids_iff n = (principal_ids-Represents n, Represents-principal_ids n)
