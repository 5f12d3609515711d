-- ===== src/LaneAssignment/GroupKeys.antt =====
-- The keys of lane groups, and the groups that they lead to.
use mathlib.Core.List.Memᴰ.{Memᴰ}
use m8flow_bpmn_core.Base.{
  ℕ, ◌⊎◌, All, All-of_mem, ◌≤◌, ◌<◌, String, Option, none, some, List, [], ◌∷◌, ◌++◌, ◌≡◌, inl, inr,
  refl, sym, ap, ◌∙◌, mem_of_keep, keep-mem, arith, ◌==◌, Nat_Eq, String_Eq, Option_Eq, find, keep,
  update_where, find-append, find-update_where, find-holds, ==_refl, Bool-cases, Option-cases,
}
use m8flow_bpmn_core.Model.Permission.{Group}
use m8flow_bpmn_core.Model.Database.{Database}
use m8flow_bpmn_core.Session.{Result, ok, add_keyed, update, first}
use m8flow_bpmn_core.LaneAssignment.{
  LaneTexts, normalized, normalized_tenant, resolve_lane_assignment_id, lane_group_identifier,
}
use m8flow_bpmn_core.LaneAssignment.Legacy.{
  IsNamed, legacy-IsNamed, IsNamed-legacy, least_group-mem, least_group-some, least_group-le,
}
use m8flow_bpmn_core.LaneAssignment.Groups.{
  has_id, least_group, is_legacy_group, renames_to, use_group, find_or_create_lane_group,
}

module _ (texts : LaneTexts) where
  -- The key of a lane's group is positive and fits a signed column of 32 bits, whatever the hash is,
  -- and the case and outer blanks of the names do not matter.
  pub resolve_lane_assignment_id_bounds :
      (lane other : String) (t u : Option String)
      → normalized texts lane ≡ normalized texts other
      → normalized_tenant texts t ≡ normalized_tenant texts u
      → (1 ≤ resolve_lane_assignment_id texts lane t)
        × (resolve_lane_assignment_id texts lane t < 2147483648)
        × (resolve_lane_assignment_id texts lane t ≡ resolve_lane_assignment_id texts other u)
  unfolding resolve_lane_assignment_id
  resolve_lane_assignment_id_bounds lane other t u e f = rw (← e, ← f) (ground arith)

  abbrev renamed : String → Group → Group
  renamed canonical g = record g { name = some canonical; identifier = some canonical }

  find-renamed :
      (canonical : String) (id : ℕ) (g : Group) (rows : List Group)
      → find (has_id id) rows ≡ some g
      → find (has_id id) (update_where (has_id g.id) (renamed canonical) rows)
        ≡ some (renamed canonical g)
  unfolding has_id
  find-renamed canonical id g rows found =
      let own = find-holds (has_id id) rows g found in
      let search =
        find-update_where (has_id id) (has_id g.id) (renamed canonical) rows (λ x h. refl) in
      let here = ==_refl g.id in ground (arith, found, own, search, here)

  -- The group at the computed key is used as it is, or renamed, or left alone. To ask again for it
  -- gives the same answer and changes nothing.
  use_group-again :
      (canonical : String) (id : ℕ) (g : Group) (db : Database)
      → find (has_id id) db.groups.rows ≡ some g
      → (h : Group) × (find (has_id id) (use_group texts canonical g db).1.groups.rows ≡ some h)
        × (use_group texts canonical h (use_group texts canonical g db).1
            ≡ use_group texts canonical g db)
  unfolding use_group update
  use_group-again canonical id g db found = elim (Bool-cases (g.identifier == some canonical)) [
    | inl same ↦ (g, ground (arith, same, found), ground (arith, same))
    | inr differs ↦ elim (Bool-cases (renames_to texts canonical g.identifier)) [
      | inl renames ↦
          let search = find-renamed canonical id g db.groups.rows found in
          let own = ==_refl (some canonical) in
          (
            renamed canonical g,
            ground (arith, differs, renames, search),
            ground (arith, differs, renames, own),
          )
      | inr other ↦ (g, ground (arith, differs, other, found), ground (arith, differs, other))
    ]
  ]

  use_group-own :
      (canonical : String) (g : Group) (db : Database)
      → g.identifier ≡ some canonical
      → use_group texts canonical g db ≡ (ok (some g), db)
  unfolding use_group
  use_group-own canonical g db e = ground (arith, e, ==_refl (some canonical))

  pub found_group :
      (t lane : String) (g : Group) (db : Database)
      → find (has_id (resolve_lane_assignment_id texts lane (some t))) db.groups.rows ≡ some g
      → find_or_create_lane_group texts t lane db
        ≡ use_group texts (lane_group_identifier texts lane t) g db
  unfolding find_or_create_lane_group first
  found_group t lane g db found = ground (arith, found)

  abbrev pub plus_group : Group → Database → Database
  plus_group g db = record db { groups = record db.groups { rows = db.groups.rows ++ (g ∷ []) } }

  abbrev pub lane_group : String → String → Group
  lane_group t lane = record {
    id = resolve_lane_assignment_id texts lane (some t);
    name = some (lane_group_identifier texts lane t);
    identifier = some (lane_group_identifier texts lane t);
    authorization_key = none;
  }

  pub legacy_group :
      (t lane : String) (g : Group) (db : Database)
      → find (has_id (resolve_lane_assignment_id texts lane (some t))) db.groups.rows ≡ none
      → least_group (keep (is_legacy_group texts lane) db.groups.rows) ≡ some g
      → find_or_create_lane_group texts t lane db ≡ (ok (some g), db)
  unfolding find_or_create_lane_group first
  legacy_group t lane g db missing e = ground (arith, missing, e)

  pub made_group :
      (t lane : String) (db : Database)
      → find (has_id (resolve_lane_assignment_id texts lane (some t))) db.groups.rows ≡ none
      → least_group (keep (is_legacy_group texts lane) db.groups.rows) ≡ none
      → find_or_create_lane_group texts t lane db
        ≡ (ok (some (lane_group t lane)), plus_group (lane_group t lane) db)
  unfolding find_or_create_lane_group first add_keyed
  made_group t lane db missing nothing = ground (arith, missing, nothing)

  made_group-found :
      (t lane : String) (db : Database)
      → find (has_id (resolve_lane_assignment_id texts lane (some t))) db.groups.rows ≡ none
      → find
          (has_id (resolve_lane_assignment_id texts lane (some t)))
          (db.groups.rows ++ (lane_group t lane ∷ []))
        ≡ some (lane_group t lane)
  unfolding has_id
  made_group-found t lane db missing =
      let id = resolve_lane_assignment_id texts lane (some t) in
      ground
        (arith, missing, find-append (has_id id) db.groups.rows (lane_group t lane), ==_refl id)

  -- A second request for the group of a lane gives the answer of the first, and changes nothing:
  -- whether the group was there, was renamed, was one of the lane alone, was made, or the key is
  -- taken by another group.
  pub find_or_create_lane_group-again :
      (t lane : String) (db : Database)
      → find_or_create_lane_group texts t lane (find_or_create_lane_group texts t lane db).1
        ≡ find_or_create_lane_group texts t lane db
  find_or_create_lane_group-again t lane db =
      let id = resolve_lane_assignment_id texts lane (some t) in
      let canonical = lane_group_identifier texts lane t in
      let call = find_or_create_lane_group texts t lane in
      elim (Option-cases (find (has_id id) db.groups.rows)) [
        | inr (g, found) ↦
            let (h, again, same) = use_group-again canonical id g db found in
            let first_call = found_group t lane g db found in
            ap (λ (out : Result (Option Group) × Database). call out.1) first_call
            ∙ found_group t lane h _ again
            ∙ same
            ∙ sym first_call
        | inl missing ↦
            elim (Option-cases (least_group (keep (is_legacy_group texts lane) db.groups.rows))) [
              | inr (legacy, e) ↦
                  let first_call = legacy_group t lane legacy db missing e in
                  ap (λ (out : Result (Option Group) × Database). call out.1) first_call
              | inl nothing ↦
                  let first_call = made_group t lane db missing nothing in
                  ap (λ (out : Result (Option Group) × Database). call out.1) first_call
                  ∙ found_group t lane (lane_group t lane) _ (made_group-found t lane db missing)
                  ∙ use_group-own canonical (lane_group t lane) _ own
                  ∙ sym first_call
            ]
      ]
    where
      own : (lane_group t lane).identifier ≡ some (lane_group_identifier texts lane t)
      own = refl

-- Where the group of the tenant's lane does not exist yet, and the lane has the name of a stored
-- group of a lane of another tenant, in lower case and trimmed: no group is made, and the lane is
-- given the stored group with the smallest key of those whose identifier, in lower case and trimmed,
-- is that name.
pub find_or_create_lane_group-foreign :
    (texts : LaneTexts) (t other lane : String) (g : Group) (db : Database)
    → find
        (has_id
          (resolve_lane_assignment_id texts (lane_group_identifier texts lane other) (some t)))
        db.groups.rows
      ≡ none
    → Memᴰ g db.groups.rows
    → g.identifier ≡ some (lane_group_identifier texts lane other)
    → texts.lower_trim (lane_group_identifier texts lane other)
      ≡ lane_group_identifier texts lane other
    → (h : Group) × Memᴰ h db.groups.rows
      × IsNamed texts (lane_group_identifier texts lane other) h
      × All
          (λ k. (¬ IsNamed texts (lane_group_identifier texts lane other) k) ⊎ (h.id ≤ k.id))
          db.groups.rows
      × (find_or_create_lane_group texts t (lane_group_identifier texts lane other) db
          ≡ (ok (some h), db))
find_or_create_lane_group-foreign texts t other lane g db missing m named plain =
    let name = lane_group_identifier texts lane other in
    let rows = db.groups.rows in
    let legacy = keep (is_legacy_group texts name) rows in
    let is_legacy = IsNamed-legacy texts name g (name, named, plain) in
    elim (Option-cases (least_group legacy)) [
      | inl e ↦
          absurd
            (least_group-some legacy g (keep-mem (is_legacy_group texts name) rows g m is_legacy) e)
      | inr (h, e) ↦
          let (stored, holds) =
            mem_of_keep (is_legacy_group texts name) rows h (least_group-mem legacy h e) in
          (
            h,
            stored,
            legacy-IsNamed texts name h holds,
            All-of_mem _ rows (λ k mk. elim (Bool-cases (is_legacy_group texts name k)) [
              | inl same_name ↦ inr (
                  least_group-le legacy h e k
                    (keep-mem (is_legacy_group texts name) rows k mk same_name))
              | inr differs ↦
                  inl
                    (λ n. let same = IsNamed-legacy texts name k n in ground (arith, differs, same))
            ]),
            legacy_group texts t name h db missing e,
          )
    ]
