-- ===== src/LaneAssignment/Validation.antt =====
-- What the validation of `initiator_lanes` lets through.
use m8flow_bpmn_core.Base.{
  String, Bool, false, not, Option, none, some, List, [], ◌∷◌, ◌≡◌, ◌↔◌, ◌⊎◌, inl, inr, refl, subst,
  arith, String_Eq, any, All, All-map, All-both, Option-cases, not_true,
}
use m8flow_bpmn_core.Model.Json.{Value, Fields, Items, null, array, get}
use m8flow_bpmn_core.Session.{ok}
use m8flow_bpmn_core.Session.Calls.{Result-cases}
use m8flow_bpmn_core.TenantUsers.{member}
use m8flow_bpmn_core.TenantUsers.Membership.{mem_of_member, member-mem}
use m8flow_bpmn_core.LaneAssignment.{
  LaneTexts, as_array, lane_owner_identifiers, requested_lanes, known_lanes, has_lane,
  check_requested, validate_initiator_list, validate_initiator_value, validate_initiator_lanes,
}
use m8flow_bpmn_core.LaneAssignment.Entries.{
  Names, InSource, Owned, requested-Names, Names-requested, known-mem, mem-known, as_array-array,
  array-as_array, owners-Owned,
}

module _ (texts : LaneTexts) where
  -- The two checks, lane by lane.
  any-not : (p : String → Bool) (ls : List String) → (any p ls ≡ false) ↔ All (λ l. p l ≡ false) ls
  unfolding any
  any-not p [] = (λ h. tt, λ h. refl)
  any-not p (l ∷ ls) = (
    λ h. (ground (arith, h), (any-not p ls).0 (ground (arith, h))),
    λ (e, h). let rest = (any-not p ls).1 h in ground (arith, e, rest),
  )

  -- Where `initiator_lanes` is a list whose entries are names of lanes of the BPMN source, none of
  -- which has owners.
  abbrev pub IsInitiatorList : Fields → List String → Value → Type 0
  IsInitiatorList properties names raw =
      (xs : Items) × (raw ≡ array xs)
      × ((lanes : List String) × Names texts xs lanes
          × All (λ l. InSource texts names l × (¬ Owned texts (get "lane_owners" properties) l))
              lanes)

  known-InSource :
      (names : List String) (l : String)
      → (not (member l (known_lanes texts names)) ≡ false) ↔ InSource texts names l
  known-InSource names l = (
    λ h. known-mem texts names l (mem_of_member l (known_lanes texts names) (ground (arith, h))),
    λ h.
        let known = member-mem l (known_lanes texts names) (mem-known texts names l h) in
        ground (arith, known),
  )

  free-Owned :
      (owners : Option Value) (l : String)
      → (has_lane l (lane_owner_identifiers texts owners) ≡ false) ↔ (¬ Owned texts owners l)
  free-Owned owners l = (
    λ h owned. let had = (owners-Owned texts l owners).1 owned in cc,
    λ h. not_true _ (λ had. h ((owners-Owned texts l owners).0 had)),
  )

  check-All :
      (names ls : List String) (owners : Option Value)
      → (check_requested (known_lanes texts names) (lane_owner_identifiers texts owners) ls ≡ ok tt)
        ↔ All (λ l. InSource texts names l × (¬ Owned texts owners l)) ls
  unfolding check_requested
  check-All names ls owners =
      let unknown = any-not (λ l. not (member l (known_lanes texts names))) ls in
      let owned = any-not (λ l. has_lane l (lane_owner_identifiers texts owners)) ls in
      (
        λ h.
            All-both ls
              (λ l known free. ((known-InSource names l).0 known, (free-Owned owners l).0 free))
              (unknown.0 (ground (arith, h))) (owned.0 (ground (arith, h))),
        λ h.
            let none_unknown =
              unknown.1 (All-map ls (λ l (k, _). (known-InSource names l).1 k) h) in
            let none_owned = owned.1 (All-map ls (λ l (_, f). (free-Owned owners l).1 f) h) in
            ground (arith, none_unknown, none_owned),
      )

  list-IsInitiatorList :
      (properties : Fields) (names : List String) (raw : Value)
      → (validate_initiator_list texts properties names raw ≡ ok tt)
        ↔ IsInitiatorList properties names raw
  unfolding validate_initiator_list
  list-IsInitiatorList properties names raw = (
    λ h. elim (Option-cases (as_array raw)) [
      | inl e ↦ absurd (ground (arith, e, h))
      | inr (xs, e) ↦ elim (Result-cases (requested_lanes texts xs)) [
        | inl (error, r) ↦ absurd (ground (arith, e, r, h))
        | inr (lanes, r) ↦
            let checked : check_requested (known_lanes texts names)
                  (lane_owner_identifiers texts (get "lane_owners" properties)) lanes
                ≡ ok tt =
              ground (arith, e, r, h) in
            (
              xs,
              as_array-array texts raw xs e,
              (
                lanes,
                requested-Names texts xs lanes r,
                (check-All names lanes (get "lane_owners" properties)).0 checked,
              ),
            )
      ]
    ],
    λ (xs, listed, (lanes, named, sound)).
        let e = array-as_array texts raw xs listed in
        let r = Names-requested texts xs lanes named in
        let checked = (check-All names lanes (get "lane_owners" properties)).1 sound in
        ground (arith, e, r, checked),
  )

  abbrev pub IsInitiatorValue : Fields → List String → Value → Type 0
  IsInitiatorValue properties names raw = (raw ≡ null) ⊎ IsInitiatorList properties names raw

  value-IsInitiatorValue :
      (properties : Fields) (names : List String) (raw : Value)
      → (validate_initiator_value texts properties names raw ≡ ok tt)
        ↔ IsInitiatorValue properties names raw
  unfolding validate_initiator_value
  value-IsInitiatorValue properties names null = (λ h. inl refl, λ h. refl)
  value-IsInitiatorValue properties names raw = (
    λ h. inr ((list-IsInitiatorList properties names raw).0 h),
    λ h. elim h [ inl e ↦ cc | inr listed ↦ (list-IsInitiatorList properties names raw).1 listed ],
  )

  -- The validation of a definition's properties passes exactly when `initiator_lanes` is missing or
  -- null, or is a list whose entries are names of lanes of the BPMN source that have no owners.
  pub validate_initiator_lanes_iff :
      (properties : Fields) (names : List String)
      → (validate_initiator_lanes texts properties names ≡ ok tt) ↔ (
          (get "initiator_lanes" properties ≡ none)
          ⊎ ((raw : Value) × (get "initiator_lanes" properties ≡ some raw)
              × IsInitiatorValue properties names raw))
  unfolding validate_initiator_lanes
  validate_initiator_lanes_iff properties names =
      elim (Option-cases (get "initiator_lanes" properties)) [
        | inl e ↦ (λ h. inl e, λ h. ground (arith, e))
        | inr (raw, e) ↦ (
          λ h. inr (raw, e, (value-IsInitiatorValue properties names raw).0 (ground (arith, e, h))),
          λ h. elim h [
            | inl missing ↦ cc
            | inr (found, f, given) ↦
                let same : found ≡ raw = ground (arith, e, f) in
                let checked =
                  (value-IsInitiatorValue properties names raw).1
                    (subst (IsInitiatorValue properties names) same given) in
                ground (arith, e, checked)
          ],
        )
      ]
