-- ===== src/LaneAssignment/Entries.antt =====
-- The entries of `initiator_lanes`, and the lanes that `lane_owners` names.
use mathlib.Core.List.Memᴰ
use mathlib.Core.List.Memᴰ.{Memᴰ}
use m8flow_bpmn_core.Base.{
  String, true, ◌||◌, Option, none, some, List, [], ◌∷◌, ◌≡◌, ◌↔◌, ◌⊎◌, inl, inr, refl, sym, ◌∙◌,
  ap, subst, arith, ◌==◌, String_Eq, eq_of_test, ==_refl, any, Bool-cases, Option-cases,
}
use m8flow_bpmn_core.Model.Json.{
  Value, Fields, Items, null, array, end, field, nil, cons, object, as_object,
}
use m8flow_bpmn_core.Session.{ok}
use m8flow_bpmn_core.Session.Calls.{Result-cases}
use m8flow_bpmn_core.LaneAssignment.{
  LaneTexts, as_array, texts_of, normalize_lane_text, normalize_lane_name, extend_lane,
  group_lane_owners, lane_owner_identifiers, requested_lanes, known_lanes, has_lane,
}

module _ (texts : LaneTexts) where
  -- The values of the list are names of these lanes, one by one.
  abbrev pub Names : Items → List String → Type 0
  Names nil [] = Unit
  Names nil (l ∷ ls) = ⊥
  Names (cons v rest) [] = ⊥
  Names (cons v rest) (l ∷ ls) = (normalize_lane_name texts v ≡ some l) × Names rest ls

  -- One of the names in the BPMN source is a name of the lane.
  abbrev pub InSource : List String → String → Type 0
  InSource names lane =
      (name : String) × Memᴰ name names × (normalize_lane_text texts name ≡ some lane)

  -- One of the keys is a name of the lane, and its value is a list.
  abbrev pub OwnedIn : Fields → String → Type 0
  OwnedIn end lane = ⊥
  OwnedIn (field key v rest) lane =
      ((normalize_lane_text texts key ≡ some lane) × ((xs : Items) × (v ≡ array xs)))
      ⊎ OwnedIn rest lane

  pub requested-Names :
      (xs : Items) (ls : List String) → requested_lanes texts xs ≡ ok ls → Names xs ls
  unfolding requested_lanes
  requested-Names nil [] h = tt
  requested-Names nil (l ∷ ls) h = cc
  requested-Names (cons v rest) ls h = elim (Option-cases (normalize_lane_name texts v)) [
    | inl e ↦ absurd (ground (arith, e, h))
    | inr (l, e) ↦ elim (Result-cases (requested_lanes texts rest)) [
      | inl (error, r) ↦ absurd (ground (arith, e, r, h))
      | inr (found, r) ↦
          let same : l ∷ found ≡ ls = ground (arith, e, r, h) in
          subst (Names (cons v rest)) same (e, requested-Names rest found r)
    ]
  ]

  pub Names-requested :
      (xs : Items) (ls : List String) → Names xs ls → requested_lanes texts xs ≡ ok ls
  unfolding requested_lanes
  Names-requested nil [] h = refl
  Names-requested nil (l ∷ ls) h = absurd h
  Names-requested (cons v rest) [] h = absurd h
  Names-requested (cons v rest) (l ∷ ls) (e, h) = ground (arith, e, Names-requested rest ls h)

  pub known-mem :
      (names : List String) (lane : String)
      → Memᴰ lane (known_lanes texts names)
      → InSource names lane
  unfolding known_lanes
  known-mem [] lane m = absurd (Memᴰ.not-nil m)
  known-mem (n ∷ names) lane m = elim (Option-cases (normalize_lane_text texts n)) [
    | inl e ↦
        let (name, found, same) = known-mem names lane (rw (e, known_lanes) at m) in
        (name, Memᴰ.tail found, same)
    | inr (l, e) ↦ elim (Memᴰ.cases_cons (rw (e, known_lanes) at m)) [
      | inl same ↦ (n, Memᴰ.head refl, e ∙ ap some (sym same))
      | inr later ↦
          let (name, found, same) = known-mem names lane later in (name, Memᴰ.tail found, same)
    ]
  ]

  pub mem-known :
      (names : List String) (lane : String)
      → InSource names lane
      → Memᴰ lane (known_lanes texts names)
  unfolding known_lanes
  mem-known [] lane (name, m, same) = absurd (Memᴰ.not-nil m)
  mem-known (n ∷ names) lane (name, m, same) = elim (Memᴰ.cases_cons m) [
    | inl here ↦
        let e : normalize_lane_text texts n ≡ some lane =
          subst (λ t. normalize_lane_text texts t ≡ some lane) here same in
        rw (e, known_lanes) (Memᴰ.head refl)
    | inr later ↦ elim (Option-cases (normalize_lane_text texts n)) [
      | inl e ↦ rw (e, known_lanes) (mem-known names lane (name, later, same))
      | inr (l, e) ↦ rw (e, known_lanes) (Memᴰ.tail (mem-known names lane (name, later, same)))
    ]
  ]

  pub as_array-array : (v : Value) (xs : Items) → as_array v ≡ some xs → v ≡ array xs
  unfolding as_array
  as_array-array null xs h = cc
  as_array-array (array ys) xs h = ground arith
  as_array-array _ xs h = cc

  pub array-as_array : (v : Value) (xs : Items) → v ≡ array xs → as_array v ≡ some xs
  unfolding as_array
  array-as_array v xs h = ap as_array h

  -- The lanes that the grouping has keys for: those it began with, and those of the fields.
  has_lane-extend :
      (lane key : String) (ids : List String) (grouped : List (String × List String))
      → has_lane lane (extend_lane key ids grouped) ≡ (key == lane || has_lane lane grouped)
  unfolding has_lane extend_lane any
  has_lane-extend lane key ids [] = refl
  has_lane-extend lane key ids ((k, found) ∷ rest) = elim (Bool-cases (k == key)) [
    | inl e ↦ ground (arith, e, ap (λ t. t == lane) (eq_of_test k key e))
    | inr e ↦ ground (arith, e, has_lane-extend lane key ids rest)
  ]

  -- The lanes that have owners after the loop: those from before, and those of the fields.
  has_lane-group :
      (lane : String) (fs : Fields) (grouped : List (String × List String))
      → has_lane lane (group_lane_owners texts fs grouped) ≡ true
      → (has_lane lane grouped ≡ true) ⊎ OwnedIn fs lane
  unfolding group_lane_owners
  has_lane-group lane end grouped h = inl h
  has_lane-group lane (field key v rest) grouped h =
      elim (Option-cases (normalize_lane_text texts key)) [
        | inl e ↦ later (has_lane-group lane rest grouped (rw (e, group_lane_owners) at h))
        | inr (l, e) ↦ elim (Option-cases (as_array v)) [
          | inl none_found ↦
              later (has_lane-group lane rest grouped (rw (e, none_found, group_lane_owners) at h))
          | inr (xs, found) ↦
              elim (has_lane-group lane rest (extend_lane l (texts_of xs) grouped)
                (rw (e, found, group_lane_owners) at h)) [
                  | inr owned ↦ inr (inr owned)
                  | inl had ↦ elim (Bool-cases (l == lane)) [
                    | inl same ↦ inr (
                        inl (e ∙ ap some (eq_of_test l lane same), (xs, as_array-array v xs found)))
                    | inr other ↦
                        inl
                          (ground (arith, other, had, has_lane-extend lane l (texts_of xs) grouped))
                  ]
                ]
        ]
      ]
    where
      later :
          (has_lane lane grouped ≡ true) ⊎ OwnedIn rest lane
          → (has_lane lane grouped ≡ true) ⊎ OwnedIn (field key v rest) lane
      later (inl had) = inl had
      later (inr owned) = inr (inr owned)

  group-has_lane :
      (lane : String) (fs : Fields) (grouped : List (String × List String))
      → (has_lane lane grouped ≡ true) ⊎ OwnedIn fs lane
      → has_lane lane (group_lane_owners texts fs grouped) ≡ true
  unfolding group_lane_owners
  group-has_lane lane end grouped (inl h) = h
  group-has_lane lane end grouped (inr h) = absurd h
  group-has_lane lane (field key v rest) grouped (inr (inl (named, (xs, listed)))) =
      let here : has_lane lane (extend_lane lane (texts_of xs) grouped) ≡ true =
        ground (arith, has_lane-extend lane lane (texts_of xs) grouped, ==_refl lane) in
      let found = array-as_array v xs listed in
      rw (named, found, group_lane_owners)
        (group-has_lane lane rest (extend_lane lane (texts_of xs) grouped) (inl here))
  group-has_lane lane (field key v rest) grouped (inr (inr owned)) =
      group-has_lane lane rest _ (inr owned)
  group-has_lane lane (field key v rest) grouped (inl h) =
      elim (Option-cases (normalize_lane_text texts key)) [
        | inl e ↦ rw (e, group_lane_owners) (group-has_lane lane rest grouped (inl h))
        | inr (l, e) ↦ elim (Option-cases (as_array v)) [
          | inl nothing ↦
              rw (e, nothing, group_lane_owners) (group-has_lane lane rest grouped (inl h))
          | inr (xs, found) ↦
              let still : has_lane lane (extend_lane l (texts_of xs) grouped) ≡ true =
                ground (arith, h, has_lane-extend lane l (texts_of xs) grouped) in
              rw (e, found, group_lane_owners)
                (group-has_lane lane rest (extend_lane l (texts_of xs) grouped) (inl still))
        ]
      ]

  -- What `lane_owners` holds for the lane, where it is a mapping.
  abbrev pub Owned : Option Value → String → Type 0
  Owned owners lane = (fs : Fields) × (owners ≡ some (object fs)) × OwnedIn fs lane

  pub owners-Owned :
      (lane : String) (owners : Option Value)
      → (has_lane lane (lane_owner_identifiers texts owners) ≡ true) ↔ Owned owners lane
  unfolding lane_owner_identifiers as_object has_lane any
  owners-Owned lane none = (λ h. cc, λ (fs, e, _). cc)
  owners-Owned lane (some (object fs)) = (
    λ h. elim (has_lane-group lane fs [] h) [ inl e ↦ cc | inr owned ↦ (fs, refl, owned) ],
    λ (gs, e, owned).
        let same : gs ≡ fs = ground (arith, e) in
        group-has_lane lane fs [] (inr (subst (λ x. OwnedIn x lane) same owned)),
  )
  owners-Owned lane (some null) = (λ h. cc, λ (fs, e, _). cc)
  owners-Owned lane (some _) = (λ h. cc, λ (fs, e, _). cc)
