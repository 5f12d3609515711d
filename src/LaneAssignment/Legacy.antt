-- ===== src/LaneAssignment/Legacy.antt =====
-- Groups of the lane alone, by their names, and the group with the smallest key.
use mathlib.Core.List.Memᴰ
use mathlib.Core.List.Memᴰ.{Memᴰ}
use m8flow_bpmn_core.Base.{
  String, true, eq_of_test, ==_refl, String_Eq, ◌≤◌, none, some, List, [], ◌∷◌, ◌≡◌, ◌≢◌, inl, inr,
  sym, refl, subst, leb, arith, Bool-cases, Option-cases,
}
use m8flow_bpmn_core.Model.Permission.{Group}
use m8flow_bpmn_core.LaneAssignment.{LaneTexts}
use m8flow_bpmn_core.LaneAssignment.Groups.{lower_group, least_group, is_legacy_group}

-- The group's identifier, in lower case and trimmed, is the name.
abbrev pub IsNamed : LaneTexts → String → Group → Type 0
IsNamed texts name g = (raw : String) × (g.identifier ≡ some raw) × (texts.lower_trim raw ≡ name)

pub legacy-IsNamed :
    (texts : LaneTexts) (name : String) (g : Group)
    → is_legacy_group texts name g ≡ true
    → IsNamed texts name g
unfolding is_legacy_group
legacy-IsNamed texts name g h = elim (Option-cases g.identifier) [
  | inl e ↦ absurd (ground (arith, e, h))
  | inr (raw, e) ↦ (raw, e, eq_of_test _ _ (ground (arith, e, h)))
]

pub IsNamed-legacy :
    (texts : LaneTexts) (name : String) (g : Group)
    → IsNamed texts name g
    → is_legacy_group texts name g ≡ true
unfolding is_legacy_group
IsNamed-legacy texts name g (raw, e, same) = rw (e, same) (==_refl name)

-- A group among the least is one of them, and there is a least one where there is one.
pub least_group-mem : (gs : List Group) (h : Group) → least_group gs ≡ some h → Memᴰ h gs
unfolding least_group lower_group
least_group-mem [] h e = cc
least_group-mem (g ∷ gs) h e = elim (Option-cases (least_group gs)) [
  | inl nothing ↦ Memᴰ.head (ground (arith, nothing, e))
  | inr (k, found) ↦ elim (Bool-cases (leb g.id k.id)) [
    | inl first_one ↦ Memᴰ.head (ground (arith, found, first_one, e))
    | inr later ↦
        let same : k ≡ h = ground (arith, found, later, e) in
        Memᴰ.tail (subst (λ x. Memᴰ x gs) same (least_group-mem gs k found))
  ]
]

pub least_group-some : (gs : List Group) (g : Group) → Memᴰ g gs → least_group gs ≢ none
unfolding least_group
least_group-some [] g m e = absurd (Memᴰ.not-nil m)
least_group-some (x ∷ gs) g m e = cc

least_group-nil : (gs : List Group) → least_group gs ≡ none → gs ≡ []
unfolding least_group
least_group-nil [] e = refl
least_group-nil (g ∷ gs) e = cc

pub least_group-le :
    (gs : List Group) (h : Group) → least_group gs ≡ some h → (k : Group) → Memᴰ k gs → h.id ≤ k.id
unfolding least_group lower_group
least_group-le [] h e k m = absurd (Memᴰ.not-nil m)
least_group-le (g ∷ gs) h e k m = elim (Option-cases (least_group gs)) [
  | inl nothing ↦
      let same : g ≡ h = ground (arith, nothing, e) in
      elim (Memᴰ.cases_cons m) [
        | inl here ↦
            subst (λ x. x.id ≤ k.id) same (subst (λ x. g.id ≤ x.id) (sym here) (omega arith))
        | inr later ↦ absurd (Memᴰ.not-nil (subst (Memᴰ k) (least_group-nil gs nothing) later))
      ]
  | inr (l, found) ↦
      let below = least_group-le gs l found k in
      elim (Bool-cases (leb g.id l.id)) [
        | inl first_one ↦
            let same : g ≡ h = ground (arith, found, first_one, e) in
            elim (Memᴰ.cases_cons m) [
              | inl here ↦
                  subst (λ x. x.id ≤ k.id) same (subst (λ x. g.id ≤ x.id) (sym here) (omega arith))
              | inr later ↦
                  let lower = below later in
                  subst (λ x. x.id ≤ k.id) same (ground (arith, lower, first_one))
            ]
        | inr later_one ↦
            let same : l ≡ h = ground (arith, found, later_one, e) in
            elim (Memᴰ.cases_cons m) [
              | inl here ↦
                  subst (λ x. x.id ≤ k.id) same
                    (subst (λ x. l.id ≤ x.id) (sym here) (ground (arith, later_one)))
              | inr later ↦ subst (λ x. x.id ≤ k.id) same (below later)
            ]
      ]
]
