-- ===== src/Base/Partition.antt =====
-- A list is what passes a test, and what does not.
use mathlib.Core.Bool.{Bool, true, not}
use mathlib.Core.Path.{◌≡◌}
use mathlib.Core.Logic.{inl, inr}
use mathlib.Core.List.{List, [], ◌∷◌, ◌++◌, Perm}
use mathlib.Core.List.Perm
use m8flow_bpmn_core.Base.Tests.{Bool-cases}
use m8flow_bpmn_core.Base.Lists.{keep, All}

module _ {ℓ} {A : Type ℓ} where
  pub append-cons_perm : (xs ys : List A) (x : A) → Perm (xs ++ x ∷ ys) (x ∷ xs ++ ys)
  append-cons_perm [] ys x = Perm.refl _
  append-cons_perm (y ∷ xs) ys x =
      Perm.trans (Perm.cons y (append-cons_perm xs ys x)) (Perm.swap x y (xs ++ ys))

  pub keep-partition :
      (p : A → Bool) (xs : List A) → Perm (keep p xs ++ keep (λ x. not (p x)) xs) xs
  unfolding keep
  keep-partition p [] = Perm.refl _
  keep-partition p (x ∷ xs) = elim (Bool-cases (p x)) [
    | inl e ↦ rw e (Perm.cons x (keep-partition p xs))
    | inr e ↦ rw e (
        Perm.trans (append-cons_perm (keep p xs) (keep (λ y. not (p y)) xs) x)
          (Perm.cons x (keep-partition p xs)))
  ]

  -- What is kept has what a test that is passed says.
  pub All-keep_of {κ} :
      (P : A → Type κ) (p : A → Bool) (xs : List A)
      → ((x : A) → p x ≡ true → P x)
      → All P (keep p xs)
  unfolding keep
  All-keep_of P p [] h = tt
  All-keep_of P p (x ∷ xs) h = elim (Bool-cases (p x)) [
    | inl e ↦ rw e (h x e, All-keep_of P p xs h)
    | inr e ↦ rw e (All-keep_of P p xs h)
  ]
