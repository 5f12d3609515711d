-- ===== src/Base/Rows.antt =====
-- Updates of rows under keys.
use Prim.Native.Nat.{ℕ}
use mathlib.Core.Path.{◌≡◌, refl, sym, ◌∙◌}
use mathlib.Core.Logic.{◌⊎◌, inl, inr}
use mathlib.Core.Bool.{Bool, true, false}
use mathlib.Core.List.{List, [], ◌∷◌}
use mathlib.Core.Option.{some}
use native.Mathlib.Omega.{arith}
use m8flow_bpmn_core.Base.Tests.{Bool-cases, nat_eq, nat_eq_iff, not_true}
use m8flow_bpmn_core.Base.Lists.{
  find, keep, update_where, All, All-map, All-update_where, Distinct, find-All,
}

module _ {ℓ} {A : Type ℓ} where
  -- A predicate that the update sets where it selects, and that holds elsewhere.
  pub All-updated {κ} :
      (P : A → Type κ) (selects : A → Bool) (f : A → A) (xs : List A)
      → ((x : A) → selects x ≡ true → P (f x))
      → ((x : A) → selects x ≡ false → P x)
      → All P (update_where selects f xs)
  unfolding update_where
  All-updated P selects f [] h k = tt
  All-updated P selects f (x ∷ xs) h k = elim (Bool-cases (selects x)) [
    | inl s ↦ rw s (h x s, All-updated P selects f xs h k)
    | inr s ↦ rw s (k x s, All-updated P selects f xs h k)
  ]

  -- Rows that the update passes over, before and after.
  pub keep-update_where :
      (p selects : A → Bool) (f : A → A) (xs : List A)
      → ((x : A) → selects x ≡ true → (p x ≡ false) × (p (f x) ≡ false))
      → keep p (update_where selects f xs) ≡ keep p xs
  unfolding update_where keep
  keep-update_where p selects f [] h = refl
  keep-update_where p selects f (x ∷ xs) h = elim (Bool-cases (selects x)) [
    | inl s ↦
        let (before, later) = h x s in
        rw (s, before, later, keep-update_where p selects f xs h) refl
    | inr s ↦ rw (s, keep-update_where p selects f xs h) refl
  ]

  pub keep-nil : (p : A → Bool) (xs : List A) → All (λ x. p x ≡ false) xs → keep p xs ≡ []
  unfolding keep
  keep-nil p [] h = refl
  keep-nil p (x ∷ xs) (e, h) = rw (e, keep-nil p xs h) refl

  -- A test that asks for one key selects no element or the one that the key leads to.
  pub keep_unique :
      (key : A → ℕ) (k : ℕ) (p : A → Bool) (xs : List A)
      → Distinct key xs
      → ((x : A) → p x ≡ true → key x ≡ k)
      → (keep p xs ≡ [])
        ⊎ ((a : A) × (keep p xs ≡ a ∷ [])
            × (find (λ x. nat_eq (key x) k) xs ≡ some a)
            × (p a ≡ true))
  unfolding keep find
  keep_unique key k p [] d h = inl refl
  keep_unique key k p (x ∷ xs) (ne, d) h = elim (Bool-cases (p x)) [
    | inl e ↦
        let same = h x e in
        let none_left =
          keep-nil p xs
            (All-map xs (λ y differs. not_true (p y) (λ yes. differs (h y yes ∙ sym same))) ne) in
        inr (x, rw (e, none_left) refl, rw ((nat_eq_iff (key x) k).1 same) refl, e)
    | inr e ↦ elim (keep_unique key k p xs d h) [
      | inl nil ↦ inl (rw (e, nil) refl)
      | inr (a, one, found, holds) ↦
          let differs : ¬ (key a ≡ key x) = find-All (λ y. ¬ (key y ≡ key x)) _ xs a ne found in
          let elsewhere : nat_eq (key x) k ≡ false =
            not_true _ (λ yes. differs (h a holds ∙ sym ((nat_eq_iff (key x) k).0 yes))) in
          inr (a, rw (e, one) refl, rw (elsewhere, found) refl, holds)
    ]
  ]

  -- An update that selects nothing.
  pub update_where-none :
      (p : A → Bool) (f : A → A) (xs : List A) → keep p xs ≡ [] → update_where p f xs ≡ xs
  unfolding keep update_where
  update_where-none p f [] h = refl
  update_where-none p f (x ∷ xs) h = elim (Bool-cases (p x)) [
    | inl e ↦ ground (arith, e, h)
    | inr e ↦ rw (e, update_where-none p f xs (ground (arith, e, h))) refl
  ]

  pub Distinct-update_where :
      (key : A → ℕ) (p : A → Bool) (f : A → A) (xs : List A)
      → ((x : A) → key (f x) ≡ key x)
      → Distinct key xs
      → Distinct key (update_where p f xs)
  unfolding update_where
  Distinct-update_where key p f [] h d = tt
  Distinct-update_where key p f (x ∷ xs) h (ne, d) = elim (Bool-cases (p x)) [
    | inl e ↦ rw e (
      All-update_where (λ y. ¬ (key y ≡ key (f x))) p f xs
          (λ y differs same. differs (sym (h y) ∙ same))
          (All-map xs (λ y differs same. differs (same ∙ h x)) ne),
      Distinct-update_where key p f xs h d,
    )
    | inr e ↦ rw e (
      All-update_where (λ y. ¬ (key y ≡ key x)) p f xs
          (λ y differs same. differs (sym (h y) ∙ same)) ne,
      Distinct-update_where key p f xs h d,
    )
  ]
