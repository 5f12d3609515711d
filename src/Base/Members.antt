-- ===== src/Base/Members.antt =====
-- Membership, and what the Boolean searches say of it.
use mathlib.Core.Path.{◌≡◌, refl, subst}
use mathlib.Core.Logic.{inl, inr}
use mathlib.Core.Bool.{Bool, true}
use mathlib.Core.List.{List, [], ◌∷◌}
use mathlib.Core.List.Memᴰ
use mathlib.Core.List.Memᴰ.{Memᴰ}
use native.Mathlib.Omega.{arith}
use m8flow_bpmn_core.Base.Tests.{if◌then◌else◌, Bool-cases}
use m8flow_bpmn_core.Base.Lists.{any, keep, All}

module _ {ℓ} {A : Type ℓ} where
  pub mem_of_keep :
      (p : A → Bool) (xs : List A) (a : A) → Memᴰ a (keep p xs) → Memᴰ a xs × (p a ≡ true)
  unfolding keep
  mem_of_keep p [] a m = absurd (Memᴰ.not-nil m)
  mem_of_keep p (x ∷ xs) a m = elim (Bool-cases (p x)) [
    | inl e ↦
        let here = subst (λ b. Memᴰ a (if b then x ∷ keep p xs else keep p xs)) e m in
        elim (Memᴰ.cases_cons here) [
          | inl same ↦ (Memᴰ.head same, rw (same) e)
          | inr later ↦ let (found, holds) = mem_of_keep p xs a later in (Memᴰ.tail found, holds)
        ]
    | inr e ↦
        let later = subst (λ b. Memᴰ a (if b then x ∷ keep p xs else keep p xs)) e m in
        let (found, holds) = mem_of_keep p xs a later in (Memᴰ.tail found, holds)
  ]

  pub keep-mem : (p : A → Bool) (xs : List A) (a : A) → Memᴰ a xs → p a ≡ true → Memᴰ a (keep p xs)
  unfolding keep
  keep-mem p [] a m h = absurd (Memᴰ.not-nil m)
  keep-mem p (x ∷ xs) a m h = elim (Memᴰ.cases_cons m) [
    | inl same ↦ let here : p x ≡ true = subst (λ y. p y ≡ true) same h in rw here (Memᴰ.head same)
    | inr later ↦ elim (Bool-cases (p x)) [
      | inl e ↦ rw e (Memᴰ.tail (keep-mem p xs a later h))
      | inr e ↦ rw e (keep-mem p xs a later h)
    ]
  ]

  pub mem_of_any :
      (p : A → Bool) (xs : List A) → any p xs ≡ true → (a : A) × Memᴰ a xs × (p a ≡ true)
  unfolding any
  mem_of_any p [] h = cc
  mem_of_any p (x ∷ xs) h = elim (Bool-cases (p x)) [
    | inl e ↦ (x, Memᴰ.head refl, e)
    | inr e ↦ let (a, m, holds) = mem_of_any p xs (ground arith) in (a, Memᴰ.tail m, holds)
  ]

  pub any-mem : (p : A → Bool) (xs : List A) (a : A) → Memᴰ a xs → p a ≡ true → any p xs ≡ true
  unfolding any
  any-mem p [] a m h = absurd (Memᴰ.not-nil m)
  any-mem p (x ∷ xs) a m h = elim (Memᴰ.cases_cons m) [
    | inl same ↦ let here : p x ≡ true = subst (λ y. p y ≡ true) same h in ground arith
    | inr later ↦ let rest = any-mem p xs a later h in ground arith
  ]

  pub All-of_mem {κ} : (P : A → Type κ) (xs : List A) → ((x : A) → Memᴰ x xs → P x) → All P xs
  All-of_mem P [] h = tt
  All-of_mem P (x ∷ xs) h = (h x (Memᴰ.head refl), All-of_mem P xs (λ y m. h y (Memᴰ.tail m)))
