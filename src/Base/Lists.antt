-- ===== src/Base/Lists.antt =====
-- Lists searched and updated by Boolean tests, the shape of the queries on a table.
use Prim.Native.Nat.{ℕ, zero, suc, ◌≤◌}
use mathlib.Core.Path.{◌≡◌, refl, ap, subst}
use mathlib.Core.Logic.{◌⊎◌, inl, inr}
use mathlib.Core.Bool.{Bool, true, false, ◌||◌}
use mathlib.Core.List.{List, [], ◌∷◌, ◌++◌}
use mathlib.Core.Option.{Option, none, some}
use native.Mathlib.Omega.{arith}
use m8flow_bpmn_core.Base.Tests.{if◌then◌else◌, Bool-cases}

module _ {ℓ} {A : Type ℓ} where
  abbrev pub length : List A → ℕ
  length [] = 0
  length (x ∷ xs) = suc (length xs)

  abbrev pub take : ℕ → List A → List A
  take zero xs = []
  take (suc n) [] = []
  take (suc n) (x ∷ xs) = x ∷ take n xs

  abbrev pub drop : ℕ → List A → List A
  drop zero xs = xs
  drop (suc n) [] = []
  drop (suc n) (x ∷ xs) = drop n xs

  -- The first element that passes the test.
  unfoldable pub find : (A → Bool) → List A → Option A
  find p [] = none
  find p (x ∷ xs) = if p x then some x else find p xs

  unfoldable pub any : (A → Bool) → List A → Bool
  any p [] = false
  any p (x ∷ xs) = p x || any p xs

  unfoldable pub keep : (A → Bool) → List A → List A
  keep p [] = []
  keep p (x ∷ xs) = let rest = keep p xs in if p x then x ∷ rest else rest

  -- An UPDATE statement: every row that the condition selects is rewritten in place.
  unfoldable pub update_where : (A → Bool) → (A → A) → List A → List A
  update_where p f [] = []
  update_where p f (x ∷ xs) = (if p x then f x else x) ∷ update_where p f xs

  -- A predicate on every element.
  abbrev pub All {κ} : (A → Type κ) → List A → Type κ
  All P [] = Unit
  All P (x ∷ xs) = P x × All P xs

module _ {ℓ} {A : Type ℓ} where
  pub find-holds : (p : A → Bool) (xs : List A) (a : A) → find p xs ≡ some a → p a ≡ true
  unfolding find
  find-holds p [] a h = cc
  find-holds p (x ∷ xs) a h = elim (Bool-cases (p x)) [
    | inl e ↦ let here : x ≡ a = ground arith in rw (← here) e
    | inr e ↦ find-holds p xs a (ground arith)
  ]

  -- A test that every element of the result passes.
  pub All-keep : (p : A → Bool) (xs : List A) → All (λ x. p x ≡ true) (keep p xs)
  unfolding keep
  All-keep p [] = tt
  All-keep p (x ∷ xs) = elim (Bool-cases (p x)) [
    | inl e ↦ rw e (e, All-keep p xs)
    | inr e ↦ rw e (All-keep p xs)
  ]

  pub All-map {κ μ} :
      {P : A → Type κ} {Q : A → Type μ} (xs : List A) → ((x : A) → P x → Q x) → All P xs → All Q xs
  All-map [] f h = tt
  All-map (x ∷ xs) f (a, b) = (f x a, All-map xs f b)

  pub All-both {κ μ ν} :
      {P : A → Type κ} {Q : A → Type μ} {R : A → Type ν} (xs : List A)
      → ((x : A) → P x → Q x → R x)
      → All P xs
      → All Q xs
      → All R xs
  All-both [] f h k = tt
  All-both (x ∷ xs) f (a, b) (c, d) = (f x a c, All-both xs f b d)

  pub All-append {κ} : (P : A → Type κ) (xs ys : List A) → All P xs → All P ys → All P (xs ++ ys)
  All-append P [] ys hx hy = hy
  All-append P (x ∷ xs) ys (a, b) hy = (a, All-append P xs ys b hy)

  pub All-take {κ} : (P : A → Type κ) (n : ℕ) (xs : List A) → All P xs → All P (take n xs)
  All-take P zero xs h = tt
  All-take P (suc n) [] h = tt
  All-take P (suc n) (x ∷ xs) (a, b) = (a, All-take P n xs b)

  pub length-take-le : (n : ℕ) (xs : List A) → length (take n xs) ≤ n
  length-take-le zero xs = omega arith
  length-take-le (suc n) [] = omega arith
  length-take-le (suc n) (x ∷ xs) = omega (arith, length-take-le n xs)

  pub take-append-drop : (n : ℕ) (xs : List A) → take n xs ++ drop n xs ≡ xs
  take-append-drop zero xs = refl
  take-append-drop (suc n) [] = refl
  take-append-drop (suc n) (x ∷ xs) = ap (◌∷◌ x) (take-append-drop n xs)

  -- What is left behind is nothing, unless as many as asked for were taken.
  pub drop-nil_or_full : (n : ℕ) (xs : List A) → (drop n xs ≡ []) ⊎ (length (take n xs) ≡ n)
  drop-nil_or_full zero xs = inr refl
  drop-nil_or_full (suc n) [] = inl refl
  drop-nil_or_full (suc n) (x ∷ xs) = elim (drop-nil_or_full n xs) [
    | inl e ↦ inl e
    | inr e ↦ inr (ap suc e)
  ]

module _ {ℓ} {A : Type ℓ} where
  abbrev pub map_option {κ} : {B : Type κ} → (A → B) → Option A → Option B
  map_option f none = none
  map_option f (some a) = some (f a)

  -- No two elements have one key.
  abbrev pub Distinct : (A → ℕ) → List A → Type ℓ
  Distinct key [] = Unit
  Distinct key (x ∷ xs) = All (λ y. ¬ (key y ≡ key x)) xs × Distinct key xs

module _ {ℓ} {A : Type ℓ} where
  pub find-All {κ} :
      (P : A → Type κ) (p : A → Bool) (xs : List A) (a : A) → All P xs → find p xs ≡ some a → P a
  unfolding find
  find-All P p [] a h e = cc
  find-All P p (x ∷ xs) a (hx, h) e = elim (Bool-cases (p x)) [
    | inl t ↦ let here : x ≡ a = ground arith in subst P here hx
    | inr t ↦ find-All P p xs a h (ground arith)
  ]

  -- Two searches that find one key have found one element.
  pub Distinct-find :
      (key : A → ℕ) (p q : A → Bool) (xs : List A) (a b : A)
      → Distinct key xs
      → find p xs ≡ some a
      → find q xs ≡ some b
      → key a ≡ key b
      → a ≡ b
  unfolding find
  Distinct-find key p q [] a b d e f k = cc
  Distinct-find key p q (x ∷ xs) a b (ne, d) e f k = elim (Bool-cases (p x)) [
    | inl px ↦ elim (Bool-cases (q x)) [
      | inl qx ↦ ground arith
      | inr qx ↦
          let found : find q xs ≡ some b = ground arith in
          let here : x ≡ a = ground arith in
          absurd (find-All (λ y. ¬ (key y ≡ key x)) q xs b ne found (cc))
    ]
    | inr px ↦ elim (Bool-cases (q x)) [
      | inl qx ↦
          let found : find p xs ≡ some a = ground arith in
          let here : x ≡ b = ground arith in
          absurd (find-All (λ y. ¬ (key y ≡ key x)) p xs a ne found (cc))
      | inr qx ↦ Distinct-find key p q xs a b d (ground arith) (ground arith) k
    ]
  ]

  -- A search that the update does not disturb finds the row as updated.
  pub find-update_where :
      (p selects : A → Bool) (f : A → A) (xs : List A)
      → ((x : A) → selects x ≡ true → p (f x) ≡ p x)
      → find p (update_where selects f xs)
        ≡ map_option (λ x. if selects x then f x else x) (find p xs)
  unfolding find update_where
  find-update_where p selects f [] h = refl
  find-update_where p selects f (x ∷ xs) h = elim (Bool-cases (selects x)) [
    | inl s ↦ ground (arith, h x s, find-update_where p selects f xs h)
    | inr s ↦ ground (arith, find-update_where p selects f xs h)
  ]

  pub find-append :
      (p : A → Bool) (xs : List A) (a : A)
      → find p (xs ++ a ∷ [])
        ≡ elim (find p xs) [ some x ↦ some x | none ↦ if p a then some a else none ]
  unfolding find
  find-append p [] a = refl
  find-append p (x ∷ xs) a = ground (arith, find-append p xs a)

  -- What finds nothing passes for no element.
  pub find-none : (p : A → Bool) (xs : List A) → find p xs ≡ none → All (λ x. p x ≡ false) xs
  unfolding find
  find-none p [] h = tt
  find-none p (x ∷ xs) h = (ground arith, find-none p xs (ground arith))

  pub All-update_where {κ} :
      (P : A → Type κ) (selects : A → Bool) (f : A → A) (xs : List A)
      → ((x : A) → P x → P (f x))
      → All P xs
      → All P (update_where selects f xs)
  unfolding update_where
  All-update_where P selects f [] h a = tt
  All-update_where P selects f (x ∷ xs) h (px, a) = elim (Bool-cases (selects x)) [
    | inl s ↦ rw s (h x px, All-update_where P selects f xs h a)
    | inr s ↦ rw s (px, All-update_where P selects f xs h a)
  ]
