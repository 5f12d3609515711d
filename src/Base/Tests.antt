-- ===== src/Base/Tests.antt =====
-- Equality tests as an interface with its law, Boolean tests on numbers, and the conditional.
use Prim.Native.Nat.{ℕ, compare, Ordering}
use Prim.Native.String.{String}
use mathlib.Core.Path.{◌≡◌, refl, ap}
use mathlib.Core.Logic.{◌↔◌, ◌⊎◌, inl, inr}
use mathlib.Core.Bool.{Bool, true, false}
use mathlib.Core.Option.{Option, none, some}
use native.Mathlib.Omega.{arith}
use text.Mathlib.Text.{◌==◌ as text_eq}
use text.Mathlib.TextEquality.{eq_iff}

abbrev pub ltb : ℕ → ℕ → Bool
ltb a b = elim (compare a b) [ Ordering.lt ↦ true | _ ↦ false ]

abbrev pub leb : ℕ → ℕ → Bool
leb a b = elim (compare a b) [ Ordering.gt ↦ false | _ ↦ true ]

abbrev pub nat_eq : ℕ → ℕ → Bool
nat_eq a b = elim (compare a b) [ Ordering.eq ↦ true | _ ↦ false ]

infix 1 if◌then◌else◌
abbrev pub if◌then◌else◌ {ℓ} : {A : Type ℓ} → Bool → A → A → A
if true then x else _ = x
if false then _ else y = y

pub nat_eq_iff : (a b : ℕ) → (nat_eq a b ≡ true) ↔ (a ≡ b)
nat_eq_iff a b = ground arith

-- What `==` does at a type of column values: a test that is sound, and passes on equal values.
pub record Eq {ℓ} (V : Type ℓ) : Type ℓ where
  pub same : V → V → Bool
  pub sound : (x y : V) → same x y ≡ true → x ≡ y
  pub passes : (x : V) → same x x ≡ true

module _ {ℓ} {V : Type ℓ} ⦃test : Eq V⦄ where
  infix 50 ◌==◌
  abbrev pub ◌==◌ : V → V → Bool
  x == y = test.same x y

  pub ==_refl : (x : V) → (x == x) ≡ true
  ==_refl = test.passes

  pub eq_of_test : (x y : V) → (x == y) ≡ true → x ≡ y
  eq_of_test = test.sound

instance abbrev pub Nat_Eq : Eq ℕ
Nat_Eq = record {
  same = nat_eq;
  sound = λ a b. (nat_eq_iff a b).0;
  passes = λ a. (nat_eq_iff a a).1 refl;
}

instance abbrev pub String_Eq : Eq String
String_Eq = record {
  same = text_eq;
  sound = λ a b. (eq_iff a b).0;
  passes = λ a. (eq_iff a a).1 refl;
}

module _ {ℓ} {V : Type ℓ} (test : Eq V) where
  abbrev pub option_eq : Option V → Option V → Bool
  option_eq none none = true
  option_eq (some x) (some y) = test.same x y
  option_eq _ _ = false

  pub option_eq_sound : (o p : Option V) → option_eq o p ≡ true → o ≡ p
  option_eq_sound none none h = refl
  option_eq_sound none (some y) h = cc
  option_eq_sound (some x) none h = cc
  option_eq_sound (some x) (some y) h = ap some (test.sound x y h)

  pub option_eq_passes : (o : Option V) → option_eq o o ≡ true
  option_eq_passes none = refl
  option_eq_passes (some x) = test.passes x

instance abbrev pub Option_Eq {ℓ} : {V : Type ℓ} ⦃test : Eq V⦄ → Eq (Option V)
Option_Eq ⦃test⦄ = record {
  same = option_eq test;
  sound = option_eq_sound test;
  passes = option_eq_passes test;
}

-- To split on a computed value and keep the equation.
pub Bool-cases : (b : Bool) → (b ≡ true) ⊎ (b ≡ false)
Bool-cases true = inl refl
Bool-cases false = inr refl

pub Option-cases {ℓ} : {A : Type ℓ} (o : Option A) → (o ≡ none) ⊎ ((a : A) × (o ≡ some a))
Option-cases none = inl refl
Option-cases (some a) = inr (a, refl)

pub not_true : (b : Bool) → ¬ (b ≡ true) → b ≡ false
not_true true h = absurd (h refl)
not_true false h = refl
