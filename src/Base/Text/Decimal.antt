-- ===== src/Base/Text/Decimal.antt =====
-- `str(n)` of a whole number, and reading it back.
use Prim.Native.Nat.{ℕ, zero, suc, ◌+◌, ◌-◌, ◌*◌, ◌/◌, ◌%◌, ◌<◌}
use Prim.Native.Char.{Char, code}
use Prim.Native.String.{String, ◌++◌, ◌∷◌, []}
use mathlib.Core.Path.{◌≡◌, refl, ap, sym, ◌∙◌}
use mathlib.Core.Bool.{Bool, true, false, ◌&&◌}
use mathlib.Core.Logic.{inl, inr}
use native.Mathlib.Omega.{arith}
use text.Mathlib.TextLemmas.{append_assoc, nil-append, cons-append}
use m8flow_bpmn_core.Base.Tests.{leb, ltb, if◌then◌else◌, Bool-cases}

digit : ℕ → Char
digit zero = "0"
digit (suc zero) = "1"
digit (suc (suc zero)) = "2"
digit (suc (suc (suc zero))) = "3"
digit (suc (suc (suc (suc zero)))) = "4"
digit (suc (suc (suc (suc (suc zero))))) = "5"
digit (suc (suc (suc (suc (suc (suc zero)))))) = "6"
digit (suc (suc (suc (suc (suc (suc (suc zero))))))) = "7"
digit (suc (suc (suc (suc (suc (suc (suc (suc zero)))))))) = "8"
digit _ = "9"

show_fuel : ℕ → ℕ → String
unfolding digit
show_fuel zero n = []
show_fuel (suc f) n =
    let front = show_fuel f (n / 10) in
    if ltb n 10 then digit n ∷ [] else front ++ (digit (n % 10) ∷ [])

-- `str(n)`. A number has fewer digits than its value plus one, so the fuel suffices.
unfoldable pub show_nat : ℕ → String
unfolding show_fuel
show_nat n = show_fuel (suc n) n

unfoldable pub is_digit : Char → Bool
is_digit c = leb 48 (code c) && leb (code c) 57

-- Reads the leading digits.
scan : ℕ → String → ℕ × String
unfolding is_digit
scan acc [] = (acc, [])
scan acc (c ∷ s) = elim (is_digit c) [
  | true ↦ scan (acc * 10 + (code c - 48)) s
  | false ↦ (acc, c ∷ s)
]

scan-digit : (d acc : ℕ) (s : String) → d < 10 → scan acc (digit d ∷ s) ≡ scan (acc * 10 + d) s
unfolding scan digit
scan-digit zero acc s h = refl
scan-digit (suc zero) acc s h = refl
scan-digit (suc (suc zero)) acc s h = refl
scan-digit (suc (suc (suc zero))) acc s h = refl
scan-digit (suc (suc (suc (suc zero)))) acc s h = refl
scan-digit (suc (suc (suc (suc (suc zero))))) acc s h = refl
scan-digit (suc (suc (suc (suc (suc (suc zero)))))) acc s h = refl
scan-digit (suc (suc (suc (suc (suc (suc (suc zero))))))) acc s h = refl
scan-digit (suc (suc (suc (suc (suc (suc (suc (suc zero)))))))) acc s h = refl
scan-digit (suc (suc (suc (suc (suc (suc (suc (suc (suc zero))))))))) acc s h = refl
scan-digit (suc (suc (suc (suc (suc (suc (suc (suc (suc (suc n)))))))))) acc s h =
    absurd (omega arith)

scan-show_fuel : (f n : ℕ) (r : String) → n < f → scan 0 (show_fuel f n ++ r) ≡ scan n r
unfolding show_fuel
scan-show_fuel zero n r h = elim h [ ]
scan-show_fuel (suc f) n r h = elim (Bool-cases (ltb n 10)) [
  | inl small ↦
      rw (small, cons-append, nil-append)
        (scan-digit n 0 r (ground arith) ∙ ap (λ k. scan k r) (omega arith))
  | inr large ↦
      rw (large, append_assoc, cons-append, nil-append)
        (scan-show_fuel f (n / 10) (digit (n % 10) ∷ r) (ground arith)
          ∙ scan-digit (n % 10) (n / 10) r (omega arith)
          ∙ ap (λ k. scan k r) (omega arith))
]

-- The text does not begin with a digit.
abbrev pub NoDigit : String → Type 0
NoDigit [] = Unit
NoDigit (c ∷ _) = is_digit c ≡ false

scan-NoDigit : (n : ℕ) (r : String) → NoDigit r → scan n r ≡ (n, r)
unfolding scan
scan-NoDigit n [] h = refl
scan-NoDigit n (c ∷ r) h = rw (h, scan)

scan-show_nat : (n : ℕ) (r : String) → NoDigit r → scan 0 (show_nat n ++ r) ≡ (n, r)
unfolding show_nat
scan-show_nat n r h = scan-show_fuel (suc n) n r (omega arith) ∙ scan-NoDigit n r h

-- A number that is followed by no digit is determined, and so is what follows it.
pub show_nat_injective :
    (n m : ℕ) (r s : String)
    → NoDigit r
    → NoDigit s
    → show_nat n ++ r ≡ show_nat m ++ s
    → (n ≡ m) × (r ≡ s)
show_nat_injective n m r s hr hs e =
    let pairs : ◌≡◌ {A = ℕ × String} (n, r) (m, s) =
      sym (scan-show_nat n r hr) ∙ ap (scan 0) e ∙ scan-show_nat m s hs in
    (ap (λ (p : ℕ × String). p.0) pairs, ap (λ (p : ℕ × String). p.1) pairs)
