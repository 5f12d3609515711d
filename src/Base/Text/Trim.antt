-- ===== src/Base/Text/Trim.antt =====
-- Trimmed texts: what `strip` leaves begins and ends with a character that is no space.
use Prim.Native.Char.{Char}
use Prim.Native.String.{String, ◌++◌ as append}
use text.Mathlib.TextLemmas.{cons-append, nil-append}
use mathlib.Core.Path.{◌≡◌, refl, ap, ◌∙◌}
use mathlib.Core.Bool.{Bool, true, false, ◌&&◌}
use mathlib.Core.Logic.{inl, inr}
use m8flow_bpmn_core.Base.Tests.{Bool-cases}
use m8flow_bpmn_core.Base.Text.{is_space, is_blank, lstrip, rstrip_when, strip}

-- A text that is trimmed on the left, and one that is trimmed on the right.
pub begins_with_space : String → Bool
begins_with_space String.[] = false
begins_with_space (String.◌∷◌ c s) = is_space c

abbrev pub IsLeftTrimmed : String → Type 0
IsLeftTrimmed s = begins_with_space s ≡ false

abbrev pub IsRightTrimmed : String → Type 0
IsRightTrimmed s = rstrip_when is_space s ≡ s

tail : String → String
tail String.[] = String.[]
tail (String.◌∷◌ c s) = s

rstrip-IsRightTrimmed : (s : String) → IsRightTrimmed (rstrip_when is_space s)
unfolding rstrip_when is_blank
rstrip-IsRightTrimmed String.[] = refl
rstrip-IsRightTrimmed (String.◌∷◌ c s) =
    let later = rstrip-IsRightTrimmed s in
    elim (Bool-cases (is_blank (rstrip_when is_space s) && is_space c)) [
      | inl e ↦ rw e refl
      | inr e ↦ rw (e, later, e) refl
    ]

tail-IsRightTrimmed : (c : Char) (s : String) → IsRightTrimmed (String.◌∷◌ c s) → IsRightTrimmed s
unfolding rstrip_when is_blank tail
tail-IsRightTrimmed c s h = elim (Bool-cases (is_blank (rstrip_when is_space s) && is_space c)) [
  | inl e ↦ absurd (blank (ap is_blank (rw e at h)))
  | inr e ↦ ap tail (rw e at h)
]
  where
    blank : ◌≡◌ true false → ⊥
    blank e = cc

lstrip-IsRightTrimmed : (s : String) → IsRightTrimmed s → IsRightTrimmed (lstrip s)
unfolding lstrip
lstrip-IsRightTrimmed String.[] h = h
lstrip-IsRightTrimmed (String.◌∷◌ c s) h = elim (Bool-cases (is_space c)) [
  | inl e ↦ rw (e, lstrip) (lstrip-IsRightTrimmed s (tail-IsRightTrimmed c s h))
  | inr e ↦ rw (e, lstrip) h
]

lstrip-IsLeftTrimmed : (s : String) → IsLeftTrimmed (lstrip s)
unfolding begins_with_space lstrip
lstrip-IsLeftTrimmed String.[] = refl
lstrip-IsLeftTrimmed (String.◌∷◌ c s) = elim (Bool-cases (is_space c)) [
  | inl e ↦ rw (e, lstrip) (lstrip-IsLeftTrimmed s)
  | inr e ↦ rw (e, lstrip) e
]

lstrip_trimmed : (s : String) → IsLeftTrimmed s → lstrip s ≡ s
unfolding begins_with_space lstrip
lstrip_trimmed String.[] h = refl
lstrip_trimmed (String.◌∷◌ c s) h = rw (h, lstrip) refl

pub strip-IsLeftTrimmed : (s : String) → IsLeftTrimmed (strip s)
unfolding strip
strip-IsLeftTrimmed s = lstrip-IsLeftTrimmed (rstrip_when is_space s)

pub strip-IsRightTrimmed : (s : String) → IsRightTrimmed (strip s)
unfolding strip
strip-IsRightTrimmed s = lstrip-IsRightTrimmed (rstrip_when is_space s) (rstrip-IsRightTrimmed s)

-- What is trimmed on both sides stays.
pub strip_trimmed : (s : String) → IsLeftTrimmed s → IsRightTrimmed s → strip s ≡ s
unfolding strip
strip_trimmed s l r = ap lstrip r ∙ lstrip_trimmed s l

pub strip_idempotent : (s : String) → strip (strip s) ≡ strip s
strip_idempotent s = strip_trimmed (strip s) (strip-IsLeftTrimmed s) (strip-IsRightTrimmed s)

pub blank-append : (a b : String) → is_blank b ≡ false → is_blank (append a b) ≡ false
unfolding is_blank
blank-append String.[] b solid = rw (nil-append b) solid
blank-append (String.◌∷◌ c a) b solid = rw (cons-append c a b) refl

-- A text that ends with a trimmed text that is not empty is trimmed on the right.
pub append-IsRightTrimmed :
    (a b : String) → IsRightTrimmed b → is_blank b ≡ false → IsRightTrimmed (append a b)
unfolding rstrip_when
append-IsRightTrimmed String.[] b r solid = rw (nil-append b) r
append-IsRightTrimmed (String.◌∷◌ c a) b r solid =
    rw (cons-append c a b, append-IsRightTrimmed a b r solid, blank-append a b solid) refl

-- A text that begins with a trimmed text that is not empty is trimmed on the left.
pub append-IsLeftTrimmed :
    (a b : String) → IsLeftTrimmed a → is_blank a ≡ false → IsLeftTrimmed (append a b)
unfolding begins_with_space is_blank
append-IsLeftTrimmed String.[] b l solid = cc
append-IsLeftTrimmed (String.◌∷◌ c a) b l solid = rw (cons-append c a b) l
