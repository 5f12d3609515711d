-- ===== src/Base/Text.antt =====
-- Python's text methods that the services use, over the native strings.
pub mod Decimal
pub mod Trim
use Prim.Native.Nat.{ℕ, zero, suc, ◌-◌}
use Prim.Native.Char.{Char, code}
use Prim.Native.String.{String, count}
use Prim.Native.String
use mathlib.Core.Bool.{Bool, true, false, ◌&&◌, ◌||◌}
use mathlib.Core.Option.{Option, none, some}
use m8flow_bpmn_core.Base.Tests.{leb, nat_eq, if◌then◌else◌}

-- `str.isspace` of one character, as `strip` reads it.
unfoldable pub is_space : Char → Bool
is_space c =
    let n = code c in
    (leb 9 n && leb n 13)
    || (leb 28 n && leb n 32)
    || nat_eq n 133
    || nat_eq n 160
    || nat_eq n 5760
    || (leb 8192 n && leb n 8202)
    || nat_eq n 8232
    || nat_eq n 8233
    || nat_eq n 8239
    || nat_eq n 8287
    || nat_eq n 12288

-- `not text`
unfoldable pub is_blank : String → Bool
is_blank String.[] = true
is_blank (String.◌∷◌ _ _) = false

unfoldable pub lstrip : String → String
unfolding is_space
lstrip String.[] = String.[]
lstrip (String.◌∷◌ c s) = elim (is_space c) [ true ↦ lstrip s | false ↦ String.◌∷◌ c s ]

-- `text.rstrip(…)`, for the characters that pass the test.
unfoldable pub rstrip_when : (Char → Bool) → String → String
unfolding is_blank
rstrip_when p String.[] = String.[]
rstrip_when p (String.◌∷◌ c s) =
    let rest = rstrip_when p s in if is_blank rest && p c then String.[] else String.◌∷◌ c rest

-- `text.strip()`
unfoldable pub strip : String → String
unfolding lstrip rstrip_when is_space
strip s = lstrip (rstrip_when is_space s)

-- `"c" in text`, for one character.
unfoldable pub has_char : ℕ → String → Bool
has_char n String.[] = false
has_char n (String.◌∷◌ c s) = nat_eq (code c) n || has_char n s

-- `text.split("c", 1)[0]`
unfoldable pub before_char : ℕ → String → String
before_char n String.[] = String.[]
before_char n (String.◌∷◌ c s) =
    let rest = before_char n s in if nat_eq (code c) n then String.[] else String.◌∷◌ c rest

-- `text.rsplit("c", 1)[-1]`
unfoldable pub after_last_char : ℕ → String → String
unfolding has_char
after_last_char n String.[] = String.[]
after_last_char n (String.◌∷◌ c s) =
    let rest = after_last_char n s in
    if has_char n s then rest else if nat_eq (code c) n then s else String.◌∷◌ c s

-- What follows the prefix, if the text begins with it.
unfoldable pub after_prefix : String → String → Option String
after_prefix String.[] s = some s
after_prefix (String.◌∷◌ c p) String.[] = none
after_prefix (String.◌∷◌ c p) (String.◌∷◌ d s) =
    let rest = after_prefix p s in if nat_eq (code c) (code d) then rest else none

-- The loop of `text.split(separator)[-1]`: the piece that has begun, and how many characters of
-- the last separator are still to be passed over.
last_piece_from : String → String → ℕ → String → String
unfolding after_prefix
last_piece_from sep piece k String.[] = piece
last_piece_from sep piece (suc k) (String.◌∷◌ c s) = last_piece_from sep piece k s
last_piece_from sep piece zero (String.◌∷◌ c s) = elim (after_prefix sep (String.◌∷◌ c s)) [
  | none ↦ last_piece_from sep piece zero s
  | some rest ↦ last_piece_from sep rest (count sep - 1) s
]

-- `text.split(separator)[-1]`
unfoldable pub last_piece : String → String → String
unfolding last_piece_from
last_piece sep s = last_piece_from sep s 0 s

-- `separator in text`
unfoldable pub contains : String → String → Bool
unfolding after_prefix
contains sep String.[] = elim (after_prefix sep String.[]) [ none ↦ false | some _ ↦ true ]
contains sep (String.◌∷◌ c s) =
    let rest = contains sep s in
    elim (after_prefix sep (String.◌∷◌ c s)) [ none ↦ rest | some _ ↦ true ]
