-- ===== src/ServiceTasks/OperationIds/RoundTrip.antt =====
-- Ids built from a connector's key and a command's name, and split again.
use Prim.Native.Char.{code}
use Prim.Native.String.{◌++◌ as append}
use text.Mathlib.TextLemmas.{cons-append, nil-append}
use m8flow_bpmn_core.Base.{
  String, Bool, true, false, ◌||◌, [], ◌∷◌, ◌≡◌, ◌⊎◌, inl, inr, refl, ap, ◌∙◌, arith, ◌==◌, Nat_Eq,
  if◌then◌else◌, Bool-cases,
}
use m8flow_bpmn_core.Base.Text.{is_blank, strip, has_char}
use m8flow_bpmn_core.Base.Text.Trim.{
  strip-IsLeftTrimmed, strip-IsRightTrimmed, strip_trimmed, strip_idempotent, blank-append,
  append-IsLeftTrimmed, append-IsRightTrimmed,
}
use m8flow_bpmn_core.Errors.{Error}
use m8flow_bpmn_core.Session.{Result, ok, err}
use m8flow_bpmn_core.ServiceTasks.OperationIds.{
  normalize_non_blank, operation_id_of_parts, build_service_task_operation_id, onto_first,
  split_at_char, two_parts, split_service_task_operation_id,
}

slash_text : (s : String) → append "/" s ≡ String.◌∷◌ "/" s
slash_text s = cons-append "/" String.[] s ∙ ap (String.◌∷◌ "/") (nil-append s)

neither : (a b : Bool) → (a || b) ≡ false → (a ≡ false) × (b ≡ false)
neither true b h = cc
neither false b h = (refl, h)

split-whole : (s : String) → has_char b'/' s ≡ false → split_at_char b'/' s ≡ s ∷ []
unfolding split_at_char has_char onto_first
split-whole String.[] h = refl
split-whole (String.◌∷◌ c s) h =
    let (other, rest) = neither (code c == b'/') (has_char b'/' s) h in
    let whole = split-whole s rest in rw (other, whole) refl

split-parts :
    (a b : String)
    → has_char b'/' a ≡ false
    → has_char b'/' b ≡ false
    → split_at_char b'/' (append a (append "/" b)) ≡ a ∷ b ∷ []
unfolding split_at_char has_char onto_first
split-parts String.[] b h k = rw (nil-append (append "/" b), slash_text b, split-whole b k) refl
split-parts (String.◌∷◌ c a) b h k =
    let (other, rest) = neither (code c == b'/') (has_char b'/' a) h in
    let parts = split-parts a b rest k in rw (cons-append c a (append "/" b), other, parts) refl

pub normalized-cases :
    (s : String)
    → (normalize_non_blank s ≡ err Error.validation_error)
      ⊎ ((normalize_non_blank s ≡ ok (strip s)) × (is_blank (strip s) ≡ false))
unfolding normalize_non_blank
normalized-cases s = elim (Bool-cases (is_blank (strip s))) [
  | inl e ↦ inl (ground (arith, e))
  | inr e ↦ inr (ground (arith, e), e)
]

pub normalized-strip :
    (s : String) → is_blank (strip s) ≡ false → normalize_non_blank (strip s) ≡ ok (strip s)
unfolding normalize_non_blank
normalized-strip s solid = ground (arith, strip_idempotent s, solid)

normalize-strip : (s : String) → normalize_non_blank (strip s) ≡ normalize_non_blank s
unfolding normalize_non_blank
normalize-strip s =
    ap (λ x. if is_blank x then err Error.validation_error else ok x) (strip_idempotent s)

-- How an id is built from two names, once they are normalized or refused.
of_names : Result String → Result String → Result String
of_names key name = elim key [
  | err e ↦ err e
  | ok k ↦ elim name [ err e ↦ err e | ok n ↦ operation_id_of_parts k n ]
]

pub build-strip :
    (connector_key command_name : String)
    → build_service_task_operation_id (strip connector_key) (strip command_name)
      ≡ build_service_task_operation_id connector_key command_name
unfolding build_service_task_operation_id of_names
build-strip key name =
    ap (λ r. of_names r (normalize_non_blank (strip name))) (normalize-strip key)
    ∙ ap (of_names (normalize_non_blank key)) (normalize-strip name)

-- Where an id is built, the two names are normalized, and are its parts.
pub build-parts :
    (connector_key command_name id : String)
    → build_service_task_operation_id connector_key command_name ≡ ok id
    → (id ≡ append (strip connector_key) (append "/" (strip command_name)))
      × (is_blank (strip connector_key) ≡ false)
      × (is_blank (strip command_name) ≡ false)
      × (has_char b'/' (strip connector_key) ≡ false)
      × (has_char b'/' (strip command_name) ≡ false)
unfolding build_service_task_operation_id operation_id_of_parts
build-parts key name id h = elim (normalized-cases key) [
  | inl e ↦ absurd (ground (arith, e, h))
  | inr (e, solid_key) ↦ elim (normalized-cases name) [
    | inl f ↦ absurd (ground (arith, e, f, h))
    | inr (f, solid_name) ↦ elim (Bool-cases (has_char b'/' (strip key))) [
      | inl g ↦ absurd (ground (arith, e, f, g, h))
      | inr g ↦ elim (Bool-cases (has_char b'/' (strip name))) [
        | inl k ↦ absurd (ground (arith, e, f, g, k, h))
        | inr k ↦ (ground (arith, e, f, g, k, h), solid_key, solid_name, g, k)
      ]
    ]
  ]
]

-- An id that is built from a connector's key and a command's name is split into the two again, each
-- without its outer blanks.
pub split-build_service_task_operation_id :
    (connector_key command_name id : String)
    → build_service_task_operation_id connector_key command_name ≡ ok id
    → split_service_task_operation_id id ≡ ok (strip connector_key, strip command_name)
unfolding split_service_task_operation_id normalize_non_blank two_parts
split-build_service_task_operation_id key name id h =
    let (e, solid_key, solid_name, no_slash, no_other) = build-parts key name id h in
    let rest = append "/" (strip name) in
    let solid_rest : is_blank rest ≡ false = blank-append "/" (strip name) solid_name in
    let right =
      append-IsRightTrimmed (strip key) rest
        (append-IsRightTrimmed "/" (strip name) (strip-IsRightTrimmed name) solid_name)
        solid_rest in
    let left = append-IsLeftTrimmed (strip key) rest (strip-IsLeftTrimmed key) solid_key in
    let whole = strip_trimmed (append (strip key) rest) left right in
    let solid = blank-append (strip key) rest solid_rest in
    let parts = split-parts (strip key) (strip name) no_slash no_other in
    rw e (
      ground (
        arith,
        whole,
        solid,
        parts,
        strip_idempotent key,
        strip_idempotent name,
        solid_key,
        solid_name,
      ))
