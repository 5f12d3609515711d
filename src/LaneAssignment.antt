-- ===== src/LaneAssignment.antt =====
-- Lanes and their configuration: src/m8flow_core/services/lane_assignment.py up to the lane groups.
-- The tables of letters behind `str.lower` and SQL's LOWER, and the hash function, are parameters.
pub mod Groups
pub mod Legacy
pub mod Owners
pub mod GroupKeys
pub mod Members
pub mod Frame
pub mod Resolved
pub mod Assigned
pub mod Entries
pub mod Validation
use Prim.Native.Nat.{◌*◌}
use Prim.Native.Char.{code}
use Prim.Native.String.{◌++◌ as append}
use m8flow_bpmn_core.Base.{
  ℕ, zero, suc, ◌+◌, ◌-◌, ◌%◌, String, Bool, true, false, not, ◌&&◌, Option, none, some, List, [],
  ◌∷◌, ◌++◌, ◌==◌, Nat_Eq, String_Eq, if◌then◌else◌, leb, any,
}
use m8flow_bpmn_core.Base.Text.{is_blank, strip}
use m8flow_bpmn_core.Errors.{Error}
use m8flow_bpmn_core.Model.Json.{
  Value, Fields, Items, null, array, end, field, nil, cons, get, as_text, as_object,
}
use m8flow_bpmn_core.Session.{Result, ok, err}
use m8flow_bpmn_core.TenantUsers.{member}

-- `str.lower`; `func.lower(func.trim(…))` as the database computes it; and
-- `hashlib.sha256(….encode("utf-8")).hexdigest()`.
pub record LaneTexts : Type 0 where
  pub lower : String → String
  pub lower_trim : String → String
  pub hexdigest : String → String

-- One hexadecimal digit, of the lower case letters that a digest is written with.
unfoldable pub hex_digit : ℕ → ℕ
hex_digit n = if leb n b'9' then n - b'0' else n - 87

-- `int(text[:count], 16)`, on top of the digits that were read before.
unfoldable pub hex_prefix : ℕ → ℕ → String → ℕ
hex_prefix zero read s = read
hex_prefix (suc n) read String.[] = read
hex_prefix (suc n) read (String.◌∷◌ c s) = hex_prefix n (read * 16 + hex_digit (code c)) s

-- `isinstance(value, list)`
unfoldable pub as_array : Value → Option Items
as_array (array xs) = some xs
as_array _ = none

unfoldable pub hash_input : String → Option String → String
hash_input lane none = lane
hash_input lane (some tenant) = append tenant (append ":" lane)

-- The texts among the values of a list.
unfoldable pub texts_of : Items → List String
texts_of nil = []
texts_of (cons v rest) = elim (as_text v) [ none ↦ texts_of rest | some s ↦ s ∷ texts_of rest ]

-- `grouped.setdefault(lane, []).extend(identifiers)`, in the order of the first use of the keys.
unfoldable pub extend_lane :
    String → List String → List (String × List String) → List (String × List String)
extend_lane lane identifiers [] = (lane, identifiers) ∷ []
extend_lane lane identifiers ((key, found) ∷ rest) =
    let later = extend_lane lane identifiers rest in
    if key == lane then (key, found ++ identifiers) ∷ rest else (key, found) ∷ later

-- `lane in owner_lanes`
unfoldable pub has_lane : String → List (String × List String) → Bool
has_lane lane = any (λ (key, _). key == lane)

-- The two checks of the requested lanes.
unfoldable pub check_requested :
    List String → List (String × List String) → List String → Result (Unit {0})
check_requested known owner_lanes requested =
    if any (λ lane. not (member lane known)) requested
    then err Error.validation_error
    else if any (λ lane. has_lane lane owner_lanes) requested
    then err Error.validation_error
    else ok tt

module _ (texts : LaneTexts) where
  -- `text.strip().lower()`
  unfoldable pub normalized : String → String
  normalized s = texts.lower (strip s)

  -- `tenant_id.strip().lower() if tenant_id else None`, or nothing if that is empty.
  unfoldable pub normalized_tenant : Option String → Option String
  normalized_tenant none = none
  normalized_tenant (some tenant_id) =
      if is_blank tenant_id
      then none
      else if is_blank (normalized tenant_id)
      then none
      else some (normalized tenant_id)

  -- `& 0x7FFFFFFF` keeps 31 bits; `or 1`.
  unfoldable pub resolve_lane_assignment_id : String → Option String → ℕ
  resolve_lane_assignment_id lane_name tenant_id =
      let stable_int =
        hex_prefix 8 0
          (texts.hexdigest (hash_input (normalized lane_name) (normalized_tenant tenant_id)))
        % 2147483648 in
      if stable_int == 0 then 1 else stable_int

  -- The key under which lane names are compared, or `none` for no lane.
  unfoldable pub normalize_lane_text : String → Option String
  normalize_lane_text s =
      let trimmed = strip s in if is_blank trimmed then none else some (texts.lower trimmed)

  unfoldable pub normalize_lane_name : Value → Option String
  normalize_lane_name value = elim (as_text value) [ none ↦ none | some s ↦ normalize_lane_text s ]

  -- The loop over the items of `lane_owners`. The keys of a JSON object are texts.
  unfoldable pub group_lane_owners :
      Fields → List (String × List String) → List (String × List String)
  group_lane_owners end grouped = grouped
  group_lane_owners (field raw_lane v rest) grouped =
      group_lane_owners rest (elim (normalize_lane_text raw_lane) [
        | none ↦ grouped
        | some lane ↦ elim (as_array v) [
          | none ↦ grouped
          | some xs ↦ extend_lane lane (texts_of xs) grouped
        ]
      ])

  unfoldable pub lane_owner_identifiers : Option Value → List (String × List String)
  lane_owner_identifiers none = []
  lane_owner_identifiers (some v) = elim (as_object v) [
    | none ↦ []
    | some fs ↦ group_lane_owners fs []
  ]

  -- The usable lane names of a list, as keys.
  unfoldable pub usable_lanes : Items → List String
  usable_lanes nil = []
  usable_lanes (cons v rest) = elim (normalize_lane_name v) [
    | none ↦ usable_lanes rest
    | some lane ↦ lane ∷ usable_lanes rest
  ]

  unfoldable pub configured_initiator_lanes : Option Fields → List String
  configured_initiator_lanes none = []
  configured_initiator_lanes (some properties) = elim (get "initiator_lanes" properties) [
    | none ↦ []
    | some raw ↦ elim (as_array raw) [ none ↦ [] | some xs ↦ usable_lanes xs ]
  ]

  -- The first loop of the validation: every entry is a lane name. Only the keys are kept, since the
  -- names as they were written go to the messages.
  unfoldable pub requested_lanes : Items → Result (List String)
  requested_lanes nil = ok []
  requested_lanes (cons v rest) = elim (normalize_lane_name v) [
    | none ↦ err Error.validation_error
    | some lane ↦ elim (requested_lanes rest) [ err e ↦ err e | ok lanes ↦ ok (lane ∷ lanes) ]
  ]

  unfoldable pub known_lanes : List String → List String
  known_lanes [] = []
  known_lanes (name ∷ names) = elim (normalize_lane_text name) [
    | none ↦ known_lanes names
    | some lane ↦ lane ∷ known_lanes names
  ]

  unfoldable pub validate_initiator_list : Fields → List String → Value → Result (Unit {0})
  validate_initiator_list properties bpmn_lane_names raw = elim (as_array raw) [
    | none ↦ err Error.validation_error
    | some xs ↦ elim (requested_lanes xs) [
      | err e ↦ err e
      | ok requested ↦
          check_requested (known_lanes bpmn_lane_names)
            (lane_owner_identifiers (get "lane_owners" properties)) requested
    ]
  ]

  -- `if raw_lanes is None: return`
  unfoldable pub validate_initiator_value : Fields → List String → Value → Result (Unit {0})
  validate_initiator_value properties bpmn_lane_names null = ok tt
  validate_initiator_value properties bpmn_lane_names raw =
      validate_initiator_list properties bpmn_lane_names raw

  unfoldable pub validate_initiator_lanes : Fields → List String → Result (Unit {0})
  validate_initiator_lanes properties bpmn_lane_names = elim (get "initiator_lanes" properties) [
    | none ↦ ok tt
    | some raw ↦ validate_initiator_value properties bpmn_lane_names raw
  ]

  unfoldable pub lane_group_identifier : String → String → String
  lane_group_identifier lane tenant_id =
      append (normalized tenant_id) (append ":" (normalized lane))
