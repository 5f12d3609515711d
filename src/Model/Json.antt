-- ===== src/Model/Json.antt =====
-- The values of a JSON column, and the `dict` methods that the services call on them.
pub mod Lookup
use m8flow_bpmn_core.Base.{ℕ, String, Bool, Option, none, some, ◌==◌, String_Eq, if◌then◌else◌}

-- Numbers are the whole ones; `negative n` is -(n + 1). A text that `datetime.isoformat` wrote is
-- `moment t`, and every other text is `text s`.
mutual
  pub data Value : Type 0 where
    null : Value
    boolean : Bool → Value
    number : ℕ → Value
    negative : ℕ → Value
    text : String → Value
    moment : ℕ → Value
    array : Items → Value
    object : Fields → Value

  pub data Fields : Type 0 where
    end : Fields
    field : String → Value → Fields → Fields

  pub data Items : Type 0 where
    nil : Items
    cons : Value → Items → Items

-- `fields.get(key)`
unfoldable pub get : String → Fields → Option Value
get k end = none
get k (field j v rest) = if j == k then some v else get k rest

-- `fields[key] = value`
unfoldable pub put : String → Value → Fields → Fields
put k v end = field k v end
put k v (field j w rest) = if j == k then field j v rest else field j w (put k v rest)

-- `fields.pop(key, None)`
unfoldable pub drop_key : String → Fields → Fields
drop_key k end = end
drop_key k (field j v rest) =
    let later = drop_key k rest in if j == k then rest else field j v later

-- `isinstance(value, str)`
unfoldable pub as_text : Value → Option String
as_text (text s) = some s
as_text _ = none

-- `isinstance(value, Mapping)`
unfoldable pub as_object : Value → Option Fields
as_object (object fs) = some fs
as_object _ = none
