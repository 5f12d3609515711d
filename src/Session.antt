-- ===== src/Session.antt =====
-- A call of a service: it reads and writes the session's tables, and returns or raises. The state
-- comes back after a raise too: the caller owns the transaction, and what was written stays
-- written until the caller rolls back.
pub mod Calls
pub mod Ensures
use m8flow_bpmn_core.Base.{
  ℕ, suc, Bool, not, Option, none, some, List, [], ◌∷◌, ◌++◌, if◌then◌else◌, find, any, keep,
  update_where,
}
use m8flow_bpmn_core.Errors.{Error}
use m8flow_bpmn_core.Model.Process.{Timestamp}
use m8flow_bpmn_core.Model.Database.{Database, Table, insert_row}

pub data Result {ℓ} (A : Type ℓ) : Type ℓ where
  err : Error → Result A
  ok : A → Result A

abbrev pub Action : Type 0 → Type 0
Action A = Database → Result A × Database

module _ {A : Type 0} where
  abbrev pub pure : A → Action A
  pure a db = (ok a, db)

  abbrev pub raise : Error → Action A
  raise e db = (err e, db)

  abbrev pub gets : (Database → A) → Action A
  gets f db = (ok (f db), db)

  abbrev pub lift : Result A → Action A
  lift r db = (r, db)

  abbrev pub or_raise : Error → Option A → Action A
  or_raise e none = raise e
  or_raise e (some a) = pure a

module _ {A B : Type 0} where
  infixl 5 ◌>>=◌ ◌>>◌
  -- An error ends the chain, with the database as it is then.
  abbrev pub ◌>>=◌ : Action A → (A → Action B) → Action B
  call >>= next = λ db.
      let (outcome, left) = call db in elim outcome [ err e ↦ (err e, left) | ok a ↦ next a left ]

  abbrev pub ◌>>◌ : Action A → Action B → Action B
  call >> after = call >>= λ _. after

abbrev pub modify : (Database → Database) → Action (Unit {0})
modify f db = (ok tt, f db)

abbrev pub raise_if : Bool → Error → Action (Unit {0})
raise_if c e db = (if c then err e else ok tt, db)

-- `try: … except Exception`: the outcome as a value. What was written stays written.
abbrev pub attempt : {A : Type 0} → Action A → Action (Result A)
attempt m db = let (r, db') = m db in (ok r, db')

-- `datetime.now(UTC)`
abbrev pub now : Action Timestamp
now db = (ok (db.clock db.readings), record db { readings = suc db.readings })

-- `timestamp or datetime.now(UTC)`
abbrev pub resolve_timestamp : Option Timestamp → Action Timestamp
resolve_timestamp none = now
resolve_timestamp (some t) = pure t

-- One of the session's tables.
pub record TableRef (R : Type 0) : Type 0 where
  pub get : Database → Table R
  pub set : Table R → Database → Database

-- `session.add` of a new row, and the flush that gives it its key.
unfoldable pub add : {R : Type 0} → TableRef R → (ℕ → R) → Action R
add table make db = let t = table.get db in (ok (make t.next_id), table.set (insert_row make t) db)

-- `session.add` of a row that has its key already, and the flush.
unfoldable pub add_keyed : {R : Type 0} → TableRef R → R → Action R
add_keyed table row db =
    let t = table.get db in (ok row, table.set (record t { rows = t.rows ++ (row ∷ []) }) db)

-- The rows that the condition selects are rewritten in place: attributes set on loaded objects, or
-- an UPDATE statement.
unfoldable pub update : {R : Type 0} → TableRef R → (R → Bool) → (R → R) → Action (Unit {0})
update table selects change db =
    let t = table.get db in
    (ok tt, table.set (record t { rows = update_where selects change t.rows }) db)

-- A DELETE statement: whether it deleted a row.
unfoldable pub delete : {R : Type 0} → TableRef R → (R → Bool) → Action Bool
delete table selects db =
    let t = table.get db in
    (ok (any selects t.rows), table.set (record t { rows = keep (λ r. not (selects r)) t.rows }) db)

-- `session.scalar(select(…).where(…))`
unfoldable pub first : {R : Type 0} → TableRef R → (R → Bool) → Action (Option R)
first table selects db = (ok (find selects (table.get db).rows), db)

-- `session.scalars(select(…).where(…)).all()`, in the order of the keys.
unfoldable pub select : {R : Type 0} → TableRef R → (R → Bool) → Action (List R)
select table selects db = (ok (keep selects (table.get db).rows), db)

-- A `for` loop whose body is a call.
unfoldable pub for_each : {A : Type 0} → List A → (A → Action (Unit {0})) → Action (Unit {0})
for_each [] body = pure tt
for_each (x ∷ xs) body = do body x; for_each xs body
