-- ===== src/Session/Calls.antt =====
-- How a chain of calls goes on from what its first call did.
use m8flow_bpmn_core.Base.{Bool, true, false, Option, none, some, ◌≡◌, ◌⊎◌, inl, inr, refl, ap, ◌∙◌}
use m8flow_bpmn_core.Errors.{Error}
use m8flow_bpmn_core.Model.Database.{Database}
use m8flow_bpmn_core.Session.{Action, Result, ok, err, ◌>>=◌, raise_if, or_raise, lift, gets}

-- The call raises or returns, and the database stays as it was.
abbrev pub Reads : {A : Type 0} → Action A → Database → Type 0
Reads {A} call db = ((e : Error) × (call db ≡ (err e, db))) ⊎ ((a : A) × (call db ≡ (ok a, db)))

module _ {A B : Type 0} (call : Action A) (next : A → Action B) (db db' : Database) where
  pub bind_ok : (a : A) → call db ≡ (ok a, db') → (call >>= next) db ≡ next a db'
  bind_ok a h =
      ap
        (λ (out : Result A × Database). elim out.0 as (λ _. Result B × Database) [
          | ok x ↦ next x out.1
          | err e ↦ (err e, out.1)
        ])
        h

  pub bind_err : (e : Error) → call db ≡ (err e, db') → (call >>= next) db ≡ (err e, db')
  bind_err e h =
      ap
        (λ (out : Result A × Database). elim out.0 as (λ _. Result B × Database) [
          | ok x ↦ next x out.1
          | err e ↦ (err e, out.1)
        ])
        h

module _ {A B : Type 0} (call : Action A) (next : A → Action B) (db : Database) where
  pub bind-Reads : Reads call db → ((a : A) → Reads (next a) db) → Reads (call >>= next) db
  bind-Reads (inl (e, h)) k = inl (e, bind_err call next db db e h)
  bind-Reads (inr (a, h)) k = elim (k a) [
    | inl (e, h') ↦ inl (e, bind_ok call next db db a h ∙ h')
    | inr (b, h') ↦ inr (b, bind_ok call next db db a h ∙ h')
  ]

pub raise_if-Reads : (c : Bool) (e : Error) (db : Database) → Reads (raise_if c e) db
raise_if-Reads true e db = inl (e, refl)
raise_if-Reads false e db = inr (tt, refl)

pub or_raise-Reads :
    {A : Type 0} (e : Error) (o : Option A) (db : Database) → Reads (or_raise e o) db
or_raise-Reads e none db = inl (e, refl)
or_raise-Reads e (some a) db = inr (a, refl)

pub lift-Reads : {A : Type 0} (r : Result A) (db : Database) → Reads (lift r) db
lift-Reads (ok a) db = inr (a, refl)
lift-Reads (err e) db = inl (e, refl)

pub gets-Reads : {A : Type 0} (f : Database → A) (db : Database) → Reads (gets f) db
gets-Reads f db = inr (f db, refl)

pub Result-cases {ℓ} :
    {A : Type ℓ} (r : Result A) → ((e : Error) × (r ≡ err e)) ⊎ ((a : A) × (r ≡ ok a))
Result-cases (err e) = inl (e, refl)
Result-cases (ok a) = inr (a, refl)
