-- ===== src/Session/Ensures.antt =====
-- What a call leaves, in relation to what it found, and what it returns.
use m8flow_bpmn_core.Base.{List, [], ◌∷◌, Option, none, some, ◌≡◌, refl, sym, ap, ◌∙◌, subst, arith}
use m8flow_bpmn_core.Errors.{Error}
use m8flow_bpmn_core.Model.Database.{Database}
use m8flow_bpmn_core.Session.{Action, Result, ok, err, pure, gets, or_raise, ◌>>=◌, for_each}

-- A relation between the database before and after that calls in a row keep.
pub record IsOrder (R : Database → Database → Type 0) : Type 0 where
  pub stays : (a : Database) → R a a
  pub trans : (a b c : Database) → R a b → R b c → R a c

-- The database afterwards, and the result if there is one.
pub record Ensures (R : Database → Database → Type 0) {A : Type 0} (P : A → Type 0)
    (call : Action A) (db : Database) : Type 0 where
  pub after : R db (call db).1
  pub returned : (a : A) → (call db).0 ≡ ok a → P a

abbrev pub Anything : {A : Type 0} → A → Type 0
Anything a = Unit {0}

pub ok_injective : {A : Type 0} {a b : A} → ok a ≡ ok b → a ≡ b
ok_injective h = cc

module _ {R : Database → Database → Type 0} (order : IsOrder R) where
  bind_from :
      {A B : Type 0} (P : A → Type 0) (Q : B → Type 0) (next : A → Action B) (db : Database)
      (out : Result A × Database)
      → R db out.1
      → ((a : A) → out.0 ≡ ok a → P a)
      → ((a : A) (d : Database) → R db d → P a → Ensures R Q (next a) d)
      → Ensures R Q (λ _. elim out.0 [ err e ↦ (err e, out.1) | ok a ↦ next a out.1 ]) db
  bind_from P Q next db (err e, d) r p k = record {
    after = r;
    returned = λ b h. absurd (ground (arith, h));
  }
  bind_from P Q next db (ok a, d) r p k =
      let later = k a d r (p a refl) in
      record { after = order.trans db d _ r later.after; returned = later.returned }

  pub bind-Ensures :
      {A B : Type 0} {P : A → Type 0} {Q : B → Type 0} (call : Action A) (next : A → Action B)
      (db : Database)
      → Ensures R P call db
      → ((a : A) (d : Database) → R db d → P a → Ensures R Q (next a) d)
      → Ensures R Q (call >>= next) db
  bind-Ensures {P = P} {Q = Q} call next db first k =
      let e = bind_from P Q next db (call db) first.after first.returned k in
      record { after = e.after; returned = e.returned }

  pub pure-Ensures :
      {A : Type 0} (P : A → Type 0) (a : A) (db : Database) → P a → Ensures R P (pure a) db
  pure-Ensures P a db p = record {
    after = order.stays db;
    returned = λ b h. subst P (ok_injective h) p;
  }

  pub gets-Ensures :
      {A : Type 0} (P : A → Type 0) (f : Database → A) (db : Database)
      → P (f db)
      → Ensures R P (gets f) db
  gets-Ensures P f db p = record {
    after = order.stays db;
    returned = λ b h. subst P (ok_injective h) p;
  }

  pub or_raise-Ensures :
      {A : Type 0} (P : A → Type 0) (e : Error) (o : Option A) (db : Database)
      → ((a : A) → o ≡ some a → P a)
      → Ensures R P (or_raise e o) db
  or_raise-Ensures P e none db p = record {
    after = order.stays db;
    returned = λ b h. absurd (ground (arith, h));
  }
  or_raise-Ensures P e (some a) db p = pure-Ensures P a db (p a refl)

  pub for_each-Ensures :
      {A : Type 0} (xs : List A) (body : A → Action (Unit {0})) (db : Database)
      → ((x : A) (d : Database) → Ensures R Anything (body x) d)
      → Ensures R Anything (for_each xs body) db
  unfolding for_each
  for_each-Ensures [] body db h = pure-Ensures Anything tt db tt
  for_each-Ensures (x ∷ xs) body db h =
      bind-Ensures (body x) (λ _. for_each xs body) db (h x db)
        (λ a d r p. for_each-Ensures xs body d h)

-- A call that computes to this outcome.
pub Ensures-outcome :
    {R : Database → Database → Type 0} {A : Type 0} {P : A → Type 0} (call : Action A)
    (db : Database) {out : Result A × Database}
    → call db ≡ out
    → R db out.1
    → ((a : A) → out.0 ≡ ok a → P a)
    → Ensures R P call db
Ensures-outcome {R} {P = P} call db e r p = record {
  after = subst (λ o. R db o.1) (sym e) r;
  returned = λ a h. p a (ap (λ o. o.0) (sym e) ∙ h);
}

bind_after_from :
    (R : Database → Database → Type 0) {A B : Type 0} (P : A → Type 0) (Q : Database → Type 0)
    (next : A → Action B) (db : Database) (out : Result A × Database)
    → R db out.1
    → ((a : A) → out.0 ≡ ok a → P a)
    → ((d : Database) → R db d → Q d)
    → ((a : A) (d : Database) → R db d → P a → Q (next a d).1)
    → Q
        (elim out.0 as (λ _. Result B × Database) [
          | err e ↦ (err e, out.1)
          | ok a ↦ next a out.1
        ]).1
bind_after_from R P Q next db (err e, d) r p raised goes = raised d r
bind_after_from R P Q next db (ok a, d) r p raised goes = goes a d r (p a refl)

-- What holds after a chain, whether its first call raises or returns.
pub bind_after :
    {R : Database → Database → Type 0} {A B : Type 0} {P : A → Type 0} (Q : Database → Type 0)
    (call : Action A) (next : A → Action B) (db : Database)
    → Ensures R P call db
    → ((d : Database) → R db d → Q d)
    → ((a : A) (d : Database) → R db d → P a → Q (next a d).1)
    → Q ((call >>= next) db).1
bind_after {R} {P = P} Q call next db first =
    bind_after_from R P Q next db (call db) first.after first.returned
