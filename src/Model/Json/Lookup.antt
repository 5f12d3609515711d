-- ===== src/Model/Json/Lookup.antt =====
-- What a key of an object leads to after an assignment.
use m8flow_bpmn_core.Base.{
  String, false, some, ◌≡◌, refl, ap, arith, ◌==◌, String_Eq, ==_refl, eq_of_test, Bool-cases, inl,
  inr,
}
use m8flow_bpmn_core.Model.Json.{Value, Fields, get, put}

pub get-put : (k : String) (v : Value) (fs : Fields) → get k (put k v fs) ≡ some v
unfolding get put
get-put k v Fields.end = rw (==_refl k) refl
get-put k v (Fields.field j w rest) = elim (Bool-cases (j == k)) [
  | inl e ↦ ground (arith, e)
  | inr e ↦ ground (arith, e, get-put k v rest)
]

pub get-put_other :
    (j k : String) (v : Value) (fs : Fields) → (k == j) ≡ false → get j (put k v fs) ≡ get j fs
unfolding get put
get-put_other j k v Fields.end h = ground (arith, h)
get-put_other j k v (Fields.field i w rest) h = elim (Bool-cases (i == k)) [
  | inl e ↦ let same = eq_of_test i k e in ground (arith, e, h, ap (λ x. x == j) same)
  | inr e ↦ ground (arith, e, get-put_other j k v rest h)
]
