-- ===== src/ProcessInstances/Log.antt =====
-- The events of an instance, as they are listed.
use mathlib.Core.List.{Perm}
use mathlib.Core.List.Perm
use m8flow_bpmn_core.Base.{
  ℕ, ◌≤◌, ◌<◌, ◌⊎◌, ◌++◌, Bool, not, refl, eq_of_test, ==_refl, All-keep_of, keep-partition, String,
  some, true, false, ◌&&◌, List, [], ◌∷◌, ◌≡◌, inl, inr, arith, Bool-cases, ◌==◌, Nat_Eq, String_Eq,
  keep, All, All-map,
}
use m8flow_bpmn_core.Model.Process.{ProcessInstance, ProcessInstanceEvent}
use m8flow_bpmn_core.Model.Database.{Database}
use m8flow_bpmn_core.Session.{ok, select}
use m8flow_bpmn_core.ProcessInstances.{
  event_before, insert_event, sort_events, get_process_instance_events,
}
use m8flow_bpmn_core.ProcessInstances.Lifecycle.Access.{instance_at, load_process_instance-found}

-- An event of the instance, under the tenant.
abbrev pub IsEventOf : String → ℕ → ProcessInstanceEvent → Type 0
IsEventOf t i e = (e.m8f_tenant_id ≡ t) × (e.process_instance_id ≡ i)

-- It happened earlier, or at one time and with no greater key.
abbrev pub IsEarlier : ProcessInstanceEvent → ProcessInstanceEvent → Type 0
IsEarlier e f = (e.occurred_at < f.occurred_at) ⊎ ((e.occurred_at ≡ f.occurred_at) × (e.id ≤ f.id))

abbrev pub IsChronological : List ProcessInstanceEvent → Type 0
IsChronological [] = Unit
IsChronological (e ∷ es) = All (IsEarlier e) es × IsChronological es

IsEarlier-of_true : (e f : ProcessInstanceEvent) → event_before e f ≡ true → IsEarlier e f
unfolding event_before
IsEarlier-of_true e f h = ground arith

IsEarlier-of_false : (e f : ProcessInstanceEvent) → event_before f e ≡ false → IsEarlier e f
unfolding event_before
IsEarlier-of_false e f h = ground arith

IsEarlier-trans : (e f g : ProcessInstanceEvent) → IsEarlier e f → IsEarlier f g → IsEarlier e g
IsEarlier-trans e f g h k = ground arith

All-insert_event :
    (P : ProcessInstanceEvent → Type 0) (e : ProcessInstanceEvent) (es : List ProcessInstanceEvent)
    → P e
    → All P es
    → All P (insert_event e es)
unfolding insert_event
All-insert_event P e [] p h = (p, tt)
All-insert_event P e (f ∷ fs) p (q, h) = elim (Bool-cases (event_before f e)) [
  | inl b ↦ rw b (q, All-insert_event P e fs p h)
  | inr b ↦ rw b (p, (q, h))
]

insert_event-IsChronological :
    (e : ProcessInstanceEvent) (es : List ProcessInstanceEvent)
    → IsChronological es
    → IsChronological (insert_event e es)
unfolding insert_event
insert_event-IsChronological e [] h = (tt, tt)
insert_event-IsChronological e (f ∷ fs) (a, h) = elim (Bool-cases (event_before f e)) [
  | inl b ↦ rw b (
    All-insert_event (IsEarlier f) e fs (IsEarlier-of_true f e b) a,
    insert_event-IsChronological e fs h,
  )
  | inr b ↦ rw b (
    (
      IsEarlier-of_false e f b,
      All-map fs (λ g. IsEarlier-trans e f g (IsEarlier-of_false e f b)) a,
    ),
    (a, h),
  )
]

insert_event-perm :
    (e : ProcessInstanceEvent) (es : List ProcessInstanceEvent) → Perm (insert_event e es) (e ∷ es)
unfolding insert_event
insert_event-perm e [] = Perm.refl _
insert_event-perm e (f ∷ fs) = elim (Bool-cases (event_before f e)) [
  | inl b ↦ rw b (Perm.trans (Perm.cons f (insert_event-perm e fs)) (Perm.swap e f fs))
  | inr b ↦ rw b (Perm.refl _)
]

sort_events-perm : (es : List ProcessInstanceEvent) → Perm (sort_events es) es
unfolding sort_events
sort_events-perm [] = Perm.refl _
sort_events-perm (e ∷ es) =
    Perm.trans (insert_event-perm e (sort_events es)) (Perm.cons e (sort_events-perm es))

sort_events-IsChronological : (es : List ProcessInstanceEvent) → IsChronological (sort_events es)
unfolding sort_events
sort_events-IsChronological [] = tt
sort_events-IsChronological (e ∷ es) =
    insert_event-IsChronological e (sort_events es) (sort_events-IsChronological es)

All-sort_events :
    (P : ProcessInstanceEvent → Type 0) (es : List ProcessInstanceEvent)
    → All P es
    → All P (sort_events es)
unfolding sort_events
All-sort_events P [] h = tt
All-sort_events P (e ∷ es) (p, h) = All-insert_event P e (sort_events es) p (All-sort_events P es h)

-- The condition of the query.
abbrev listed : String → ℕ → ProcessInstanceEvent → Bool
listed t i e = e.m8f_tenant_id == t && e.process_instance_id == i

listed-IsEventOf :
    (t : String) (i : ℕ) (e : ProcessInstanceEvent) → listed t i e ≡ true → IsEventOf t i e
listed-IsEventOf t i e h = (eq_of_test _ _ (ground arith), eq_of_test _ _ (ground arith))

not-listed :
    (t : String) (i : ℕ) (e : ProcessInstanceEvent) → not (listed t i e) ≡ true → ¬ IsEventOf t i e
not-listed t i e h (of_tenant, of_instance) =
    let yes : listed t i e ≡ true = rw (of_tenant, of_instance, ==_refl t, ==_refl i) refl in
    ground arith

-- For an instance that the tenant has, the listing changes nothing and returns every stored event
-- of the tenant and the instance once, and no other: the rows are those listed and those that are
-- of another tenant or instance. The listed events are in the order of their times, and of their
-- keys at one time.
pub get_process_instance_events-IsChronological :
    (t : String) (i : ℕ) (db : Database) (p : ProcessInstance)
    → instance_at db t i ≡ some p
    → (es others : List ProcessInstanceEvent) × (get_process_instance_events t i db ≡ (ok es, db))
      × Perm (es ++ others) db.process_instance_events.rows
      × All (IsEventOf t i) es
      × All (λ e. ¬ IsEventOf t i e) others
      × IsChronological es
unfolding get_process_instance_events select
get_process_instance_events-IsChronological t i db p found =
    let loaded = load_process_instance-found t i db p found in
    let rows = db.process_instance_events.rows in
    let others = keep (λ e. not (listed t i e)) rows in
    (
      sort_events (keep (listed t i) rows),
      others,
      ground (arith, loaded),
      Perm.trans (Perm.append_right others (sort_events-perm _)) (keep-partition (listed t i) rows),
      All-sort_events _ _ (All-keep_of _ _ rows (listed-IsEventOf t i)),
      All-keep_of _ _ rows (not-listed t i),
      sort_events-IsChronological _,
    )
