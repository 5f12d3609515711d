-- ===== src/SchedulerJobs/Invariant.antt =====
-- The unique key of the table of jobs, and what a deletion removes.
use m8flow_bpmn_core.Base.{
  ℕ, String, Bool, true, false, not, Option, none, some, List, [], ◌∷◌, ◌++◌, ◌≡◌, inl, inr, refl,
  sym, ap, arith, ◌==◌, Nat_Eq, String_Eq, ==_refl, not_true, Bool-cases, Option-cases, find, any,
  keep, update_where, find-none, All, All-append, All-update_where,
}
use m8flow_bpmn_core.Model.Json.{Fields}
use m8flow_bpmn_core.Model.Process.{Timestamp}
use m8flow_bpmn_core.Model.Scheduler.{SchedulerJobType, SchedulerJob}
use m8flow_bpmn_core.Model.Database.{Database}
use m8flow_bpmn_core.Session.{ok, add, update, delete, first}
use m8flow_bpmn_core.SchedulerJobs.{has_key, upsert_scheduler_job, delete_scheduler_job}
use m8flow_bpmn_core.SchedulerJobs.Store.{job_at, same_key}

-- The unique constraint of the table: no two rows have one tenant and one key.
abbrev pub HasUniqueKeys : List SchedulerJob → Type 0
HasUniqueKeys [] = Unit
HasUniqueKeys (j ∷ js) =
    All (λ (k : SchedulerJob). has_key j.m8f_tenant_id j.job_key k ≡ false) js × HasUniqueKeys js

own_key : (j : SchedulerJob) → has_key j.m8f_tenant_id j.job_key j ≡ true
unfolding has_key
own_key j = rw (==_refl j.m8f_tenant_id, ==_refl j.job_key) refl

key_sym :
    (t k : String) (j r : SchedulerJob)
    → has_key t k r ≡ true
    → has_key t k j ≡ false
    → has_key j.m8f_tenant_id j.job_key r ≡ false
unfolding has_key
key_sym t k j r h n = not_true _ λ yes.
    let (a, b) = same_key r j.m8f_tenant_id j.job_key h yes in
    let test = own_key j in
    ground (arith, n, ap (λ x. x == t) (sym a), ap (λ x. x == k) (sym b), ==_refl t, ==_refl k)

HasUniqueKeys-append :
    (t k : String) (js : List SchedulerJob) (r : SchedulerJob)
    → has_key t k r ≡ true
    → All (λ (j : SchedulerJob). has_key t k j ≡ false) js
    → HasUniqueKeys js
    → HasUniqueKeys (js ++ r ∷ [])
HasUniqueKeys-append t k [] r h a u = (tt, tt)
HasUniqueKeys-append t k (j ∷ js) r h (n, a) (o, u) = (
  All-append (λ (x : SchedulerJob). has_key j.m8f_tenant_id j.job_key x ≡ false) js (r ∷ []) o
      (key_sym t k j r h n, tt),
  HasUniqueKeys-append t k js r h a u,
)

module _ (selects : SchedulerJob → Bool) (change : SchedulerJob → SchedulerJob)
    (tenants : (j : SchedulerJob) → (change j).m8f_tenant_id ≡ j.m8f_tenant_id)
    (keys : (j : SchedulerJob) → (change j).job_key ≡ j.job_key) where
  has_key-changed :
      (t k : String) (j : SchedulerJob) → has_key t k j ≡ false → has_key t k (change j) ≡ false
  unfolding has_key
  has_key-changed t k j h = rw (tenants j, keys j) h

  HasUniqueKeys-update_where :
      (js : List SchedulerJob) → HasUniqueKeys js → HasUniqueKeys (update_where selects change js)
  unfolding update_where
  HasUniqueKeys-update_where [] u = tt
  HasUniqueKeys-update_where (j ∷ js) (a, u) =
      let moved =
        All-update_where (λ (x : SchedulerJob). has_key j.m8f_tenant_id j.job_key x ≡ false) selects
          change js (has_key-changed j.m8f_tenant_id j.job_key) a in
      let rest = HasUniqueKeys-update_where js u in
      elim (Bool-cases (selects j)) [
        | inl e ↦ rw (e, tenants j, keys j) (moved, rest)
        | inr e ↦ rw e (moved, rest)
      ]

-- An upsert keeps the unique key of the table: no tenant has two jobs of one key after it if none
-- had before.
pub upsert_scheduler_job-HasUniqueKeys :
    (t k : String) (kind : SchedulerJobType) (run_at : Timestamp) (i d : Option ℕ)
    (payload : Fields) (at created : Option Timestamp) (db : Database)
    → HasUniqueKeys db.scheduler_jobs.rows
    → HasUniqueKeys
        (upsert_scheduler_job t k kind run_at i d payload at created db).1.scheduler_jobs.rows
unfolding upsert_scheduler_job add update first has_key find
upsert_scheduler_job-HasUniqueKeys t k kind run_at i d payload (some at) created db u =
    elim (Option-cases (job_at db t k)) [
      | inl h ↦ rw h (
          HasUniqueKeys-append t k db.scheduler_jobs.rows _ (rw (==_refl t, ==_refl k) refl)
            (find-none (has_key t k) db.scheduler_jobs.rows h) u)
      | inr (j, h) ↦
          rw h (HasUniqueKeys-update_where _ _ (λ x. refl) (λ x. refl) db.scheduler_jobs.rows u)
    ]
upsert_scheduler_job-HasUniqueKeys t k kind run_at i d payload none created db u =
    elim (Option-cases (job_at db t k)) [
      | inl h ↦ rw h (
          HasUniqueKeys-append t k db.scheduler_jobs.rows _ (rw (==_refl t, ==_refl k) refl)
            (find-none (has_key t k) db.scheduler_jobs.rows h) u)
      | inr (j, h) ↦
          rw h (HasUniqueKeys-update_where _ _ (λ x. refl) (λ x. refl) db.scheduler_jobs.rows u)
    ]

find-deleted :
    (q : SchedulerJob → Bool) (js : List SchedulerJob) → find q (keep (λ x. not (q x)) js) ≡ none
unfolding find keep
find-deleted q [] = refl
find-deleted q (j ∷ js) = ground (arith, find-deleted q js)

find-left :
    (p q : SchedulerJob → Bool) (js : List SchedulerJob)
    → ((j : SchedulerJob) → p j ≡ true → q j ≡ false)
    → find p (keep (λ x. not (q x)) js) ≡ find p js
unfolding find keep
find-left p q [] h = refl
find-left p q (j ∷ js) h = elim (Bool-cases (p j)) [
  | inl e ↦ let stays = h j e in ground (arith, e, stays)
  | inr e ↦ ground (arith, e, find-left p q js h)
]

any-find :
    (q : SchedulerJob → Bool) (js : List SchedulerJob)
    → any q js ≡ elim (find q js) as (λ _. Bool) [ none ↦ false | some _ ↦ true ]
unfolding any find
any-find q [] = refl
any-find q (j ∷ js) = ground (arith, any-find q js)

-- A deletion succeeds and says whether the key led to a job. Afterwards the key leads to none, and
-- every other key leads to what it led to before.
pub delete_scheduler_job-first :
    (t k : String) (db : Database)
    → (db' : Database) × (delete_scheduler_job t k db
        ≡ (ok (elim (job_at db t k) as (λ _. Bool) [ none ↦ false | some _ ↦ true ]), db'))
      × (job_at db' t k ≡ none)
      × ((t' k' : String) → ¬ ((t ≡ t') × (k ≡ k')) → job_at db' t' k' ≡ job_at db t' k')
unfolding delete_scheduler_job delete
delete_scheduler_job-first t k db = (
  (delete_scheduler_job t k db).1,
  ground (arith, any-find (has_key t k) db.scheduler_jobs.rows),
  find-deleted (has_key t k) db.scheduler_jobs.rows,
  λ t' k' ne.
      find-left (has_key t' k') (has_key t k) db.scheduler_jobs.rows
        (λ j h. not_true (has_key t k j) (λ yes. ne (same_key j t' k' yes h))),
)
