-- ===== src/SchedulerJobs/Due.antt =====
-- What `list_due_scheduler_jobs` returns.
use mathlib.Core.List.{Perm}
use mathlib.Core.List.Perm
use m8flow_bpmn_core.Base.{
  ℕ, ◌≤◌, ◌<◌, String, true, false, Option, none, some, List, [], ◌∷◌, ◌++◌, ◌≡◌, ◌⊎◌, inl, inr,
  arith, Bool-cases, Nat_Eq, String_Eq, eq_of_test, ==_refl, refl, not, keep, take, drop, length,
  All, All-map, take-append-drop, drop-nil_or_full, length-take-le, keep-partition, All-keep_of,
}
use m8flow_bpmn_core.Model.Process.{Timestamp}
use m8flow_bpmn_core.Model.Scheduler.{SchedulerJob}
use m8flow_bpmn_core.Model.Database.{Database}
use m8flow_bpmn_core.Session.{ok}
use m8flow_bpmn_core.SchedulerJobs.{
  is_none, due_before, insert_due, sort_due, is_due, list_due_scheduler_jobs,
}

-- A job that can be claimed at a time: nobody holds it, its time has come, and it is the tenant's,
-- if one is given.
abbrev pub IsDue : Timestamp → Option String → SchedulerJob → Type 0
IsDue at none j = (j.locked_by ≡ none) × (j.run_at ≤ at)
IsDue at (some t) j = (j.locked_by ≡ none) × (j.run_at ≤ at) × (j.m8f_tenant_id ≡ t)

-- Earlier, or of one time and with no greater key.
abbrev pub IsBefore : SchedulerJob → SchedulerJob → Type 0
IsBefore a b = (a.run_at < b.run_at) ⊎ ((a.run_at ≡ b.run_at) × (a.id ≤ b.id))

-- Each job stands before the later ones.
abbrev pub IsDueOrdered : List SchedulerJob → Type 0
IsDueOrdered [] = Unit
IsDueOrdered (j ∷ js) = All (IsBefore j) js × IsDueOrdered js

none_of_test : (held : Option String) → is_none held ≡ true → held ≡ none
none_of_test none h = refl
none_of_test (some _) h = cc

is_due-IsDue :
    (at : Timestamp) (tenant_id : Option String) (j : SchedulerJob)
    → is_due at tenant_id j ≡ true
    → IsDue at tenant_id j
unfolding is_due
is_due-IsDue at none j h = (none_of_test j.locked_by (ground arith), ground arith)
is_due-IsDue at (some t) j h =
    (none_of_test j.locked_by (ground arith), ground arith, eq_of_test _ _ (ground arith))

IsDue-is_due :
    (at : Timestamp) (tenant_id : Option String) (j : SchedulerJob)
    → IsDue at tenant_id j
    → is_due at tenant_id j ≡ true
unfolding is_due
IsDue-is_due at none j (free, come) = rw free (ground arith)
IsDue-is_due at (some t) j (free, come, same) = rw (free, same, ==_refl t) (ground arith)

not-IsDue :
    (at : Timestamp) (tenant_id : Option String) (j : SchedulerJob)
    → not (is_due at tenant_id j) ≡ true
    → ¬ IsDue at tenant_id j
not-IsDue at tenant_id j h due = let yes = IsDue-is_due at tenant_id j due in ground arith

IsBefore-of_true : (a b : SchedulerJob) → due_before a b ≡ true → IsBefore a b
unfolding due_before
IsBefore-of_true a b h = ground arith

IsBefore-of_false : (a b : SchedulerJob) → due_before a b ≡ false → IsBefore b a
unfolding due_before
IsBefore-of_false a b h = ground arith

IsBefore-trans : (a b c : SchedulerJob) → IsBefore a b → IsBefore b c → IsBefore a c
IsBefore-trans a b c h k = ground arith

insert_due-perm : (j : SchedulerJob) (js : List SchedulerJob) → Perm (insert_due j js) (j ∷ js)
unfolding insert_due
insert_due-perm j [] = Perm.refl _
insert_due-perm j (k ∷ js) = elim (Bool-cases (due_before j k)) [
  | inl e ↦ rw e (Perm.refl _)
  | inr e ↦ rw e (Perm.trans (Perm.cons k (insert_due-perm j js)) (Perm.swap j k js))
]

sort_due-perm : (js : List SchedulerJob) → Perm (sort_due js) js
unfolding sort_due
sort_due-perm [] = Perm.refl _
sort_due-perm (j ∷ js) =
    Perm.trans (insert_due-perm j (sort_due js)) (Perm.cons j (sort_due-perm js))

pub All-insert_due :
    (P : SchedulerJob → Type 0) (j : SchedulerJob) (js : List SchedulerJob)
    → P j
    → All P js
    → All P (insert_due j js)
unfolding insert_due
All-insert_due P j [] p h = (p, tt)
All-insert_due P j (k ∷ js) p (q, h) = elim (Bool-cases (due_before j k)) [
  | inl e ↦ rw e (p, (q, h))
  | inr e ↦ rw e (q, All-insert_due P j js p h)
]

insert_due-IsDueOrdered :
    (j : SchedulerJob) (js : List SchedulerJob) → IsDueOrdered js → IsDueOrdered (insert_due j js)
unfolding insert_due
insert_due-IsDueOrdered j [] h = (tt, tt)
insert_due-IsDueOrdered j (k ∷ js) (a, h) = elim (Bool-cases (due_before j k)) [
  | inl e ↦ rw e (
    (IsBefore-of_true j k e, All-map js (λ x. IsBefore-trans j k x (IsBefore-of_true j k e)) a),
    (a, h),
  )
  | inr e ↦
      rw e (
        All-insert_due (IsBefore k) j js (IsBefore-of_false j k e) a,
        insert_due-IsDueOrdered j js h,
      )
]

sort_due-IsDueOrdered : (js : List SchedulerJob) → IsDueOrdered (sort_due js)
unfolding sort_due
sort_due-IsDueOrdered [] = tt
sort_due-IsDueOrdered (j ∷ js) = insert_due-IsDueOrdered j (sort_due js) (sort_due-IsDueOrdered js)

All-sort_due : (P : SchedulerJob → Type 0) (js : List SchedulerJob) → All P js → All P (sort_due js)
unfolding sort_due
All-sort_due P [] h = tt
All-sort_due P (j ∷ js) (p, h) = All-insert_due P j (sort_due js) p (All-sort_due P js h)

-- The stored jobs are those of a batch, those that are due and have to wait, and those that are not
-- due. The batch is the beginning of the due ones in order; it has at most `limit` jobs, and fewer
-- only if no job has to wait.
pub record IsBatch (at : Timestamp) (tenant_id : Option String) (limit : ℕ)
    (stored batch waiting others : List SchedulerJob) : Type 0 where
  pub all_stored : Perm ((batch ++ waiting) ++ others) stored
  pub due : All (IsDue at tenant_id) (batch ++ waiting)
  pub not_due : All (λ j. ¬ IsDue at tenant_id j) others
  pub ordered : IsDueOrdered (batch ++ waiting)
  pub bounded : length batch ≤ limit
  pub filled : (waiting ≡ []) ⊎ (length batch ≡ limit)

-- With a positive limit the listing succeeds and leaves the database alone. The stored jobs are the
-- batch that it returns, the due jobs that have to wait, and the jobs that are not due: a job is due
-- if nobody holds it, its time is not after the given one, and it is the tenant's if one is given.
-- Batch and waiting jobs together are in the order of their times, and of their keys at one time.
-- The batch has at most `limit` jobs, and fewer only if no job has to wait.
pub list_due_scheduler_jobs-IsBatch :
    (at : Timestamp) (limit : ℕ) (tenant_id : Option String) (db : Database)
    → 0 < limit
    → (batch waiting others : List SchedulerJob) × (list_due_scheduler_jobs
          (some at)
          limit
          tenant_id
          db
        ≡ (ok batch, db))
      × IsBatch at tenant_id limit db.scheduler_jobs.rows batch waiting others
unfolding list_due_scheduler_jobs
list_due_scheduler_jobs-IsBatch at limit tenant_id db h =
    let rows = db.scheduler_jobs.rows in
    let listed = keep (is_due at tenant_id) rows in
    let others = keep (λ j. not (is_due at tenant_id j)) rows in
    let sorted = sort_due listed in
    (
      take limit sorted,
      drop limit sorted,
      others,
      ground arith,
      record {
        all_stored = rw (take-append-drop limit sorted) (
            Perm.trans (Perm.append_right others (sort_due-perm listed))
              (keep-partition (is_due at tenant_id) rows));
        due =
            rw (take-append-drop limit sorted)
              (All-sort_due _ listed (All-keep_of _ _ rows (is_due-IsDue at tenant_id)));
        not_due = All-keep_of _ _ rows (not-IsDue at tenant_id);
        ordered = rw (take-append-drop limit sorted) (sort_due-IsDueOrdered _);
        bounded = length-take-le limit sorted;
        filled = drop-nil_or_full limit sorted;
      },
    )
