-- ===== src/SchedulerRuntime/Claims.antt =====
-- Two claims that follow one another, the second on the database that the first left.
use m8flow_bpmn_core.Base.{
  ℕ, suc, String, true, Option, none, some, List, [], ◌∷◌, map, ◌≡◌, ◌⊎◌, inl, inr, refl, sym, ap,
  ◌∙◌, subst, arith, ◌==◌, Nat_Eq, Bool-cases, keep, take, All, All-map, All-take,
}
use m8flow_bpmn_core.Errors.{Error}
use m8flow_bpmn_core.Model.Process.{Timestamp}
use m8flow_bpmn_core.Model.Scheduler.{SchedulerJob}
use m8flow_bpmn_core.Model.Database.{Database, Table}
use m8flow_bpmn_core.Session.{Result, ok, err}
use m8flow_bpmn_core.SchedulerJobs.{is_none, is_due, sort_due, list_due_scheduler_jobs}
use m8flow_bpmn_core.SchedulerJobs.Due.{All-insert_due}
use m8flow_bpmn_core.SchedulerRuntime.{lock_job, normalize_worker_id, claim_due_scheduler_jobs}
use m8flow_bpmn_core.SchedulerRuntime.Locks.{
  IsOther, IsLockedIn, lock_all, lock_all-ok, lock_all-locks,
}

-- What comes back from a listing has what every row has, and no lock.
All-listed :
    (P : SchedulerJob → Type 0) (at : Timestamp) (limit : ℕ) (tenant_id : Option String)
    (rows : List SchedulerJob)
    → All P rows
    → All
        (λ r. P r × (is_none r.locked_by ≡ true))
        (take limit (sort_due (keep (is_due at tenant_id) rows)))
unfolding keep sort_due is_due
All-listed P at limit tenant_id rows h = All-take _ limit _ (All-sorted _ _ (All-kept rows h))
  where
    All-kept :
        (rs : List SchedulerJob)
        → All P rs
        → All (λ r. P r × (is_none r.locked_by ≡ true)) (keep (is_due at tenant_id) rs)
    All-kept [] a = tt
    All-kept (r ∷ rs) (p, a) = elim (Bool-cases (is_due at tenant_id r)) [
      | inl e ↦ rw e ((p, ground (arith, e)), All-kept rs a)
      | inr e ↦ rw e (All-kept rs a)
    ]

    All-sorted :
        (Q : SchedulerJob → Type 0) (rs : List SchedulerJob) → All Q rs → All Q (sort_due rs)
    All-sorted Q [] a = tt
    All-sorted Q (r ∷ rs) (q, a) = All-insert_due Q r (sort_due rs) q (All-sorted Q rs a)

result-cases : {A : Type 0} (r : Result A) → ((e : Error) × (r ≡ err e)) ⊎ ((a : A) × (r ≡ ok a))
result-cases (ok a) = inr (a, refl)
result-cases (err e) = inl (e, refl)

returned_of :
    {jobs claimed : List SchedulerJob} {db db' : Database}
    → ◌≡◌ {A = Result (List SchedulerJob) × Database} (ok jobs, db) (ok claimed, db')
    → claimed ≡ jobs
returned_of h = ground (arith, h)

-- The jobs that a claim at this time would take.
abbrev listed : Timestamp → ℕ → Option String → Database → List SchedulerJob
listed at limit tenant_id db =
    take limit (sort_due (keep (is_due at tenant_id) db.scheduler_jobs.rows))

-- What a claim that returned did: it locked the jobs of a listing, one after the other.
record IsClaim (tenant_id : Option String) (limit : ℕ) (claimed : List SchedulerJob)
    (db db' : Database) : Type 0 where
  worker : String
  at : Timestamp
  start : Database
  same_jobs : start.scheduler_jobs ≡ db.scheduler_jobs
  returned : claimed ≡ map (lock_job worker at) (listed at limit tenant_id start)
  left : db' ≡ (lock_all worker at (listed at limit tenant_id start) start).1

claim_due_scheduler_jobs_at-IsClaim :
    (at : Timestamp) (limit : ℕ) (worker_id : String) (tenant_id : Option String)
    (claimed : List SchedulerJob) (db db' start : Database)
    → start.scheduler_jobs ≡ db.scheduler_jobs
    → claim_due_scheduler_jobs (some at) limit worker_id tenant_id start ≡ (ok claimed, db')
    → IsClaim tenant_id limit claimed db db'
unfolding claim_due_scheduler_jobs list_due_scheduler_jobs
claim_due_scheduler_jobs_at-IsClaim at limit worker_id tenant_id claimed db db' start same h =
    elim (result-cases (normalize_worker_id worker_id)) [
      | inl (e, failed) ↦ ground (arith, failed, h)
      | inr (worker, named) ↦ elim (Bool-cases (limit == 0)) [
        | inl none_asked ↦ ground (arith, named, none_asked, h)
        | inr asked ↦
            let jobs =
              take limit (sort_due (keep (is_due at tenant_id) start.scheduler_jobs.rows)) in
            let looped = lock_all-ok worker at jobs start in
            let run : claim_due_scheduler_jobs (some at) limit worker_id tenant_id start
                ≡ (ok (map (lock_job worker at) jobs), (lock_all worker at jobs start).1) =
              ground (arith, named, asked, looped) in
            let both = sym run ∙ h in
            record {
              worker = worker;
              at = at;
              start = start;
              same_jobs = same;
              returned = returned_of both;
              left = sym (ap (λ (o : Result (List SchedulerJob) × Database). o.1) both);
            }
      ]
    ]

claim_due_scheduler_jobs-IsClaim :
    (now : Option Timestamp) (limit : ℕ) (worker_id : String) (tenant_id : Option String)
    (claimed : List SchedulerJob) (db db' : Database)
    → claim_due_scheduler_jobs now limit worker_id tenant_id db ≡ (ok claimed, db')
    → IsClaim tenant_id limit claimed db db'
unfolding claim_due_scheduler_jobs
claim_due_scheduler_jobs-IsClaim (some at) limit worker_id tenant_id claimed db db' h =
    claim_due_scheduler_jobs_at-IsClaim at limit worker_id tenant_id claimed db db' db refl h
claim_due_scheduler_jobs-IsClaim none limit worker_id tenant_id claimed db db' h =
    elim (result-cases (normalize_worker_id worker_id)) [
      | inl (e, failed) ↦ ground (arith, failed, h)
      | inr (worker, named) ↦
          claim_due_scheduler_jobs_at-IsClaim (db.clock db.readings) limit worker_id tenant_id
            claimed db db' (record db { readings = suc db.readings }) refl
            (ground (arith, named, h))
    ]

IsOther-lock_job :
    (w w' : String) (at at' : Timestamp) (jobs : List SchedulerJob) (r : SchedulerJob)
    → IsOther jobs r
    → IsOther (map (lock_job w at) jobs) (lock_job w' at' r)
unfolding lock_job
IsOther-lock_job w w' at at' [] r h = tt
IsOther-lock_job w w' at at' (j ∷ js) r (ne, h) = (ne, IsOther-lock_job w w' at at' js r h)

All-lock_job :
    (w w' : String) (at at' : Timestamp) (jobs rs : List SchedulerJob)
    → All (IsOther jobs) rs
    → All (IsOther (map (lock_job w at) jobs)) (map (lock_job w' at') rs)
All-lock_job w w' at at' jobs [] h = tt
All-lock_job w w' at at' jobs (r ∷ rs) (o, h) =
    (IsOther-lock_job w w' at at' jobs r o, All-lock_job w w' at at' jobs rs h)

claims-IsOther :
    (tenant_id tenant_id' : Option String) (limit limit' : ℕ) (claimed claimed' : List SchedulerJob)
    (db db' db'' : Database)
    → IsClaim tenant_id limit claimed db db'
    → IsClaim tenant_id' limit' claimed' db' db''
    → All (IsOther claimed) claimed'
claims-IsOther tenant_id tenant_id' limit limit' claimed claimed' db db' db'' c c' =
    let jobs = listed c.at limit tenant_id c.start in
    let rows : All (IsLockedIn jobs) c'.start.scheduler_jobs.rows =
      subst (λ (t : Table SchedulerJob). All (IsLockedIn jobs) t.rows)
        (ap (λ (d : Database). d.scheduler_jobs) (sym c.left) ∙ sym c'.same_jobs)
        (lock_all-locks c.worker c.at jobs c.start) in
    let apart =
      All-map _ (λ r (lock, unlocked). lock unlocked)
        (All-listed (IsLockedIn jobs) c'.at limit' tenant_id' c'.start.scheduler_jobs.rows rows) in
    subst (λ (cs : List SchedulerJob). All (IsOther cs) claimed') (sym c.returned)
      (subst (λ (cs : List SchedulerJob). All (IsOther (map (lock_job c.worker c.at) jobs)) cs)
        (sym c'.returned) (All-lock_job c.worker c'.worker c.at c'.at jobs _ apart))

-- Of two claims that follow one another, by whatever workers, at whatever times, for whatever
-- tenants and limits, and whatever the rows are: no job of the second is a job of the first.
pub claim_due_scheduler_jobs-disjoint :
    (now now' : Option Timestamp) (limit limit' : ℕ) (worker_id worker_id' : String)
    (tenant_id tenant_id' : Option String) (claimed claimed' : List SchedulerJob)
    (db db' db'' : Database)
    → claim_due_scheduler_jobs now limit worker_id tenant_id db ≡ (ok claimed, db')
    → claim_due_scheduler_jobs now' limit' worker_id' tenant_id' db' ≡ (ok claimed', db'')
    → All (IsOther claimed) claimed'
claim_due_scheduler_jobs-disjoint now now' limit limit' w w' t t' claimed claimed' db db' db'' h
      h' =
    claims-IsOther t t' limit limit' claimed claimed' db db' db''
      (claim_due_scheduler_jobs-IsClaim now limit w t claimed db db' h)
      (claim_due_scheduler_jobs-IsClaim now' limit' w' t' claimed' db' db'' h')
