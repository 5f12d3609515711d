-- ===== src/SchedulerRuntime/Batch.antt =====
-- The loop over the claimed jobs, and the pass that runs it.
use m8flow_bpmn_core.Base.{
  none, ℕ, suc, ◌+◌, String, Option, some, List, [], ◌∷◌, ◌++◌, ◌≡◌, ◌⊎◌, inl, inr, refl, ap, arith,
  length,
}
use m8flow_bpmn_core.Errors.{Error}
use m8flow_bpmn_core.Model.Process.{Timestamp}
use m8flow_bpmn_core.Model.Scheduler.{SchedulerJob}
use m8flow_bpmn_core.Model.Database.{Database}
use m8flow_bpmn_core.Session.{Result, ok, err, update, resolve_timestamp}
use m8flow_bpmn_core.Authorization.Policy.{AuthorizationPolicy}
use m8flow_bpmn_core.WorkflowRuntime.{WorkflowRuntime}
use m8flow_bpmn_core.SchedulerRuntime.{
  release_scheduler_job_lock, execute_claimed_scheduler_job, run_claimed_jobs, batch_error,
  claim_due_scheduler_jobs, run_due_scheduler_jobs,
}

length-append_one : {A : Type 0} (xs : List A) (x : A) → length (xs ++ x ∷ []) ≡ suc (length xs)
length-append_one [] x = refl
length-append_one (y ∷ ys) x = ap suc (length-append_one ys x)

module _ (runtime : WorkflowRuntime) (policy : AuthorizationPolicy) (at : Timestamp) where
  -- The loop catches what the services that run the jobs raise, errors of the database aside, and it
  -- accounts for each job: as many are processed or failed as there are jobs, on top of the counts
  -- that it started from.
  pub run_claimed_jobs-counts :
      (jobs : List SchedulerJob) (n : ℕ) (errors : List (String × Error)) (db : Database)
      → (m : ℕ) × (found : List (String × Error)) × (db' : Database) × (run_claimed_jobs runtime
            policy jobs at n errors db
          ≡ (ok (m, found), db'))
        × (m + length found ≡ n + length errors + length jobs)
  unfolding run_claimed_jobs release_scheduler_job_lock update
  run_claimed_jobs-counts [] n errors db = (n, errors, db, refl, omega arith)
  run_claimed_jobs-counts (job ∷ jobs) n errors db =
      elim (outcome-cases (execute_claimed_scheduler_job runtime policy job.job_type job at db)) [
        | inl (db', h) ↦
            let (m, found, last, ran, counts) = run_claimed_jobs-counts jobs (suc n) errors db' in
            (m, found, last, ground (arith, h, ran), omega (arith, counts))
        | inr (e, db', h) ↦
            let failed = errors ++ (job.job_key, batch_error runtime policy e) ∷ [] in
            let (m, found, last, ran, counts) =
              run_claimed_jobs-counts jobs n failed (release_scheduler_job_lock job at db').1 in
            let longer = length-append_one errors (job.job_key, batch_error runtime policy e) in
            (m, found, last, ground (arith, h, ran), omega (arith, counts, longer))
      ]
    where
      outcome-cases :
          (o : Result (Unit {0}) × Database)
          → ((db' : Database) × (o ≡ (ok tt, db')))
            ⊎ ((e : Error) × (db' : Database) × (o ≡ (err e, db')))
      outcome-cases (ok tt, db') = inl (db', refl)
      outcome-cases (err e, db') = inr (e, db', refl)

pass_at :
    (runtime : WorkflowRuntime) (policy : AuthorizationPolicy) (at : Timestamp) (limit : ℕ)
    (worker_id : String) (tenant_id : Option String) (n : ℕ) (db db' : Database)
    → run_due_scheduler_jobs runtime policy (some at) limit worker_id tenant_id db ≡ (ok n, db')
    → (claimed : List SchedulerJob) × (start : Database) × (claim_due_scheduler_jobs
          (some at)
          limit
          worker_id
          tenant_id
          db
        ≡ (ok claimed, start))
      × (run_claimed_jobs runtime policy claimed at 0 [] start ≡ (ok (n, []), db'))
      × (n ≡ length claimed)
unfolding run_due_scheduler_jobs
pass_at runtime policy at limit worker_id tenant_id n db db' h =
    elim (claim-cases (claim_due_scheduler_jobs (some at) limit worker_id tenant_id db)) [
      | inl (e, start, failed) ↦ ground (arith, failed, h)
      | inr (claimed, start, took) ↦
          let (m, found, last, ran, counts) =
            run_claimed_jobs-counts runtime policy at claimed 0 [] start in
          elim (list-cases found) [
            | inl none_failed ↦ (
              claimed,
              start,
              took,
              ground (arith, took, ran, none_failed, h),
              ground (arith, took, ran, none_failed, h, counts),
            )
            | inr ((key, e), rest, some_failed) ↦ elim (list-cases rest) [
              | inl one ↦ ground (arith, took, ran, some_failed, one, h)
              | inr (x, ys, more) ↦ ground (arith, took, ran, some_failed, more, h)
            ]
          ]
    ]
  where
    claim-cases :
        (o : Result (List SchedulerJob) × Database)
        → ((e : Error) × (start : Database) × (o ≡ (err e, start)))
          ⊎ ((js : List SchedulerJob) × (start : Database) × (o ≡ (ok js, start)))
    claim-cases (err e, d) = inl (e, d, refl)
    claim-cases (ok js, d) = inr (js, d, refl)

    list-cases : {A : Type 0} (xs : List A) → (xs ≡ []) ⊎ ((x : A) × (ys : List A) × (xs ≡ x ∷ ys))
    list-cases [] = inl refl
    list-cases (x ∷ ys) = inr (x, ys, refl)

-- A pass that returns a number has claimed that many jobs, at the time that it was given, or else at
-- that of the clock, and has processed every one at that time: an error of any job makes the pass
-- raise.
pub run_due_scheduler_jobs-all :
    (runtime : WorkflowRuntime) (policy : AuthorizationPolicy) (now : Option Timestamp) (limit : ℕ)
    (worker_id : String) (tenant_id : Option String) (n : ℕ) (db db' : Database)
    → run_due_scheduler_jobs runtime policy now limit worker_id tenant_id db ≡ (ok n, db')
    → (at : Timestamp) × (read : Database) × (resolve_timestamp now db ≡ (ok at, read))
      × ((claimed : List SchedulerJob) × (start : Database) × (claim_due_scheduler_jobs
              (some at)
              limit
              worker_id
              tenant_id
              read
            ≡ (ok claimed, start))
          × (run_claimed_jobs runtime policy claimed at 0 [] start ≡ (ok (n, []), db'))
          × (n ≡ length claimed))
unfolding run_due_scheduler_jobs
run_due_scheduler_jobs-all runtime policy (some at) limit worker_id tenant_id n db db' h =
    (at, db, refl, pass_at runtime policy at limit worker_id tenant_id n db db' h)
run_due_scheduler_jobs-all runtime policy none limit worker_id tenant_id n db db' h =
    let at = db.clock db.readings in
    let read = record db { readings = suc db.readings } in
    (at, read, refl, pass_at runtime policy at limit worker_id tenant_id n read db' h)
