-- ===== src/SchedulerRuntime/Locks.antt =====
-- The loop that locks the jobs of a claim.
use m8flow_bpmn_core.Base.{
  String, true, List, [], ◌∷◌, ◌≡◌, ◌≢◌, refl, arith, ◌==◌, Nat_Eq, All, All-map, All-updated,
  All-update_where,
}
use m8flow_bpmn_core.Model.Process.{Timestamp}
use m8flow_bpmn_core.Model.Scheduler.{SchedulerJob}
use m8flow_bpmn_core.Model.Database.{Database}
use m8flow_bpmn_core.Session.{Action, ok, update, for_each}
use m8flow_bpmn_core.Tables.{scheduler_jobs}
use m8flow_bpmn_core.SchedulerJobs.{is_none}
use m8flow_bpmn_core.SchedulerRuntime.{lock_job}

-- The job is none of these.
abbrev pub IsOther : List SchedulerJob → SchedulerJob → Type 0
IsOther jobs r = All (λ (j : SchedulerJob). r.id ≢ j.id) jobs

-- A job that nobody has locked is none of these.
abbrev pub IsLockedIn : List SchedulerJob → SchedulerJob → Type 0
IsLockedIn jobs r = is_none r.locked_by ≡ true → IsOther jobs r

module _ (worker : String) (at : Timestamp) where
  -- The loop of the claim.
  abbrev pub lock_all : List SchedulerJob → Action (Unit {0})
  lock_all jobs =
      for_each jobs (λ job. update scheduler_jobs (λ j. j.id == job.id) (lock_job worker at))

  pub lock_all-ok :
      (jobs : List SchedulerJob) (db : Database) → lock_all jobs db ≡ (ok tt, (lock_all jobs db).1)
  unfolding for_each update
  lock_all-ok [] db = refl
  lock_all-ok (j ∷ js) db = lock_all-ok js _

  -- What holds of every locked row stays true of every row.
  lock_all-keeps :
      (P : SchedulerJob → Type 0) (jobs : List SchedulerJob) (db : Database)
      → ((r : SchedulerJob) → P (lock_job worker at r))
      → All P db.scheduler_jobs.rows
      → All P (lock_all jobs db).1.scheduler_jobs.rows
  unfolding for_each update
  lock_all-keeps P [] db h a = a
  lock_all-keeps P (j ∷ js) db h a = lock_all-keeps P js _ h (
      All-update_where P (λ r. r.id == j.id) (lock_job worker at) db.scheduler_jobs.rows
        (λ r _. h r) a)

  locked : (jobs : List SchedulerJob) (r : SchedulerJob) → IsLockedIn jobs (lock_job worker at r)
  unfolding lock_job
  locked jobs r h = cc

  locked_not :
      (r j : SchedulerJob)
      → is_none (lock_job worker at r).locked_by ≡ true
      → (lock_job worker at r).id ≢ j.id
  unfolding lock_job
  locked_not r j h = cc

  All-and :
      (P Q : SchedulerJob → Type 0) (xs : List SchedulerJob)
      → All P xs
      → All Q xs
      → All (λ x. P x × Q x) xs
  All-and P Q [] h k = tt
  All-and P Q (x ∷ xs) (p, h) (q, k) = ((p, q), All-and P Q xs h k)

  nothing_other : (xs : List SchedulerJob) → All (IsLockedIn []) xs
  nothing_other [] = tt
  nothing_other (x ∷ xs) = ((λ _. tt), nothing_other xs)

  pub lock_all-locks :
      (jobs : List SchedulerJob) (db : Database)
      → All (IsLockedIn jobs) (lock_all jobs db).1.scheduler_jobs.rows
  unfolding for_each update
  lock_all-locks [] db = nothing_other _
  lock_all-locks (j ∷ js) db =
      let first_locked =
        lock_all-keeps (λ r. is_none r.locked_by ≡ true → r.id ≢ j.id) js _ (λ r. locked_not r j)
          (All-updated (λ r. is_none r.locked_by ≡ true → r.id ≢ j.id) (λ r. r.id == j.id)
            (lock_job worker at) db.scheduler_jobs.rows (λ r _. locked_not r j)
            (λ r other _ same. ground arith)) in
      All-map _ (λ r (h, k) unlocked. (h unlocked, k unlocked))
        (All-and _ _ _ first_locked (lock_all-locks js _))
