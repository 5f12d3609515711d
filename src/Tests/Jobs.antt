-- ===== src/Tests/Jobs.antt =====
-- Scheduler jobs on the samples.
use m8flow_bpmn_core.Base.{
  ◌⊎◌, Bool, ℕ, ◌+◌, String, Option, some, none, List, [], ◌∷◌, ◌≡◌, refl, ap, true, false, ◌==◌,
  String_Eq, arith, All, Distinct, length,
}
use m8flow_bpmn_core.Errors.{Error}
use m8flow_bpmn_core.Model.Json.{Fields, end, field, number, moment, object}
use m8flow_bpmn_core.Model.Process.{Timestamp}
use m8flow_bpmn_core.Model.Scheduler.{SchedulerJobType, SchedulerJob}
use m8flow_bpmn_core.Model.Database.{Database}
use m8flow_bpmn_core.Session.{resolve_timestamp, Result, ok}
use m8flow_bpmn_core.Authorization.Policy.{database_policy}
use m8flow_bpmn_core.SchedulerJobs.{
  build_scheduler_job_key, list_due_scheduler_jobs, upsert_scheduler_job, delete_scheduler_job,
}
use m8flow_bpmn_core.SchedulerJobs.Keys.{trimmed, build_scheduler_job_key_injective}
use m8flow_bpmn_core.SchedulerJobs.Due.{IsBatch, list_due_scheduler_jobs-IsBatch}
use m8flow_bpmn_core.SchedulerJobs.Invariant.{
  HasUniqueKeys, upsert_scheduler_job-HasUniqueKeys, delete_scheduler_job-first,
}
use m8flow_bpmn_core.SchedulerJobs.Store.{
  job_at, IsRequested, IsCreatedAt, upsert_scheduler_job-first, upsert_scheduler_job-first_other,
}
use m8flow_bpmn_core.SchedulerRuntime.{
  lock_job, claim_due_scheduler_jobs, run_claimed_jobs, run_due_scheduler_jobs,
}
use m8flow_bpmn_core.SchedulerRuntime.Locks.{IsOther}
use m8flow_bpmn_core.SchedulerRuntime.Claims.{claim_due_scheduler_jobs-disjoint}
use m8flow_bpmn_core.SchedulerRuntime.Batch.{run_claimed_jobs-counts, run_due_scheduler_jobs-all}
use m8flow_bpmn_core.SchedulerRuntime.TimerStart.Cycles.{IsTimer, Fires, timer_start-Fires}
use m8flow_bpmn_core.Tests.Samples.{sample, job_row, idle_runtime}
use m8flow_bpmn_core.Tests.Evaluated.{evaluated}

abbrev retry_key : String
retry_key = "process_retry|pi:7|q:x"

key_plain :
    build_scheduler_job_key SchedulerJobType.process_retry (some 7) none (some "x") ≡ ok retry_key
unfolding evaluated
key_plain = refl

key_spaced :
    build_scheduler_job_key SchedulerJobType.process_retry (some 7) none (some " x ") ≡ ok retry_key
unfolding evaluated
key_spaced = refl

build_scheduler_job_key_injective_example :
    (SchedulerJobType.process_retry ≡ SchedulerJobType.process_retry)
    × ◌≡◌ {A = Option ℕ} (some 7) (some 7)
    × ◌≡◌ {A = Option ℕ} none none
    × (trimmed (some "x") ≡ trimmed (some " x "))
build_scheduler_job_key_injective_example =
    build_scheduler_job_key_injective SchedulerJobType.process_retry SchedulerJobType.process_retry
      (some 7) (some 7) none none (some "x") (some " x ") retry_key key_plain key_spaced

list_due_scheduler_jobs-IsBatch_example :
    (batch waiting others : List SchedulerJob) × (list_due_scheduler_jobs
        (some 25)
        1
        (some "acme")
        sample
      ≡ (ok batch, sample))
    × IsBatch 25 (some "acme") 1 sample.scheduler_jobs.rows batch waiting others
list_due_scheduler_jobs-IsBatch_example =
    list_due_scheduler_jobs-IsBatch 25 1 (some "acme") sample (omega arith)

abbrev upserted : Result SchedulerJob × Database
upserted =
    upsert_scheduler_job "acme" "b" SchedulerJobType.process_retry 99 (some 1) none end (some 50)
      none sample

upsert_scheduler_job-first_example :
    (r : SchedulerJob) × (upserted.0 ≡ ok r)
    × (job_at upserted.1 "acme" "b" ≡ some r)
    × IsRequested "acme" "b" SchedulerJobType.process_retry 99 (some 1) none end 50 r
    × (((job_at sample "acme" "b" ≡ none)
          × (r.id ≡ sample.scheduler_jobs.next_id)
          × IsCreatedAt none 50 r)
        ⊎ ((j : SchedulerJob) × (job_at sample "acme" "b" ≡ some j)
            × (r.id ≡ j.id)
            × IsCreatedAt none j.created_at r))
upsert_scheduler_job-first_example =
    upsert_scheduler_job-first "acme" "b" SchedulerJobType.process_retry 99 (some 1) none end 50
      none sample

sample_keys : Distinct (λ (x : SchedulerJob). x.id) sample.scheduler_jobs.rows
sample_keys =
    ((λ e. omega (arith, e), (λ e. omega (arith, e), tt)), ((λ e. omega (arith, e), tt), (tt, tt)))

b_not_a : ¬ (◌≡◌ {A = String} "acme" "acme" × ◌≡◌ {A = String} "b" "a")
b_not_a (_, e) = let h : true ≡ false = ap (λ s. s == "b") e in cc

upsert_scheduler_job-first_other_example : job_at upserted.1 "acme" "a" ≡ job_at sample "acme" "a"
upsert_scheduler_job-first_other_example =
    upsert_scheduler_job-first_other "acme" "b" SchedulerJobType.process_retry 99 (some 1) none end
      50 none sample "acme" "a" sample_keys b_not_a

abbrev claimed_first : List SchedulerJob
claimed_first = lock_job "w1" 25 (job_row 2 "b" 10) ∷ []

abbrev claimed_second : List SchedulerJob
claimed_second = lock_job "w2" 25 (job_row 1 "a" 20) ∷ []

abbrev after_first : Database
after_first = (claim_due_scheduler_jobs (some 25) 1 "w1" none sample).1

abbrev after_second : Database
after_second = (claim_due_scheduler_jobs (some 25) 5 "w2" (some "acme") after_first).1

first_claim :
    claim_due_scheduler_jobs (some 25) 1 "w1" none sample ≡ (ok claimed_first, after_first)
unfolding evaluated
first_claim = refl

second_claim :
    claim_due_scheduler_jobs (some 25) 5 "w2" (some "acme") after_first
    ≡ (ok claimed_second, after_second)
unfolding evaluated
second_claim = refl

claim_due_scheduler_jobs-disjoint_example : All (IsOther claimed_first) claimed_second
claim_due_scheduler_jobs-disjoint_example =
    claim_due_scheduler_jobs-disjoint (some 25) (some 25) 1 5 "w1" "w2" none (some "acme")
      claimed_first claimed_second sample after_first after_second first_claim second_claim

run_claimed_jobs-counts_example :
    (m : ℕ) × (found : List (String × Error)) × (db' : Database) × (run_claimed_jobs idle_runtime
        database_policy claimed_first 30 0 [] after_first
      ≡ (ok (m, found), db'))
    × (m + length found ≡ 0 + 0 + 1)
run_claimed_jobs-counts_example =
    run_claimed_jobs-counts idle_runtime database_policy 30 claimed_first 0 [] after_first

abbrev after_run : Database
after_run = (run_due_scheduler_jobs idle_runtime database_policy (some 25) 5 "w1" none sample).1

two_run :
    run_due_scheduler_jobs idle_runtime database_policy (some 25) 5 "w1" none sample
    ≡ (ok 2, after_run)
unfolding evaluated
two_run = refl

run_due_scheduler_jobs-all_example :
    (at : Timestamp) × (read : Database) × (resolve_timestamp (some 25) sample ≡ (ok at, read))
    × ((claimed : List SchedulerJob) × (start : Database) × (claim_due_scheduler_jobs
            (some at)
            5
            "w1"
            none
            read
          ≡ (ok claimed, start))
        × (run_claimed_jobs idle_runtime database_policy claimed at 0 [] start
            ≡ (ok (2, []), after_run))
        × (2 ≡ length claimed))
run_due_scheduler_jobs-all_example =
    run_due_scheduler_jobs-all idle_runtime database_policy (some 25) 5 "w1" none 2 sample after_run
      two_run

abbrev three_cycles : Fields
three_cycles =
    field "event_value"
      (object (
        field "next" (moment 1_500_000)
          (field "duration" (number 60) (field "cycles" (number 3) end))))
      end

three_cycles-IsTimer : IsTimer 1_500_000 59 3 three_cycles
unfolding evaluated
three_cycles-IsTimer = record {
  event_value =
      field "next" (moment 1_500_000)
        (field "duration" (number 60) (field "cycles" (number 3) end));
  holds_event = refl;
  holds_next = refl;
  holds_duration = refl;
  holds_cycles = refl;
}

timer_start-Fires_example : Fires three_cycles (62_000_000 ∷ 122_000_000 ∷ [])
unfolding evaluated
timer_start-Fires_example = timer_start-Fires 1_500_000 59 2 three_cycles three_cycles-IsTimer

sample-HasUniqueKeys : HasUniqueKeys sample.scheduler_jobs.rows
unfolding evaluated
sample-HasUniqueKeys = ((refl, (refl, tt)), ((refl, tt), (tt, tt)))

upsert_scheduler_job-HasUniqueKeys_example : HasUniqueKeys upserted.1.scheduler_jobs.rows
upsert_scheduler_job-HasUniqueKeys_example =
    upsert_scheduler_job-HasUniqueKeys "acme" "b" SchedulerJobType.process_retry 99 (some 1) none
      end (some 50) none sample sample-HasUniqueKeys

delete_scheduler_job-first_example :
    (db' : Database) × (delete_scheduler_job "acme" "b" sample
      ≡ (ok (elim (job_at sample "acme" "b") as (λ _. Bool) [ none ↦ false | some _ ↦ true ]), db'))
    × (job_at db' "acme" "b" ≡ none)
    × ((t' k' : String) → ¬ (("acme" ≡ t') × ("b" ≡ k')) → job_at db' t' k' ≡ job_at sample t' k')
delete_scheduler_job-first_example = delete_scheduler_job-first "acme" "b" sample
