-- ===== src/SchedulerJobs.antt =====
-- Scheduler jobs by their keys: src/m8flow_core/services/scheduler_jobs.py.
pub mod Keys
pub mod Store
pub mod Invariant
pub mod Due
use Prim.Native.String.{◌++◌ as append}
use m8flow_bpmn_core.Base.{
  ℕ, zero, String, Bool, true, false, ◌&&◌, ◌||◌, Option, none, some, List, [], ◌∷◌, ◌==◌, Nat_Eq,
  String_Eq, Option_Eq, if◌then◌else◌, ltb, leb, take, keep,
}
use m8flow_bpmn_core.Base.Text.{is_blank, strip}
use m8flow_bpmn_core.Base.Text.Decimal.{show_nat}
use m8flow_bpmn_core.Errors.{Error}
use m8flow_bpmn_core.Model.Json.{Fields}
use m8flow_bpmn_core.Model.Process.{Timestamp}
use m8flow_bpmn_core.Model.Scheduler.{SchedulerJobType, job_type_value, SchedulerJob}
use m8flow_bpmn_core.Session.{
  Action, Result, ok, err, pure, gets, raise_if, resolve_timestamp, ◌>>=◌, ◌>>◌, add, update,
  delete, first,
}
use m8flow_bpmn_core.Tables.{scheduler_jobs}

-- `f"|{label}{n}"`, if there is a number.
unfoldable pub id_part : String → Option ℕ → String
id_part label none = ""
id_part label (some n) = append label (show_nat n)

unfoldable pub qualifier_part : Option String → String
qualifier_part none = ""
qualifier_part (some q) = append "|q:" (strip q)

unfoldable pub blank_qualifier : Option String → Bool
blank_qualifier none = false
blank_qualifier (some q) = is_blank (strip q)

abbrev pub is_none : {A : Type 0} → Option A → Bool
is_none none = true
is_none (some _) = false

unfoldable pub build_scheduler_job_key :
    SchedulerJobType → Option ℕ → Option ℕ → Option String → Result String
build_scheduler_job_key job_type instance_id definition_id qualifier =
    if blank_qualifier qualifier
    then err Error.validation_error
    else if is_none instance_id && is_none definition_id && is_none qualifier
    then err Error.validation_error
    else ok (
        append (job_type_value job_type) (
          append (id_part "|pi:" instance_id)
            (append (id_part "|pd:" definition_id) (qualifier_part qualifier))))

unfoldable pub has_key : String → String → SchedulerJob → Bool
has_key tenant_id job_key job = job.m8f_tenant_id == tenant_id && job.job_key == job_key

-- `if created_at is not None: …`, and the same choice in the constructor's call.
abbrev pub or_else : Option Timestamp → Timestamp → Timestamp
or_else none d = d
or_else (some t) _ = t

unfoldable pub upsert_scheduler_job :
    String
    → String
    → SchedulerJobType
    → Timestamp
    → Option ℕ
    → Option ℕ
    → Fields
    → Option Timestamp
    → Option Timestamp
    → Action SchedulerJob
upsert_scheduler_job tenant_id job_key job_type run_at instance_id definition_id payload updated_at
      created_at =
    do
      at ← resolve_timestamp updated_at
      existing ← first scheduler_jobs (has_key tenant_id job_key)
      elim existing [
        | none ↦ add scheduler_jobs λ id. record {
          id = id;
          m8f_tenant_id = tenant_id;
          job_key = job_key;
          job_type = job_type;
          process_instance_id = instance_id;
          bpmn_process_definition_id = definition_id;
          locked_by = none;
          locked_at = none;
          run_at = run_at;
          payload_json = payload;
          updated_at = at;
          created_at = or_else created_at at;
        }
        | some job ↦ do
          let changed = λ (j : SchedulerJob). record j {
            job_type = job_type;
            process_instance_id = instance_id;
            bpmn_process_definition_id = definition_id;
            locked_by = none;
            locked_at = none;
            run_at = run_at;
            payload_json = payload;
            updated_at = at;
            created_at = or_else created_at j.created_at;
          }
          update scheduler_jobs (λ j. j.id == job.id) changed
          pure (changed job)
      ]

unfoldable pub is_due : Timestamp → Option String → SchedulerJob → Bool
is_due now tenant_id job =
    (is_none job.locked_by && leb job.run_at now)
    && elim tenant_id [ none ↦ true | some t ↦ job.m8f_tenant_id == t ]

-- `ORDER BY run_at, id`
unfoldable pub due_before : SchedulerJob → SchedulerJob → Bool
due_before a b = ltb a.run_at b.run_at || (a.run_at == b.run_at && leb a.id b.id)

unfoldable pub insert_due : SchedulerJob → List SchedulerJob → List SchedulerJob
insert_due job [] = job ∷ []
insert_due job (j ∷ js) =
    let later = insert_due job js in if due_before job j then job ∷ j ∷ js else j ∷ later

unfoldable pub sort_due : List SchedulerJob → List SchedulerJob
sort_due [] = []
sort_due (j ∷ js) = insert_due j (sort_due js)

-- A limit of zero stands for every limit that is not positive.
unfoldable pub list_due_scheduler_jobs :
    Option Timestamp → ℕ → Option String → Action (List SchedulerJob)
list_due_scheduler_jobs now limit tenant_id = do
  raise_if (limit == 0) Error.validation_error
  at ← resolve_timestamp now
  gets (λ db. take limit (sort_due (keep (is_due at tenant_id) db.scheduler_jobs.rows)))

unfoldable pub delete_scheduler_job : String → String → Action Bool
delete_scheduler_job tenant_id job_key = delete scheduler_jobs (has_key tenant_id job_key)
