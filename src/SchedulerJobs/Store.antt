-- ===== src/SchedulerJobs/Store.antt =====
-- Upserting and deleting jobs by their keys.
use m8flow_bpmn_core.Base.{
  ℕ, String, true, false, Option, none, some, ◌≡◌, ◌⊎◌, inl, inr, refl, sym, ap, ◌∙◌, subst, arith,
  Bool-cases, Option-cases, ◌==◌, Nat_Eq, String_Eq, eq_of_test, ==_refl, find, update_where,
  Distinct, Distinct-find, find-holds, find-append, find-update_where,
}
use m8flow_bpmn_core.Model.Json.{Fields}
use m8flow_bpmn_core.Model.Process.{Timestamp}
use m8flow_bpmn_core.Model.Scheduler.{SchedulerJob, SchedulerJobType}
use m8flow_bpmn_core.Model.Database.{Database, Table, insert_row}
use m8flow_bpmn_core.Session.{Result, ok, add, update, first}
use m8flow_bpmn_core.SchedulerJobs.{has_key, or_else, upsert_scheduler_job}

-- What `SELECT … WHERE tenant AND key` finds.
abbrev pub job_at : Database → String → String → Option SchedulerJob
job_at db tenant_id job_key = find (has_key tenant_id job_key) db.scheduler_jobs.rows

-- The row that the request asks for, written over an old one.
abbrev requested :
    SchedulerJobType
    → Timestamp
    → Option ℕ
    → Option ℕ
    → Fields
    → Timestamp
    → Option Timestamp
    → SchedulerJob
    → SchedulerJob
requested kind run_at i d payload at created j = record j {
  job_type = kind;
  process_instance_id = i;
  bpmn_process_definition_id = d;
  locked_by = none;
  locked_at = none;
  run_at = run_at;
  payload_json = payload;
  updated_at = at;
  created_at = or_else created j.created_at;
}

-- A job that has what was asked for, under the tenant and the key, and that nobody holds.
pub record IsRequested (t k : String) (kind : SchedulerJobType) (run_at : Timestamp)
    (i d : Option ℕ) (payload : Fields) (at : Timestamp) (r : SchedulerJob) : Type 0 where
  pub tenant : r.m8f_tenant_id ≡ t
  pub key : r.job_key ≡ k
  pub type : r.job_type ≡ kind
  pub instance_id : r.process_instance_id ≡ i
  pub definition_id : r.bpmn_process_definition_id ≡ d
  pub time : r.run_at ≡ run_at
  pub payload_is : r.payload_json ≡ payload
  pub not_held : r.locked_by ≡ none
  pub not_locked : r.locked_at ≡ none
  pub updated : r.updated_at ≡ at

-- The time of creation is the given one, or else another.
abbrev pub IsCreatedAt : Option Timestamp → Timestamp → SchedulerJob → Type 0
IsCreatedAt (some c) _ r = r.created_at ≡ c
IsCreatedAt none c r = r.created_at ≡ c

has_key-IsKey :
    (t k : String) (j : SchedulerJob)
    → has_key t k j ≡ true
    → (j.m8f_tenant_id ≡ t) × (j.job_key ≡ k)
unfolding has_key
has_key-IsKey t k j h = (eq_of_test _ _ (ground arith), eq_of_test _ _ (ground arith))

or_else-IsCreatedAt :
    (created : Option Timestamp) (c : Timestamp) (r : SchedulerJob)
    → r.created_at ≡ or_else created c
    → IsCreatedAt created c r
or_else-IsCreatedAt none c r h = h
or_else-IsCreatedAt (some _) c r h = h

pub same_key :
    {t k : String} (j : SchedulerJob) (t' k' : String)
    → has_key t k j ≡ true
    → has_key t' k' j ≡ true
    → (t ≡ t') × (k ≡ k')
unfolding has_key
same_key {t} {k} j t' k' h h' =
    let a : j.m8f_tenant_id ≡ t = eq_of_test _ _ (ground arith) in
    let b : j.job_key ≡ k = eq_of_test _ _ (ground arith) in
    let c : j.m8f_tenant_id ≡ t' = eq_of_test _ _ (ground arith) in
    let d : j.job_key ≡ k' = eq_of_test _ _ (ground arith) in (sym a ∙ c, sym b ∙ d)

module _ (t k : String) (kind : SchedulerJobType) (run_at : Timestamp) (i d : Option ℕ)
    (payload : Fields) (at : Timestamp) (created : Option Timestamp) (db : Database) where
  abbrev fresh : ℕ → SchedulerJob
  fresh id = record {
    id = id;
    m8f_tenant_id = t;
    job_key = k;
    job_type = kind;
    process_instance_id = i;
    bpmn_process_definition_id = d;
    locked_by = none;
    locked_at = none;
    run_at = run_at;
    payload_json = payload;
    updated_at = at;
    created_at = or_else created at;
  }

  abbrev change : SchedulerJob → SchedulerJob
  change = requested kind run_at i d payload at created

  abbrev upsert : Result SchedulerJob × Database
  upsert = upsert_scheduler_job t k kind run_at i d payload (some at) created db

  abbrev table : Table SchedulerJob
  table = db.scheduler_jobs

  upsert_new :
      job_at db t k ≡ none
      → upsert ≡ (ok (fresh table.next_id), record db { scheduler_jobs = insert_row fresh table })
  unfolding upsert_scheduler_job add first find
  upsert_new h = rw h

  upsert_old :
      (j : SchedulerJob)
      → job_at db t k ≡ some j
      → upsert ≡ (
        ok (change j),
        record db {
          scheduler_jobs = record table {
            rows = update_where (λ x. x.id == j.id) change table.rows;
          };
        },
      )
  unfolding upsert_scheduler_job update first find update_where
  upsert_old j h = rw h

  has_key-fresh : (n : ℕ) → has_key t k (fresh n) ≡ true
  unfolding has_key
  has_key-fresh n = rw (==_refl t, ==_refl k)

  other_key : (t' k' : String) (n : ℕ) → ¬ ((t ≡ t') × (k ≡ k')) → has_key t' k' (fresh n) ≡ false
  other_key t' k' n ne = elim (Bool-cases (has_key t' k' (fresh n))) [
    | inr e ↦ e
    | inl e ↦ absurd (ne (same_key (fresh n) t' k' (has_key-fresh n) e))
  ]

  has_key-change : (t' k' : String) (j : SchedulerJob) → has_key t' k' (change j) ≡ has_key t' k' j
  unfolding has_key
  has_key-change t' k' j = refl

  job_at-upsert_new : job_at db t k ≡ none → job_at upsert.1 t k ≡ some (fresh table.next_id)
  job_at-upsert_new h =
      rw
        (upsert_new h, find-append (has_key t k) table.rows (fresh table.next_id), h, has_key-fresh)

  job_at-upsert_old :
      (j : SchedulerJob) → job_at db t k ≡ some j → job_at upsert.1 t k ≡ some (change j)
  job_at-upsert_old j h = rw (
    upsert_old j h,
    find-update_where (has_key t k) (λ x. x.id == j.id) change table.rows
        (λ x _. has_key-change t k x),
    h,
    ==_refl j.id,
  )

  -- The call succeeds, and the job that it returns is what the key leads to afterwards. It has the
  -- tenant, the key, the type, the instance, the definition, the time, the payload and the time of
  -- change that were asked for, and no lock, also where a worker held it. If the key led to no job,
  -- the row is new; else it is the old row. It was created at the given time; if none is given, at
  -- the time of change if it is new, and when the old row was created if it is not.
  pub upsert_scheduler_job-first :
      (r : SchedulerJob) × (upsert.0 ≡ ok r)
      × (job_at upsert.1 t k ≡ some r)
      × IsRequested t k kind run_at i d payload at r
      × (((job_at db t k ≡ none) × (r.id ≡ table.next_id) × IsCreatedAt created at r)
          ⊎ ((j : SchedulerJob) × (job_at db t k ≡ some j)
              × (r.id ≡ j.id)
              × IsCreatedAt created j.created_at r))
  upsert_scheduler_job-first = elim (Option-cases (job_at db t k)) [
    | inl h ↦ (
      fresh table.next_id,
      ap (λ (u : Result SchedulerJob × Database). u.0) (upsert_new h),
      job_at-upsert_new h,
      record {
        tenant = refl;
        key = refl;
        type = refl;
        instance_id = refl;
        definition_id = refl;
        time = refl;
        payload_is = refl;
        not_held = refl;
        not_locked = refl;
        updated = refl;
      },
      inl (h, refl, or_else-IsCreatedAt created at (fresh table.next_id) refl),
    )
    | inr (j, h) ↦
        let (of_tenant, of_key) = has_key-IsKey t k j (find-holds (has_key t k) table.rows j h) in
        (
          change j,
          ap (λ (u : Result SchedulerJob × Database). u.0) (upsert_old j h),
          job_at-upsert_old j h,
          record {
            tenant = of_tenant;
            key = of_key;
            type = refl;
            instance_id = refl;
            definition_id = refl;
            time = refl;
            payload_is = refl;
            not_held = refl;
            not_locked = refl;
            updated = refl;
          },
          inr (j, h, refl, or_else-IsCreatedAt created j.created_at (change j) refl),
        )
  ]

  job_at-upsert_old_other :
      (j : SchedulerJob) (t' k' : String)
      → Distinct (λ (x : SchedulerJob). x.id) table.rows
      → ¬ ((t ≡ t') × (k ≡ k'))
      → job_at db t k ≡ some j
      → job_at upsert.1 t' k' ≡ job_at db t' k'
  job_at-upsert_old_other j t' k' d ne h =
      rw
        (
          upsert_old j h,
          find-update_where (has_key t' k') (λ x. x.id == j.id) change table.rows
              (λ x _. has_key-change t' k' x),
        )
        (elim (Option-cases (job_at db t' k')) [
          | inl e ↦ rw e refl
          | inr (x, e) ↦ elim (Bool-cases (x.id == j.id)) [
            | inr f ↦ rw (e, f) refl
            | inl f ↦ absurd (
                ne (
                  same_key j t' k' (find-holds (has_key t k) table.rows j h) (
                    subst (λ y. has_key t' k' y ≡ true)
                      (Distinct-find (λ (y : SchedulerJob). y.id) (has_key t' k') (has_key t k)
                        table.rows x j d e h (eq_of_test x.id j.id f))
                      (find-holds (has_key t' k') table.rows x e))))
          ]
        ])

  -- Where no two rows have one id, every other key, of this tenant or of another, leads to what it
  -- led to before.
  pub upsert_scheduler_job-first_other :
      (t' k' : String)
      → Distinct (λ (x : SchedulerJob). x.id) table.rows
      → ¬ ((t ≡ t') × (k ≡ k'))
      → job_at upsert.1 t' k' ≡ job_at db t' k'
  upsert_scheduler_job-first_other t' k' d ne = elim (Option-cases (job_at db t k)) [
    | inr (j, h) ↦ job_at-upsert_old_other j t' k' d ne h
    | inl h ↦ elim (Option-cases (job_at db t' k')) [
      | inl e ↦
          rw
            (
              upsert_new h,
              find-append (has_key t' k') table.rows (fresh table.next_id),
              e,
              other_key t' k' table.next_id ne,
            )
            refl
      | inr (x, e) ↦
          rw (upsert_new h, find-append (has_key t' k') table.rows (fresh table.next_id), e) refl
    ]
  ]
