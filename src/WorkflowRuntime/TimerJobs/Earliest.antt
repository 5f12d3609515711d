-- ===== src/WorkflowRuntime/TimerJobs/Earliest.antt =====
-- The job of an instance's timers, and when they are due.
use Prim.Native.Nat.{◌*◌}
use mathlib.Core.List.Memᴰ
use mathlib.Core.List.Memᴰ.{Memᴰ}
use m8flow_bpmn_core.Base.{
  ℕ, ◌+◌, ◌<◌, ◌≤◌, String, not, ◌&&◌, Option, none, some, List, [], ◌∷◌, ◌≡◌, inl, inr, refl, sym,
  ap, ◌∙◌, subst, arith, keep, All, All-map,
}
use m8flow_bpmn_core.Model.Process.{Timestamp, ProcessInstance}
use m8flow_bpmn_core.Model.Scheduler.{SchedulerJobType, SchedulerJob}
use m8flow_bpmn_core.Model.Database.{Database}
use m8flow_bpmn_core.Session.{Result, ok, pure}
use m8flow_bpmn_core.Session.Calls.{Result-cases, bind_ok}
use m8flow_bpmn_core.SchedulerJobs.{
  blank_qualifier, build_scheduler_job_key, upsert_scheduler_job, delete_scheduler_job,
}
use m8flow_bpmn_core.SchedulerJobs.Store.{job_at, upsert_scheduler_job-first}
use m8flow_bpmn_core.SchedulerJobs.Invariant.{delete_scheduler_job-first}
use m8flow_bpmn_core.WorkflowRuntime.Engine.{EngineTask}
use m8flow_bpmn_core.WorkflowRuntime.TimerJobs.DueTimes.{IsDueAt, timer_payload-IsTimed}
use m8flow_bpmn_core.WorkflowRuntime.TimerJobs.Sorting.{
  sort-mem, mem_of_sort, least-le, least-attained,
}
use m8flow_bpmn_core.WorkflowRuntime.TimerJobs.{
  TimerPayload, timer_payload, timer_payloads_of, is_start_event, sort_payloads,
  collect_waiting_timer_payloads, least_run_at, timer_tasks_payload, intermediate_timer_job,
  sync_intermediate_timer_scheduler_job,
}

All-mem {ℓ κ} : {A : Type ℓ} (P : A → Type κ) (xs : List A) (a : A) → All P xs → Memᴰ a xs → P a
All-mem P [] a h m = absurd (Memᴰ.not-nil m)
All-mem P (x ∷ xs) a (px, h) m = elim (Memᴰ.cases_cons m) [
  | inl same ↦ subst P (sym same) px
  | inr later ↦ All-mem P xs a h later
]

-- The payloads are those of the tasks, and all of them.
payloads_of :
    (ts : List EngineTask) (ps : List TimerPayload)
    → timer_payloads_of ts ≡ ok ps
    → All (λ t. (q : TimerPayload) × (timer_payload t ≡ ok q) × Memᴰ q ps) ts
      × All (λ q. (t : EngineTask) × Memᴰ t ts × (timer_payload t ≡ ok q)) ps
unfolding timer_payloads_of
payloads_of [] [] h = (tt, tt)
payloads_of [] (p ∷ ps) h = cc
payloads_of (t ∷ ts) ps h = elim (Result-cases (timer_payload t)) [
  | inl (e, f) ↦ absurd (ground (arith, f, h))
  | inr (q, f) ↦ elim (Result-cases (timer_payloads_of ts)) [
    | inl (e, g) ↦ absurd (ground (arith, f, g, h))
    | inr (qs, g) ↦
        let same : q ∷ qs ≡ ps = ground (arith, f, g, h) in
        let (of_tasks, of_payloads) = payloads_of ts qs g in
        subst
          (λ xs.
            All (λ t. (q : TimerPayload) × (timer_payload t ≡ ok q) × Memᴰ q xs) (t ∷ ts)
            × All (λ q. (x : EngineTask) × Memᴰ x (t ∷ ts) × (timer_payload x ≡ ok q)) xs)
          same
          (
            ((q, f, Memᴰ.head refl), All-map ts (λ x (p, e, m). (p, e, Memᴰ.tail m)) of_tasks),
            ((t, Memᴰ.head refl, f), All-map qs (λ p (x, m, e). (x, Memᴰ.tail m, e)) of_payloads),
          )
  ]
]

-- The tasks of a workflow that are intermediate timers: those that wait for a time, and are no start
-- event of the top level.
abbrev pub intermediate_timers : List EngineTask → List EngineTask
intermediate_timers = keep (λ t. t.is_timer && not (is_start_event t))

-- The job that the key leads to, for such tasks: none if there are none; else one that nobody holds,
-- at a whole second, less than a second after any of the tasks is due, and not before all of them
-- are.
abbrev pub IsTimerJob : List EngineTask → Option SchedulerJob → Type 0
IsTimerJob [] job = job ≡ none
IsTimerJob (t ∷ ts) job =
    (j : SchedulerJob) × (job ≡ some j)
    × (j.locked_by ≡ none)
    × ((second : ℕ) × (j.run_at ≡ second * 1000000))
    × All (λ x. (due : Timestamp) × IsDueAt x due × (j.run_at < due + 1000000)) (t ∷ ts)
    × ((x : EngineTask) × Memᴰ x (t ∷ ts) × ((due : Timestamp) × IsDueAt x due × (due ≤ j.run_at)))

-- From the payloads, sorted, to the tasks.
job-IsTimerJob :
    (ts : List EngineTask) (ps : List TimerPayload) (p : TimerPayload) (rest : List TimerPayload)
    (job : Option SchedulerJob) (j : SchedulerJob)
    → timer_payloads_of ts ≡ ok ps
    → sort_payloads ps ≡ p ∷ rest
    → job ≡ some j
    → j.locked_by ≡ none
    → j.run_at ≡ least_run_at p rest * 1000000
    → IsTimerJob ts job
job-IsTimerJob [] ps p rest job j of_ts sorted found free at =
    let (q, m, same) = least-attained p rest in
    let stored = mem_of_sort q ps (subst (Memᴰ q) (sym sorted) m) in
    let (t, in_nil, e) = All-mem _ ps q (payloads_of [] ps of_ts).1 stored in
    absurd (Memᴰ.not-nil in_nil)
job-IsTimerJob (t ∷ ts) ps p rest job j of_ts sorted found free at =
    let (of_tasks, of_payloads) = payloads_of (t ∷ ts) ps of_ts in
    let (q, m, same) = least-attained p rest in
    let (x, here, e) =
      All-mem _ ps q of_payloads (mem_of_sort q ps (subst (Memᴰ q) (sym sorted) m)) in
    (
      j,
      found,
      free,
      (least_run_at p rest, at),
      All-map (t ∷ ts)
          (λ y (r, f, stored).
            let bound = least-le p r rest (subst (Memᴰ r) sorted (sort-mem r ps stored)) in
            let (due, is_due, passed, soon) = timer_payload-IsTimed y r f in
            (due, is_due, rw at (omega (arith, bound, soon))))
          of_tasks,
      let (due, is_due, passed, soon) = timer_payload-IsTimed x q e in
          (x, here, (due, is_due, rw (at, same) passed)),
    )

intermediate_key :
    (id : ℕ)
    → (key : String) × (build_scheduler_job_key SchedulerJobType.intermediate_timer
          (some id)
          none
          none
        ≡ ok key)
unfolding build_scheduler_job_key blank_qualifier
intermediate_key id = (_, refl)

synced :
    (p : ProcessInstance) (key : String) (waiting : List EngineTask) (at : Timestamp)
    (ps : List TimerPayload) (db : Database)
    → build_scheduler_job_key SchedulerJobType.intermediate_timer (some p.id) none none ≡ ok key
    → timer_payloads_of (intermediate_timers waiting) ≡ ok ps
    → sync_intermediate_timer_scheduler_job p waiting at db
      ≡ intermediate_timer_job p key at (sort_payloads ps) db
unfolding sync_intermediate_timer_scheduler_job collect_waiting_timer_payloads
synced p key waiting at ps db built read = ground (arith, built, read)

abbrev outcome : Result SchedulerJob → Database → Result SchedulerJob × Database
outcome r db = (r, db)

job-of_sorted :
    (p : ProcessInstance) (key : String) (at : Timestamp) (ts : List EngineTask)
    (ps sorted : List TimerPayload) (db : Database)
    → timer_payloads_of ts ≡ ok ps
    → sort_payloads ps ≡ sorted
    → ((intermediate_timer_job p key at sorted db).0 ≡ ok tt)
      × IsTimerJob ts (job_at (intermediate_timer_job p key at sorted db).1 p.m8f_tenant_id key)
unfolding intermediate_timer_job
job-of_sorted p key at [] ps [] db read e =
    let (db', deleted, gone, other) = delete_scheduler_job-first p.m8f_tenant_id key db in
    let done = bind_ok (delete_scheduler_job p.m8f_tenant_id key) (λ _. pure tt) db db' _ deleted in
    (
      ap (λ (out : Result (Unit {0}) × Database). out.0) done,
      ap (λ (out : Result (Unit {0}) × Database). job_at out.1 p.m8f_tenant_id key) done ∙ gone,
    )
job-of_sorted p key at (t ∷ ts) ps [] db read e =
    let ((q, f, stored), later) = (payloads_of (t ∷ ts) ps read).0 in
    absurd (Memᴰ.not-nil (subst (Memᴰ q) e (sort-mem q ps stored)))
job-of_sorted p key at ts ps (q ∷ rest) db read e =
    let upsert =
      upsert_scheduler_job p.m8f_tenant_id key SchedulerJobType.intermediate_timer
        (least_run_at q rest * 1000000) (some p.id) p.bpmn_process_definition_id
        (timer_tasks_payload (q ∷ rest)) (some at) (some at) in
    let (j, returned, found, asked, origin) =
      upsert_scheduler_job-first p.m8f_tenant_id key SchedulerJobType.intermediate_timer
        (least_run_at q rest * 1000000) (some p.id) p.bpmn_process_definition_id
        (timer_tasks_payload (q ∷ rest)) at (some at) db in
    let whole : upsert db ≡ (ok j, (upsert db).1) =
      ap (λ (r : Result SchedulerJob). outcome r (upsert db).1) returned in
    let done = bind_ok upsert (λ _. pure tt) db (upsert db).1 j whole in
    (
      ap (λ (out : Result (Unit {0}) × Database). out.0) done,
      job-IsTimerJob ts ps q rest _ j read e
          (ap (λ (out : Result (Unit {0}) × Database). job_at out.1 p.m8f_tenant_id key) done
            ∙ found)
          asked.not_held asked.time,
    )

-- Where the time of every waiting intermediate timer can be read, the synchronisation succeeds, and
-- leads the instance's key to the right job: to none if no timer waits; else to one job, free to be
-- claimed, at the first whole second at which one of the timers is due. That is, it is at a whole
-- second, not before one of the timers is due, and less than a second after any of them is due,
-- where a timer is due at the date, or at the next date, that the engine's data give.
pub sync_intermediate_timer-IsTimerJob :
    (p : ProcessInstance) (waiting : List EngineTask) (at : Timestamp) (ps : List TimerPayload)
    (db : Database)
    → timer_payloads_of (intermediate_timers waiting) ≡ ok ps
    → (key : String) × (build_scheduler_job_key SchedulerJobType.intermediate_timer
          (some p.id)
          none
          none
        ≡ ok key)
      × ((sync_intermediate_timer_scheduler_job p waiting at db).0 ≡ ok tt)
      × IsTimerJob
          (intermediate_timers waiting)
          (job_at (sync_intermediate_timer_scheduler_job p waiting at db).1 p.m8f_tenant_id key)
sync_intermediate_timer-IsTimerJob p waiting at ps db read =
    let (key, built) = intermediate_key p.id in
    let (done, right) =
      job-of_sorted p key at (intermediate_timers waiting) ps (sort_payloads ps) db read refl in
    let same = synced p key waiting at ps db built read in
    (
      key,
      built,
      ap (λ (out : Result (Unit {0}) × Database). out.0) same ∙ done,
      subst
          (λ (out : Result (Unit {0}) × Database).
            IsTimerJob (intermediate_timers waiting) (job_at out.1 p.m8f_tenant_id key))
          (sym same) right,
    )
