-- ===== src/ProcessInstances/Lifecycle/Ending.antt =====
-- What failing and terminating an instance do when they go through.
use m8flow_bpmn_core.Base.{
  keep, not, ◌==◌, keep-update_where, ◌∙◌, ℕ, String, false, Option, some, [], ◌∷◌, ◌++◌, ◌≡◌, refl,
  sym, subst, arith, Nat_Eq, String_Eq,
}
use m8flow_bpmn_core.Model.Status.{ProcessInstanceStatus, has_terminal_status}
use m8flow_bpmn_core.Model.Event.{ProcessLifecycleEventType}
use m8flow_bpmn_core.Model.Process.{Timestamp, ProcessInstance}
use m8flow_bpmn_core.Model.Database.{Database}
use m8flow_bpmn_core.Session.{ok, update}
use m8flow_bpmn_core.Authorization.Commands.{process_terminate_command}
use m8flow_bpmn_core.Authorization.Policy.{AuthorizationPolicy}
use m8flow_bpmn_core.ProcessInstances.{is_instance}
use m8flow_bpmn_core.ProcessInstances.Lifecycle.{
  authorized_instance, set_instance, record_lifecycle_event, ended_fields, touched, end_instance,
  error_from, error_process_instance, terminate_from, terminate_process_instance,
}
use m8flow_bpmn_core.ProcessInstances.Lifecycle.Access.{
  IsReadOnly, instance_at, load_process_instance-found,
}
use m8flow_bpmn_core.ProcessInstances.Lifecycle.Events.{
  IsMember, IsMember-frame, authorized_instance-IsMember, lifecycle_event,
  record_lifecycle_event-appends, instance_at-update,
}
use m8flow_bpmn_core.ProcessInstances.RuntimeState.{
  touch_tasks, close_process_instance_runtime_state,
}
use m8flow_bpmn_core.ProcessInstances.RuntimeState.Closing.{
  close_process_instance_runtime_state-IsClosed, IsClosed, KeepsOthers,
}
use m8flow_bpmn_core.ProcessInstances.Lifecycle.Effects.{id_of_found, with_event}

touched-key :
    (t : String) (i : ℕ) (at : Timestamp) (q : ProcessInstance)
    → is_instance t i (touched at q) ≡ is_instance t i q
unfolding is_instance
touched-key t i at q = refl

ended_fields-key :
    (status : ProcessInstanceStatus) (t : String) (i : ℕ) (at : Timestamp) (q : ProcessInstance)
    → is_instance t i (ended_fields status at q) ≡ is_instance t i q
unfolding is_instance ended_fields
ended_fields-key status t i at q = refl

ended_status :
    (status : ProcessInstanceStatus) (at : Timestamp) (p : ProcessInstance)
    → (ended_fields status at p).status ≡ status
unfolding ended_fields
ended_status status at p = refl

ended_date :
    (status : ProcessInstanceStatus) (at : Timestamp) (p : ProcessInstance)
    → (ended_fields status at p).ended_at ≡ some at
unfolding ended_fields
ended_date status at p = refl

-- The instance has its final fields and is closed, the other instances and the jobs stay, and one
-- event is appended.
pub record IsEnded (status : ProcessInstanceStatus) (kind : ProcessLifecycleEventType) (t : String)
    (i : ℕ) (u : Option ℕ) (at : Timestamp) (p : ProcessInstance) (db db' : Database) : Type 0 where
  pub stored : instance_at db' t i ≡ some (touched at (ended_fields status at p))
  pub final : (ended_fields status at p).status ≡ status
  pub dated : (ended_fields status at p).ended_at ≡ some at
  pub closed : IsClosed i db'
  pub others : KeepsOthers i db db'
  pub other_instances :
      keep (λ x. not (x.id == i)) db'.process_instances.rows
      ≡ keep (λ x. not (x.id == i)) db.process_instances.rows
  pub jobs : db'.scheduler_jobs ≡ db.scheduler_jobs
  pub logged :
      db'.process_instance_events.rows
      ≡ db.process_instance_events.rows
        ++ lifecycle_event t i kind at u db.process_instance_events.next_id ∷ []

module _ (status : ProcessInstanceStatus) (kind : ProcessLifecycleEventType) (t : String) (i : ℕ)
    (u : Option ℕ) (at : Timestamp) (db : Database) (p : ProcessInstance) (member : IsMember db t u)
    (found : instance_at db t i ≡ some p) where
  abbrev marked : Database
  marked = (set_instance p.id (ended_fields status at) db).1

  abbrev closed_up : Database
  closed_up = (close_process_instance_runtime_state p.id at u marked).1

  closed_up-stored : instance_at closed_up t i ≡ some (touched at (ended_fields status at p))
  unfolding close_process_instance_runtime_state touch_tasks set_instance update ended_fields
  closed_up-stored =
      let stored =
        instance_at-update (ended_fields status at) t i db p (ended_fields-key status t i at)
          found in
      instance_at-update (touched at) t i marked (ended_fields status at p) (touched-key t i at)
        stored

  closed_up-others :
      keep (λ x. not (x.id == p.id)) closed_up.process_instances.rows
      ≡ keep (λ x. not (x.id == p.id)) db.process_instances.rows
  unfolding close_process_instance_runtime_state touch_tasks set_instance update ended_fields
  closed_up-others =
      keep-update_where (λ (x : ProcessInstance). not (x.id == p.id))
        (λ (x : ProcessInstance). x.id == p.id) (touched at) marked.process_instances.rows
        (λ x e. (ground arith, ground arith))
      ∙ keep-update_where (λ (x : ProcessInstance). not (x.id == p.id))
          (λ (x : ProcessInstance). x.id == p.id) (ended_fields status at) db.process_instances.rows
          (λ x e. (ground arith, ground arith))

  end_instance-IsEnded :
      (db' : Database) × (end_instance status kind t p u (some at) db
        ≡ (ok (touched at (ended_fields status at p)), db'))
      × IsEnded status kind t i u at p db db'
  unfolding end_instance close_process_instance_runtime_state touch_tasks set_instance update
  end_instance-IsEnded =
      let same = id_of_found t i db p found in
      let recorded =
        record_lifecycle_event-appends t i kind at u closed_up
          (touched at (ended_fields status at p)) (IsMember-frame t u db closed_up refl refl member)
          closed_up-stored in
      let recorded_at_key =
        subst
          (λ n.
            record_lifecycle_event t n kind at u closed_up
            ≡ (ok tt, with_event closed_up t i kind at u))
          (sym same) recorded in
      let (_, closed, others) = close_process_instance_runtime_state-IsClosed p.id at u marked in
      (
        with_event closed_up t i kind at u,
        ground (arith, recorded_at_key),
        record {
          stored = closed_up-stored;
          final = ended_status status at p;
          dated = ended_date status at p;
          closed = subst (λ n. IsClosed n closed_up) same closed;
          others = subst (λ n. KeepsOthers n db closed_up) same others;
          other_instances =
              subst
                (λ n.
                  keep (λ (x : ProcessInstance). not (x.id == n)) closed_up.process_instances.rows
                  ≡ keep (λ (x : ProcessInstance). not (x.id == n)) db.process_instances.rows)
                same closed_up-others;
          jobs = refl;
          logged = refl;
        },
      )

-- The guards of the two operations let the other statuses through to `end_instance`.
terminate_from-ends :
    (s : ProcessInstanceStatus) (t : String) (p : ProcessInstance) (u : ℕ) (at : Option Timestamp)
    → has_terminal_status s ≡ false
    → terminate_from s t p u at
      ≡ end_instance ProcessInstanceStatus.terminated
          ProcessLifecycleEventType.process_instance_terminated t p
          (some u)
          at
unfolding terminate_from has_terminal_status
terminate_from-ends s t p u at h = ground (arith, h)

error_from-ends :
    (s : ProcessInstanceStatus) (t : String) (p : ProcessInstance) (u : Option ℕ)
    (at : Option Timestamp)
    → has_terminal_status s ≡ false
    → error_from s t p u at
      ≡ end_instance ProcessInstanceStatus.error ProcessLifecycleEventType.process_instance_error t
          p u at
unfolding error_from has_terminal_status
error_from-ends s t p u at h = ground (arith, h)

-- With a policy that writes nothing, an authorized termination of an instance that has not ended,
-- also of a suspended one, goes through. Afterwards the tenant finds the instance terminated at that
-- time, all its work items are completed and its tasks completed or terminated; the other instances,
-- with their work items and tasks, and the scheduler jobs stay, and one event is appended to the log.
pub terminate_process_instance-IsEnded :
    (policy : AuthorizationPolicy)
    → IsReadOnly policy
    → (t : String) (i u : ℕ) (at : Timestamp) (db : Database) (p : ProcessInstance)
    → authorized_instance policy t i u process_terminate_command db ≡ (ok p, db)
    → has_terminal_status p.status ≡ false
    → (db' : Database) × (terminate_process_instance policy t i u (some at) db
        ≡ (ok (touched at (ended_fields ProcessInstanceStatus.terminated at p)), db'))
      × IsEnded ProcessInstanceStatus.terminated
          ProcessLifecycleEventType.process_instance_terminated t i
          (some u)
          at
          p
          db
          db'
unfolding terminate_process_instance
terminate_process_instance-IsEnded policy read_only t i u at db p r running =
    let (member, found) = authorized_instance-IsMember policy read_only t i u _ db p r in
    let (db', run, ended) = end_instance-IsEnded _ _ t i (some u) at db p member found in
    (db', ground (arith, r, terminate_from-ends p.status t p u (some at) running, run), ended)

-- A failure that is reported for an instance that has not ended, by a member of the tenant or by
-- nobody, goes through without any permission. Afterwards the tenant finds the instance in error,
-- ended at that time, all its work items are completed and its tasks completed or terminated; the
-- other instances, with their work items and tasks, and the scheduler jobs stay, and one event is
-- appended to the log.
pub error_process_instance-IsEnded :
    (t : String) (i : ℕ) (u : Option ℕ) (at : Timestamp) (db : Database) (p : ProcessInstance)
    → IsMember db t u
    → instance_at db t i ≡ some p
    → has_terminal_status p.status ≡ false
    → (db' : Database) × (error_process_instance t i u (some at) db
        ≡ (ok (touched at (ended_fields ProcessInstanceStatus.error at p)), db'))
      × IsEnded ProcessInstanceStatus.error ProcessLifecycleEventType.process_instance_error t i u
          at p db db'
unfolding error_process_instance
error_process_instance-IsEnded t i u at db p member found running =
    let (db', run, ended) = end_instance-IsEnded _ _ t i u at db p member found in
    let loaded = load_process_instance-found t i db p found in
    (
      db',
      ground (arith, member, loaded, error_from-ends p.status t p u (some at) running, run),
      ended,
    )
