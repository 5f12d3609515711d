-- ===== src/ProcessInstances/Lifecycle/Effects.antt =====
-- What suspending an instance does when it goes through.
use m8flow_bpmn_core.Base.{
  ℕ, String, false, Option, some, [], ◌∷◌, ◌++◌, ◌≡◌, ◌≢◌, refl, sym, subst, arith, Nat_Eq,
  String_Eq, eq_of_test, find-holds,
}
use m8flow_bpmn_core.Model.Status.{ProcessInstanceStatus, has_terminal_status}
use m8flow_bpmn_core.Model.Event.{ProcessLifecycleEventType}
use m8flow_bpmn_core.Model.Process.{Timestamp, ProcessInstance}
use m8flow_bpmn_core.Model.Database.{Database, insert_row}
use m8flow_bpmn_core.Session.{ok, update}
use m8flow_bpmn_core.Authorization.Commands.{process_suspend_command}
use m8flow_bpmn_core.Authorization.Policy.{AuthorizationPolicy}
use m8flow_bpmn_core.ProcessInstances.{is_instance}
use m8flow_bpmn_core.ProcessInstances.Lifecycle.{
  authorized_instance, set_instance, record_lifecycle_event, suspended_fields, suspend_from,
  suspend_process_instance,
}
use m8flow_bpmn_core.ProcessInstances.Lifecycle.Access.{IsReadOnly, instance_at}
use m8flow_bpmn_core.ProcessInstances.Lifecycle.Events.{
  IsMember-frame, authorized_instance-IsMember, lifecycle_event, record_lifecycle_event-appends,
  instance_at-update,
}

pub id_of_found :
    (t : String) (i : ℕ) (db : Database) (p : ProcessInstance)
    → instance_at db t i ≡ some p
    → p.id ≡ i
unfolding is_instance
id_of_found t i db p h =
    let passes = find-holds (is_instance t i) db.process_instances.rows p h in
    eq_of_test p.id i (ground arith)

-- The database with the event appended.
abbrev pub with_event :
    Database → String → ℕ → ProcessLifecycleEventType → Timestamp → Option ℕ → Database
with_event db t i kind at u = record db {
  process_instance_events = insert_row (lifecycle_event t i kind at u) db.process_instance_events;
}

suspended_fields-key :
    (t : String) (i : ℕ) (at : Timestamp) (q : ProcessInstance)
    → is_instance t i (suspended_fields at q) ≡ is_instance t i q
unfolding is_instance suspended_fields
suspended_fields-key t i at q = refl

suspended_status :
    (at : Timestamp) (p : ProcessInstance)
    → (suspended_fields at p).status ≡ ProcessInstanceStatus.suspended
unfolding suspended_fields
suspended_status at p = refl

-- What is left of the suspension after its guards.
suspend_from-steps :
    (s : ProcessInstanceStatus) (t : String) (p : ProcessInstance) (u : ℕ) (at : Timestamp)
    (db db' : Database)
    → has_terminal_status s ≡ false
    → s ≢ ProcessInstanceStatus.suspended
    → record_lifecycle_event t p.id ProcessLifecycleEventType.process_instance_suspended at
        (some u)
        (set_instance p.id (suspended_fields at) db).1
      ≡ (ok tt, db')
    → suspend_from s t p u (some at) db ≡ (ok (suspended_fields at p), db')
unfolding suspend_from has_terminal_status set_instance update
suspend_from-steps s t p u at db db' h ne r = ground (arith, r)

module _ (policy : AuthorizationPolicy) (read_only : IsReadOnly policy) (t : String) (i u : ℕ)
    (at : Timestamp) (db : Database) (p : ProcessInstance) where
  -- With a policy that writes nothing, an authorized call on an instance that is neither ended nor suspended already suspends it: the
  -- tenant then finds it with the status suspended, and exactly one event, of this user and this
  -- time, is appended to the log. Tasks, work items and jobs stay.
  pub suspend_process_instance-suspends :
      authorized_instance policy t i u process_suspend_command db ≡ (ok p, db)
      → has_terminal_status p.status ≡ false
      → p.status ≢ ProcessInstanceStatus.suspended
      → (db' : Database) × (suspend_process_instance policy t i u (some at) db
          ≡ (ok (suspended_fields at p), db'))
        × (instance_at db' t i ≡ some (suspended_fields at p))
        × ((suspended_fields at p).status ≡ ProcessInstanceStatus.suspended)
        × (db'.process_instance_events.rows
            ≡ db.process_instance_events.rows
              ++ lifecycle_event t i ProcessLifecycleEventType.process_instance_suspended at
                  (some u)
                  db.process_instance_events.next_id
                ∷ [])
        × (db'.tasks ≡ db.tasks)
        × (db'.work_items ≡ db.work_items)
        × (db'.scheduler_jobs ≡ db.scheduler_jobs)
  unfolding suspend_process_instance set_instance update
  suspend_process_instance-suspends r running unsuspended =
      let (member, found) = authorized_instance-IsMember policy read_only t i u _ db p r in
      let stored =
        instance_at-update (suspended_fields at) t i db p (suspended_fields-key t i at) found in
      let same = id_of_found t i db p found in
      let db1 = (set_instance p.id (suspended_fields at) db).1 in
      let recorded =
        record_lifecycle_event-appends t i ProcessLifecycleEventType.process_instance_suspended at
          (some u) db1 (suspended_fields at p) (IsMember-frame t (some u) db db1 refl refl member)
          stored in
      let recorded_at_key =
        subst
          (λ n.
            record_lifecycle_event t n ProcessLifecycleEventType.process_instance_suspended at
              (some u) db1
            ≡ (
              ok tt,
              with_event db1 t i ProcessLifecycleEventType.process_instance_suspended at (some u),
            ))
          (sym same) recorded in
      (
        with_event db1 t i ProcessLifecycleEventType.process_instance_suspended at (some u),
        ground (
          arith,
          r,
          suspend_from-steps p.status t p u at db _ running unsuspended recorded_at_key,
        ),
        stored,
        suspended_status at p,
        refl,
        refl,
        refl,
        refl,
      )
