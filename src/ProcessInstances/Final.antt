-- ===== src/ProcessInstances/Final.antt =====
-- Lifecycle calls on instances that have ended for good.
use m8flow_bpmn_core.Base.{
  ℕ, String, Option, some, List, [], ◌∷◌, ◌≡◌, ◌⊎◌, inl, inr, refl, ap, ◌∙◌, arith,
}
use m8flow_bpmn_core.Errors.{Error}
use m8flow_bpmn_core.Model.Status.{ProcessInstanceStatus, has_terminal_status}
use m8flow_bpmn_core.Model.Process.{Timestamp, ProcessInstance}
use m8flow_bpmn_core.Model.Database.{Database}
use m8flow_bpmn_core.Session.{ok, err}
use m8flow_bpmn_core.Authorization.Commands.{
  process_suspend_command, process_retry_command, process_terminate_command, process_resume_command,
}
use m8flow_bpmn_core.Authorization.Policy.{AuthorizationPolicy}
use m8flow_bpmn_core.ProcessInstances.Lifecycle.{
  authorized_instance, suspend_from, suspend_process_instance, error_from, error_process_instance,
  terminate_from, terminate_process_instance, schedule_from, schedule_process_instance_retry,
}
use m8flow_bpmn_core.ProcessInstances.Lifecycle.Access.{
  IsReadOnly, instance_at, load_process_instance-found, ensure_user_if_given-Reads,
  authorized_instance-cases,
}
use m8flow_bpmn_core.ProcessInstances.Reactivation.{
  resume_from, resume_process_instance, retry_from, retry_process_instance,
}
use m8flow_bpmn_core.WorkflowRuntime.{WorkflowRuntime}

-- A lifecycle call on one instance, with its caller and its date.
pub data LifecycleCall : Type 0 where
  suspend resume terminate retry : ℕ → Option Timestamp → LifecycleCall
  fail : Option ℕ → Option Timestamp → LifecycleCall
  schedule_retry : ℕ → Timestamp → Option Timestamp → LifecycleCall

-- The statuses that no operation leaves.
abbrev pub IsFinal : ProcessInstanceStatus → Type 0
IsFinal s = (s ≡ ProcessInstanceStatus.complete) ⊎ (s ≡ ProcessInstanceStatus.terminated)

module _ (runtime : WorkflowRuntime) (policy : AuthorizationPolicy) (t : String) (i : ℕ) where
  -- What a call leaves in the database, whether it returns or raises.
  abbrev pub after : LifecycleCall → Database → Database
  after (LifecycleCall.suspend u at) db = (suspend_process_instance policy t i u at db).1
  after (LifecycleCall.resume u at) db = (resume_process_instance runtime policy t i u at db).1
  after (LifecycleCall.terminate u at) db = (terminate_process_instance policy t i u at db).1
  after (LifecycleCall.retry u at) db = (retry_process_instance runtime policy t i u at db).1
  after (LifecycleCall.fail u at) db = (error_process_instance t i u at db).1
  after (LifecycleCall.schedule_retry u run_at at) db =
      (schedule_process_instance_retry policy t i u run_at at db).1

  abbrev pub after_all : List LifecycleCall → Database → Database
  after_all [] db = db
  after_all (c ∷ cs) db = after_all cs (after c db)

  module _ (h : IsReadOnly policy) (db : Database) (p : ProcessInstance)
      (found : instance_at db t i ≡ some p) where
    -- Past the checks there is the instance that the tenant sees.
    checks :
        (u : ℕ) (key : String)
        → ((e : Error) × (authorized_instance policy t i u key db ≡ (err e, db)))
          ⊎ (authorized_instance policy t i u key db ≡ (ok p, db))
    checks u key = elim (authorized_instance-cases policy h t i u key db) [
      | inl r ↦ inl r
      | inr (q, found', r) ↦ inr (ground (arith, found, found', r))
    ]

    suspend-final :
        IsFinal p.status
        → (u : ℕ) (at : Option Timestamp) → after (LifecycleCall.suspend u at) db ≡ db
    unfolding suspend_process_instance suspend_from has_terminal_status
    suspend-final f u at = elim (checks u process_suspend_command) [
      | inl (e, r) ↦ ground (arith, r)
      | inr r ↦ elim f [ inl final ↦ ground (arith, r) | inr final ↦ ground (arith, r) ]
    ]

    resume-final :
        IsFinal p.status
        → (u : ℕ) (at : Option Timestamp) → after (LifecycleCall.resume u at) db ≡ db
    unfolding resume_process_instance resume_from
    resume-final f u at = elim (checks u process_resume_command) [
      | inl (e, r) ↦ ground (arith, r)
      | inr r ↦ elim f [ inl final ↦ ground (arith, r) | inr final ↦ ground (arith, r) ]
    ]

    terminate-final :
        IsFinal p.status
        → (u : ℕ) (at : Option Timestamp) → after (LifecycleCall.terminate u at) db ≡ db
    unfolding terminate_process_instance terminate_from
    terminate-final f u at = elim (checks u process_terminate_command) [
      | inl (e, r) ↦ ground (arith, r)
      | inr r ↦ elim f [ inl final ↦ ground (arith, r) | inr final ↦ ground (arith, r) ]
    ]

    retry-final :
        IsFinal p.status
        → (u : ℕ) (at : Option Timestamp) → after (LifecycleCall.retry u at) db ≡ db
    unfolding retry_process_instance retry_from
    retry-final f u at = elim (checks u process_retry_command) [
      | inl (e, r) ↦ ground (arith, r)
      | inr r ↦ elim f [ inl final ↦ ground (arith, r) | inr final ↦ ground (arith, r) ]
    ]

    schedule-final :
        IsFinal p.status
        → (u : ℕ) (run_at : Timestamp) (at : Option Timestamp)
        → after (LifecycleCall.schedule_retry u run_at at) db ≡ db
    unfolding schedule_process_instance_retry schedule_from
    schedule-final f u run_at at = elim (checks u process_retry_command) [
      | inl (e, r) ↦ ground (arith, r)
      | inr r ↦ elim f [ inl final ↦ ground (arith, r) | inr final ↦ ground (arith, r) ]
    ]

    fail-final :
        IsFinal p.status
        → (u : Option ℕ) (at : Option Timestamp) → after (LifecycleCall.fail u at) db ≡ db
    unfolding error_process_instance error_from
    fail-final f u at = elim (ensure_user_if_given-Reads t u db) [
      | inl (e, r) ↦ ground (arith, r)
      | inr (_, r) ↦
          let loaded = load_process_instance-found t i db p found in
          elim f [ inl final ↦ ground (arith, r, loaded) | inr final ↦ ground (arith, r, loaded) ]
    ]

    final-after : IsFinal p.status → (c : LifecycleCall) → after c db ≡ db
    final-after f (LifecycleCall.suspend u at) = suspend-final f u at
    final-after f (LifecycleCall.resume u at) = resume-final f u at
    final-after f (LifecycleCall.terminate u at) = terminate-final f u at
    final-after f (LifecycleCall.retry u at) = retry-final f u at
    final-after f (LifecycleCall.fail u at) = fail-final f u at
    final-after f (LifecycleCall.schedule_retry u run_at at) = schedule-final f u run_at at

    -- With a policy that writes nothing, once the tenant's instance is complete or terminated no
    -- sequence of lifecycle calls, by any callers at any times, changes anything in the database.
    pub lifecycle-final : IsFinal p.status → (calls : List LifecycleCall) → after_all calls db ≡ db
    lifecycle-final f [] = refl
    lifecycle-final f (c ∷ cs) = ap (after_all cs) (final-after f c) ∙ lifecycle-final f cs
