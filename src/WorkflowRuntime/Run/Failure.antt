-- ===== src/WorkflowRuntime/Run/Failure.antt =====
-- What a caller sees of a run that fails.
use m8flow_bpmn_core.Base.{
  Bool, false, ◌&&◌, Option, none, some, ◌≡◌, ◌≢◌, ◌↔◌, inl, inr, refl, ap, arith, Bool-cases,
}
use m8flow_bpmn_core.Errors.{Error}
use m8flow_bpmn_core.Model.Process.{Timestamp, ProcessInstance}
use m8flow_bpmn_core.Model.Database.{Database}
use m8flow_bpmn_core.Session.{Action, Result, ok, raise, ◌>>=◌}
use m8flow_bpmn_core.Session.Calls.{Result-cases}
use m8flow_bpmn_core.WorkflowRuntime.Engine.{Engine}
use m8flow_bpmn_core.WorkflowRuntime.Run.{
  persist_service_task_failure_state_in_independent_session, on_service_task_failure, run_outcome,
  run_workflow_with_service_task_failure_handling,
  transition_process_instance_to_error_for_service_task_failure,
}

-- A chain that ends by raising does not return.
raising-ne-ok :
    {A B : Type 0} (call : Action A) (e : Error) (db : Database) (b : B)
    → ((call >>= λ _. raise e) db).0 ≢ ok b
raising-ne-ok call e db b h = elim (Result-cases (call db).0) [
  | inl (f, r) ↦ ground (arith, r, h)
  | inr (a, r) ↦ ground (arith, r, h)
]

module _ (engine : Engine) (committed : Option Database) (autonomous : Bool) (p : ProcessInstance)
    (at : Timestamp) where
  failure-ne-ok :
      (w w' : engine.Workflow) (db : Database)
      → (on_service_task_failure engine committed autonomous p w at db).0 ≢ ok w'
  unfolding on_service_task_failure
  failure-ne-ok w w' db h =
      let transition =
        transition_process_instance_to_error_for_service_task_failure engine false p w at in
      let stored =
        persist_service_task_failure_state_in_independent_session engine committed p.m8f_tenant_id
          p.id w at in
      elim (Bool-cases (autonomous && stored.0)) [
        | inl e ↦ ground (arith, e, h)
        | inr e ↦
            raising-ne-ok transition Error.service_task_execution_error db w'
              (rw (e, on_service_task_failure) at h)
      ]

  raised-ne-ok :
      (e : Error) (w w' : engine.Workflow) (db : Database)
      → (run_outcome engine committed autonomous p at (some e) w db).0 ≢ ok w'
  unfolding run_outcome
  raised-ne-ok Error.service_task_execution_error w w' db h = failure-ne-ok w w' db h
  raised-ne-ok _ w w' db h = cc

  outcome_iff :
      (o : Option Error) (w w' : engine.Workflow) (db db' : Database)
      → (run_outcome engine committed autonomous p at o w db ≡ (ok w', db'))
        ↔ ((o ≡ none) × (w ≡ w') × (db ≡ db'))
  unfolding run_outcome
  outcome_iff none w w' db db' =
      (λ h. (refl, cc, ground (arith, h)), λ (o, e, f). ground (arith, e, f))
  outcome_iff (some e) w w' db db' = (
    λ h.
        absurd (raised-ne-ok e w w' db (ap (λ (out : Result engine.Workflow × Database). out.0) h)),
    λ (o, e1, e2). cc,
  )

  -- A run returns a workflow exactly when the engine ran it without raising; then it is the engine's,
  -- and nothing in the database changed. Whatever becomes of a failure, in this session or in one of
  -- its own, the call raises.
  pub run_workflow_iff :
      (w w' : engine.Workflow) (db db' : Database)
      → (run_workflow_with_service_task_failure_handling engine committed autonomous p w at db
          ≡ (ok w', db'))
        ↔ (((engine.run_all w).0 ≡ none) × ((engine.run_all w).1 ≡ w') × (db ≡ db'))
  unfolding run_workflow_with_service_task_failure_handling
  run_workflow_iff w w' db db' = outcome_iff (engine.run_all w).0 (engine.run_all w).1 w' db db'
