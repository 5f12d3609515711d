-- ===== src/WorkflowRuntime/WorkItemRows/Inactive.antt =====
-- Which work items the loop leaves open.
use mathlib.Core.List.{append_assoc}
use m8flow_bpmn_core.Base.{
  true, false, List, [], ◌∷◌, ◌++◌, map, ◌≡◌, inl, inr, refl, sym, ap, ◌∙◌, arith, ◌==◌, Nat_Eq,
  String_Eq, keep, update_where, All, All-both, All-append, Distinct, Bool-cases,
}
use m8flow_bpmn_core.Model.Process.{Timestamp, ProcessInstance}
use m8flow_bpmn_core.Model.Task.{WorkItem}
use m8flow_bpmn_core.Model.Database.{Database}
use m8flow_bpmn_core.Session.{select, for_each}
use m8flow_bpmn_core.Session.Calls.{bind_ok}
use m8flow_bpmn_core.WorkItems.{task_model}
use m8flow_bpmn_core.WorkflowRuntime.Engine.{EngineTask}
use m8flow_bpmn_core.WorkflowRuntime.WorkItemRows.{
  is_ready_guid, sync_work_item, is_open_item, sync_inactive_work_items, state_of_task,
}
use m8flow_bpmn_core.WorkflowRuntime.WorkItemRows.Steps.{
  SameTasks, Has, Items, Has-later, closed, guids, settled, stays, closes, settled-id,
  update-middle,
}

All-nil {ℓ κ} : {A : Type ℓ} (P : A → A → Type κ) (xs : List A) → All (λ x. All (P x) []) xs
All-nil P [] = tt
All-nil P (x ∷ xs) = (tt, All-nil P xs)

module _ (p : ProcessInstance) (db : Database) (ready_manual : List EngineTask)
    (at : Timestamp) where
  -- The first call of the loop, on a row that is open: the row is settled in its place.
  sync-settles :
      (w : WorkItem) (done todo : List WorkItem) (d : Database)
      → d.work_items.rows ≡ done ++ (w ∷ todo)
      → All (λ y. ¬ (y.id ≡ w.id)) done
      → All (λ y. ¬ (y.id ≡ w.id)) todo
      → SameTasks db d
      → Has p d
      → is_open_item p.m8f_tenant_id p.id w ≡ true
      → Items
          (sync_work_item p (guids p db ready_manual at) at w)
          d
          (done ++ (settled p db ready_manual at w ∷ todo))
  unfolding settled
  sync-settles w done todo d rows h k same has open_now =
      elim (Bool-cases (is_ready_guid (guids p db ready_manual at) w.task_guid)) [
        | inl e ↦ (
          d,
          stays p db ready_manual at w d same.tasks e,
          record { tasks = refl; instances = refl },
          rows ∙ ap (λ x. done ++ (x ∷ todo)) (ground (arith, e)),
        )
        | inr e ↦
            let (d', call, frame, after) = closes p db ready_manual at w d same.tasks has e in
            let close = closed at (state_of_task (task_model db w)) in
            (
              d',
              call,
              frame,
              after
                  ∙ ap (update_where (λ x. x.id == w.id) close) rows
                  ∙ update-middle p db ready_manual at w close done todo h k
                  ∙ ap (λ x. done ++ (x ∷ todo)) (ground (arith, e, open_now)),
            )
      ]

  not_open-settled :
      (w : WorkItem)
      → is_open_item p.m8f_tenant_id p.id w ≡ false
      → settled p db ready_manual at w ≡ w
  unfolding settled
  not_open-settled w e = ground (arith, e)

  apart_later :
      (w : WorkItem) (done todo : List WorkItem)
      → All (λ x. All (λ y. ¬ (y.id ≡ x.id)) done) todo
      → All (λ y. ¬ (y.id ≡ w.id)) todo
      → All (λ x. All (λ y. ¬ (y.id ≡ x.id)) (done ++ (settled p db ready_manual at w ∷ []))) todo
  apart_later w done todo h k =
      All-both todo
        (λ x others differs.
          All-append _ done (settled p db ready_manual at w ∷ []) others
            ((λ same. differs (sym same ∙ settled-id p db ready_manual at w)), tt))
        h k

  -- The loop over the open items among the rows that are left.
  loop :
      (todo done : List WorkItem) (d : Database)
      → d.work_items.rows ≡ done ++ todo
      → All (λ x. All (λ y. ¬ (y.id ≡ x.id)) done) todo
      → Distinct (λ (x : WorkItem). x.id) todo
      → SameTasks db d
      → Has p d
      → Items
          (for_each
            (keep (is_open_item p.m8f_tenant_id p.id) todo)
            (sync_work_item p (guids p db ready_manual at) at))
          d
          (done ++ map (settled p db ready_manual at) todo)
  unfolding for_each keep
  loop [] done d rows apart distinct same has =
      (d, refl, record { tasks = refl; instances = refl }, rows)
  loop (w ∷ todo) done d rows (apart_w, apart) (ne, distinct) same has =
      let later = apart_later w done todo apart ne in
      elim (Bool-cases (is_open_item p.m8f_tenant_id p.id w)) [
        | inr e ↦
            let moved : d.work_items.rows
                ≡ (done ++ (settled p db ready_manual at w ∷ [])) ++ todo =
              rows
              ∙ ap (λ x. done ++ (x ∷ todo)) (sym (not_open-settled w e))
              ∙ sym (append_assoc done (settled p db ready_manual at w ∷ []) todo) in
            let (d', call, frame, after) =
              loop todo (done ++ (settled p db ready_manual at w ∷ [])) d moved later distinct same
                has in
            (
              d',
              ground (arith, e, call),
              frame,
              after
                  ∙ append_assoc done (settled p db ready_manual at w ∷ [])
                      (map (settled p db ready_manual at) todo),
            )
        | inl e ↦
            let (d1, first_call, frame1, rows1) =
              sync-settles w done todo d rows apart_w ne same has e in
            let (d', call, frame, after) =
              loop todo (done ++ (settled p db ready_manual at w ∷ [])) d1
                (rows1 ∙ sym (append_assoc done (settled p db ready_manual at w ∷ []) todo)) later
                distinct
                (record {
                  tasks = frame1.tasks ∙ same.tasks;
                  instances = frame1.instances ∙ same.instances;
                })
                (Has-later p d d1 frame1.instances has) in
            let rest =
              for_each (keep (is_open_item p.m8f_tenant_id p.id) todo)
                (sync_work_item p (guids p db ready_manual at) at) in
            let whole =
              bind_ok (sync_work_item p (guids p db ready_manual at) at w) (λ _. rest) d d1 tt
                first_call
              ∙ call in
            (
              d',
              ground (arith, e, whole),
              record {
                tasks = frame.tasks ∙ frame1.tasks;
                instances = frame.instances ∙ frame1.instances;
              },
              after
                  ∙ append_assoc done (settled p db ready_manual at w ∷ [])
                      (map (settled p db ready_manual at) todo),
            )
      ]

  -- Where the tenant has the instance and no two work items have one key, the synchronisation returns,
  -- and has settled every row in its place: an open item of the instance whose manual task the
  -- workflow does not have ready, on a row that is ready too, is closed with the state of its task;
  -- every other row, of this instance or of another, stays as it was.
  pub sync_inactive_work_items-settles :
      Has p db
      → Distinct (λ (x : WorkItem). x.id) db.work_items.rows
      → Items
          (sync_inactive_work_items p ready_manual at)
          db
          (map (settled p db ready_manual at) db.work_items.rows)
  unfolding sync_inactive_work_items select
  sync_inactive_work_items-settles has distinct =
      loop db.work_items.rows [] db refl (All-nil (λ x y. ¬ (y.id ≡ x.id)) db.work_items.rows)
        distinct (record { tasks = refl; instances = refl }) has
