-- ===== src/WorkflowRuntime/WorkItemRows/Steps.antt =====
-- One round of the loop over an instance's open work items.
use mathlib.Core.List.Memᴰ
use mathlib.Core.List.Memᴰ.{Memᴰ}
use m8flow_bpmn_core.Base.{
  String, true, false, not, ◌&&◌, Option, none, some, List, [], ◌∷◌, ◌++◌, map, ◌≡◌, inl, inr, refl,
  sym, ap, ◌∙◌, subst, arith, ◌==◌, Nat_Eq, String_Eq, eq_of_test, ==_refl, if◌then◌else◌, find,
  update_where, All, All-map, Option-cases, not_true, keep-nil, update_where-none, mem_of_keep,
}
use m8flow_bpmn_core.Model.Status.{TaskState}
use m8flow_bpmn_core.Model.Event.{TaskEventType}
use m8flow_bpmn_core.Model.Process.{Timestamp, ProcessInstance}
use m8flow_bpmn_core.Model.Task.{Task, WorkItem}
use m8flow_bpmn_core.Model.Database.{Database, Table}
use m8flow_bpmn_core.Session.{Action, ok, add, update, first}
use m8flow_bpmn_core.Session.Calls.{bind_ok}
use m8flow_bpmn_core.TenantUsers.Membership.{mem_of_member}
use m8flow_bpmn_core.WorkItems.{task_model, close_work_item}
use m8flow_bpmn_core.ProcessInstances.{
  is_instance, ensure_user_if_given, load_process_instance, record_process_instance_event,
}
use m8flow_bpmn_core.WorkflowRuntime.Engine.{EngineTask}
use m8flow_bpmn_core.WorkflowRuntime.WorkItemRows.{
  get_task, is_ready, has_ready_row, current_ready_manual_tasks, inactive_work_item_status,
  inactive_work_item_event_type, record_event_if, close_future_task, close_inactive_work_item,
  is_ready_guid, sync_item_on, sync_work_item, is_open_item, state_of_task,
}

pub mem_of_map :
    {A B : Type 0} (f : A → B) (xs : List A) (b : B)
    → Memᴰ b (map f xs)
    → (a : A) × Memᴰ a xs × (f a ≡ b)
mem_of_map f [] b m = absurd (Memᴰ.not-nil m)
mem_of_map f (x ∷ xs) b m = elim (Memᴰ.cases_cons m) [
  | inl same ↦ (x, Memᴰ.head refl, sym same)
  | inr later ↦ let (a, found, e) = mem_of_map f xs b later in (a, Memᴰ.tail found, e)
]

-- What the loop leaves alone, but for the work items.
pub record SameTasks (a b : Database) : Type 0 where
  pub tasks : b.tasks ≡ a.tasks
  pub instances : b.process_instances ≡ a.process_instances

-- The tenant has the instance.
abbrev pub Has : ProcessInstance → Database → Type 0
Has p db =
    (q : ProcessInstance) × (find (is_instance p.m8f_tenant_id p.id) db.process_instances.rows
      ≡ some q)

-- The call returns, with these work items.
abbrev pub Items : Action (Unit {0}) → Database → List WorkItem → Type 0
Items call db rows =
    (d : Database) × (call db ≡ (ok tt, d)) × SameTasks db d × (d.work_items.rows ≡ rows)

pub Has-later :
    (p : ProcessInstance) (a b : Database)
    → b.process_instances ≡ a.process_instances
    → Has p a
    → Has p b
Has-later p a b e (q, found) = (
  q,
  subst (λ (t : Table ProcessInstance). find (is_instance p.m8f_tenant_id p.id) t.rows ≡ some q)
      (sym e) found,
)

record_event_if-Items :
    (kind : Option TaskEventType) (p : ProcessInstance) (guid : Option String) (at : Timestamp)
    (db : Database)
    → Has p db
    → Items (record_event_if kind p guid at) db db.work_items.rows
unfolding record_event_if record_process_instance_event ensure_user_if_given load_process_instance
    first add
record_event_if-Items none p guid at db has =
    (db, refl, record { tasks = refl; instances = refl }, refl)
record_event_if-Items (some kind) p guid at db (q, found) = (
  (record_event_if (some kind) p guid at db).1,
  ground (arith, found),
  record { tasks = ground (arith, found); instances = ground (arith, found) },
  ground (arith, found),
)

close_future_task-Items :
    (behind : Option Task) (at : Timestamp) (db : Database)
    → Items (close_future_task behind at) db db.work_items.rows
unfolding close_future_task update
close_future_task-Items none at db = (db, refl, record { tasks = refl; instances = refl }, refl)
close_future_task-Items (some t) at db =
    ((close_future_task (some t) at db).1, refl, record { tasks = refl; instances = refl }, refl)

-- The item that the loop closes, as it is afterwards.
abbrev pub closed : Timestamp → Option TaskState → WorkItem → WorkItem
closed at state = close_work_item (inactive_work_item_status state) at none

pub close_inactive-Items :
    (p : ProcessInstance) (item : WorkItem) (state : Option TaskState) (at : Timestamp)
    (db : Database)
    → Has p db
    → Items
        (close_inactive_work_item p item state at)
        db
        (update_where (λ w. w.id == item.id) (closed at state) db.work_items.rows)
unfolding close_inactive_work_item update
close_inactive-Items p item state at db has =
    let rows = update_where (λ w. w.id == item.id) (closed at state) db.work_items.rows in
    let d1 = record db { work_items = record db.work_items { rows = rows } } in
    let future = close_future_task (task_model d1 item) at in
    let event = record_event_if (inactive_work_item_event_type state) p item.task_guid at in
    let (d2, e2, s2, r2) = close_future_task-Items (task_model d1 item) at d1 in
    let (d3, e3, s3, r3) =
      record_event_if-Items (inactive_work_item_event_type state) p item.task_guid at d2
        (Has-later p db d2 s2.instances has) in
    (
      d3,
      bind_ok future (λ _. event) d1 d2 tt e2 ∙ e3,
      record { tasks = s3.tasks ∙ s2.tasks; instances = s3.instances ∙ s2.instances },
      r3 ∙ r2,
    )

module _ (p : ProcessInstance) (db : Database) (ready_manual : List EngineTask)
    (at : Timestamp) where
  -- The keys of the tasks that are ready, as the loop begins with.
  abbrev pub guids : List String
  guids = map (λ t. t.id) (current_ready_manual_tasks db p.id ready_manual)

  -- What becomes of an item.
  unfoldable pub settled : WorkItem → WorkItem
  settled w =
      if is_open_item p.m8f_tenant_id p.id w && not (is_ready_guid guids w.task_guid)
      then closed at (state_of_task (task_model db w)) w
      else w

  ready_of_guid :
      (guid : String)
      → Memᴰ guid guids
      → (t : Task) × (get_task db guid ≡ some t) × (is_ready t.state ≡ true)
  unfolding current_ready_manual_tasks has_ready_row
  ready_of_guid guid m =
      let (x, kept, named) =
        mem_of_map (λ t. t.id) (current_ready_manual_tasks db p.id ready_manual) guid m in
      let (stored, holds) = mem_of_keep (has_ready_row db p.id) ready_manual x kept in
      elim (Option-cases (get_task db x.id)) [
        | inl e ↦ absurd (ground (arith, e, holds))
        | inr (t, e) ↦ (t, subst (λ g. get_task db g ≡ some t) named e, ground (arith, e, holds))
      ]

  found_behind :
      (w : WorkItem) (d : Database) (guid : Option String)
      → w.task_guid ≡ guid
      → d.tasks ≡ db.tasks
      → is_ready_guid guids guid ≡ true
      → (t : Task) × (task_model d w ≡ some t) × (is_ready t.state ≡ true)
  unfolding is_ready_guid task_model get_task
  found_behind w d none g same e = cc
  found_behind w d (some guid) g same e =
      let (t, found, ready) = ready_of_guid guid (mem_of_member guid guids e) in
      let later : find (λ x. x.guid == guid) d.tasks.rows ≡ some t =
        subst (λ (tab : Table Task). find (λ x. x.guid == guid) tab.rows ≡ some t) (sym same)
          found in
      (t, ground (arith, g, later), ready)

  -- A ready item's loop body does nothing.
  pub stays :
      (w : WorkItem) (d : Database)
      → d.tasks ≡ db.tasks
      → is_ready_guid guids w.task_guid ≡ true
      → sync_work_item p guids at w d ≡ (ok tt, d)
  unfolding sync_work_item sync_item_on
  stays w d same e =
      let (t, behind, ready) = found_behind w d w.task_guid refl same e in
      ground (arith, behind, ready, e)

  task_model_same :
      (w : WorkItem) (d : Database) → d.tasks ≡ db.tasks → task_model d w ≡ task_model db w
  unfolding task_model
  task_model_same w d same = rw same refl

  pub closes :
      (w : WorkItem) (d : Database)
      → d.tasks ≡ db.tasks
      → Has p d
      → is_ready_guid guids w.task_guid ≡ false
      → Items (sync_work_item p guids at w) d (
          update_where
            (λ x. x.id == w.id)
            (closed at (state_of_task (task_model db w)))
            d.work_items.rows)
  unfolding sync_work_item sync_item_on
  closes w d same has e =
      let (d', call, frame, rows) =
        close_inactive-Items p w (state_of_task (task_model d w)) at d has in
      (
        d',
        ground (arith, e, call),
        frame,
        rows
            ∙ ap
                (λ o.
                  update_where (λ x. x.id == w.id) (closed at (state_of_task o)) d.work_items.rows)
                (task_model_same w d same),
      )

  pub settled-id : (w : WorkItem) → (settled w).id ≡ w.id
  unfolding settled close_work_item
  settled-id w = ground arith

  pub update-middle :
      (w : WorkItem) (f : WorkItem → WorkItem) (done todo : List WorkItem)
      → All (λ y. ¬ (y.id ≡ w.id)) done
      → All (λ y. ¬ (y.id ≡ w.id)) todo
      → update_where (λ x. x.id == w.id) f (done ++ (w ∷ todo)) ≡ done ++ (f w ∷ todo)
  unfolding update_where
  update-middle w f [] todo h k =
      let none_later =
        update_where-none (λ x. x.id == w.id) f todo
          (keep-nil _ todo
            (All-map todo (λ y ne. not_true _ (λ same. ne (eq_of_test y.id w.id same))) k)) in
      ground (arith, ==_refl w.id, none_later)
  update-middle w f (y ∷ done) todo (ne, h) k =
      let differs : (y.id == w.id) ≡ false = not_true _ (λ same. ne (eq_of_test y.id w.id same)) in
      ground (arith, differs, update-middle w f done todo h k)
