-- ===== src/Application/Queries/Isolation.antt =====
-- What queries do to the database, and whose rows they return.
use m8flow_bpmn_core.Base.{
  ℕ, String, Bool, true, false, ◌&&◌, Option, none, some, List, ◌≡◌, inl, inr, refl, ◌∙◌, subst,
  arith, ◌==◌, Nat_Eq, String_Eq, eq_of_test, keep, find-holds, All, All-keep, All-map,
}
use m8flow_bpmn_core.Model.Status.{ProcessInstanceStatus, status_value}
use m8flow_bpmn_core.Model.Task.{WorkItem}
use m8flow_bpmn_core.Model.Database.{Database}
use m8flow_bpmn_core.Session.{Action, TableRef, ok, pure, gets, lift, ◌>>=◌, select}
use m8flow_bpmn_core.Session.Calls.{Reads, bind-Reads, lift-Reads}
use m8flow_bpmn_core.Session.Ensures.{
  IsOrder, Ensures, Anything, ok_injective, bind-Ensures, pure-Ensures, gets-Ensures,
  Ensures-outcome,
}
use m8flow_bpmn_core.Tables.{
  work_items as work_item_table, process_instances, process_instance_events,
  process_instance_metadata,
}
use m8flow_bpmn_core.TenantUsers.{ensure_user_belongs_to_tenant}
use m8flow_bpmn_core.ProcessInstances.{
  is_instance, load_process_instance, list_process_instances, get_process_instance_events,
  get_process_instance_metadata, list_error_process_instances, list_suspended_process_instances,
  list_terminated_process_instances, normalize_status, sort_events, sort_metadata,
}
use m8flow_bpmn_core.ProcessInstances.Lifecycle.Access.{
  load_process_instance-cases, ensure_user_belongs_to_tenant-Reads,
}
use m8flow_bpmn_core.Tasks.{is_open_item, is_potential_owner, get_pending_tasks}
use m8flow_bpmn_core.Application.Queries.Sorted.{All-sort_events, All-sort_metadata}
use m8flow_bpmn_core.Application.Queries.{
  Query, query_tenant_id, Answer, work_items, events, metadata, instance_row, instances,
  execute_query, get_pending_tasks_query, get_process_instance_events_query,
  get_process_instance_metadata_query, get_process_instance_query,
  list_error_process_instances_query, list_process_instances_query,
  list_suspended_process_instances_query, list_terminated_process_instances_query,
}

-- The database is as it was.
abbrev pub Same : Database → Database → Type 0
Same a b = b ≡ a

reading : IsOrder Same
reading = record { stays = λ a. refl; trans = λ a b c r s. s ∙ r }

-- Every row of the answer is of the tenant.
abbrev pub IsOfTenant : String → Answer → Type 0
IsOfTenant t (work_items ws) = All (λ w. w.m8f_tenant_id ≡ t) ws
IsOfTenant t (events es) = All (λ e. e.m8f_tenant_id ≡ t) es
IsOfTenant t (metadata ms) = All (λ m. m.m8f_tenant_id ≡ t) ms
IsOfTenant t (instance_row p) = p.m8f_tenant_id ≡ t
IsOfTenant t (instances ps) = All (λ p. p.m8f_tenant_id ≡ t) ps

left_true : (a b : Bool) → (a && b) ≡ true → a ≡ true
left_true true b h = refl
left_true false b h = cc

select-Same :
    {R : Type 0} (tenant_of : R → String) (table : TableRef R) (selects : R → Bool) (t : String)
    (db : Database)
    → ((r : R) → selects r ≡ true → (tenant_of r == t) ≡ true)
    → Ensures Same (λ rows. All (λ r. tenant_of r ≡ t) rows) (select table selects) db
unfolding select
select-Same {R} tenant_of table selects t db own =
    let rows : List R = keep selects (table.get db).rows in
    let all_own : All (λ r. tenant_of r ≡ t) rows =
      All-map rows (λ r h. eq_of_test (tenant_of r) t (own r h))
        (All-keep selects (table.get db).rows) in
    Ensures-outcome (select table selects) db {out = (ok rows, db)} refl refl
      λ found h. subst (λ rs. All (λ r. tenant_of r ≡ t) rs) (ok_injective h) all_own

Reads-Ensures :
    {A : Type 0} (call : Action A) (db : Database) → Reads call db → Ensures Same Anything call db
Reads-Ensures call db (inl (e, h)) = Ensures-outcome call db h refl (λ a r. tt)
Reads-Ensures call db (inr (a, h)) = Ensures-outcome call db h refl (λ a r. tt)

load-Same :
    (t : String) (i : ℕ) (db : Database)
    → Ensures Same (λ p. p.m8f_tenant_id ≡ t) (load_process_instance t i) db
unfolding is_instance
load-Same t i db = elim (load_process_instance-cases t i db) [
  | inl h ↦
      Ensures-outcome (load_process_instance t i) db h refl (λ p r. absurd (ground (arith, r)))
  | inr (p, found, h) ↦ Ensures-outcome (load_process_instance t i) db h refl λ q r.
      let holds = find-holds (is_instance t i) db.process_instances.rows p found in
      subst (λ x. x.m8f_tenant_id ≡ t) (ok_injective r) (eq_of_test _ t (left_true _ _ holds))
]

-- A listing of an instance's rows: the instance is loaded, and the rows are selected and sorted.
listing-Same :
    {R : Type 0} (tenant_of : R → String) (table : TableRef R) (selects : R → Bool)
    (sort : List R → List R) (t : String) (i : ℕ) (db : Database)
    → ((r : R) → selects r ≡ true → (tenant_of r == t) ≡ true)
    → ((rs : List R) → All (λ r. tenant_of r ≡ t) rs → All (λ r. tenant_of r ≡ t) (sort rs))
    → Ensures Same
        (λ rs. All (λ r. tenant_of r ≡ t) rs)
        ((load_process_instance t i >>= λ _. pure tt) >>= λ _.
          (select table selects >>= λ rs. pure (sort rs)))
        db
listing-Same {R} tenant_of table selects sort t i db own sorted =
    let sorted_rows = λ (rs : List R). pure (sort rs) in
    bind-Ensures reading (load_process_instance t i >>= λ _. pure tt)
      (λ _. select table selects >>= sorted_rows) db
      (bind-Ensures reading (load_process_instance t i) (λ _. pure tt) db (load-Same t i db)
        (λ p d r h. pure-Ensures reading Anything tt d tt))
      λ u d r k.
        bind-Ensures reading (select table selects) sorted_rows d
          (select-Same tenant_of table selects t d own)
          λ rs d' r' h.
            pure-Ensures reading (λ rows. All (λ x. tenant_of x ≡ t) rows) (sort rs) d'
              (sorted rs h)

status-Same :
    (t : String) (status : Option String) (db : Database)
    → Ensures Same (λ ps. All (λ p. p.m8f_tenant_id ≡ t) ps) (list_process_instances t status) db
unfolding list_process_instances
status-Same t none db =
    select-Same (λ p. p.m8f_tenant_id) process_instances (λ p. p.m8f_tenant_id == t) t db (λ p h. h)
status-Same t (some value) db =
    bind-Ensures reading (lift (normalize_status value)) _ db
      (Reads-Ensures _ db (lift-Reads (normalize_status value) db))
      λ s d r k. select-Same (λ p. p.m8f_tenant_id) process_instances _ t d (λ p h. left_true _ _ h)

pending-Same :
    (t : String) (user : Option ℕ) (db : Database)
    → Ensures Same (λ ws. All (λ w. w.m8f_tenant_id ≡ t) ws) (get_pending_tasks t user) db
unfolding get_pending_tasks is_open_item
pending-Same t none db =
    select-Same (λ w. w.m8f_tenant_id) work_item_table (is_open_item t) t db
      (λ w h. left_true _ _ h)
pending-Same t (some u) db =
    bind-Ensures reading (ensure_user_belongs_to_tenant t u >>= λ _. pure tt)
      (λ _. gets (λ x. x) >>= select_own) db
      (Reads-Ensures _ db (
        bind-Reads (ensure_user_belongs_to_tenant t u) (λ _. pure tt) db
          (ensure_user_belongs_to_tenant-Reads t u db) (λ a. inr (tt, refl))))
      λ user d r k.
        bind-Ensures reading (gets (λ x. x)) select_own d
          (gets-Ensures reading Anything (λ x. x) d tt)
          λ x d' r' k'.
            select-Same (λ w. w.m8f_tenant_id) work_item_table
              (λ w. is_open_item t w && is_potential_owner x t w.id u) t d'
              (λ w h. left_true _ _ (left_true _ _ h))
  where
    select_own : Database → Action (List WorkItem)
    select_own x = select work_item_table (λ w. is_open_item t w && is_potential_owner x t w.id u)

-- The answer of a call whose rows are of the tenant.
answer-Same :
    {A : Type 0} (P : A → Type 0) (t : String) (answer : A → Answer) (call : Action A)
    (db : Database)
    → Ensures Same P call db
    → ((a : A) → P a → IsOfTenant t (answer a))
    → Ensures Same (IsOfTenant t) (call >>= λ a. pure (answer a)) db
answer-Same P t answer call db h k =
    bind-Ensures reading call (λ a. pure (answer a)) db h
      (λ a d r p. pure-Ensures reading (IsOfTenant t) (answer a) d (k a p))

-- A query changes nothing in the database, whether it returns or raises, and every row that it
-- returns is of the query's tenant.
pub execute_query-IsOfTenant :
    (q : Query) (db : Database) → Ensures Same (IsOfTenant (query_tenant_id q)) (execute_query q) db
unfolding execute_query query_tenant_id get_process_instance_events get_process_instance_metadata
    list_error_process_instances list_suspended_process_instances list_terminated_process_instances
execute_query-IsOfTenant (get_pending_tasks_query t u) db =
    answer-Same _ t work_items (get_pending_tasks t u) db (pending-Same t u db) (λ a h. h)
execute_query-IsOfTenant (get_process_instance_events_query t i) db =
    answer-Same _ t events _ db
      (listing-Same (λ e. e.m8f_tenant_id) process_instance_events
        (λ e. e.m8f_tenant_id == t && e.process_instance_id == i) sort_events t i db
        (λ e h. left_true _ _ h) (All-sort_events t))
      (λ a h. h)
execute_query-IsOfTenant (get_process_instance_metadata_query t i) db =
    answer-Same _ t metadata _ db
      (listing-Same (λ m. m.m8f_tenant_id) process_instance_metadata
        (λ m. m.m8f_tenant_id == t && m.process_instance_id == i) sort_metadata t i db
        (λ m h. left_true _ _ h) (All-sort_metadata t))
      (λ a h. h)
execute_query-IsOfTenant (get_process_instance_query t i) db =
    answer-Same _ t instance_row (load_process_instance t i) db (load-Same t i db) (λ a h. h)
execute_query-IsOfTenant (list_error_process_instances_query t) db =
    answer-Same _ t instances _ db
      (status-Same t (some (status_value ProcessInstanceStatus.error)) db) (λ a h. h)
execute_query-IsOfTenant (list_process_instances_query t status) db =
    answer-Same _ t instances _ db (status-Same t status db) (λ a h. h)
execute_query-IsOfTenant (list_suspended_process_instances_query t) db =
    answer-Same _ t instances _ db
      (status-Same t (some (status_value ProcessInstanceStatus.suspended)) db) (λ a h. h)
execute_query-IsOfTenant (list_terminated_process_instances_query t) db =
    answer-Same _ t instances _ db
      (status-Same t (some (status_value ProcessInstanceStatus.terminated)) db) (λ a h. h)
