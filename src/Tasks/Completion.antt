-- ===== src/Tasks/Completion.antt =====
-- Who may complete a work item.
use m8flow_bpmn_core.Base.{
  ℕ, String, true, false, ◌&&◌, Option, some, ◌≡◌, ◌↔◌, inl, inr, ap, ◌∙◌, arith, ◌==◌, Nat_Eq,
  String_Eq, eq_of_test, Bool-cases, Option-cases, find,
}
use m8flow_bpmn_core.Model.Tenancy.{User}
use m8flow_bpmn_core.Model.Task.{WorkItem}
use m8flow_bpmn_core.Model.Database.{Database}
use m8flow_bpmn_core.Session.{ok, first}
use m8flow_bpmn_core.TenantUsers.{ensure_user_belongs_to_tenant}
use m8flow_bpmn_core.Authorization.Commands.{task_complete_command}
use m8flow_bpmn_core.Authorization.Policy.{AuthorizationPolicy}
use m8flow_bpmn_core.Tasks.{
  is_potential_owner, load_work_item, user_is_assigned, authorize_task, complete_check,
}

-- The row that a tenant sees under a key.
abbrev pub tenant_item : Database → String → ℕ → Option WorkItem
tenant_item db t id = find (λ (w : WorkItem). w.m8f_tenant_id == t && w.id == id) db.work_items.rows

-- For a member of the tenant and an item of the tenant that the policy admits, the checks of a
-- completion pass exactly when the item is open, and the user is one of its potential owners and has
-- claimed it.
pub complete_check_iff :
    (policy : AuthorizationPolicy) (t : String) (id u : ℕ) (db : Database) (item : WorkItem)
    (user : User)
    → ensure_user_belongs_to_tenant t u db ≡ (ok user, db)
    → tenant_item db t id ≡ some item
    → authorize_task policy t u task_complete_command item db ≡ (ok tt, db)
    → (complete_check policy t id u db ≡ (ok item, db)) ↔ (
        (item.completed ≡ false)
        × (is_potential_owner db t item.id u ≡ true)
        × (item.actual_owner_id ≡ some u))
unfolding complete_check load_work_item user_is_assigned first
complete_check_iff policy t id u db item user member found allowed =
    elim (Bool-cases item.completed) [
      | inl done ↦ (
        λ h. ground (arith, member, found, allowed, done, h),
        λ (is_open, _, _). ground (arith, done, is_open),
      )
      | inr is_open ↦ elim (Bool-cases (is_potential_owner db t item.id u)) [
        | inr stranger ↦ (
          λ h. ground (arith, member, found, allowed, is_open, stranger, h),
          λ (_, owner, _). ground (arith, owner, stranger),
        )
        | inl candidate ↦ elim (Option-cases item.actual_owner_id) [
          | inl unclaimed ↦ (
            λ h. ground (arith, member, found, allowed, is_open, candidate, unclaimed, h),
            λ (_, _, owner). ground (arith, owner, unclaimed),
          )
          | inr (v, claimed) ↦ elim (Bool-cases (v == u)) [
            | inl same ↦ (
              λ _. (is_open, candidate, claimed ∙ ap some (eq_of_test v u same)),
              λ _. ground (arith, member, found, allowed, is_open, candidate, claimed, same),
            )
            | inr other ↦ (
              λ h. ground (arith, member, found, allowed, is_open, candidate, claimed, other, h),
              λ (_, _, owner). ground (arith, owner, claimed, other),
            )
          ]
        ]
      ]
    ]
