-- ===== src/Tests/Items.antt =====
-- Claims and completions on the samples.
use m8flow_bpmn_core.Base.{ℕ, true, false, some, none, ◌≡◌, ◌≢◌, ◌↔◌, ◌⊎◌, refl, arith}
use m8flow_bpmn_core.Errors.{Error}
use m8flow_bpmn_core.Model.Task.{WorkItem}
use m8flow_bpmn_core.Model.Database.{Database}
use m8flow_bpmn_core.Session.{ok, err}
use m8flow_bpmn_core.TenantUsers.{ensure_user_belongs_to_tenant}
use m8flow_bpmn_core.Authorization.Commands.{task_complete_command}
use m8flow_bpmn_core.Authorization.Policy.{database_policy}
use m8flow_bpmn_core.WorkItems.{claim_work_item}
use m8flow_bpmn_core.Tasks.{is_potential_owner, authorize_task, claim_write, complete_check}
use m8flow_bpmn_core.Tasks.Claims.{item_at, HasKeys, claim_write-exclusive, claim_write-race}
use m8flow_bpmn_core.Tasks.Completion.{tenant_item, complete_check_iff}
use m8flow_bpmn_core.Tests.Samples.{sample, item_row, user_row}
use m8flow_bpmn_core.Tests.Evaluated.{evaluated}

abbrev open_item : WorkItem
open_item = item_row 1 1 "g1"

sample-HasKeys : HasKeys sample
sample-HasKeys =
    ((λ e. omega (arith, e), (λ e. omega (arith, e), tt)), ((λ e. omega (arith, e), tt), (tt, tt)))

abbrev after_claim : Database
after_claim = (claim_write "acme" open_item 1 sample).1

first_claims :
    claim_write "acme" open_item 1 sample ≡ (ok (claim_work_item 1 1000 open_item), after_claim)
unfolding evaluated
first_claims = refl

one_not_two : ◌≢◌ {A = ℕ} 1 2
one_not_two e = omega (arith, e)

claim_write-race_example :
    (claim_write "acme" open_item 2 after_claim).0 ≡ err Error.invalid_state_error
claim_write-race_example =
    claim_write-race "acme" "acme" open_item open_item 1 2 sample after_claim
      (claim_work_item 1 1000 open_item) sample-HasKeys one_not_two refl first_claims

claim_write-exclusive_example :
    ((claim_write "acme" open_item 2 sample).0 ≡ err Error.invalid_state_error)
    ⊎ ((w : WorkItem) × (db' : Database) × (item_at sample 1 ≡ some w)
        × (w.completed ≡ false)
        × (w.m8f_tenant_id ≡ "acme")
        × ((w.actual_owner_id ≡ none) ⊎ (w.actual_owner_id ≡ some 2))
        × (claim_write "acme" open_item 2 sample ≡ (ok (claim_work_item 2 1000 w), db'))
        × (item_at db' 1 ≡ some (claim_work_item 2 1000 w)))
claim_write-exclusive_example = claim_write-exclusive "acme" open_item 2 sample sample-HasKeys

member_one : ensure_user_belongs_to_tenant "acme" 1 after_claim ≡ (ok (user_row 1), after_claim)
unfolding evaluated
member_one = refl

claimed_found : tenant_item after_claim "acme" 1 ≡ some (claim_work_item 1 1000 open_item)
unfolding evaluated
claimed_found = refl

may_complete :
    authorize_task database_policy "acme" 1 task_complete_command
      (claim_work_item 1 1000 open_item)
      after_claim
    ≡ (ok tt, after_claim)
unfolding evaluated
may_complete = refl

complete_check_iff_example :
    (complete_check database_policy "acme" 1 1 after_claim
      ≡ (ok (claim_work_item 1 1000 open_item), after_claim))
    ↔ (((claim_work_item 1 1000 open_item).completed ≡ false)
        × (is_potential_owner after_claim "acme" (claim_work_item 1 1000 open_item).id 1 ≡ true)
        × ((claim_work_item 1 1000 open_item).actual_owner_id ≡ some 1))
complete_check_iff_example =
    complete_check_iff database_policy "acme" 1 1 after_claim (claim_work_item 1 1000 open_item)
      (user_row 1) member_one claimed_found may_complete
