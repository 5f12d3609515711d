-- ===== src/Tests/Hosts.antt =====
-- Queries of a host on the samples.
use m8flow_bpmn_core.Base.{none, some, [], ◌∷◌, ◌≡◌, refl}
use m8flow_bpmn_core.Session.{ok}
use m8flow_bpmn_core.Session.Ensures.{Ensures}
use m8flow_bpmn_core.Application.Queries.{
  query_tenant_id, work_items, execute_query, get_pending_tasks_query,
}
use m8flow_bpmn_core.Application.Queries.Isolation.{Same, IsOfTenant, execute_query-IsOfTenant}
use m8flow_bpmn_core.Tests.Samples.{sample, item_row}
use m8flow_bpmn_core.Tests.Evaluated.{evaluated}

execute_query-IsOfTenant_example :
    Ensures Same
      (IsOfTenant (query_tenant_id (get_pending_tasks_query "acme" (some 2))))
      (execute_query (get_pending_tasks_query "acme" (some 2)))
      sample
execute_query-IsOfTenant_example =
    execute_query-IsOfTenant (get_pending_tasks_query "acme" (some 2)) sample

pending_tasks :
    execute_query (get_pending_tasks_query "acme" (some 2)) sample
    ≡ (ok (work_items (item_row 1 1 "g1" ∷ [])), sample)
unfolding evaluated
pending_tasks = refl

other_tenant :
    execute_query (get_pending_tasks_query "beta" none) sample ≡ (ok (work_items []), sample)
unfolding evaluated
other_tenant = refl
