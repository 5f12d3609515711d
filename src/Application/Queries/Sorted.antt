-- ===== src/Application/Queries/Sorted.antt =====
-- The rows of sorted listings.
use m8flow_bpmn_core.Base.{String, List, [], ◌∷◌, ◌≡◌, inl, inr, All, Bool-cases}
use m8flow_bpmn_core.Model.Process.{ProcessInstanceEvent, ProcessInstanceMetadata}
use m8flow_bpmn_core.ProcessInstances.{
  event_before, insert_event, sort_events, metadata_before, insert_metadata, sort_metadata,
}

-- A sorted listing has the rows that were selected.
All-insert_event :
    (t : String) (e : ProcessInstanceEvent) (es : List ProcessInstanceEvent)
    → e.m8f_tenant_id ≡ t
    → All (λ x. x.m8f_tenant_id ≡ t) es
    → All (λ x. x.m8f_tenant_id ≡ t) (insert_event e es)
unfolding insert_event
All-insert_event t e [] p h = (p, tt)
All-insert_event t e (f ∷ fs) p (q, h) = elim (Bool-cases (event_before f e)) [
  | inl b ↦ rw b (q, All-insert_event t e fs p h)
  | inr b ↦ rw b (p, (q, h))
]

pub All-sort_events :
    (t : String) (es : List ProcessInstanceEvent)
    → All (λ x. x.m8f_tenant_id ≡ t) es
    → All (λ x. x.m8f_tenant_id ≡ t) (sort_events es)
unfolding sort_events
All-sort_events t [] h = tt
All-sort_events t (e ∷ es) (p, h) = All-insert_event t e (sort_events es) p (All-sort_events t es h)

All-insert_metadata :
    (t : String) (m : ProcessInstanceMetadata) (ms : List ProcessInstanceMetadata)
    → m.m8f_tenant_id ≡ t
    → All (λ x. x.m8f_tenant_id ≡ t) ms
    → All (λ x. x.m8f_tenant_id ≡ t) (insert_metadata m ms)
unfolding insert_metadata
All-insert_metadata t m [] p h = (p, tt)
All-insert_metadata t m (n ∷ ns) p (q, h) = elim (Bool-cases (metadata_before n m)) [
  | inl b ↦ rw b (q, All-insert_metadata t m ns p h)
  | inr b ↦ rw b (p, (q, h))
]

pub All-sort_metadata :
    (t : String) (ms : List ProcessInstanceMetadata)
    → All (λ x. x.m8f_tenant_id ≡ t) ms
    → All (λ x. x.m8f_tenant_id ≡ t) (sort_metadata ms)
unfolding sort_metadata
All-sort_metadata t [] h = tt
All-sort_metadata t (m ∷ ms) (p, h) =
    All-insert_metadata t m (sort_metadata ms) p (All-sort_metadata t ms h)
