-- ===== src/Tests/Lanes.antt =====
-- Lanes and their groups on the samples. The texts of these runs are in lower case already.
use mathlib.Core.List.Memᴰ.{Memᴰ}
use m8flow_bpmn_core.Base.{
  All, String, ◌≤◌, ◌<◌, none, some, List, [], ◌∷◌, ◌≡◌, ◌↔◌, ◌⊎◌, refl, find,
}
use m8flow_bpmn_core.Model.Json.{Value, Fields, text, array, end, field, nil, cons, get}
use m8flow_bpmn_core.Model.Status.{ProcessInstanceStatus}
use m8flow_bpmn_core.Model.Permission.{Group}
use m8flow_bpmn_core.Model.Process.{ProcessInstance}
use m8flow_bpmn_core.Session.{ok}
use m8flow_bpmn_core.LaneAssignment.{
  normalized, normalized_tenant, LaneTexts, resolve_lane_assignment_id, lane_group_identifier,
  validate_initiator_lanes,
}
use m8flow_bpmn_core.LaneAssignment.Groups.{has_id, find_or_create_lane_group}
use m8flow_bpmn_core.LaneAssignment.Owners.{assign_work_item_potential_owners}
use m8flow_bpmn_core.LaneAssignment.GroupKeys.{
  resolve_lane_assignment_id_bounds, find_or_create_lane_group-again,
  find_or_create_lane_group-foreign,
}
use m8flow_bpmn_core.LaneAssignment.Legacy.{IsNamed}
use m8flow_bpmn_core.LaneAssignment.Validation.{IsInitiatorValue, validate_initiator_lanes_iff}
use m8flow_bpmn_core.LaneAssignment.Assigned.{
  AddsOwners, assign_work_item_potential_owners-AddsOwners,
}
use m8flow_bpmn_core.Tests.Samples.{sample, user_group, instance_row}
use m8flow_bpmn_core.Tests.Evaluated.{evaluated}

abbrev lower_case : LaneTexts
lower_case = record { lower = λ s. s; lower_trim = λ s. s; hexdigest = λ s. "c0ffee11ab" }

abbrev instance : ProcessInstance
instance = instance_row 1 ProcessInstanceStatus.user_input_required

-- The lane's owner is user 1, by name; the initiator alone has the lane of the initiator.
abbrev properties : Fields
properties =
    field "initiator_lanes" (array (cons (text "requester") nil))
      (field "lane_owners" (Value.object (field "review" (array (cons (text "u") nil)) end)) end)

abbrev lanes : List String
lanes = "review" ∷ "requester" ∷ []

assign_work_item_potential_owners-AddsOwners_example :
    AddsOwners sample instance 3
      (assign_work_item_potential_owners lower_case instance 3
        (text "review")
        Value.null
        (some properties)
        sample).1
assign_work_item_potential_owners-AddsOwners_example =
    assign_work_item_potential_owners-AddsOwners lower_case instance 3 (text "review") Value.null
      (some properties) sample

validate_initiator_lanes_iff_example :
    (validate_initiator_lanes lower_case properties lanes ≡ ok tt) ↔ (
      (get "initiator_lanes" properties ≡ none)
      ⊎ ((raw : Value) × (get "initiator_lanes" properties ≡ some raw)
          × IsInitiatorValue lower_case properties lanes raw))
validate_initiator_lanes_iff_example = validate_initiator_lanes_iff lower_case properties lanes

requester_allowed : validate_initiator_lanes lower_case properties lanes ≡ ok tt
unfolding evaluated
requester_allowed = refl

one_lane : normalized lower_case "review" ≡ normalized lower_case " review "
unfolding evaluated
one_lane = refl

one_tenant :
    normalized_tenant lower_case (some "acme") ≡ normalized_tenant lower_case (some "acme ")
unfolding evaluated
one_tenant = refl

resolve_lane_assignment_id_bounds_example :
    (1 ≤ resolve_lane_assignment_id lower_case "review" (some "acme"))
    × (resolve_lane_assignment_id lower_case "review" (some "acme") < 2147483648)
    × (resolve_lane_assignment_id lower_case "review" (some "acme")
        ≡ resolve_lane_assignment_id lower_case " review " (some "acme "))
resolve_lane_assignment_id_bounds_example =
    resolve_lane_assignment_id_bounds lower_case "review" " review " (some "acme") (some "acme ")
      one_lane one_tenant

lane_key : resolve_lane_assignment_id lower_case "review" (some "acme") ≡ 1090514449
unfolding evaluated
lane_key = refl

find_or_create_lane_group-again_example :
    find_or_create_lane_group lower_case "acme" "review"
      (find_or_create_lane_group lower_case "acme" "review" sample).1
    ≡ find_or_create_lane_group lower_case "acme" "review" sample
find_or_create_lane_group-again_example =
    find_or_create_lane_group-again lower_case "acme" "review" sample

not_made :
    find
      (has_id (
        resolve_lane_assignment_id lower_case
          (lane_group_identifier lower_case "user" "acme")
          (some "beta")))
      sample.groups.rows
    ≡ none
unfolding evaluated
not_made = refl

named : user_group.identifier ≡ some (lane_group_identifier lower_case "user" "acme")
unfolding evaluated
named = refl

find_or_create_lane_group-foreign_example :
    (h : Group) × Memᴰ h sample.groups.rows
    × IsNamed lower_case (lane_group_identifier lower_case "user" "acme") h
    × All
        (λ k.
          (¬ IsNamed lower_case (lane_group_identifier lower_case "user" "acme") k) ⊎ (h.id ≤ k.id))
        sample.groups.rows
    × (find_or_create_lane_group lower_case "beta"
          (lane_group_identifier lower_case "user" "acme")
          sample
        ≡ (ok (some h), sample))
find_or_create_lane_group-foreign_example =
    find_or_create_lane_group-foreign lower_case "beta" "acme" "user" user_group sample not_made
      (Memᴰ.head refl) named refl
