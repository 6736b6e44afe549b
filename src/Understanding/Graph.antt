-- ===== src/Understanding/Graph.antt =====
-- src/mini_agent/core/request_processing.py: the identities for a candidate, the reason to reject it, and
-- the first task graph of an accepted one.
pub mod Built
pub mod Reasons
use mini_agent.Understanding.Span.{FailureCode, durable_closure_commit_failed}
use mini_agent.Prelude.Texts.{Uuid, Text}
use mini_agent.Prelude.{
  [], ◌∷◌, nat_eq, list_eq, option_eq, traverse, List, Result, Bool, is_ok, ◌==◌, all, ◌>>◌, ◌>>=◌,
  ◌&&◌, true, false, Option, raise_if, is_none, not, is_empty, if◌then◌else◌, none, distinct, any,
  or_raise, some, contains, ok, err,
}
use mini_agent.Clock.{time_eq, DateTime}
use mini_agent.Tasks.{
  task_status_eq, active, TaskRecord, InputBinding, CustomerContext, RequestUnitRecord,
  validate_binding, validate_task, validate_request_unit,
}
use mini_agent.Order.Number.{normalize_text}
use mini_agent.Understanding.Contracts.{
  field, TaskDeltaCandidate, ContractError, InputCandidate, is_user_claim, repeated_candidate,
  unlike_graph, other_time,
}
use mini_agent.Understanding.Output.{
  Uncertainty, missing_reference, RequestUnderstandingOutput, multiple_plausible_references,
}
use mini_agent.Understanding.Durable.{
  accept, reject, AcceptedTaskDelta, validate_accepted, RejectionReason, required_input_missing,
  reference_unresolved, reference_ambiguous, input_value_invalid,
}

-- `InitialTaskIdentityAllocationV2`
pub record IdentityAllocation : Type 0 where
  pub candidate_ref : Uuid
  pub accepted_delta_id : Uuid
  pub task_id : Uuid
  pub request_unit_id : Uuid
  pub binding_id : Uuid

abbrev pub generated : IdentityAllocation → List Uuid
generated a = a.accepted_delta_id ∷ a.task_id ∷ a.request_unit_id ∷ a.binding_id ∷ []

-- `generated_identities_are_distinct`
unfoldable pub validate_allocation : IdentityAllocation → Result ContractError IdentityAllocation
validate_allocation a = do
  raise_if (not (distinct (generated a))) repeated_candidate
  raise_if (contains a.candidate_ref (generated a)) repeated_candidate
  ok a

-- `InitialAcceptedTaskGraphV2`
pub record TaskGraph : Type 0 where
  pub accepted_delta : AcceptedTaskDelta
  pub input_binding : InputBinding
  pub task : TaskRecord
  pub request_unit : RequestUnitRecord

abbrev pub graph_identities : TaskGraph → List Uuid
graph_identities g =
    g.accepted_delta.accepted_delta_id ∷ g.task.task_id ∷ g.request_unit.request_unit_id
    ∷ g.input_binding.binding_id ∷ []

unfoldable pub graph_records_valid : TaskGraph → Bool
graph_records_valid g =
    is_ok (validate_accepted g.accepted_delta)
    && is_ok (validate_binding g.input_binding)
    && is_ok (validate_task g.task)
    && is_ok (validate_request_unit g.request_unit)

unfoldable pub delta_initial : TaskGraph → Bool
delta_initial g =
    g.accepted_delta.task_id == g.task.task_id
    && is_none g.accepted_delta.base_task_state_version
    && g.accepted_delta.result_task_state_version == 1
    && g.accepted_delta.input_binding_refs == g.input_binding.binding_id ∷ []

unfoldable pub binding_initial : TaskGraph → Bool
binding_initial g =
    g.input_binding.source_refs == g.accepted_delta.message_ref ∷ []
    && is_none g.input_binding.supersedes

unfoldable pub task_initial : TaskRecord → Bool
task_initial t = t.status == active && t.state_version == 1 && is_none t.last_outcome_ref

unfoldable pub unit_initial : TaskGraph → Bool
unit_initial g =
    u.task_id == g.task.task_id
    && u.goal_text == g.accepted_delta.goal_text
    && u.goal_source_refs == g.accepted_delta.message_ref ∷ []
    && u.input_binding_refs == g.input_binding.binding_id ∷ []
    && u.status == active
    && u.state_version == 1
    && is_none u.contextualization_ref
    && is_empty u.constraint_refs
    && is_empty u.dependency_refs
    && is_empty u.open_questions
    && is_empty u.observation_refs
    && is_empty u.evidence_binding_refs
    && is_none u.pending_action_ref
    && is_empty u.result_refs
  where
    open g use {request_unit as u}

-- `len({...}) != 1`: all equal the first.
unfoldable pub one_time : TaskGraph → Bool
one_time g =
    all (λ t. t == g.accepted_delta.accepted_at)
      (g.input_binding.created_at ∷ g.input_binding.updated_at ∷ g.task.created_at
        ∷ g.task.updated_at ∷ g.request_unit.created_at ∷ g.request_unit.updated_at ∷ [])

-- `graph_is_exact_initial_projection`
unfoldable pub validate_graph : TaskGraph → Result ContractError TaskGraph
unfolding graph_records_valid delta_initial binding_initial task_initial unit_initial one_time
validate_graph g = do
  raise_if (not (graph_records_valid g)) field
  raise_if (not (distinct (graph_identities g))) repeated_candidate
  raise_if (not (delta_initial g)) unlike_graph
  raise_if (not (binding_initial g)) unlike_graph
  raise_if (not (task_initial g.task)) unlike_graph
  raise_if (not (unit_initial g)) unlike_graph
  raise_if (not (one_time g)) other_time
  ok g

-- `_candidate_rejection_reason_v2`
abbrev pub is_missing : Uncertainty → Bool
is_missing u = elim u.reason_code [
  | missing_reference ↦ true
  | multiple_plausible_references ↦ false
]

abbrev pub is_ambiguous : Uncertainty → Bool
is_ambiguous u = elim u.reason_code [
  | missing_reference ↦ false
  | multiple_plausible_references ↦ true
]

unfoldable pub input_reason : Uuid → List InputCandidate → Option RejectionReason
input_reason message_ref (c ∷ []) =
    if not (is_user_claim c.authority && c.source_ref == message_ref)
    then some required_input_missing
    else elim (normalize_text c.candidate_value) [ ok n ↦ none | err e ↦ some input_value_invalid ]
input_reason message_ref cs = some required_input_missing

unfoldable pub rejection_reason :
    TaskDeltaCandidate → RequestUnderstandingOutput → Option RejectionReason
unfolding input_reason
rejection_reason d o =
    if any is_missing o.contextualization.uncertainties
    then some reference_unresolved
    else if any is_ambiguous o.contextualization.uncertainties
    then some reference_ambiguous
    else input_reason o.message_ref d.input_candidates

-- The records of `_build_initial_task_graph_v2`
unfoldable pub initial_graph :
    TaskDeltaCandidate → IdentityAllocation → CustomerContext → Uuid → Text → DateTime → TaskGraph
initial_graph d a customer message_ref order_id now = record {
  accepted_delta = record {
    accepted_delta_id = a.accepted_delta_id;
    candidate_ref = d.candidate_id;
    message_ref = message_ref;
    goal_text = d.goal_patch;
    input_binding_refs = a.binding_id ∷ [];
    accepted_at = now;
    task_id = a.task_id;
    base_task_state_version = none;
    result_task_state_version = 1;
  };
  input_binding = record {
    binding_id = a.binding_id;
    normalized_value = order_id;
    source_refs = message_ref ∷ [];
    created_at = now;
    updated_at = now;
    supersedes = none;
  };
  task = record {
    task_id = a.task_id;
    owner_customer_id = customer.customer_id;
    status = active;
    state_version = 1;
    created_at = now;
    updated_at = now;
    last_outcome_ref = none;
  };
  request_unit = record {
    request_unit_id = a.request_unit_id;
    task_id = a.task_id;
    goal_text = d.goal_patch;
    goal_source_refs = message_ref ∷ [];
    contextualization_ref = none;
    constraint_refs = [];
    dependency_refs = [];
    input_binding_refs = a.binding_id ∷ [];
    open_questions = [];
    observation_refs = [];
    evidence_binding_refs = [];
    pending_action_ref = none;
    result_refs = [];
    status = active;
    state_version = 1;
    created_at = now;
    updated_at = now;
  };
}

-- `_build_initial_task_graph_v2`
unfoldable pub build_graph :
    TaskDeltaCandidate
    → IdentityAllocation
    → CustomerContext
    → Uuid
    → Text
    → DateTime
    → Result FailureCode TaskGraph
unfolding initial_graph validate_graph
build_graph d a customer message_ref order_id now =
    or_raise (validate_graph (initial_graph d a customer message_ref order_id now))
      durable_closure_commit_failed
