-- ===== src/Understanding/Revalidation.antt =====
-- `revalidate_next_move_v2` of src/mini_agent/core/request_processing.py: the move of a routable decision
-- against the records that the store holds now.
pub mod Handover
pub mod Matches
pub mod Unchanged
use mini_agent.Tools.Gate.{is_version}
use mini_agent.Order.Number.{normalize_order_id, is_order_id}
use mini_agent.Prelude.Texts.{Text, Uuid, non_empty, codes, none_or}
use mini_agent.Understanding.Decision.{InitialDecision, routable}
use mini_agent.Understanding.Contracts.{NextMove, call_tool, ask_user, finish, escalate}
use mini_agent.Understanding.Closure.{UnderstandingClosure}
use mini_agent.Understanding.Graph.{TaskGraph}
use mini_agent.Gateway.{RevalidatedNextMove, keys}
use mini_agent.Json.{Fields, Json, all_finite, obj, find_trusted_argument_field, find_field}
use mini_agent.Prelude.{
  nat_eq, list_eq, option_eq, ◌>>=◌, ◌>>◌, ◌&&◌, Option, Bool, Result, ◌==◌, some, if◌then◌else◌,
  raise_if, ◌∷◌, err, same_set, not, [], none, is_some, ok, is_ok, is_empty, leb,
}
use mini_agent.Clock.{time_eq}
use mini_agent.Tasks.{
  task_status_eq, active, TaskRecord, RequestUnitRecord, InputBinding, validate_task,
  validate_request_unit, validate_binding,
}

pub data RevalidationError : Type 0 where
  decision_required graph_required owner_mismatch graph_mismatch not_active binding_mismatch :
      RevalidationError
  call_required trusted_argument_field revalidation_failed : RevalidationError

-- `_runtime_values_match_exactly_v2`, for the three records
unfoldable pub task_matches : TaskRecord → TaskRecord → Bool
task_matches a b =
    a.task_id == b.task_id
    && a.owner_customer_id == b.owner_customer_id
    && a.status == b.status
    && a.state_version == b.state_version
    && a.created_at == b.created_at
    && a.updated_at == b.updated_at
    && a.last_outcome_ref == b.last_outcome_ref

unfoldable pub unit_matches : RequestUnitRecord → RequestUnitRecord → Bool
unit_matches a b =
    a.request_unit_id == b.request_unit_id
    && a.task_id == b.task_id
    && a.goal_text == b.goal_text
    && a.goal_source_refs == b.goal_source_refs
    && a.contextualization_ref == b.contextualization_ref
    && a.constraint_refs == b.constraint_refs
    && a.dependency_refs == b.dependency_refs
    && a.input_binding_refs == b.input_binding_refs
    && a.open_questions == b.open_questions
    && a.observation_refs == b.observation_refs
    && a.evidence_binding_refs == b.evidence_binding_refs
    && a.pending_action_ref == b.pending_action_ref
    && a.result_refs == b.result_refs
    && a.status == b.status
    && a.state_version == b.state_version
    && a.created_at == b.created_at
    && a.updated_at == b.updated_at

unfoldable pub binding_matches : InputBinding → InputBinding → Bool
binding_matches a b =
    a.binding_id == b.binding_id
    && a.normalized_value == b.normalized_value
    && a.source_refs == b.source_refs
    && a.created_at == b.created_at
    && a.updated_at == b.updated_at
    && a.supersedes == b.supersedes

-- `_candidate_order_id_or_none`
unfoldable pub value_or_none : Option Json → Option Text
value_or_none none = none
value_or_none (some v) = elim (normalize_order_id v) [ ok n ↦ some n | err e ↦ none ]

unfoldable pub candidate_order_id_or_none : Fields → Option Text
unfolding value_or_none
candidate_order_id_or_none arguments =
    if same_set (keys arguments) (codes "order_id" ∷ [])
    then value_or_none (find_field (codes "order_id") arguments)
    else none

-- The field types of `RevalidatedNextMove`
unfoldable pub move_fields_valid : RevalidatedNextMove → Bool
move_fields_valid m =
    non_empty m.requested_provider_tool_name
    && all_finite (obj m.candidate_arguments)
    && none_or is_order_id m.normalized_candidate_order_id
    && is_order_id m.binding_normalized_value
    && not (is_empty m.argument_binding_refs)
    && is_version m.proposed_base_task_state_version
    && leb 1 m.validated_task_state_version

-- The records that the store holds now.
pub record CurrentGraph : Type 0 where
  pub current_task : TaskRecord
  pub current_request_unit : RequestUnitRecord
  pub current_input_binding : InputBinding

unfoldable pub check_current : TaskGraph → CurrentGraph → Result RevalidationError (Unit {0})
unfolding task_matches unit_matches binding_matches
check_current expected now = do
  raise_if
      (not (
        is_ok (validate_task task)
        && is_ok (validate_request_unit unit)
        && is_ok (validate_binding binding)))
      graph_required
  raise_if (not (task.owner_customer_id == expected.task.owner_customer_id)) owner_mismatch
  raise_if
      (not (
        task.task_id == expected.task.task_id
        && unit.task_id == task.task_id
        && unit.request_unit_id == expected.request_unit.request_unit_id))
      graph_mismatch
  raise_if
      (not (
        task.status == active
        && unit.status == active
        && task.state_version == 1
        && unit.state_version == 1))
      not_active
  raise_if (not (task_matches task expected.task && unit_matches unit expected.request_unit))
      graph_mismatch
  raise_if
      (not (
        binding_matches binding expected.input_binding
        && unit.input_binding_refs == binding.binding_id ∷ []
        && expected.accepted_delta.input_binding_refs == binding.binding_id ∷ []))
      binding_mismatch
  where
    open now use {
      current_task as task, current_request_unit as unit, current_input_binding as binding,
    }

unfoldable pub move_for :
    UnderstandingClosure → Uuid → NextMove → Text → Fields → CurrentGraph → RevalidatedNextMove
move_for closure next_ref move name arguments now = record {
  run_id = closure.record_.run_id;
  task_id = now.current_task.task_id;
  request_unit_id = now.current_request_unit.request_unit_id;
  next_move_candidate_ref = next_ref;
  requested_provider_tool_name = name;
  candidate_arguments = arguments;
  normalized_candidate_order_id = candidate_order_id_or_none arguments;
  binding_normalized_value = now.current_input_binding.normalized_value;
  argument_binding_refs = now.current_input_binding.binding_id ∷ [];
  proposed_base_task_state_version = move.base_task_state_version;
  validated_task_state_version = now.current_task.state_version;
}

-- `RevalidatedNextMove(...)`
unfoldable pub construct_move : RevalidatedNextMove → Result RevalidationError RevalidatedNextMove
unfolding move_fields_valid
construct_move m = do raise_if (not (move_fields_valid m)) revalidation_failed; ok m

-- The name and the arguments of a `CALL_TOOL` candidate.
unfoldable pub call_of : NextMove → Option (Text × Fields)
call_of m = elim m.kind [
  | call_tool ↦ elim m.requested_tool_name [
    | none ↦ none
    | some name ↦ elim m.arguments [ none ↦ none | some arguments ↦ some (name, arguments) ]
  ]
  | ask_user ↦ none
  | finish ↦ none
  | escalate ↦ none
]

unfoldable pub revalidate_call :
    Option (Text × Fields)
    → UnderstandingClosure
    → Uuid
    → NextMove
    → CurrentGraph
    → Result RevalidationError RevalidatedNextMove
unfolding construct_move move_for
revalidate_call none closure next_ref move now = err call_required
revalidate_call (some (name, arguments)) closure next_ref move now = do
  raise_if (is_some (find_trusted_argument_field (obj arguments))) trusted_argument_field
  construct_move (move_for closure next_ref move name arguments now)

-- A decision of the model is made by the reducer, so its seal matches.
unfoldable pub revalidate_next_move :
    InitialDecision → CurrentGraph → Result RevalidationError RevalidatedNextMove
unfolding check_current revalidate_call call_of
revalidate_next_move (routable closure expected next_ref move) now = do
  check_current expected now
  revalidate_call (call_of move) closure next_ref move now
revalidate_next_move decision now = err decision_required
