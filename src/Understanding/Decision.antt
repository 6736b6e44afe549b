-- ===== src/Understanding/Decision.antt =====
-- src/mini_agent/core/request_processing.py: the three results of the reducer, with their validators.
use mini_agent.Understanding.Graph.{TaskGraph, graph_identities}
use mini_agent.Prelude.Texts.{Uuid}
use mini_agent.Understanding.Closure.{UnderstandingClosure}
use mini_agent.Prelude.{
  [], ◌∷◌, nat_eq, list_eq, option_eq, List, Option, Bool, Result, some, is_none, err, ◌==◌, select,
  ◌++◌, none, distinct, true, ◌&&◌, ◌>>◌, false, ok, raise_if, all, not, map, is_empty, leb, any,
  length,
}
use mini_agent.Clock.{time_eq}
use mini_agent.Order.Number.{normalize_text}
use mini_agent.Understanding.Contracts.{
  NextMove, ContractError, unlike_candidates, unlike_graph, repeated_candidate,
}
use mini_agent.Understanding.Durable.{
  UnderstandingRecord, AcceptedTaskDelta, DurableInput, DurableTaskDelta, CandidateValidation,
  is_accept, is_accepted,
}

-- The three results of the reducer.
pub data InitialDecision : Type 0 where
  no_task : UnderstandingClosure → InitialDecision
  routable : UnderstandingClosure → TaskGraph → Uuid → NextMove → InitialDecision
  unrouted : UnderstandingClosure → List TaskGraph → InitialDecision

abbrev pub no_next_move : UnderstandingRecord → Bool
no_next_move r =
    is_none r.next_move_candidate_ref
    && is_none r.proposed_base_task_state_version
    && is_none r.validated_task_state_version

-- `closure_has_no_task_effect`
unfoldable pub validate_no_task : UnderstandingClosure → Result ContractError UnderstandingClosure
validate_no_task c = do
  raise_if
      (not (
        is_empty c.accepted_task_deltas
        && is_empty c.record_.accepted_delta_refs
        && not (any is_accepted c.record_.candidate_validation)
        && no_next_move c.record_))
      unlike_candidates
  ok c

-- `_validate_initial_graph_candidate_projection_v2`
unfoldable pub value_projected : List DurableInput → TaskGraph → Bool
value_projected (c ∷ []) g = elim (normalize_text c.candidate_value) [
  | err e ↦ false
  | ok n ↦ g.input_binding.normalized_value == n && g.input_binding.source_refs == c.source_ref ∷ []
]
value_projected cs g = false

unfoldable pub projected_from : Uuid → List DurableTaskDelta → TaskGraph → Bool
unfolding value_projected
projected_from message_ref (d ∷ []) g =
    g.accepted_delta.message_ref == message_ref
    && g.accepted_delta.goal_text == d.goal_patch
    && value_projected d.input_candidates g
projected_from message_ref ds g = false

unfoldable pub candidate_projected : UnderstandingRecord → TaskGraph → Bool
unfolding projected_from
candidate_projected r g =
    projected_from r.message_ref
      (select (λ d. d.candidate_id == g.accepted_delta.candidate_ref) r.task_delta_candidates) g

abbrev pub concat_identities : List TaskGraph → List Uuid
concat_identities [] = []
concat_identities (g ∷ gs) = graph_identities g ++ concat_identities gs

abbrev pub optional : Option Uuid → List Uuid
optional none = []
optional (some i) = i ∷ []

unfoldable pub independent : TaskGraph → Bool
independent g =
    is_none g.accepted_delta.base_task_state_version
    && g.accepted_delta.result_task_state_version == 1
    && g.accepted_delta.task_id == g.task.task_id
    && g.task.state_version == 1
    && g.request_unit.state_version == 1

-- `_validate_initial_graph_identity_closure_v2`
unfoldable pub identity_closed : UnderstandingRecord → List TaskGraph → Bool
unfolding independent
identity_closed r gs =
    distinct (
      r.request_understanding_record_id
      ∷ (concat_identities gs ++ optional r.next_move_candidate_ref))
    && all independent gs

-- The one candidate of a record, accepted by its one decision.
unfoldable pub one_accepted : List DurableTaskDelta → List CandidateValidation → TaskGraph → Bool
one_accepted (d ∷ []) (v ∷ []) g =
    is_accept v.decision && g.accepted_delta.candidate_ref == d.candidate_id
one_accepted ds vs g = false

-- `closure.accepted_task_deltas != (task_graph.accepted_delta,)`, up to the fields that a closure of the
-- same graphs has in common: a delta is compared as a whole.
abbrev pub delta_beq : AcceptedTaskDelta → AcceptedTaskDelta → Bool
delta_beq a b =
    a.accepted_delta_id == b.accepted_delta_id
    && a.candidate_ref == b.candidate_ref
    && a.message_ref == b.message_ref
    && a.goal_text == b.goal_text
    && a.input_binding_refs == b.input_binding_refs
    && a.accepted_at == b.accepted_at
    && a.task_id == b.task_id
    && a.base_task_state_version == b.base_task_state_version
    && a.result_task_state_version == b.result_task_state_version

unfoldable pub deltas_of : List AcceptedTaskDelta → List TaskGraph → Bool
deltas_of [] [] = true
deltas_of (a ∷ as_) (g ∷ gs) = delta_beq a g.accepted_delta && deltas_of as_ gs
deltas_of _ _ = false

abbrev pub graph_delta_id : TaskGraph → Uuid
graph_delta_id g = g.accepted_delta.accepted_delta_id

-- `_validate_initial_routable_decision_fields_v2`
unfoldable pub validate_routable :
    UnderstandingClosure → TaskGraph → Uuid → NextMove → Result ContractError (Unit {0})
unfolding one_accepted deltas_of candidate_projected identity_closed
validate_routable c g next_ref move = do
  raise_if
      (not (
        one_accepted c.record_.task_delta_candidates c.record_.candidate_validation g
        && deltas_of c.accepted_task_deltas (g ∷ [])
        && c.record_.accepted_delta_refs == graph_delta_id g ∷ []
        && c.record_.next_move_candidate_ref == some next_ref
        && c.record_.proposed_base_task_state_version == move.base_task_state_version
        && c.record_.validated_task_state_version == some 1))
      unlike_candidates
  raise_if (not (candidate_projected c.record_ g)) unlike_graph
  raise_if (not (identity_closed c.record_ (g ∷ []))) repeated_candidate

-- `result_preserves_all_task_effects_without_next_move`
unfoldable pub validate_unrouted :
    UnderstandingClosure → List TaskGraph → Result ContractError (Unit {0})
unfolding deltas_of candidate_projected identity_closed
validate_unrouted c gs = do
  raise_if
      (not (
        leb 1 (length (select is_accepted c.record_.candidate_validation))
        && length gs == length (select is_accepted c.record_.candidate_validation)
        && deltas_of c.accepted_task_deltas gs
        && c.record_.accepted_delta_refs == map graph_delta_id gs
        && no_next_move c.record_
        && not (
            length c.record_.task_delta_candidates == 1
            && length (select is_accepted c.record_.candidate_validation) == 1)))
      unlike_candidates
  raise_if (not (identity_closed c.record_ gs)) repeated_candidate
  raise_if (not (all (candidate_projected c.record_) gs)) unlike_graph
