-- ===== src/Understanding/Output.antt =====
-- src/mini_agent/core/request_understanding.py: the output of the model, from its references on.
use mini_agent.Understanding.Contracts.{
  field, ContractError, is_confidence, stray_value, repeated_source, TaskDeltaCandidate,
  InputCandidate, validate_next_move, few_or_many_values, repeated_value, reference_out_of_scope,
  NextMove, long_quote, validate_delta, repeated_candidate, uncertainty_out_of_scope,
  foreign_source, missing_message, is_user_claim, stated_version, not_user_claim,
}
use mini_agent.Prelude.{
  Bool, List, Result, leb, ◌>>◌, raise_if, is_ok, subset, ok, ◌&&◌, not, length, ltb, ◌∷◌, is_empty,
  is_some, all, ◌==◌, [], nat_eq, list_eq, distinct, map, any, contains,
}
use mini_agent.Prelude.Texts.{Text, Uuid, non_empty}
use mini_agent.Json.{Float}

pub data ReferenceSourceKind : Type 0 where
  current_message recent_message : ReferenceSourceKind

pub data UncertaintyReasonCode : Type 0 where
  missing_reference multiple_plausible_references : UncertaintyReasonCode

pub record ResolvedReferenceCandidate : Type 0 where
  pub candidate_value : Text
  pub source_kind : ReferenceSourceKind
  pub source_ref : Uuid
  pub source_quote : Text
  pub confidence : Float

abbrev pub resolved_valid : ResolvedReferenceCandidate → Bool
resolved_valid r =
    non_empty r.candidate_value
    && non_empty r.source_quote
    && leb (length r.source_quote) 128
    && is_confidence r.confidence

pub record Uncertainty : Type 0 where
  pub candidate_values : List Text
  pub reason_code : UncertaintyReasonCode
  pub source_message_refs : List Uuid

-- One to eight, without repetition.
abbrev pub refs_sized : List Uuid → Bool
refs_sized refs = leb 1 (length refs) && leb (length refs) 8

-- `candidate_cardinality_matches_reason`
unfoldable pub cardinality : UncertaintyReasonCode → List Text → Result ContractError (Unit {0})
cardinality missing_reference values = raise_if (not (is_empty values)) stray_value
cardinality multiple_plausible_references values =
    raise_if (not (leb 2 (length values) && leb (length values) 8)) few_or_many_values

unfoldable pub validate_uncertainty : Uncertainty → Result ContractError Uncertainty
unfolding cardinality
validate_uncertainty u = do
  raise_if (not (all non_empty u.candidate_values && refs_sized u.source_message_refs)) field
  raise_if (not (distinct u.source_message_refs)) repeated_source
  cardinality u.reason_code u.candidate_values
  raise_if (not (distinct u.candidate_values)) repeated_value
  ok u

pub record QueryContextualizationCandidate : Type 0 where
  pub text : Text
  pub resolved_reference_candidates : List ResolvedReferenceCandidate
  pub uncertainties : List Uncertainty
  pub source_message_refs : List Uuid

abbrev pub uncertainty_ok : Uncertainty → Bool
uncertainty_ok u = is_ok (validate_uncertainty u)

-- `child_references_are_in_context_scope`
abbrev pub uncertainty_in_scope : List Uuid → Uncertainty → Bool
uncertainty_in_scope refs u = subset u.source_message_refs refs

unfoldable pub validate_contextualization :
    QueryContextualizationCandidate → Result ContractError QueryContextualizationCandidate
validate_contextualization c = do
  raise_if
      (not (
        non_empty c.text
        && all resolved_valid c.resolved_reference_candidates
        && all uncertainty_ok c.uncertainties
        && refs_sized c.source_message_refs))
      field
  raise_if (not (distinct c.source_message_refs)) repeated_source
  raise_if
      (any (λ r. not (contains r.source_ref c.source_message_refs)) c.resolved_reference_candidates)
      reference_out_of_scope
  raise_if (any (λ u. not (uncertainty_in_scope c.source_message_refs u)) c.uncertainties)
      uncertainty_out_of_scope
  ok c

pub record RequestUnderstandingOutput : Type 0 where
  pub message_ref : Uuid
  pub contextualization : QueryContextualizationCandidate
  pub task_delta_candidates : List TaskDeltaCandidate
  pub next_move_candidate : NextMove

-- The rules of `v2_candidate_graph_is_locally_bound` for one input.
unfoldable pub input_bound : Uuid → InputCandidate → Result ContractError (Unit {0})
input_bound message_ref c = do
  raise_if (ltb 128 (length c.source_quote)) long_quote
  raise_if (not (c.source_ref == message_ref)) foreign_source
  raise_if (not (is_user_claim c.authority)) not_user_claim

unfoldable pub inputs_bound : Uuid → List InputCandidate → Result ContractError (Unit {0})
unfolding input_bound
inputs_bound message_ref [] = ok tt
inputs_bound message_ref (c ∷ cs) = do input_bound message_ref c; inputs_bound message_ref cs

unfoldable pub deltas_bound : Uuid → List TaskDeltaCandidate → Result ContractError (Unit {0})
unfolding inputs_bound
deltas_bound message_ref [] = ok tt
deltas_bound message_ref (d ∷ ds) = do
  inputs_bound message_ref d.input_candidates
  deltas_bound message_ref ds

abbrev pub candidate_id : TaskDeltaCandidate → Uuid
candidate_id d = d.candidate_id

abbrev pub delta_ok : TaskDeltaCandidate → Bool
delta_ok d = is_ok (validate_delta d)

unfoldable pub validate_output :
    RequestUnderstandingOutput → Result ContractError RequestUnderstandingOutput
validate_output o = do
  raise_if
      (not (
        is_ok (validate_contextualization o.contextualization)
        && all delta_ok o.task_delta_candidates
        && is_ok (validate_next_move o.next_move_candidate)))
      field
  raise_if (not (distinct (map candidate_id o.task_delta_candidates))) repeated_candidate
  raise_if (not (contains o.message_ref o.contextualization.source_message_refs)) missing_message
  deltas_bound o.message_ref o.task_delta_candidates
  raise_if (is_some o.next_move_candidate.base_task_state_version) stated_version
  ok o
