-- ===== src/Understanding/Durable.antt =====
-- src/mini_agent/core/task_state.py, from `DurableResolvedReferenceCandidateV2` on: what is kept of a
-- request. Fields that are literals with one value are left out.
use mini_agent.Tools.Gate.{is_version}
use mini_agent.Clock.{DateTime, is_utc}
use mini_agent.Json.{Float}
use mini_agent.Understanding.Span.{SourceSpan}
use mini_agent.Prelude.Texts.{Text, Uuid, digest_after, codes, non_empty}
use mini_agent.Understanding.Contracts.{
  field, ContractError, is_confidence, missing_reason, repeated_name, repeated_candidate,
  empty_span, repeated_source, stray_reason, foreign_validation, reference_out_of_scope,
  wrong_count, uncertainty_out_of_scope, missing_message, foreign_source, stray_version,
}
use mini_agent.Understanding.Output.{
  ReferenceSourceKind, Uncertainty, uncertainty_ok, refs_sized, uncertainty_in_scope,
}
use mini_agent.Prelude.{
  nat_eq, Result, Bool, List, is_ok, true, Option, all, [], ◌>>◌, false, ℕ, ◌&&◌, ◌==◌, raise_if,
  ok, not, is_none, distinct, is_empty, map, leb, is_some, list_eq, same_set, any, contains, length,
  select, ◌||◌,
}

-- `^[0-9a-f]{64}$`
abbrev pub is_digest : Text → Bool
is_digest s = digest_after [] s

pub record DurableResolvedReference : Type 0 where
  pub candidate_value : Text
  pub source_kind : ReferenceSourceKind
  pub source_ref : Uuid
  pub span : SourceSpan
  pub confidence : Float

-- The fields of a span, and `source_span_is_non_empty`.
unfoldable pub validate_span : SourceSpan → Text → Float → Result ContractError (Unit {0})
validate_span span value confidence = do
  raise_if (not (non_empty value && is_digest span.quote_sha256 && is_confidence confidence)) field
  raise_if (leb span.end_exclusive span.start) empty_span

unfoldable pub validate_durable_reference :
    DurableResolvedReference → Result ContractError DurableResolvedReference
unfolding validate_span
validate_durable_reference r = do validate_span r.span r.candidate_value r.confidence; ok r

-- The authority is `USER_CLAIM` and the source kind `CURRENT_MESSAGE`, by their literal types.
pub record DurableInput : Type 0 where
  pub candidate_value : Text
  pub source_ref : Uuid
  pub span : SourceSpan
  pub confidence : Float

unfoldable pub validate_durable_input : DurableInput → Result ContractError DurableInput
unfolding validate_span
validate_durable_input c = do validate_span c.span c.candidate_value c.confidence; ok c

pub record DurableContextualization : Type 0 where
  pub text : Text
  pub resolved_reference_candidates : List DurableResolvedReference
  pub uncertainties : List Uncertainty
  pub source_message_refs : List Uuid

abbrev pub reference_ok : DurableResolvedReference → Bool
reference_ok r = is_ok (validate_durable_reference r)

unfoldable pub validate_durable_contextualization :
    DurableContextualization → Result ContractError DurableContextualization
validate_durable_contextualization c = do
  raise_if
      (not (
        non_empty c.text
        && all reference_ok c.resolved_reference_candidates
        && all uncertainty_ok c.uncertainties
        && refs_sized c.source_message_refs))
      field
  raise_if (not (distinct c.source_message_refs)) repeated_source
  raise_if
      (any (λ r. not (contains r.source_ref c.source_message_refs)) c.resolved_reference_candidates)
      reference_out_of_scope
  raise_if (any (λ u. not (uncertainty_in_scope c.source_message_refs u)) c.uncertainties)
      uncertainty_out_of_scope
  ok c

pub record DurableTaskDelta : Type 0 where
  pub candidate_id : Uuid
  pub goal_patch : Text
  pub input_candidates : List DurableInput
  pub confidence : Float

abbrev pub durable_input_ok : DurableInput → Bool
durable_input_ok c = is_ok (validate_durable_input c)

-- The literal `name` of every input candidate.
abbrev pub durable_name : DurableInput → Text
durable_name c = codes "order_id"

unfoldable pub validate_durable_delta : DurableTaskDelta → Result ContractError DurableTaskDelta
validate_durable_delta d = do
  raise_if
      (not (
        non_empty d.goal_patch
        && not (is_empty d.input_candidates)
        && all durable_input_ok d.input_candidates
        && is_confidence d.confidence))
      field
  raise_if (not (distinct (map durable_name d.input_candidates))) repeated_name
  ok d

pub data RejectionReason : Type 0 where
  operation_not_supported goal_patch_not_actionable required_input_missing input_value_invalid :
      RejectionReason
  reference_unresolved reference_ambiguous next_move_inconsistent : RejectionReason

pub data Decision : Type 0 where
  accept reject : Decision

abbrev pub is_accept : Decision → Bool
is_accept accept = true
is_accept reject = false

pub record CandidateValidation : Type 0 where
  pub candidate_ref : Uuid
  pub decision : Decision
  pub reason_code : Option RejectionReason

-- `rejection_reason_matches_decision`
unfoldable pub validate_validation : CandidateValidation → Result ContractError CandidateValidation
validate_validation v = do
  raise_if (not (is_accept v.decision) && is_none v.reason_code) missing_reason
  raise_if (is_accept v.decision && is_some v.reason_code) stray_reason
  ok v

-- The operation is `ADD_GOAL`, by its literal type.
pub record AcceptedTaskDelta : Type 0 where
  pub accepted_delta_id : Uuid
  pub candidate_ref : Uuid
  pub message_ref : Uuid
  pub goal_text : Text
  pub input_binding_refs : List Uuid
  pub accepted_at : DateTime
  pub task_id : Uuid
  pub base_task_state_version : Option ℕ
  pub result_task_state_version : ℕ

unfoldable pub validate_accepted : AcceptedTaskDelta → Result ContractError AcceptedTaskDelta
validate_accepted a = do
  raise_if
      (not (
        non_empty a.goal_text
        && not (is_empty a.input_binding_refs)
        && is_utc a.accepted_at
        && is_version a.base_task_state_version
        && leb 1 a.result_task_state_version))
      field
  ok a

pub record UnderstandingRecord : Type 0 where
  pub request_understanding_record_id : Uuid
  pub run_id : Uuid
  pub message_ref : Uuid
  pub contextualization : DurableContextualization
  pub task_delta_candidates : List DurableTaskDelta
  pub candidate_validation : List CandidateValidation
  pub accepted_delta_refs : List Uuid
  pub proposed_base_task_state_version : Option ℕ
  pub validated_task_state_version : Option ℕ
  pub next_move_candidate_ref : Option Uuid
  pub created_at : DateTime

abbrev pub durable_id : DurableTaskDelta → Uuid
durable_id d = d.candidate_id

abbrev pub validated_ref : CandidateValidation → Uuid
validated_ref v = v.candidate_ref

abbrev pub is_accepted : CandidateValidation → Bool
is_accepted v = is_accept v.decision

abbrev pub durable_delta_ok : DurableTaskDelta → Bool
durable_delta_ok d = is_ok (validate_durable_delta d)

abbrev pub validation_ok : CandidateValidation → Bool
validation_ok v = is_ok (validate_validation v)

unfoldable pub record_fields_valid : UnderstandingRecord → Bool
record_fields_valid r =
    is_ok (validate_durable_contextualization r.contextualization)
    && all durable_delta_ok r.task_delta_candidates
    && all validation_ok r.candidate_validation
    && is_version r.proposed_base_task_state_version
    && is_version r.validated_task_state_version
    && is_utc r.created_at

-- Every input of a candidate refers to the message.
abbrev pub bound_to : Uuid → DurableTaskDelta → Bool
bound_to message_ref d = all (λ c. c.source_ref == message_ref) d.input_candidates

-- `record_graph_is_locally_closed`
unfoldable pub validate_record : UnderstandingRecord → Result ContractError UnderstandingRecord
validate_record r = do
  raise_if (not (record_fields_valid r)) field
  raise_if (not (distinct (map durable_id r.task_delta_candidates))) repeated_candidate
  raise_if (not (distinct (map validated_ref r.candidate_validation))) repeated_candidate
  raise_if
      (not (
        same_set (map validated_ref r.candidate_validation)
          (map durable_id r.task_delta_candidates)))
      foreign_validation
  raise_if (not (distinct r.accepted_delta_refs)) repeated_candidate
  raise_if
      (not (length r.accepted_delta_refs == length (select is_accepted r.candidate_validation)))
      wrong_count
  raise_if (not (contains r.message_ref r.contextualization.source_message_refs)) missing_message
  raise_if (not (all (bound_to r.message_ref) r.task_delta_candidates)) foreign_source
  raise_if
      (is_none r.next_move_candidate_ref
        && (is_some r.proposed_base_task_state_version || is_some r.validated_task_state_version))
      stray_version
  ok r
