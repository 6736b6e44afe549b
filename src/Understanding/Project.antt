-- ===== src/Understanding/Project.antt =====
-- src/mini_agent/core/request_processing.py: the projection of the model's candidates on durable ones,
-- which hold places and digests in place of quotes.
pub mod Sources
use mini_agent.Understanding.Durable.{
  DurableResolvedReference, DurableInput, DurableContextualization, DurableTaskDelta,
  validate_durable_reference, validate_durable_contextualization, validate_durable_delta,
  validate_durable_input,
}
use mini_agent.Understanding.Span.{
  FailureCode, exact_source_span, source_provenance_invalid, model_output_schema_invalid,
}
use mini_agent.Understanding.Contracts.{
  RequestUnderstandingInput, InputCandidate, TaskDeltaCandidate, is_user_claim,
}
use mini_agent.Understanding.Output.{
  ResolvedReferenceCandidate, RequestUnderstandingOutput, QueryContextualizationCandidate,
  ReferenceSourceKind, current_message, recent_message,
}
use mini_agent.Prelude.Texts.{Uuid, Text}
use mini_agent.Prelude.{
  [], ◌∷◌, nat_eq, list_eq, option_eq, List, Result, Bool, lookup, ◌>>◌, ◌>>=◌, none, ◌==◌,
  raise_if, traverse, err, not, or_raise, ◌&&◌, subset, some, contains, ◌∷◌, ok, all,
}

-- A `Mapping[UUID, str]`
abbrev pub Messages : Type 0
Messages = List (Uuid × Text)

-- `_authoritative_message_v2`
unfoldable pub authoritative_message : Messages → Uuid → Result FailureCode Text
authoritative_message messages source_ref = elim (lookup source_ref messages) [
  | none ↦ err source_provenance_invalid
  | some [] ↦ err source_provenance_invalid
  | some (c ∷ s) ↦ ok (c ∷ s)
]

-- `_validate_input_visible_source_scope_v2`, for one reference
unfoldable pub kind_visible : ReferenceSourceKind → Uuid → Uuid → List Uuid → Bool
kind_visible current_message source_ref current recent = source_ref == current
kind_visible recent_message source_ref current recent =
    not (source_ref == current) && contains source_ref recent

abbrev pub reference_visible : Uuid → List Uuid → ResolvedReferenceCandidate → Bool
reference_visible current recent r = kind_visible r.source_kind r.source_ref current recent

unfoldable pub source_scope :
    RequestUnderstandingInput → RequestUnderstandingOutput → Result FailureCode (Unit {0})
unfolding kind_visible
source_scope i o = do
  raise_if
      (not (subset o.contextualization.source_message_refs (i.message_ref ∷ i.recent_message_refs)))
      source_provenance_invalid
  raise_if
      (not (
        all (reference_visible i.message_ref i.recent_message_refs)
          o.contextualization.resolved_reference_candidates))
      source_provenance_invalid

module _ (sha256 : Text → Text) (messages : Messages) where
  -- `_project_resolved_reference_v2`
  unfoldable pub project_reference :
      ResolvedReferenceCandidate → Result FailureCode DurableResolvedReference
  project_reference r = do
    message ← authoritative_message messages r.source_ref
    span ← exact_source_span sha256 message r.source_quote r.candidate_value
    or_raise
        (validate_durable_reference (record {
          candidate_value = r.candidate_value;
          source_kind = r.source_kind;
          source_ref = r.source_ref;
          span = span;
          confidence = r.confidence;
        }))
        model_output_schema_invalid

  -- `_project_input_candidate_v2`; the authority is refused unless it is `USER_CLAIM`.
  unfoldable pub project_input : InputCandidate → Result FailureCode DurableInput
  project_input c = do
    message ← authoritative_message messages c.source_ref
    span ← exact_source_span sha256 message c.source_quote c.candidate_value
    raise_if (not (is_user_claim c.authority)) model_output_schema_invalid
    or_raise
        (validate_durable_input (record {
          candidate_value = c.candidate_value;
          source_ref = c.source_ref;
          span = span;
          confidence = c.confidence;
        }))
        model_output_schema_invalid

  -- `_project_contextualization_v2`
  unfoldable pub project_contextualization :
      QueryContextualizationCandidate → Result FailureCode DurableContextualization
  unfolding project_reference
  project_contextualization c = do
    traverse (authoritative_message messages) c.source_message_refs
    references ← traverse project_reference c.resolved_reference_candidates
    or_raise
        (validate_durable_contextualization (record {
          text = c.text;
          resolved_reference_candidates = references;
          uncertainties = c.uncertainties;
          source_message_refs = c.source_message_refs;
        }))
        model_output_schema_invalid

  -- `_project_task_delta_v2`
  unfoldable pub project_delta : TaskDeltaCandidate → Result FailureCode DurableTaskDelta
  unfolding project_input
  project_delta d = do
    inputs ← traverse project_input d.input_candidates
    or_raise
        (validate_durable_delta (record {
          candidate_id = d.candidate_id;
          goal_patch = d.goal_patch;
          input_candidates = inputs;
          confidence = d.confidence;
        }))
        model_output_schema_invalid
