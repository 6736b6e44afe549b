-- ===== src/Understanding/Closure.antt =====
-- src/mini_agent/core/request_processing.py: the closure of a request, its record with the accepted
-- deltas, and `build_request_understanding_closure_v2`.
use mini_agent.Understanding.Project.{
  Messages, authoritative_message, source_scope, project_contextualization, project_delta,
}
use mini_agent.Understanding.Span.{
  FailureCode, trusted_or_private_field_present, model_input_schema_invalid,
  source_provenance_invalid, durable_closure_commit_failed, model_output_schema_invalid,
}
use mini_agent.Tools.Spec.{ToolSpec}
use mini_agent.Prelude.Texts.{Uuid, Text}
use mini_agent.Understanding.Durable.{
  UnderstandingRecord, AcceptedTaskDelta, CandidateValidation, DurableTaskDelta, validated_ref,
  DurableContextualization, is_accepted, durable_id, validation_ok, validate_accepted,
  validate_record,
}
use mini_agent.Prelude.{
  [], ◌∷◌, nat_eq, list_eq, pair_eq, traverse, option_eq, List, Option, Result, none, ℕ, map, some,
  Bool, ok, ◌>>◌, ◌>>=◌, if◌then◌else◌, false, raise_if, is_some, is_none, true, select, ◌==◌, not,
  lookup, or_raise, ◌&&◌, distinct, all, same_set, ◌+◌, is_ok, ◌||◌, traverse,
}
use mini_agent.Clock.{time_eq, DateTime, is_utc}
use mini_agent.Understanding.Contracts.{
  ContractError, TaskDeltaCandidate, RequestUnderstandingInput, trusted_argument, validate_input,
  unlike_child, repeated_candidate, unlike_candidates, other_time,
}
use mini_agent.Understanding.Output.{RequestUnderstandingOutput, candidate_id, validate_output}

pub record UnderstandingClosure : Type 0 where
  pub record_ : UnderstandingRecord
  pub accepted_task_deltas : List AcceptedTaskDelta

abbrev pub child_ref : AcceptedTaskDelta → Uuid
child_ref a = a.candidate_ref

abbrev pub child_id : AcceptedTaskDelta → Uuid
child_id a = a.accepted_delta_id

-- `{d.candidate_ref for d in ... if d.decision is ACCEPT}`
abbrev pub accepted_refs : List CandidateValidation → List Uuid
accepted_refs vs = map validated_ref (select is_accepted vs)

-- `dict` by identity: the last value of a key counts.
module _ {A : Type 0} (key : A → Uuid) where
  unfoldable pub by_id : List A → Uuid → Option A
  by_id [] i = none
  by_id (x ∷ xs) i =
      let later = by_id xs i in
      elim later [ some y ↦ some y | none ↦ if key x == i then some x else none ]

-- What a child has of its candidate.
unfoldable pub child_matches : Option DurableTaskDelta → Uuid → AcceptedTaskDelta → Bool
child_matches none message_ref child = false
child_matches (some d) message_ref child =
    child.message_ref == message_ref && child.goal_text == d.goal_patch

unfoldable pub validate_children :
    UnderstandingRecord → List AcceptedTaskDelta → Result ContractError (Unit {0})
unfolding by_id child_matches
validate_children r [] = ok tt
validate_children r (child ∷ rest) = do
  raise_if
      (not (
        child_matches (by_id durable_id r.task_delta_candidates child.candidate_ref) r.message_ref
          child))
      unlike_child
  raise_if (not (distinct child.input_binding_refs)) repeated_candidate
  raise_if (not (child.accepted_at == r.created_at)) other_time
  validate_children r rest

-- `accepted_children_are_exact_candidate_projections`
unfoldable pub validate_closure : UnderstandingClosure → Result ContractError UnderstandingClosure
unfolding validate_children
validate_closure c = do
  raise_if
      (not (
        distinct (map child_ref c.accepted_task_deltas)
        && distinct (map child_id c.accepted_task_deltas)
        && same_set (map child_ref c.accepted_task_deltas)
            (accepted_refs c.record_.candidate_validation)
        && same_set (map child_id c.accepted_task_deltas) c.record_.accepted_delta_refs))
      unlike_candidates
  validate_children c.record_ c.accepted_task_deltas
  ok c

-- `_validate_durable_closure_v2`, for one child
unfoldable pub child_durable : RequestUnderstandingOutput → DateTime → AcceptedTaskDelta → Bool
unfolding by_id
child_durable o now child =
    is_some (by_id candidate_id o.task_delta_candidates child.candidate_ref)
    && child.message_ref == o.message_ref
    && child.accepted_at == now
    && distinct child.input_binding_refs

-- The version that a task was left at by the candidates so far.
abbrev pub Versions : Type 0
Versions = List (Uuid × ℕ)

unfoldable pub version_follows : Option ℕ → AcceptedTaskDelta → Bool
version_follows none child = is_none child.base_task_state_version
version_follows (some previous) child =
    child.base_task_state_version == some previous
    && child.result_task_state_version == previous + 1

unfoldable pub versions_chain : List TaskDeltaCandidate → List AcceptedTaskDelta → Versions → Bool
unfolding version_follows by_id
versions_chain [] children last = true
versions_chain (d ∷ ds) children last = elim (by_id child_ref children d.candidate_id) [
  | none ↦ versions_chain ds children last
  | some child ↦
      version_follows (lookup child.task_id last) child
      && versions_chain ds children ((child.task_id, child.result_task_state_version) ∷ last)
]

-- The pairs of an accepted delta and its task.
abbrev pub child_pair : AcceptedTaskDelta → Uuid × Uuid
child_pair a = (a.accepted_delta_id, a.task_id)

unfoldable pub durable_closure :
    RequestUnderstandingOutput
    → List CandidateValidation
    → List AcceptedTaskDelta
    → DateTime
    → Result FailureCode (Unit {0})
unfolding child_durable versions_chain
durable_closure o validation children now = do
  raise_if
      (not (
        distinct (map validated_ref validation)
        && same_set (map validated_ref validation) (map candidate_id o.task_delta_candidates)))
      durable_closure_commit_failed
  raise_if
      (not (
        distinct (map child_ref children)
        && same_set (map child_ref children) (accepted_refs validation)
        && distinct (map child_id children)
        && distinct (map child_pair children)))
      durable_closure_commit_failed
  raise_if (not (all (child_durable o now) children)) durable_closure_commit_failed
  raise_if (not (versions_chain o.task_delta_candidates children [])) durable_closure_commit_failed

-- `_canonical_request_input_v2`: the value is rebuilt by its validator. A value of the model has no
-- undeclared state, and its version is the literal one.
unfoldable pub canonical_input :
    (List ToolSpec → Text)
    → RequestUnderstandingInput
    → Result FailureCode RequestUnderstandingInput
canonical_input digest i = or_raise (validate_input digest i) model_input_schema_invalid

-- `_canonical_request_output_v2`: of all keys of the output only those of the arguments of the next
-- move are not fixed by the schema.
unfoldable pub canonical_output :
    RequestUnderstandingOutput → Result FailureCode RequestUnderstandingOutput
canonical_output o = do
  raise_if (trusted_argument o.next_move_candidate.arguments) trusted_or_private_field_present
  or_raise (validate_output o) model_output_schema_invalid

-- The arguments of `build_request_understanding_closure_v2` but for input, output and messages.
pub record ClosureRequest : Type 0 where
  pub request_understanding_record_id : Uuid
  pub candidate_validation : List CandidateValidation
  pub accepted_task_deltas : List AcceptedTaskDelta
  pub proposed_base_task_state_version : Option ℕ
  pub validated_task_state_version : Option ℕ
  pub next_move_candidate_ref : Option Uuid
  pub now : DateTime

module _ (digest : List ToolSpec → Text) (sha256 : Text → Text) (messages : Messages) where
  -- What is checked of input, output and messages before a projection.
  unfoldable pub check_sources :
      RequestUnderstandingInput → RequestUnderstandingOutput → Result FailureCode (Unit {0})
  unfolding authoritative_message source_scope
  check_sources i o = do
    raise_if (not (i.message_ref == o.message_ref)) source_provenance_invalid
    source_scope i o
    current ← authoritative_message messages i.message_ref
    raise_if (not (current == i.original_query)) source_provenance_invalid

  unfoldable pub assemble :
      RequestUnderstandingInput
      → RequestUnderstandingOutput
      → DurableContextualization
      → List DurableTaskDelta
      → ClosureRequest
      → UnderstandingClosure
  assemble i o contextualization candidates q = record {
    record_ = record {
      request_understanding_record_id = q.request_understanding_record_id;
      run_id = i.run_id;
      message_ref = o.message_ref;
      contextualization = contextualization;
      task_delta_candidates = candidates;
      candidate_validation = q.candidate_validation;
      accepted_delta_refs = map child_id q.accepted_task_deltas;
      proposed_base_task_state_version = q.proposed_base_task_state_version;
      validated_task_state_version = q.validated_task_state_version;
      next_move_candidate_ref = q.next_move_candidate_ref;
      created_at = q.now;
    };
    accepted_task_deltas = q.accepted_task_deltas;
  }

  -- What is checked before the projections.
  unfoldable pub check_request :
      RequestUnderstandingInput
      → RequestUnderstandingOutput
      → ClosureRequest
      → Result FailureCode (Unit {0})
  unfolding check_sources
  check_request i o q = do
    raise_if (not (all validation_ok q.candidate_validation)) durable_closure_commit_failed
    raise_if (not (all (λ a. is_ok (validate_accepted a)) q.accepted_task_deltas))
        durable_closure_commit_failed
    raise_if (not (is_utc q.now)) durable_closure_commit_failed
    check_sources i o
    raise_if
        (not (q.proposed_base_task_state_version == o.next_move_candidate.base_task_state_version))
        durable_closure_commit_failed
    raise_if
        (is_none q.next_move_candidate_ref
          && (is_some q.proposed_base_task_state_version || is_some q.validated_task_state_version))
        durable_closure_commit_failed

  -- The validators of the record and of the closure.
  unfoldable pub construct : UnderstandingClosure → Result FailureCode UnderstandingClosure
  construct closure = do
    or_raise (validate_record closure.record_) durable_closure_commit_failed
    or_raise (validate_closure closure) durable_closure_commit_failed

  unfoldable pub build_closure :
      RequestUnderstandingInput
      → RequestUnderstandingOutput
      → ClosureRequest
      → Result FailureCode UnderstandingClosure
  unfolding canonical_input canonical_output check_request durable_closure assemble construct
  build_closure request_input output q = do
    i ← canonical_input digest request_input
    o ← canonical_output output
    check_request i o q
    contextualization ← project_contextualization sha256 messages o.contextualization
    candidates ← traverse (project_delta sha256 messages) o.task_delta_candidates
    durable_closure o q.candidate_validation q.accepted_task_deltas q.now
    construct (assemble i o contextualization candidates q)
