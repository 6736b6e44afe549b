-- ===== src/Understanding/Contracts.antt =====
-- src/mini_agent/core/request_understanding.py: the input and the output of the model call. Fields that
-- are literals with one value are left out, and so is `source_kind` of an input, an enum with one value.
use mini_agent.Tools.Gate.{is_version}
use mini_agent.Tools.Spec.{ToolSpec}
use mini_agent.Prelude.{
  Bool, List, Result, Option, leb, true, ◌>>◌, raise_if, ok, ◌^◌, ◌&&◌, not, false, ℕ, some, length,
  err, is_empty, is_some, all, ◌==◌, none, nat_eq, list_eq, distinct, map, is_none, ◌||◌,
}
use mini_agent.Prelude.Texts.{Text, Uuid, non_empty, codes, none_or, digest_after}
use mini_agent.Json.{finite, Float, Fields, all_finite, obj, find_trusted_argument_field}
use mini_agent.Prelude.Int.{pos}
use mini_agent.Tools.Registry.{compute_hash}

pub data ContractError : Type 0 where
  field hash_mismatch repeated_name trusted_field incomplete_call stray_call : ContractError
  repeated_source stray_value few_or_many_values repeated_value : ContractError
  reference_out_of_scope uncertainty_out_of_scope repeated_candidate missing_message : ContractError
  long_quote foreign_source not_user_claim stated_version : ContractError
  empty_span missing_reason stray_reason foreign_validation wrong_count stray_version :
      ContractError
  unlike_candidates unlike_child other_time unlike_graph : ContractError

-- `Annotated[float, Field(ge=0.0, le=1.0)]`, in units of 2 ^ -1074
unfoldable pub is_confidence : Float → Bool
is_confidence (finite (pos n)) = leb n (2 ^ 1074)
is_confidence x = false

pub record ModelVisibleTaskSummary : Type 0 where
  pub task_alias : Text
  pub request_unit_alias : Option Text
  pub goal_summary : Text
  pub status : Text
  pub open_questions : List Text

abbrev pub summary_valid : ModelVisibleTaskSummary → Bool
summary_valid s =
    non_empty s.task_alias
    && none_or non_empty s.request_unit_alias
    && non_empty s.goal_summary
    && non_empty s.status
    && all non_empty s.open_questions

pub record ModelVisiblePendingActionSummary : Type 0 where
  pub action_alias : Text
  pub summary : Text

abbrev pub action_valid : ModelVisiblePendingActionSummary → Bool
action_valid a = non_empty a.action_alias && non_empty a.summary

pub record RequestUnderstandingInput : Type 0 where
  pub run_id : Uuid
  pub message_ref : Uuid
  pub original_query : Text
  pub recent_message_refs : List Uuid
  pub pending_question : Option Text
  pub active_task_summaries : List ModelVisibleTaskSummary
  pub focused_task_summary : Option ModelVisibleTaskSummary
  pub pending_action_summaries : List ModelVisiblePendingActionSummary
  pub output_constraints : List Text
  pub provider_visible_tool_specs : List ToolSpec
  pub model_visible_toolset_hash : Text

unfoldable pub input_fields_valid : RequestUnderstandingInput → Bool
input_fields_valid i =
    non_empty i.original_query
    && leb (length i.original_query) 4000
    && none_or non_empty i.pending_question
    && all summary_valid i.active_task_summaries
    && elim i.focused_task_summary [ none ↦ true | some s ↦ summary_valid s ]
    && all action_valid i.pending_action_summaries
    && all non_empty i.output_constraints
    && digest_after (codes "sha256:") i.model_visible_toolset_hash

-- `digest` stands for the SHA-256 of the canonical JSON of the sorted specs.
unfoldable pub validate_input :
    (List ToolSpec → Text)
    → RequestUnderstandingInput
    → Result ContractError RequestUnderstandingInput
unfolding input_fields_valid
validate_input digest i = do
  raise_if (not (input_fields_valid i)) field
  elim (compute_hash digest i.provider_visible_tool_specs) [
    | err e ↦ err field
    | ok expected_hash ↦ do
      raise_if (not (i.model_visible_toolset_hash == expected_hash)) hash_mismatch
      ok i
  ]

pub data InputAuthority : Type 0 where
  user_claim model_inference : InputAuthority

abbrev pub is_user_claim : InputAuthority → Bool
is_user_claim user_claim = true
is_user_claim model_inference = false

pub record InputCandidate : Type 0 where
  pub candidate_value : Text
  pub authority : InputAuthority
  pub source_ref : Uuid
  pub source_quote : Text
  pub confidence : Float

abbrev pub candidate_fields_valid : InputCandidate → Bool
candidate_fields_valid c =
    non_empty c.candidate_value && non_empty c.source_quote && is_confidence c.confidence

pub record TaskDeltaCandidate : Type 0 where
  pub candidate_id : Uuid
  pub goal_patch : Text
  pub input_candidates : List InputCandidate
  pub confidence : Float

-- The literal `name` of every input candidate.
abbrev pub input_name : InputCandidate → Text
input_name c = codes "order_id"

unfoldable pub validate_delta : TaskDeltaCandidate → Result ContractError TaskDeltaCandidate
validate_delta d = do
  raise_if
      (not (
        non_empty d.goal_patch
        && not (is_empty d.input_candidates)
        && all candidate_fields_valid d.input_candidates
        && is_confidence d.confidence))
      field
  raise_if (not (distinct (map input_name d.input_candidates))) repeated_name
  ok d

pub data NextMoveKind : Type 0 where
  call_tool ask_user finish escalate : NextMoveKind

pub record NextMove : Type 0 where
  pub kind : NextMoveKind
  pub requested_tool_name : Option Text
  pub arguments : Option Fields
  pub base_task_state_version : Option ℕ

abbrev pub is_call : NextMoveKind → Bool
is_call call_tool = true
is_call k = false

abbrev arguments_finite : Option Fields → Bool
arguments_finite none = true
arguments_finite (some fs) = all_finite (obj fs)

abbrev pub trusted_argument : Option Fields → Bool
trusted_argument none = false
trusted_argument (some fs) = is_some (find_trusted_argument_field (obj fs))

unfoldable pub validate_next_move : NextMove → Result ContractError NextMove
validate_next_move m = do
  raise_if
      (not (
        none_or non_empty m.requested_tool_name
        && arguments_finite m.arguments
        && is_version m.base_task_state_version))
      field
  raise_if (trusted_argument m.arguments) trusted_field
  raise_if (is_call m.kind && (is_none m.requested_tool_name || is_none m.arguments))
      incomplete_call
  raise_if (not (is_call m.kind) && (is_some m.requested_tool_name || is_some m.arguments))
      stray_call
  ok m
