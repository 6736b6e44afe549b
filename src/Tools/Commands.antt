-- ===== src/Tools/Commands.antt =====
-- src/mini_agent/application/records.py: the write commands in the life of a tool call.
pub mod Chain
use mini_agent.Prelude.Texts.{Text, codes}
use mini_agent.Prelude.{
  Bool, Result, Option, true, ◌==◌, is_none, ◌>>◌, List, false, ◌&&◌, raise_if, some, not, ◌∷◌, any,
  ok, ◌||◌, [], nat_eq, is_some, none, list_eq, option_eq,
}
use mini_agent.Clock.{time_eq}
use mini_agent.Observation.{OrderObservation}
use mini_agent.Tools.Spec.{ToolEffect, read, retrieval, action, is_read}
use mini_agent.Tools.Call.{
  ToolCallRecord, ToolCallStatus, created, running, succeeded, failed, timed_out, interrupted,
  ToolAttemptRecord, ToolResultOutcome, success, business_failure, system_failure, timeout,
  interrupted_result, result_unknown, status_eq,
}

pub data CommandError : Type 0 where
  not_created wrong_attempt_count terminal_projection not_running changed_fields : CommandError
  other_attempt finished_attempt carried_result not_terminal unfinished_attempt : CommandError
  outcome_mismatch time_mismatch failure_mismatch not_succeeded not_read not_get_order :
      CommandError

abbrev pub effect_beq : ToolEffect → ToolEffect → Bool
effect_beq read read = true
effect_beq retrieval retrieval = true
effect_beq action action = true
effect_beq _ _ = false

-- `all(getattr(a, f) == getattr(b, f) for f in _TOOL_IMMUTABLE_FIELDS)`
unfoldable pub same_immutable : ToolCallRecord → ToolCallRecord → Bool
same_immutable a b =
    a.tool_call_id == b.tool_call_id
    && a.run_id == b.run_id
    && a.task_id == b.task_id
    && a.request_unit_id == b.request_unit_id
    && a.model_call_id == b.model_call_id
    && a.context_manifest_id == b.context_manifest_id
    && a.gate_decision_id == b.gate_decision_id
    && a.provider_tool_call_id == b.provider_tool_call_id
    && a.canonical_tool_name == b.canonical_tool_name
    && a.tool_registry_version == b.tool_registry_version
    && a.validated_task_state_version == b.validated_task_state_version
    && a.argument_binding_refs == b.argument_binding_refs
    && effect_beq a.effect b.effect
    && a.started_at == b.started_at

-- No terminal projection stands in the record.
abbrev pub is_clean : ToolCallRecord → Bool
is_clean r =
    is_none r.finished_at
    && is_none r.failure_code
    && is_none r.timeout_phase
    && is_none r.interruption_reason
    && is_none r.result_ref

abbrev pub is_unfinished : ToolAttemptRecord → Bool
is_unfinished a = is_none a.finished_at && is_none a.outcome && is_none a.failure_code

-- `CreateToolCallCommand`
unfoldable pub validate_create : ToolCallRecord → Result CommandError ToolCallRecord
validate_create r = do
  raise_if (not (r.status == created)) not_created
  raise_if (not (r.attempt_count == 0)) wrong_attempt_count
  raise_if (not (is_clean r)) terminal_projection
  ok r

-- `DispatchToolCallCommand`
pub record StartCommand : Type 0 where
  pub expected_created_record : ToolCallRecord
  pub running_record : ToolCallRecord
  pub started_attempt : ToolAttemptRecord

unfoldable pub validate_start : StartCommand → Result CommandError StartCommand
validate_start c = do
  raise_if (not (c.expected_created_record.status == created)) not_created
  raise_if (not (c.expected_created_record.attempt_count == 0)) wrong_attempt_count
  raise_if (not (c.running_record.status == running)) not_running
  raise_if (not (c.running_record.attempt_count == 1) || not (c.started_attempt.attempt_no == 1))
      wrong_attempt_count
  raise_if (not (same_immutable c.expected_created_record c.running_record)) changed_fields
  raise_if (not (c.running_record.tool_call_id == c.started_attempt.tool_call_id)) other_attempt
  raise_if (not (is_clean c.expected_created_record)) terminal_projection
  raise_if (not (is_unfinished c.started_attempt)) finished_attempt
  raise_if (is_some c.running_record.failure_code || is_some c.running_record.result_ref)
      carried_result
  ok c

-- `_TERMINAL_TOOL_OUTCOMES`: the outcomes of an attempt that fit a terminal status.
abbrev pub terminal_outcomes : ToolCallStatus → Option (List ToolResultOutcome)
terminal_outcomes succeeded = some (success ∷ [])
terminal_outcomes failed = some (business_failure ∷ system_failure ∷ [])
terminal_outcomes timed_out = some (timeout ∷ [])
terminal_outcomes interrupted = some (interrupted_result ∷ [])
terminal_outcomes s = none

abbrev pub outcome_beq : ToolResultOutcome → ToolResultOutcome → Bool
outcome_beq success success = true
outcome_beq business_failure business_failure = true
outcome_beq system_failure system_failure = true
outcome_beq timeout timeout = true
outcome_beq interrupted_result interrupted_result = true
outcome_beq result_unknown result_unknown = true
outcome_beq _ _ = false

abbrev outcome_fits : Option ToolResultOutcome → Option (List ToolResultOutcome) → Bool
outcome_fits (some o) (some os) = any (outcome_beq o) os
outcome_fits _ _ = false

-- `FinalizeToolCallCommand`
pub record FinalizeCommand : Type 0 where
  pub expected_running_record : ToolCallRecord
  pub expected_started_attempt : ToolAttemptRecord
  pub terminal_record : ToolCallRecord
  pub finalized_attempt : ToolAttemptRecord

unfoldable pub validate_finalize : FinalizeCommand → Result CommandError FinalizeCommand
validate_finalize c = do
  raise_if (not (expected.status == running)) not_running
  raise_if (not (expected.attempt_count == 1)) wrong_attempt_count
  raise_if (is_none (terminal_outcomes terminal.status)) not_terminal
  raise_if (not (terminal.attempt_count == 1) || not (attempt.attempt_no == 1)) wrong_attempt_count
  raise_if
      (not (started.tool_call_id == expected.tool_call_id)
        || not (started.attempt_no == expected.attempt_count))
      other_attempt
  raise_if (not (is_unfinished started)) finished_attempt
  raise_if (not (same_immutable expected terminal)) changed_fields
  raise_if (not (terminal.tool_call_id == attempt.tool_call_id)) other_attempt
  raise_if
      (not (attempt.tool_call_id == started.tool_call_id)
        || not (attempt.attempt_no == started.attempt_no)
        || not (attempt.started_at == started.started_at))
      other_attempt
  raise_if (not (is_clean expected)) terminal_projection
  raise_if (is_none attempt.finished_at || is_none attempt.outcome) unfinished_attempt
  raise_if (not (outcome_fits attempt.outcome (terminal_outcomes terminal.status))) outcome_mismatch
  raise_if (not (terminal.finished_at == attempt.finished_at)) time_mismatch
  raise_if (not (terminal.failure_code == attempt.failure_code)) failure_mismatch
  ok c
  where
    open c use {
      expected_running_record as expected, expected_started_attempt as started,
      terminal_record as terminal, finalized_attempt as attempt,
    }

-- `SaveObservationCommand`; the source tool of an observation is a literal.
pub record ObservationCommand : Type 0 where
  pub customer_id : Text
  pub observation_record : OrderObservation
  pub source_tool_call_record : ToolCallRecord

unfoldable pub validate_observation_command :
    ObservationCommand → Result CommandError ObservationCommand
validate_observation_command c = do
  raise_if (not (c.source_tool_call_record.status == succeeded)) not_succeeded
  raise_if (not (is_read c.source_tool_call_record.effect)) not_read
  raise_if (not (c.source_tool_call_record.canonical_tool_name == codes "get_order")) not_get_order
  ok c
