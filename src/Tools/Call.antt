-- ===== src/Tools/Call.antt =====
-- `ToolCallRecord`, `ToolAttemptRecord` and `AuthorizedToolCommand` of core/tool_system.py.
use mini_agent.Prelude.{
  Bool, ◌≡◌, Eq, Option, Result, false, true, ◌>>◌, ℕ, some, List, ◌↔◌, none, raise_if, ◌&&◌, arith,
  ◌==◌, not, is_some, ltb, ok, leb, is_empty, is_none, nat_eq,
}
use mini_agent.Prelude.Texts.{Uuid, Text, none_or, non_empty, is_tool_name, is_reason_code}
use mini_agent.Clock.{DateTime, is_utc, is_utc_or_none, earlier}
use mini_agent.Json.{Fields, obj, all_finite, find_trusted_argument_field}
use mini_agent.Tools.Spec.{ToolEffect}

pub data ToolCallStatus : Type 0 where
  created running succeeded failed timed_out interrupted : ToolCallStatus

pub data ToolTimeoutPhase : Type 0 where
  before_dispatch after_dispatch unknown : ToolTimeoutPhase

pub record ToolCallRecord : Type 0 where
  pub tool_call_id : Uuid
  pub run_id : Uuid
  pub task_id : Uuid
  pub request_unit_id : Uuid
  pub model_call_id : Uuid
  pub context_manifest_id : Uuid
  pub gate_decision_id : Uuid
  pub provider_tool_call_id : Option Text
  pub canonical_tool_name : Text
  pub tool_registry_version : Text
  pub validated_task_state_version : ℕ
  pub argument_binding_refs : List Uuid
  pub effect : ToolEffect
  pub attempt_count : ℕ
  pub status : ToolCallStatus
  pub started_at : DateTime
  pub finished_at : Option DateTime
  pub failure_code : Option Text
  pub timeout_phase : Option ToolTimeoutPhase
  pub interruption_reason : Option Text
  pub result_ref : Option Uuid

pub data CallError : Type 0 where
  field created_with_attempts dispatched_without_attempt terminal_without_finish : CallError
  finish_before_terminal finish_before_start success_with_failure : CallError
  timeout_without_phase phase_without_timeout : CallError
  interruption_without_reason reason_without_interruption : CallError
  active_with_outcome active_with_failure finalized_without_outcome trusted_argument : CallError

unfoldable pub call_fields_valid : ToolCallRecord → Bool
call_fields_valid r =
    none_or non_empty r.provider_tool_call_id
    && is_tool_name r.canonical_tool_name
    && non_empty r.tool_registry_version
    && leb 1 r.validated_task_state_version
    && not (is_empty r.argument_binding_refs)
    && is_utc r.started_at
    && is_utc_or_none r.finished_at
    && none_or non_empty r.failure_code
    && none_or is_reason_code r.interruption_reason

abbrev pub is_terminal : ToolCallStatus → Bool
is_terminal created = false
is_terminal running = false
is_terminal s = true

-- `self.status in requires_attempt`
abbrev pub requires_attempt : ToolCallStatus → Bool
requires_attempt created = false
requires_attempt interrupted = false
requires_attempt s = true

abbrev pub status_beq : ToolCallStatus → ToolCallStatus → Bool
status_beq created created = true
status_beq running running = true
status_beq succeeded succeeded = true
status_beq failed failed = true
status_beq timed_out timed_out = true
status_beq interrupted interrupted = true
status_beq _ _ = false

pub status_beq_iff : (a b : ToolCallStatus) → (status_beq a b ≡ true) ↔ (a ≡ b)
status_beq_iff a b = ground arith

instance abbrev pub status_eq : Eq ToolCallStatus
status_eq = record { beq = status_beq; beq_iff = status_beq_iff }

-- `self.finished_at < self.started_at`, where there is a finish
abbrev pub ends_early : Option DateTime → DateTime → Bool
ends_early none start = false
ends_early (some end) start = earlier end start

-- The lifecycle rules that depend on the status alone.
unfoldable pub lifecycle : ToolCallRecord → Result CallError ToolCallRecord
lifecycle r = do
  raise_if (r.status == created && not (r.attempt_count == 0)) created_with_attempts
  raise_if (requires_attempt r.status && ltb r.attempt_count 1) dispatched_without_attempt
  raise_if (is_terminal r.status && is_none r.finished_at) terminal_without_finish
  raise_if (not (is_terminal r.status) && is_some r.finished_at) finish_before_terminal
  raise_if (ends_early r.finished_at r.started_at) finish_before_start
  raise_if (r.status == succeeded && is_some r.failure_code) success_with_failure
  raise_if (r.status == timed_out && is_none r.timeout_phase) timeout_without_phase
  raise_if (not (r.status == timed_out) && is_some r.timeout_phase) phase_without_timeout
  raise_if (r.status == interrupted && is_none r.interruption_reason) interruption_without_reason
  raise_if (not (r.status == interrupted) && is_some r.interruption_reason)
      reason_without_interruption
  ok r

unfoldable pub validate_call : ToolCallRecord → Result CallError ToolCallRecord
unfolding call_fields_valid lifecycle
validate_call r = do raise_if (not (call_fields_valid r)) field; lifecycle r

pub data ToolResultOutcome : Type 0 where
  success business_failure system_failure timeout interrupted_result result_unknown :
      ToolResultOutcome

pub record ToolAttemptRecord : Type 0 where
  pub tool_call_id : Uuid
  pub attempt_no : ℕ
  pub started_at : DateTime
  pub finished_at : Option DateTime
  pub outcome : Option ToolResultOutcome
  pub failure_code : Option Text

abbrev is_success : Option ToolResultOutcome → Bool
is_success (some success) = true
is_success o = false

unfoldable pub attempt_lifecycle :
    Option DateTime → ToolAttemptRecord → Result CallError ToolAttemptRecord
attempt_lifecycle none a = do
  raise_if (is_some a.outcome) active_with_outcome
  raise_if (is_some a.failure_code) active_with_failure
  ok a
attempt_lifecycle (some end) a = do
  raise_if (is_none a.outcome) finalized_without_outcome
  raise_if (earlier end a.started_at) finish_before_start
  raise_if (is_success a.outcome && is_some a.failure_code) success_with_failure
  ok a

unfoldable pub validate_attempt : ToolAttemptRecord → Result CallError ToolAttemptRecord
unfolding attempt_lifecycle
validate_attempt a = do
  raise_if
      (not (
        leb 1 a.attempt_no
        && is_utc a.started_at
        && is_utc_or_none a.finished_at
        && none_or non_empty a.failure_code))
      field
  attempt_lifecycle a.finished_at a

pub record AuthorizedToolCommand : Type 0 where
  pub gate_decision_id : Uuid
  pub canonical_tool_name : Text
  pub validated_arguments : Fields
  pub argument_binding_refs : List Uuid
  pub validated_task_state_version : ℕ
  pub registry_snapshot_ref : Text
  pub trusted_context_ref : Text

unfoldable pub validate_command : AuthorizedToolCommand → Result CallError AuthorizedToolCommand
validate_command c = do
  raise_if
      (not (
        is_tool_name c.canonical_tool_name
        && all_finite (obj c.validated_arguments)
        && not (is_empty c.argument_binding_refs)
        && leb 1 c.validated_task_state_version
        && non_empty c.registry_snapshot_ref
        && non_empty c.trusted_context_ref))
      field
  raise_if (is_some (find_trusted_argument_field (obj c.validated_arguments))) trusted_argument
  ok c
