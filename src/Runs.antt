-- ===== src/Runs.antt =====
-- src/mini_agent/core/trace.py: the record of a run, and the events of its trace.
use mini_agent.Prelude.{
  Bool, Option, Result, ℕ, true, some, ◌>>◌, ◌&&◌, false, raise_if, none, List, is_some, not,
  is_none, ◌||◌, ◌==◌, ok, nat_eq, list_eq, option_eq,
}
use mini_agent.Prelude.Texts.{Uuid, Text, none_or, non_empty, digest_after, codes}
use mini_agent.Clock.{DateTime, is_utc, is_utc_or_none}
use mini_agent.Tools.Call.{
  ToolCallStatus, created, running, succeeded, failed, timed_out, interrupted, ToolResultOutcome,
  ends_early, status_eq,
}
use mini_agent.Tools.Gate.{GateDecisionValue, GateReasonCode, is_version}

pub data AgentRunStatus : Type 0 where
  created_run running_run completed_run failed_run incomplete_run : AgentRunStatus

pub data StopReason : Type 0 where
  goal_completed not_found_or_not_accessible input_invalid gate_rejected : StopReason
  provider_protocol_error order_service_unavailable presentation_plan_rejected : StopReason
  renderer_invariant_failed process_restart_detected : StopReason

pub data AgentOutcome : Type 0 where
  completed_outcome ask_user blocked_outcome need_human not_found_outcome : AgentOutcome

pub record AgentRunRecord : Type 0 where
  pub run_id : Uuid
  pub conversation_id : Option Uuid
  pub status : AgentRunStatus
  pub provider_lane : Text
  pub started_at : DateTime
  pub completed_at : Option DateTime
  pub stop_reason : Option StopReason
  pub incomplete_reason : Option Text

pub data TraceError : Type 0 where
  field active_with_completion terminal_without_completion completion_before_start : TraceError
  completed_without_reason incomplete_without_restart stopped_without_outcome : TraceError
  lifecycle_without_call lifecycle_mismatch status_without_lifecycle : TraceError

abbrev pub is_active_run : AgentRunStatus → Bool
is_active_run created_run = true
is_active_run running_run = true
is_active_run s = false

abbrev is_completed : AgentRunStatus → Bool
is_completed completed_run = true
is_completed s = false

abbrev is_incomplete : AgentRunStatus → Bool
is_incomplete incomplete_run = true
is_incomplete s = false

abbrev is_restart : Option StopReason → Bool
is_restart (some process_restart_detected) = true
is_restart r = false

-- `run_lifecycle_is_consistent`
run_lifecycle : AgentRunRecord → Result TraceError AgentRunRecord
run_lifecycle r = do
  raise_if (is_active_run r.status && (is_some r.completed_at || is_some r.stop_reason))
      active_with_completion
  raise_if (not (is_active_run r.status) && is_none r.completed_at) terminal_without_completion
  raise_if (not (is_active_run r.status) && ends_early r.completed_at r.started_at)
      completion_before_start
  raise_if (is_completed r.status && is_none r.stop_reason) completed_without_reason
  raise_if (is_incomplete r.status && not (is_restart r.stop_reason)) incomplete_without_restart
  ok r

unfoldable pub validate_run : AgentRunRecord → Result TraceError AgentRunRecord
unfolding run_lifecycle
validate_run r = do
  raise_if
      (not (
        non_empty r.provider_lane
        && is_utc r.started_at
        && is_utc_or_none r.completed_at
        && none_or non_empty r.incomplete_reason))
      field
  run_lifecycle r

pub data TraceEventType : Type 0 where
  message_accepted run_started request_understanding_started context_manifest_recorded :
      TraceEventType
  next_move_proposed task_delta_validated task_delta_accepted input_binding_recorded :
      TraceEventType
  task_state_changed next_move_revalidated gate_decision_recorded : TraceEventType
  tool_call_created tool_call_started tool_call_succeeded tool_call_failed : TraceEventType
  tool_call_timed_out tool_call_interrupted tool_result_normalized observation_recorded :
      TraceEventType
  presentation_plan_proposed response_rendered run_stopped eval_case_graded : TraceEventType

-- `_TOOL_TRACE_STATUS`
abbrev pub tool_trace_status : TraceEventType → Option ToolCallStatus
tool_trace_status tool_call_created = some created
tool_trace_status tool_call_started = some running
tool_trace_status tool_call_succeeded = some succeeded
tool_trace_status tool_call_failed = some failed
tool_trace_status tool_call_timed_out = some timed_out
tool_trace_status tool_call_interrupted = some interrupted
tool_trace_status e = none

pub record TimingAndUsageSummary : Type 0 where
  pub duration_ms : ℕ
  pub input_tokens : Option ℕ
  pub output_tokens : Option ℕ

pub record TraceEvent : Type 0 where
  pub trace_event_id : Uuid
  pub event_type : TraceEventType
  pub occurred_at : DateTime
  pub run_id : Uuid
  pub case_id : Option Text
  pub message_ref : Option Uuid
  pub accepted_delta_ref : Option Uuid
  pub task_id : Option Uuid
  pub request_unit_id : Option Uuid
  pub input_binding_ref : Option Uuid
  pub model_call_id : Option Uuid
  pub model_call_purpose : Option Text
  pub context_manifest_id : Option Uuid
  pub provider_name : Option Text
  pub model_snapshot : Option Text
  pub tool_registry_version : Option Text
  pub model_visible_toolset_hash : Option Text
  pub next_move_kind : Option Text
  pub requested_tool_name : Option Text
  pub proposed_base_task_state_version : Option ℕ
  pub validated_task_state_version : Option ℕ
  pub argument_binding_refs : List Uuid
  pub gate_decision : Option GateDecisionValue
  pub gate_reason_code : Option GateReasonCode
  pub tool_call_id : Option Uuid
  pub tool_call_terminal_status : Option ToolCallStatus
  pub safe_tool_outcome : Option ToolResultOutcome
  pub observation_ref : Option Uuid
  pub presentation_plan_ref : Option Uuid
  pub user_outcome : Option AgentOutcome
  pub stop_reason : Option StopReason
  pub timing_and_usage_summary : Option TimingAndUsageSummary

unfoldable pub event_fields_valid : TraceEvent → Bool
event_fields_valid e =
    is_utc e.occurred_at
    && none_or non_empty e.case_id
    && none_or non_empty e.model_call_purpose
    && none_or non_empty e.provider_name
    && none_or non_empty e.model_snapshot
    && none_or non_empty e.tool_registry_version
    && none_or (digest_after (codes "sha256:")) e.model_visible_toolset_hash
    && none_or non_empty e.next_move_kind
    && none_or non_empty e.requested_tool_name
    && is_version e.proposed_base_task_state_version
    && is_version e.validated_task_state_version

abbrev is_run_stopped : TraceEventType → Bool
is_run_stopped run_stopped = true
is_run_stopped e = false

unfoldable pub matches_tool : Option ToolCallStatus → TraceEvent → Result TraceError TraceEvent
matches_tool (some expected) e = do
  raise_if (is_none e.tool_call_id) lifecycle_without_call
  raise_if (not (e.tool_call_terminal_status == some expected)) lifecycle_mismatch
  ok e
matches_tool none e = do
  raise_if (is_some e.tool_call_terminal_status) status_without_lifecycle
  ok e

-- `stopped_event_has_outcome_and_reason`
unfoldable pub validate_event : TraceEvent → Result TraceError TraceEvent
unfolding event_fields_valid matches_tool
validate_event e = do
  raise_if (not (event_fields_valid e)) field
  raise_if (is_run_stopped e.event_type && (is_none e.stop_reason || is_none e.user_outcome))
      stopped_without_outcome
  matches_tool (tool_trace_status e.event_type) e
