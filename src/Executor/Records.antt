-- ===== src/Executor/Records.antt =====
-- src/mini_agent/application/read_tool_executor.py: the records that the executor builds.
use mini_agent.Runs.{TraceEvent, tool_call_interrupted}
use mini_agent.Prelude.{is_ok, Option, some, Bool, none, true, if◌then◌else◌, ℕ, false, ◌&&◌, []}
use mini_agent.Prelude.Texts.{Text, Uuid, codes}
use mini_agent.Clock.{DateTime}
use mini_agent.Executor.Effects.{
  ToolDispatchFenceWriteResult, ConditionalWriteResult, InsertOnlyWriteResult,
  ObservationWriteResult, fence_applied, write_applied, inserted, source_projection_conflict,
}
use mini_agent.Observation.{OrderObservation, model_visible}
use mini_agent.Order.Lookup.{
  GetOrderResult, GetOrderOutcome, validate_result, is_source_version, OrderSummaryProjection,
  validate_summary,
}
use mini_agent.Tools.Spec.{ToolEffect, ExecutionPolicy}
use mini_agent.Tools.Call.{
  ToolCallRecord, ToolCallStatus, ToolAttemptRecord, ToolResultOutcome, ToolTimeoutPhase,
  AuthorizedToolCommand,
}

pub record ReadToolExecution : Type 0 where
  pub created_tool_call : ToolCallRecord
  pub dispatch_fence_result : ToolDispatchFenceWriteResult
  pub terminal_tool_call : Option ToolCallRecord
  pub finalized_attempt : Option ToolAttemptRecord
  pub get_order_outcome : Option GetOrderOutcome
  pub observation : Option OrderObservation
  pub effective_timeout_ms : ℕ

-- The keyword arguments of `execute_get_order`.
pub record Request : Type 0 where
  pub customer_id : Text
  pub authorized_command : AuthorizedToolCommand
  pub run_id : Uuid
  pub task_id : Uuid
  pub request_unit_id : Uuid
  pub model_call_id : Uuid
  pub context_manifest_id : Uuid
  pub provider_tool_call_id : Option Text
  pub tool_registry_version : Text
  pub execution_policy : ExecutionPolicy
  pub remaining_run_time_budget_ms : ℕ

-- How an attempt ends.
pub record Ending : Type 0 where
  pub terminal_status : ToolCallStatus
  pub tool_outcome : ToolResultOutcome
  pub safe_failure_code : Option Text
  pub result_ref : Option Uuid
  pub timeout_phase : Option ToolTimeoutPhase
  pub interruption_reason : Option Text

unfoldable pub terminal_of : ToolCallRecord → Ending → DateTime → ToolCallRecord
terminal_of running e finished_at = record running {
  status = e.terminal_status;
  finished_at = some finished_at;
  failure_code = e.safe_failure_code;
  timeout_phase = e.timeout_phase;
  interruption_reason = e.interruption_reason;
  result_ref = e.result_ref;
}

unfoldable pub finalized_of :
    ToolCallRecord → ToolAttemptRecord → Ending → DateTime → ToolAttemptRecord
finalized_of running attempt e finished_at = record {
  tool_call_id = running.tool_call_id;
  attempt_no = attempt.attempt_no;
  started_at = attempt.started_at;
  finished_at = some finished_at;
  outcome = some e.tool_outcome;
  failure_code = e.safe_failure_code;
}

abbrev pub is_applied : ConditionalWriteResult → Bool
is_applied write_applied = true
is_applied r = false

-- `_canonical_get_order_result`: `none` stands for an object that is no exact `GetOrderResult`.
unfoldable pub is_found : GetOrderOutcome → Bool
is_found GetOrderOutcome.found = true
is_found o = false

-- The summary is validated again with the result that holds it.
unfoldable pub summary_valid : Option OrderSummaryProjection → Bool
summary_valid none = true
summary_valid (some s) = is_ok (validate_summary s)

unfoldable pub is_canonical : GetOrderResult → Bool
unfolding is_found summary_valid
is_canonical r =
    summary_valid r.order_summary
    && is_ok (validate_result r)
    && (if is_found r.outcome
        then elim r.source_version [ none ↦ false | some v ↦ is_source_version v ]
        else true)

unfoldable pub unavailable : GetOrderResult
unavailable = record {
  outcome = GetOrderOutcome.system_failure;
  order_summary = none;
  source_version = none;
  failure_code = some (codes "ORDER_SERVICE_UNAVAILABLE");
}

-- The result that the code goes on with: the canonical one, or a system failure.
unfoldable pub canonical_or_unavailable : Option GetOrderResult → GetOrderResult
unfolding is_canonical unavailable
canonical_or_unavailable none = unavailable
canonical_or_unavailable (some r) = if is_canonical r then r else unavailable

-- The ending of an attempt for a result; the reference is fresh for an order that was found.
unfoldable pub ending_of : GetOrderOutcome → Option Uuid → Ending
ending_of GetOrderOutcome.found ref = record {
  terminal_status = ToolCallStatus.succeeded;
  tool_outcome = ToolResultOutcome.success;
  safe_failure_code = none;
  result_ref = ref;
  timeout_phase = none;
  interruption_reason = none;
}
ending_of GetOrderOutcome.not_found_or_not_accessible ref = record {
  terminal_status = ToolCallStatus.failed;
  tool_outcome = ToolResultOutcome.business_failure;
  safe_failure_code = some (codes "NOT_FOUND_OR_NOT_ACCESSIBLE");
  result_ref = none;
  timeout_phase = none;
  interruption_reason = none;
}
ending_of GetOrderOutcome.system_failure ref = record {
  terminal_status = ToolCallStatus.failed;
  tool_outcome = ToolResultOutcome.system_failure;
  safe_failure_code = some (codes "ORDER_SERVICE_UNAVAILABLE");
  result_ref = none;
  timeout_phase = none;
  interruption_reason = none;
}

unfoldable pub timed_out_ending : Ending
timed_out_ending = record {
  terminal_status = ToolCallStatus.timed_out;
  tool_outcome = ToolResultOutcome.timeout;
  safe_failure_code = some (codes "TOOL_CALL_TIMEOUT");
  result_ref = none;
  timeout_phase = some ToolTimeoutPhase.after_dispatch;
  interruption_reason = none;
}

unfoldable pub cancelled_ending : Ending
cancelled_ending = record {
  terminal_status = ToolCallStatus.interrupted;
  tool_outcome = ToolResultOutcome.interrupted_result;
  safe_failure_code = some (codes "TOOL_CALL_CANCELLED");
  result_ref = none;
  timeout_phase = none;
  interruption_reason = some (codes "TOOL_CALL_CANCELLED");
}

abbrev pub is_inserted : InsertOnlyWriteResult → Bool
is_inserted inserted = true
is_inserted r = false

abbrev pub is_saved : ObservationWriteResult → Bool
is_saved source_projection_conflict = false
is_saved r = true

unfoldable pub observation_of :
    OrderSummaryProjection → Option Text → DateTime → Uuid → OrderObservation
observation_of summary version finished_at id = record {
  observation_id = id;
  source_resource_ref = summary.order_number;
  source_version = version;
  normalized_value = summary;
  observed_at = finished_at;
  recorded_at = finished_at;
  valid_until = none;
  supersedes = none;
  raw_result_ref = none;
  visibility = model_visible;
}

unfoldable pub execution_of :
    ToolCallRecord
    → Option (ToolCallRecord × ToolAttemptRecord)
    → Option GetOrderOutcome
    → Option OrderObservation
    → ℕ
    → ReadToolExecution
execution_of created pair outcome observation timeout = record {
  created_tool_call = created;
  dispatch_fence_result = fence_applied;
  terminal_tool_call = elim pair [ none ↦ none | some (t, a) ↦ some t ];
  finalized_attempt = elim pair [ none ↦ none | some (t, a) ↦ some a ];
  get_order_outcome = outcome;
  observation = observation;
  effective_timeout_ms = timeout;
}

unfoldable pub created_record : Request → Uuid → DateTime → ToolCallRecord
created_record q id started_at = record {
  tool_call_id = id;
  run_id = q.run_id;
  task_id = q.task_id;
  request_unit_id = q.request_unit_id;
  model_call_id = q.model_call_id;
  context_manifest_id = q.context_manifest_id;
  gate_decision_id = q.authorized_command.gate_decision_id;
  provider_tool_call_id = q.provider_tool_call_id;
  canonical_tool_name = codes "get_order";
  tool_registry_version = q.tool_registry_version;
  validated_task_state_version = q.authorized_command.validated_task_state_version;
  argument_binding_refs = q.authorized_command.argument_binding_refs;
  effect = ToolEffect.read;
  attempt_count = 0;
  status = ToolCallStatus.created;
  started_at = started_at;
  finished_at = none;
  failure_code = none;
  timeout_phase = none;
  interruption_reason = none;
  result_ref = none;
}

-- The projection of a call that the fence did not let through.
unfoldable pub unstarted : ToolCallRecord → ToolDispatchFenceWriteResult → ℕ → ReadToolExecution
unstarted created fence timeout = record {
  created_tool_call = created;
  dispatch_fence_result = fence;
  terminal_tool_call = none;
  finalized_attempt = none;
  get_order_outcome = none;
  observation = none;
  effective_timeout_ms = timeout;
}

-- The event of `_append_interrupted_trace`; every other field has its default.
unfoldable pub interrupted_event : Uuid → DateTime → ToolCallRecord → TraceEvent
interrupted_event id end terminal = record {
  trace_event_id = id;
  event_type = tool_call_interrupted;
  occurred_at = end;
  run_id = terminal.run_id;
  case_id = none;
  message_ref = none;
  accepted_delta_ref = none;
  task_id = some terminal.task_id;
  request_unit_id = some terminal.request_unit_id;
  input_binding_ref = none;
  model_call_id = none;
  model_call_purpose = none;
  context_manifest_id = none;
  provider_name = none;
  model_snapshot = none;
  tool_registry_version = none;
  model_visible_toolset_hash = none;
  next_move_kind = none;
  requested_tool_name = none;
  proposed_base_task_state_version = none;
  validated_task_state_version = none;
  argument_binding_refs = [];
  gate_decision = none;
  gate_reason_code = none;
  tool_call_id = some terminal.tool_call_id;
  tool_call_terminal_status = some ToolCallStatus.interrupted;
  safe_tool_outcome = none;
  observation_ref = none;
  presentation_plan_ref = none;
  user_outcome = none;
  stop_reason = none;
  timing_and_usage_summary = none;
}
