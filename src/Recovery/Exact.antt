-- ===== src/Recovery/Exact.antt =====
-- src/mini_agent/application/records.py: the comparison of whole records (`==` of the models) and of the
-- fields of a trace event that a recovery may fill (`_RECOVERY_TRACE_ALLOWED_FIELDS`).
use mini_agent.Recovery.Interrupts.{effect_beq_same, phase_beq_same}
use mini_agent.Recovery.{same_run, same_task, same_unit, same_facts}
use mini_agent.Prelude.{
  none, some, nat_eq, list_eq, option_eq, pair_eq, ◌&&◌, ◌==◌, refl, Option, Bool, ◌≡◌, true,
  is_none, false, arith, beq_refl, is_empty,
}
use mini_agent.Tools.Commands.{same_immutable}
use mini_agent.Clock.{time_eq}
use mini_agent.Tasks.{task_status_eq, TaskRecord, RequestUnitRecord}
use mini_agent.Tools.Call.{status_eq, ToolCallRecord}
use mini_agent.Runs.{
  goal_completed, not_found_or_not_accessible, input_invalid, gate_rejected,
  provider_protocol_error, order_service_unavailable, presentation_plan_rejected,
  renderer_invariant_failed, process_restart_detected, created_run, running_run, completed_run,
  failed_run, incomplete_run, run_stopped, task_state_changed, tool_call_interrupted,
  AgentRunStatus, AgentRunRecord, TraceEvent, TraceEventType, StopReason,
}

abbrev pub run_status_beq : AgentRunStatus → AgentRunStatus → Bool
run_status_beq created_run created_run = true
run_status_beq running_run running_run = true
run_status_beq completed_run completed_run = true
run_status_beq failed_run failed_run = true
run_status_beq incomplete_run incomplete_run = true
run_status_beq _ _ = false

abbrev pub reason_beq : Option StopReason → Option StopReason → Bool
reason_beq none none = true
reason_beq (some goal_completed) (some goal_completed) = true
reason_beq (some not_found_or_not_accessible) (some not_found_or_not_accessible) = true
reason_beq (some input_invalid) (some input_invalid) = true
reason_beq (some gate_rejected) (some gate_rejected) = true
reason_beq (some provider_protocol_error) (some provider_protocol_error) = true
reason_beq (some order_service_unavailable) (some order_service_unavailable) = true
reason_beq (some presentation_plan_rejected) (some presentation_plan_rejected) = true
reason_beq (some renderer_invariant_failed) (some renderer_invariant_failed) = true
reason_beq (some process_restart_detected) (some process_restart_detected) = true
reason_beq _ _ = false

unfoldable pub run_beq : AgentRunRecord → AgentRunRecord → Bool
run_beq a b =
    same_run a b
    && run_status_beq a.status b.status
    && a.completed_at == b.completed_at
    && reason_beq a.stop_reason b.stop_reason
    && a.incomplete_reason == b.incomplete_reason

unfoldable pub call_beq : ToolCallRecord → ToolCallRecord → Bool
call_beq a b =
    same_facts a b
    && a.status == b.status
    && a.finished_at == b.finished_at
    && a.interruption_reason == b.interruption_reason

unfoldable pub task_beq : TaskRecord → TaskRecord → Bool
task_beq a b =
    same_task a b
    && a.status == b.status
    && a.state_version == b.state_version
    && a.updated_at == b.updated_at
    && a.last_outcome_ref == b.last_outcome_ref

unfoldable pub unit_beq : RequestUnitRecord → RequestUnitRecord → Bool
unit_beq a b =
    same_unit a b
    && a.open_questions == b.open_questions
    && a.observation_refs == b.observation_refs
    && a.evidence_binding_refs == b.evidence_binding_refs
    && a.pending_action_ref == b.pending_action_ref
    && a.result_refs == b.result_refs
    && a.status == b.status
    && a.state_version == b.state_version
    && a.updated_at == b.updated_at

reason_beq_refl : (r : Option StopReason) → reason_beq r r ≡ true
reason_beq_refl r = ground arith

run_status_beq_refl : (s : AgentRunStatus) → run_status_beq s s ≡ true
run_status_beq_refl s = ground arith

pub run_beq_refl : (r : AgentRunRecord) → run_beq r r ≡ true
unfolding run_beq same_run
run_beq_refl r =
    rw
      (
        beq_refl r.run_id,
        beq_refl r.conversation_id,
        beq_refl r.provider_lane,
        beq_refl r.started_at,
        run_status_beq_refl r.status,
        beq_refl r.completed_at,
        reason_beq_refl r.stop_reason,
        beq_refl r.incomplete_reason,
      )
      refl

pub task_beq_refl : (t : TaskRecord) → task_beq t t ≡ true
unfolding task_beq same_task
task_beq_refl t =
    rw
      (
        beq_refl t.task_id,
        beq_refl t.owner_customer_id,
        beq_refl t.created_at,
        beq_refl t.status,
        beq_refl t.state_version,
        beq_refl t.updated_at,
        beq_refl t.last_outcome_ref,
      )
      refl

pub unit_beq_refl : (u : RequestUnitRecord) → unit_beq u u ≡ true
unfolding unit_beq same_unit
unit_beq_refl u =
    rw
      (
        beq_refl u.request_unit_id,
        beq_refl u.task_id,
        beq_refl u.goal_text,
        beq_refl u.goal_source_refs,
        beq_refl u.contextualization_ref,
        beq_refl u.constraint_refs,
        beq_refl u.dependency_refs,
        beq_refl u.input_binding_refs,
        beq_refl u.created_at,
        beq_refl u.open_questions,
        beq_refl u.observation_refs,
        beq_refl u.evidence_binding_refs,
        beq_refl u.pending_action_ref,
        beq_refl u.result_refs,
        beq_refl u.status,
        beq_refl u.state_version,
        beq_refl u.updated_at,
      )
      refl

pub call_beq_refl : (r : ToolCallRecord) → call_beq r r ≡ true
unfolding call_beq same_facts same_immutable
call_beq_refl r =
    rw
      (
        beq_refl r.tool_call_id,
        beq_refl r.run_id,
        beq_refl r.task_id,
        beq_refl r.request_unit_id,
        beq_refl r.model_call_id,
        beq_refl r.context_manifest_id,
        beq_refl r.gate_decision_id,
        beq_refl r.provider_tool_call_id,
        beq_refl r.canonical_tool_name,
        beq_refl r.tool_registry_version,
        beq_refl r.validated_task_state_version,
        beq_refl r.argument_binding_refs,
        effect_beq_same r.effect,
        beq_refl r.started_at,
        beq_refl r.attempt_count,
        beq_refl r.failure_code,
        phase_beq_same r.timeout_phase,
        beq_refl r.result_ref,
        beq_refl r.status,
        beq_refl r.finished_at,
        beq_refl r.interruption_reason,
      )
      refl

-- The fields that no event of a recovery may fill.
unfoldable pub rest_is_blank : TraceEvent → Bool
rest_is_blank e =
    is_none e.case_id
    && is_none e.message_ref
    && is_none e.accepted_delta_ref
    && is_none e.input_binding_ref
    && is_none e.model_call_id
    && is_none e.model_call_purpose
    && is_none e.context_manifest_id
    && is_none e.provider_name
    && is_none e.model_snapshot
    && is_none e.tool_registry_version
    && is_none e.model_visible_toolset_hash
    && is_none e.next_move_kind
    && is_none e.requested_tool_name
    && is_none e.proposed_base_task_state_version
    && is_none e.validated_task_state_version
    && is_empty e.argument_binding_refs
    && is_none e.gate_decision
    && is_none e.gate_reason_code
    && is_none e.safe_tool_outcome
    && is_none e.observation_ref
    && is_none e.presentation_plan_ref
    && is_none e.timing_and_usage_summary

abbrev no_stop : TraceEvent → Bool
no_stop e = is_none e.user_outcome && is_none e.stop_reason

abbrev no_task : TraceEvent → Bool
no_task e = is_none e.task_id && is_none e.request_unit_id

abbrev no_call : TraceEvent → Bool
no_call e = is_none e.tool_call_id && is_none e.tool_call_terminal_status

-- What an event of a type may fill, if a recovery records that type at all.
unfoldable pub other_fields_blank : TraceEventType → TraceEvent → Option Bool
other_fields_blank run_stopped e = some (rest_is_blank e && no_task e && no_call e)
other_fields_blank task_state_changed e = some (rest_is_blank e && no_stop e && no_call e)
other_fields_blank tool_call_interrupted e = some (rest_is_blank e && no_stop e && no_task e)
other_fields_blank _ e = none
