-- ===== src/Lifecycle/Command.antt =====
-- src/mini_agent/application/records.py: `FinalizeRunCommand`, all that ends a run, and the table of the
-- endings of a completed run. Each list of links and tasks has at most one entry, so that the tests of
-- one loop over a list come one after the other. Errors are not sanitised.
use mini_agent.Recovery.Command.{link_by_task}
use mini_agent.Tools.Call.{ends_early}
use mini_agent.Recovery.Closure.{exceeds, task_id_of, task_by_id}
use mini_agent.Lifecycle.{MessageRecord, is_running_run, is_content, validate_message}
use mini_agent.Recovery.Exact.{task_beq}
use mini_agent.Recovery.Audit.{is_stop, is_change}
use mini_agent.Presentation.{AgentRunResult}
use mini_agent.Prelude.Texts.{Uuid, none_or}
use mini_agent.Recovery.{
  RunTaskLink, TaskTransition, is_restart, validate_link, same_run, validate_apply,
}
use mini_agent.Prelude.{
  none, some, nat_eq, list_eq, option_eq, ◌>>◌, ◌&&◌, ◌||◌, [], ◌∷◌, ◌==◌, Bool, Option, List, true,
  is_ok, Result, false, raise_if, leb, not, any, length, is_some, all, distinct, is_none, map,
  same_set,
}
use mini_agent.Clock.{time_eq}
use mini_agent.Tasks.{task_status_eq, completed, blocked, TaskRecord, TaskStatus, validate_task}
use mini_agent.Runs.{
  completed_run, failed_run, goal_completed, not_found_or_not_accessible, input_invalid,
  gate_rejected, provider_protocol_error, order_service_unavailable, presentation_plan_rejected,
  renderer_invariant_failed, completed_outcome, ask_user, blocked_outcome, need_human,
  not_found_outcome, AgentRunRecord, AgentRunStatus, AgentOutcome, StopReason, TraceEvent,
  validate_run, validate_event,
}

pub data FinishError : Type 0 where
  field not_running stray_reason not_terminal restart_reason no_conversation : FinishError
  failed_with_reason changed_fields other_run early_result repeated_identity : FinishError
  no_result_version other_link_set other_link other_task_set other_version : FinishError
  failed_with_projection no_transition stray_transition no_result no_message : FinishError
  stray_task other_events other_task early_transition other_step late_transition : FinishError
  outside_matrix other_result other_schema other_direction other_conversation : FinishError
  other_content other_time stray_field other_reason other_outcome : FinishError

pub record FinalizeRun : Type 0 where
  pub expected_active_record : AgentRunRecord
  pub terminal_record : AgentRunRecord
  pub expected_active_links : List RunTaskLink
  pub terminal_links : List RunTaskLink
  pub result_task_records : List TaskRecord
  pub task_transition : Option TaskTransition
  pub terminal_result : Option AgentRunResult
  pub assistant_message : Option MessageRecord
  pub terminal_trace_events : List TraceEvent

unfoldable pub finish_fields_valid : FinalizeRun → Bool
finish_fields_valid c =
    is_ok (validate_run c.expected_active_record)
    && is_ok (validate_run c.terminal_record)
    && leb (length c.expected_active_links) 1
    && all (λ l. is_ok (validate_link l)) c.expected_active_links
    && leb (length c.terminal_links) 1
    && all (λ l. is_ok (validate_link l)) c.terminal_links
    && leb (length c.result_task_records) 1
    && all (λ t. is_ok (validate_task t)) c.result_task_records
    && none_or (λ t. is_ok (validate_apply t)) c.task_transition
    && none_or (λ r. is_content r.message) c.terminal_result
    && none_or (λ m. is_ok (validate_message m)) c.assistant_message
    && leb (length c.terminal_trace_events) 2
    && all (λ e. is_ok (validate_event e)) c.terminal_trace_events

abbrev pub is_completed_run : AgentRunStatus → Bool
is_completed_run completed_run = true
is_completed_run s = false

abbrev pub is_failed_run : AgentRunStatus → Bool
is_failed_run failed_run = true
is_failed_run s = false

unfoldable pub check_runs : AgentRunRecord → AgentRunRecord → Result FinishError (Unit {0})
check_runs expected terminal = do
  raise_if (not (is_running_run expected.status)) not_running
  raise_if (is_some expected.incomplete_reason) stray_reason
  raise_if (not (is_completed_run terminal.status || is_failed_run terminal.status)) not_terminal
  raise_if (is_restart terminal.stop_reason) restart_reason
  raise_if (is_some terminal.incomplete_reason) stray_reason
  raise_if (is_completed_run terminal.status && is_none terminal.conversation_id) no_conversation
  raise_if (is_failed_run terminal.status && is_some terminal.stop_reason) failed_with_reason
  raise_if (not (same_run expected terminal)) changed_fields

abbrev pub keeps : RunTaskLink → Option RunTaskLink → Bool
keeps l none = false
keeps l (some k) =
    k.schema_version == l.schema_version && k.base_task_state_version == l.base_task_state_version

abbrev pub ends_at : RunTaskLink → Option TaskRecord → Bool
ends_at l none = false
ends_at l (some t) = l.result_task_state_version == some t.state_version

abbrev pub link_task : RunTaskLink → Uuid
link_task l = l.task_id

unfoldable pub check_links :
    Uuid → List RunTaskLink → List RunTaskLink → List TaskRecord → Result FinishError (Unit {0})
check_links run_id active ends tasks = do
  raise_if (any (λ l. not (l.run_id == run_id)) active) other_run
  raise_if (any (λ l. is_some l.result_task_state_version) active) early_result
  raise_if (not (distinct (map link_task active))) repeated_identity
  raise_if (any (λ l. not (l.run_id == run_id)) ends) other_run
  raise_if (any (λ l. is_none l.result_task_state_version) ends) no_result_version
  raise_if (not (distinct (map link_task ends))) repeated_identity
  raise_if (not (same_set (map link_task active) (map link_task ends))) other_link_set
  raise_if (any (λ l. not (keeps l (link_by_task ends l.task_id))) active) other_link
  raise_if (not (distinct (map task_id_of tasks))) repeated_identity
  raise_if (not (same_set (map task_id_of tasks) (map link_task ends))) other_task_set
  raise_if (any (λ l. not (ends_at l (task_by_id tasks l.task_id))) ends) other_version

-- `_COMPLETED_FINALIZATION_ROWS`
abbrev pub is_terminal_row : Option StopReason → Bool → AgentOutcome → Option TaskStatus → Bool
is_terminal_row (some goal_completed) true completed_outcome (some completed) = true
is_terminal_row (some not_found_or_not_accessible) true not_found_outcome (some completed) = true
is_terminal_row (some provider_protocol_error) false blocked_outcome none = true
is_terminal_row (some provider_protocol_error) true blocked_outcome (some blocked) = true
is_terminal_row (some input_invalid) false blocked_outcome none = true
is_terminal_row (some gate_rejected) true blocked_outcome (some blocked) = true
is_terminal_row (some order_service_unavailable) true blocked_outcome (some blocked) = true
is_terminal_row (some presentation_plan_rejected) true blocked_outcome (some blocked) = true
is_terminal_row (some renderer_invariant_failed) true blocked_outcome (some blocked) = true
is_terminal_row _ _ _ _ = false

abbrev pub outcome_beq : AgentOutcome → AgentOutcome → Bool
outcome_beq completed_outcome completed_outcome = true
outcome_beq ask_user ask_user = true
outcome_beq blocked_outcome blocked_outcome = true
outcome_beq need_human need_human = true
outcome_beq not_found_outcome not_found_outcome = true
outcome_beq _ _ = false

abbrev pub is_outcome : Option AgentOutcome → AgentOutcome → Bool
is_outcome none o = false
is_outcome (some p) o = outcome_beq p o

abbrev pub only_stop : List TraceEvent → Bool
only_stop (e ∷ []) = is_stop e
only_stop _ = false

abbrev pub change_then_stop : List TraceEvent → Bool
change_then_stop (d ∷ e ∷ []) = is_change d && is_stop e
change_then_stop _ = false

abbrev pub is_only_task : List TaskRecord → TaskRecord → Bool
is_only_task (t ∷ []) u = task_beq t u
is_only_task _ u = false

-- The transition that the first link of the run has to have.
unfoldable pub check_linked :
    FinalizeRun → RunTaskLink → TaskTransition → Result FinishError (Unit {0})
check_linked c l t = do
  raise_if
      (not (t.expected_task_record.task_id == l.task_id && t.next_task_record.task_id == l.task_id))
      other_task
  raise_if (exceeds l.base_task_state_version (some t.expected_task_record)) early_transition
  raise_if
      (not (
        t.next_task_record.status == t.next_request_unit_record.status
        && t.next_task_record.state_version == t.next_request_unit_record.state_version))
      other_step
  raise_if (not (is_only_task c.result_task_records t.next_task_record)) stray_task
  raise_if (ends_early c.terminal_record.completed_at t.task_state_transition.changed_at)
      late_transition
  raise_if (not (change_then_stop c.terminal_trace_events)) other_events
