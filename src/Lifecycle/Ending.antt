-- ===== src/Lifecycle/Ending.antt =====
-- src/mini_agent/application/records.py: what `FinalizeRunCommand` tests of a run that completed or failed, and
-- its whole validation.
use mini_agent.Lifecycle.Command.{
  FinishError, check_linked, FinalizeRun, finish_fields_valid, no_transition, stray_task,
  is_terminal_row, other_events, no_result, failed_with_projection, check_runs, stray_transition,
  only_stop, outside_matrix, no_message, check_links, other_result, other_schema, other_direction,
  other_content, is_outcome,
}
use mini_agent.Lifecycle.Command.{
  stray_field, other_outcome, other_run, other_outcome, other_run, other_conversation, other_step,
  other_reason, repeated_identity, field, other_events, other_time,
}
use mini_agent.Prelude.{pair_eq}
use mini_agent.Recovery.Aggregates.{last_of}
use mini_agent.Lifecycle.{MessageRecord, MessageDirection, assistant_message}
use mini_agent.Recovery.Exact.{reason_beq, other_fields_blank}
use mini_agent.Recovery.Audit.{is_stray, change_key, transition_key}
use mini_agent.Presentation.{AgentRunResult}
use mini_agent.Prelude.Texts.{codes}
use mini_agent.Recovery.{RunTaskLink, TaskTransition}
use mini_agent.Prelude.{
  none, some, nat_eq, list_eq, option_eq, ◌>>◌, ◌&&◌, ◌||◌, [], ◌∷◌, ◌==◌, Bool, Option, List, true,
  Result, false, raise_if, not, any, is_some, is_empty, distinct, err, is_none, map, ok,
}
use mini_agent.Clock.{time_eq}
use mini_agent.Tasks.{task_status_eq, TaskStatus}
use mini_agent.Runs.{failed_run, AgentRunRecord, AgentRunStatus, TraceEvent}

unfoldable pub check_presence :
    List RunTaskLink → Option TaskTransition → Result FinishError (Unit {0})
check_presence links t = do
  raise_if (not (is_empty links) && is_none t) no_transition
  raise_if (is_empty links && is_some t) stray_transition

-- The transition of a run with a link, or none; the other two cases were refused before.
unfoldable pub check_step :
    FinalizeRun → List RunTaskLink → Option TaskTransition → Result FinishError (Unit {0})
unfolding check_linked
check_step c links none = do
  raise_if (not (is_empty c.result_task_records)) stray_task
  raise_if (not (only_stop c.terminal_trace_events)) other_events
check_step c [] (some t) = err stray_transition
check_step c (l ∷ links) (some t) = check_linked c l t

abbrev pub next_status : Option TaskTransition → Option TaskStatus
next_status none = none
next_status (some t) = some t.next_task_record.status

abbrev pub is_assistant : MessageDirection → Bool
is_assistant assistant_message = true
is_assistant d = false

-- The row of the ending, its result and its message.
unfoldable pub check_answer :
    FinalizeRun → AgentRunResult → MessageRecord → Result FinishError (Unit {0})
check_answer c result message = do
  raise_if
      (not (
        is_terminal_row terminal.stop_reason (not (is_empty c.expected_active_links)) result.outcome
          (next_status c.task_transition)))
      outside_matrix
  raise_if (not (result.run_id == terminal.run_id)) other_result
  raise_if (not (message.schema_version == codes "message_record.p0.v1")) other_schema
  raise_if (not (is_assistant message.direction)) other_direction
  raise_if (not (some message.conversation_id == terminal.conversation_id)) other_conversation
  raise_if (not (message.content == result.message)) other_content
  raise_if (not (some message.received_at == terminal.completed_at)) other_time
  where
    open c use {terminal_record as terminal}

unfoldable pub check_change : Option TaskTransition → TraceEvent → Result FinishError (Unit {0})
check_change none e = ok tt
check_change (some t) e = do
  raise_if (not (change_key e == transition_key t)) other_step
  raise_if (not (e.occurred_at == t.task_state_transition.changed_at)) other_time

unfoldable pub check_last :
    AgentRunRecord → AgentRunResult → TraceEvent → Result FinishError (Unit {0})
check_last terminal result e = do
  raise_if (not (reason_beq e.stop_reason terminal.stop_reason)) other_reason
  raise_if (not (is_outcome e.user_outcome result.outcome)) other_outcome
  raise_if (not (some e.occurred_at == terminal.completed_at)) other_time

-- The events; there is at least one, by `check_step`.
unfoldable pub check_events :
    FinalizeRun → AgentRunResult → List TraceEvent → Result FinishError (Unit {0})
unfolding check_change check_last
check_events c result [] = err other_events
check_events c result (e ∷ events) = do
  raise_if (not (distinct (map (λ d. d.trace_event_id) (e ∷ events)))) repeated_identity
  raise_if (any (λ d. not (d.run_id == c.terminal_record.run_id)) (e ∷ events)) other_run
  raise_if (any (λ d. is_stray (other_fields_blank d.event_type d)) (e ∷ events)) stray_field
  check_change c.task_transition e
  check_last c.terminal_record result (last_of e events)

unfoldable pub check_completed :
    FinalizeRun → Option AgentRunResult → Option MessageRecord → Result FinishError (Unit {0})
unfolding check_step check_answer check_events
check_completed c none message = err no_result
check_completed c (some result) none = err no_message
check_completed c (some result) (some message) = do
  check_step c c.expected_active_links c.task_transition
  check_answer c result message
  check_events c result c.terminal_trace_events

unfoldable pub check_failed : FinalizeRun → Result FinishError (Unit {0})
check_failed c =
    raise_if
      (is_some c.task_transition
        || is_some c.terminal_result
        || is_some c.assistant_message
        || not (is_empty c.terminal_trace_events))
      failed_with_projection

-- What is left to test depends on how the run ended.
unfoldable pub check_ending : FinalizeRun → AgentRunStatus → Result FinishError (Unit {0})
unfolding check_presence check_completed check_failed
check_ending c failed_run = check_failed c
check_ending c s = do
  check_presence c.expected_active_links c.task_transition
  check_completed c c.terminal_result c.assistant_message

-- `terminal_projection_is_exact_and_graph_closed`
unfoldable pub validate_finish : FinalizeRun → Result FinishError FinalizeRun
unfolding finish_fields_valid check_runs check_links check_ending
validate_finish c = do
  raise_if (not (finish_fields_valid c)) field
  check_runs c.expected_active_record c.terminal_record
  check_links c.expected_active_record.run_id c.expected_active_links c.terminal_links
      c.result_task_records
  check_ending c c.terminal_record.status
  ok c
