-- ===== src/Recovery/Audit.antt =====
-- src/mini_agent/application/records.py: the trace events of `ApplyRestartRecoveryCommand`, and the whole
-- validation of the command.
use mini_agent.Prelude.Texts.{Uuid}
use mini_agent.Recovery.Command.{
  RecoveryCommand, command_fields_valid, check_projections, CommandError, other_outcome,
  repeated_identity, unsupported_event, other_event_set, other_run, stray_field,
}
use mini_agent.Recovery.{TaskTransition, InterruptCall, is_restart}
use mini_agent.Recovery.Exact.{other_fields_blank}
use mini_agent.Prelude.{
  some, nat_eq, list_eq, option_eq, pair_eq, ◌==◌, Bool, true, is_none, not, false, Option, List,
  none, Result, ◌∷◌, ◌>>◌, raise_if, distinct, any, map, same_set, lookup, select, err, ok, [],
}
use mini_agent.Recovery.Command.{
  field, repeated_identity, unsupported_event, other_run, stray_field, not_one_stop, other_outcome,
  other_reason, other_time, other_event_set, not_interrupted,
}
use mini_agent.Clock.{time_eq, DateTime}
use mini_agent.Tools.Call.{status_eq, interrupted}
use mini_agent.Runs.{
  run_stopped, task_state_changed, tool_call_interrupted, TraceEvent, AgentOutcome, blocked_outcome,
}

abbrev pub is_stop : TraceEvent → Bool
is_stop e = elim e.event_type [ run_stopped ↦ true | _ ↦ false ]

abbrev pub is_change : TraceEvent → Bool
is_change e = elim e.event_type [ task_state_changed ↦ true | _ ↦ false ]

abbrev pub is_interruption : TraceEvent → Bool
is_interruption e = elim e.event_type [ tool_call_interrupted ↦ true | _ ↦ false ]

abbrev is_unsupported : TraceEvent → Bool
is_unsupported e = is_none (other_fields_blank e.event_type e)

abbrev pub is_stray : Option Bool → Bool
is_stray none = false
is_stray (some b) = not b

abbrev pub is_blocked_outcome : Option AgentOutcome → Bool
is_blocked_outcome (some blocked_outcome) = true
is_blocked_outcome o = false

unfoldable pub check_stop : Option DateTime → List TraceEvent → Result CommandError (Unit {0})
check_stop completed_at (e ∷ []) = do
  raise_if (not (is_blocked_outcome e.user_outcome)) other_outcome
  raise_if (not (is_restart e.stop_reason)) other_reason
  raise_if (not (some e.occurred_at == completed_at)) other_time
check_stop completed_at _ = err not_one_stop

abbrev pub change_key : TraceEvent → Option Uuid × Option Uuid
change_key e = (e.task_id, e.request_unit_id)

abbrev pub transition_key : TaskTransition → Option Uuid × Option Uuid
transition_key t =
    (some t.next_task_record.task_id, some t.next_request_unit_record.request_unit_id)

abbrev pub timed_change : TraceEvent → (Option Uuid × Option Uuid) × DateTime
timed_change e = (change_key e, e.occurred_at)

unfoldable pub check_changes :
    List TaskTransition → List TraceEvent → Result CommandError (Unit {0})
check_changes changes events = do
  raise_if (not (distinct (map change_key events))) repeated_identity
  raise_if (not (same_set (map change_key events) (map transition_key changes))) other_event_set
  raise_if
      (any
        (λ t. not (
          lookup (transition_key t) (map timed_change events)
          == some t.task_state_transition.changed_at))
        changes)
      other_time

abbrev pub interrupted_key : InterruptCall → Option Uuid
interrupted_key t = some t.interrupted_record.tool_call_id

abbrev pub timed_interruption : TraceEvent → Option Uuid × DateTime
timed_interruption e = (e.tool_call_id, e.occurred_at)

unfoldable pub check_interruptions :
    List InterruptCall → List TraceEvent → Result CommandError (Unit {0})
check_interruptions changes events = do
  raise_if (any (λ e. not (e.tool_call_terminal_status == some interrupted)) events) not_interrupted
  raise_if (not (distinct (map (λ e. e.tool_call_id) events))) repeated_identity
  raise_if (not (same_set (map (λ e. e.tool_call_id) events) (map interrupted_key changes)))
      other_event_set
  raise_if
      (any
        (λ t. not (
          lookup (interrupted_key t) (map timed_interruption events)
          == t.interrupted_record.finished_at))
        changes)
      other_time

-- `recovery_trace_is_exact_bounded_and_projection_safe`
unfoldable pub check_trace : RecoveryCommand → Result CommandError (Unit {0})
unfolding check_stop check_changes check_interruptions
check_trace c = do
  raise_if (not (distinct (map (λ e. e.trace_event_id) events))) repeated_identity
  raise_if (any is_unsupported events) unsupported_event
  raise_if (any (λ e. not (e.run_id == run_id)) events) other_run
  raise_if (any (λ e. is_stray (other_fields_blank e.event_type e)) events) stray_field
  check_stop c.run_transition.incomplete_record.completed_at (select is_stop events)
  check_changes c.task_transitions (select is_change events)
  check_interruptions c.tool_call_transitions (select is_interruption events)
  where
    open c use {recovery_trace_events as events}

    run_id : Uuid
    run_id = c.expected_closure.active_run_record.run_id

-- `ApplyRestartRecoveryCommand(...)`
unfoldable pub validate_recovery : RecoveryCommand → Result CommandError RecoveryCommand
unfolding command_fields_valid check_projections check_trace
validate_recovery c = do
  raise_if (not (command_fields_valid c)) field
  check_projections c
  check_trace c
  ok c
