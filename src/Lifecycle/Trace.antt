-- ===== src/Lifecycle/Trace.antt =====
-- src/mini_agent/application/agent_run_service.py: the events that a run appends to its trace when its first
-- decision is made and when its tool call has ended.
use mini_agent.Understanding.Graph.{TaskGraph}
use mini_agent.Understanding.Closure.{UnderstandingClosure}
use mini_agent.Recovery.Service.{bare_event}
use mini_agent.Prelude.Texts.{Uuid, Text, codes}
use mini_agent.Clock.{DateTime}
use mini_agent.Prelude.{
  none, some, nat_eq, list_eq, option_eq, ◌>>=◌, [], ◌∷◌, Option, ℕ, List, Result, err, or_raise,
  ok, traverse,
}
use mini_agent.Tools.Call.{
  status_eq, created, running, succeeded, failed, timed_out, interrupted, ToolCallStatus,
  ToolCallRecord, ToolResultOutcome, ToolAttemptRecord,
}
use mini_agent.Runs.{
  next_move_proposed, task_delta_validated, task_delta_accepted, input_binding_recorded,
  task_state_changed, tool_call_created, tool_call_started, tool_call_succeeded, tool_call_failed,
  tool_call_timed_out, tool_call_interrupted, tool_result_normalized, TraceEventType,
  validate_event, TraceEvent,
}
use mini_agent.Understanding.Contracts.{
  call_tool, ask_user, finish, escalate, NextMoveKind, NextMove,
}

pub data TraceFailure : Type 0 where
  no_terminal_projection no_terminal_status : TraceFailure
  refused_event : TraceFailure

-- `terminal_event_by_status.get(terminal.status)`
abbrev pub terminal_event_type : ToolCallStatus → Option TraceEventType
terminal_event_type succeeded = some tool_call_succeeded
terminal_event_type failed = some tool_call_failed
terminal_event_type timed_out = some tool_call_timed_out
terminal_event_type interrupted = some tool_call_interrupted
terminal_event_type s = none

-- `occurred_at or self._clock()`
abbrev pub at_or : DateTime → Option DateTime → DateTime
at_or now none = now
at_or now (some t) = t

abbrev pub created_event : ToolCallRecord → Uuid → TraceEvent
created_event c id = record (bare_event id tool_call_created c.started_at c.run_id) {
  task_id = some c.task_id;
  request_unit_id = some c.request_unit_id;
  model_call_id = some c.model_call_id;
  context_manifest_id = some c.context_manifest_id;
  validated_task_state_version = some c.validated_task_state_version;
  argument_binding_refs = c.argument_binding_refs;
  tool_call_id = some c.tool_call_id;
  tool_call_terminal_status = some created;
}

abbrev pub call_event :
    ToolCallRecord → TraceEventType → ToolCallStatus → DateTime → Uuid → TraceEvent
call_event c type status at id = record (bare_event id type at c.run_id) {
  task_id = some c.task_id;
  request_unit_id = some c.request_unit_id;
  tool_call_id = some c.tool_call_id;
  tool_call_terminal_status = some status;
}

abbrev pub normalized_event :
    ToolCallRecord → Option ToolResultOutcome → DateTime → Uuid → TraceEvent
normalized_event c outcome at id = record (bare_event id tool_result_normalized at c.run_id) {
  task_id = some c.task_id;
  request_unit_id = some c.request_unit_id;
  tool_call_id = some c.tool_call_id;
  safe_tool_outcome = outcome;
}

-- Of a call that raises, the events that were appended before are left out.
module _ (clock : DateTime) (uuid_factory : ℕ → Uuid) where
  unfoldable pub ended_call_trace :
      ToolCallRecord
      → ToolCallRecord
      → ToolAttemptRecord
      → Option TraceEventType
      → Result TraceFailure (List TraceEvent)
  ended_call_trace c terminal attempt none = err no_terminal_status
  ended_call_trace c terminal attempt (some type) = do
    end ←
        or_raise
          (validate_event
            (call_event c type terminal.status (at_or clock terminal.finished_at) (uuid_factory 2)))
          refused_event
    normalized ←
        or_raise
          (validate_event (
            normalized_event c attempt.outcome (at_or clock terminal.finished_at) (uuid_factory 3)))
          refused_event
    ok (end ∷ normalized ∷ [])

  unfoldable pub call_trace :
      ToolCallRecord → ToolCallRecord → ToolAttemptRecord → Result TraceFailure (List TraceEvent)
  unfolding ended_call_trace
  call_trace c terminal attempt = do
    first ← or_raise (validate_event (created_event c (uuid_factory 0))) refused_event
    second ←
        or_raise
          (validate_event
            (call_event c tool_call_started running attempt.started_at (uuid_factory 1)))
          refused_event
    rest ← ended_call_trace c terminal attempt (terminal_event_type terminal.status)
    ok (first ∷ second ∷ rest)

  -- `_append_tool_trace`: the events in the order in which they are appended.
  unfoldable pub append_tool_trace :
      ToolCallRecord
      → Option ToolCallRecord
      → Option ToolAttemptRecord
      → Result TraceFailure (List TraceEvent)
  unfolding call_trace
  append_tool_trace c (some terminal) (some attempt) = call_trace c terminal attempt
  append_tool_trace c _ _ = err no_terminal_projection

-- `kind.value`
abbrev pub kind_text : NextMoveKind → Text
kind_text call_tool = codes "CALL_TOOL"
kind_text ask_user = codes "ASK_USER"
kind_text finish = codes "FINISH"
kind_text escalate = codes "ESCALATE"

-- `_append_initial_decision_trace`: the events before they are validated; the clock is read for each.
module _ (clock : ℕ → DateTime) (uuid_factory : ℕ → Uuid)
    (run_id model_call_id manifest_id : Uuid) where
  abbrev bare : ℕ → TraceEventType → TraceEvent
  bare n type = bare_event (uuid_factory n) type (clock n) run_id

  abbrev pub decision_events : UnderstandingClosure → TaskGraph → NextMove → List TraceEvent
  decision_events c g move =
      record (bare 0 next_move_proposed) {
        message_ref = some c.record_.message_ref;
        model_call_id = some model_call_id;
        context_manifest_id = some manifest_id;
        next_move_kind = some (kind_text move.kind);
        requested_tool_name = move.requested_tool_name;
        proposed_base_task_state_version = move.base_task_state_version;
      }
      ∷ record (bare 1 task_delta_validated) {
        message_ref = some c.record_.message_ref;
        accepted_delta_ref = some g.accepted_delta.accepted_delta_id;
      }
      ∷ record (bare 2 task_delta_accepted) {
        message_ref = some c.record_.message_ref;
        accepted_delta_ref = some g.accepted_delta.accepted_delta_id;
        task_id = some g.task.task_id;
        request_unit_id = some g.request_unit.request_unit_id;
      }
      ∷ record (bare 3 input_binding_recorded) {
        task_id = some g.task.task_id;
        request_unit_id = some g.request_unit.request_unit_id;
        input_binding_ref = some g.input_binding.binding_id;
      }
      ∷ record (bare 4 task_state_changed) {
        task_id = some g.task.task_id;
        request_unit_id = some g.request_unit.request_unit_id;
      }
      ∷ []

  unfoldable pub append_initial_decision_trace :
      UnderstandingClosure → TaskGraph → NextMove → Result TraceFailure (List TraceEvent)
  append_initial_decision_trace c g move =
      traverse (λ e. or_raise (validate_event e) refused_event) (decision_events c g move)
