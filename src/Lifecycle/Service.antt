-- ===== src/Lifecycle/Service.antt =====
-- src/mini_agent/application/agent_run_service.py: how a run is started and finished, with a task or without
-- one, or after an error. The readings of the clock and the UUIDs are those that are given in turn, and the
-- ports return; the port that finalizes the run is a parameter. The cursor for failures is not kept.
use mini_agent.Lifecycle.Ending.{validate_finish}
use mini_agent.Recovery.Service.{bare_event}
use mini_agent.Recovery.Aggregates.{ConversationRecord}
use mini_agent.Lifecycle.{
  TransitionRun, MessageRecord, validate_create_run, assistant_message, validate_transition_run,
  validate_message,
}
use mini_agent.Presentation.{AgentRunResult, map_result}
use mini_agent.Clock.{DateTime}
use mini_agent.Lifecycle.Command.{FinalizeRun}
use mini_agent.Prelude.Texts.{Uuid, Text, codes}
use mini_agent.Prelude.{
  none, some, nat_eq, list_eq, option_eq, ◌>>=◌, ◌>>◌, [], ◌∷◌, ℕ, Bool, Option, Result, or_raise,
  raise_if, not, ok, true, false,
}
use mini_agent.Runs.{
  input_invalid, provider_protocol_error, created_run, running_run, completed_run,
  response_rendered, run_stopped, AgentRunRecord, AgentRunStatus, TraceEvent, StopReason,
  AgentOutcome, validate_event, validate_run,
}

-- A call that raises: one of its records is refused, or a write was not applied.
pub data RunFailure : Type 0 where
  bad_run bad_result bad_task bad_link bad_message bad_event bad_command : RunFailure
  insert_conflict start_conflict finalization_conflict : RunFailure

abbrev pub created_of : Uuid → Uuid → Text → DateTime → AgentRunRecord
created_of run_id conversation_id provider_lane now = record {
  run_id = run_id;
  conversation_id = some conversation_id;
  status = created_run;
  provider_lane = provider_lane;
  started_at = now;
  completed_at = none;
  stop_reason = none;
  incomplete_reason = none;
}

abbrev pub running_of : AgentRunRecord → AgentRunRecord
running_of r = record r { status = running_run }

-- The part of `_handle` that creates the run and starts it.
unfoldable pub start_run :
    (AgentRunRecord → Bool)
    → (TransitionRun → Bool)
    → Uuid
    → Uuid
    → Text
    → DateTime
    → Result RunFailure AgentRunRecord
start_run inserted started run_id conversation_id provider_lane now = do
  created ←
      or_raise (validate_create_run (created_of run_id conversation_id provider_lane now)) bad_run
  raise_if (not (inserted created)) insert_conflict
  change ←
      or_raise
        (validate_transition_run
          record { expected_active_record = created; next_record = running_of created })
        bad_run
  raise_if (not (started change)) start_conflict
  ok change.next_record

-- `_project_run(...)`
abbrev pub terminal_run :
    AgentRunStatus → Option StopReason → DateTime → AgentRunRecord → AgentRunRecord
terminal_run status stop_reason completed_at r = record r {
  status = status;
  completed_at = some completed_at;
  stop_reason = stop_reason;
}

abbrev pub reply_of : Uuid → Uuid → Text → DateTime → MessageRecord
reply_of message_id conversation_id content received_at = record {
  schema_version = codes "message_record.p0.v1";
  message_id = message_id;
  conversation_id = conversation_id;
  direction = assistant_message;
  content = content;
  received_at = received_at;
}

abbrev pub stopped_event : Uuid → DateTime → Uuid → AgentOutcome → StopReason → TraceEvent
stopped_event id completed_at run_id outcome stop_reason =
    record (bare_event id run_stopped completed_at run_id) {
      user_outcome = some outcome;
      stop_reason = some stop_reason;
    }

-- The reasons with which `_handle` calls `_finish_without_task`
abbrev pub ends_alone : StopReason → Bool
ends_alone input_invalid = true
ends_alone provider_protocol_error = true
ends_alone r = false

-- What a finish leaves: the event for the rendered response, the command, and the result.
pub record Finished : Type 0 where
  pub rendered_event : TraceEvent
  pub command : FinalizeRun
  pub result : AgentRunResult

-- `finalize_run_if_active(FinalizeRunCommand(...))`
unfoldable pub finalize :
    (FinalizeRun → Bool) → TraceEvent → AgentRunResult → FinalizeRun → Result RunFailure Finished
finalize applied rendered result c = do
  command ← or_raise (validate_finish c) bad_command
  raise_if (not (applied command)) finalization_conflict
  ok record { rendered_event = rendered; command = command; result = result }

abbrev pub alone_command :
    AgentRunRecord → AgentRunRecord → AgentRunResult → MessageRecord → TraceEvent → FinalizeRun
alone_command running terminal result message stopped = record {
  expected_active_record = running;
  terminal_record = terminal;
  expected_active_links = [];
  terminal_links = [];
  result_task_records = [];
  task_transition = none;
  terminal_result = some result;
  assistant_message = some message;
  terminal_trace_events = stopped ∷ [];
}

module _ (clock : ℕ → DateTime) (uuid_factory : ℕ → Uuid) (applied : FinalizeRun → Bool) where
  unfoldable pub finish_without_task :
      AgentRunRecord → ConversationRecord → StopReason → Result RunFailure Finished
  unfolding finalize
  finish_without_task running conversation stop_reason = do
    result ← or_raise (map_result running.run_id stop_reason none) bad_result
    rendered ←
        or_raise
          (validate_event (bare_event (uuid_factory 0) response_rendered (clock 0) running.run_id))
          bad_event
    terminal ←
        or_raise (validate_run (terminal_run completed_run (some stop_reason) (clock 1) running))
          bad_run
    message ←
        or_raise
          (validate_message
            (reply_of (uuid_factory 1) conversation.conversation_id result.message (clock 1)))
          bad_message
    stopped ←
        or_raise
          (validate_event
            (stopped_event (uuid_factory 2) (clock 1) running.run_id result.outcome stop_reason))
          bad_event
    finalize applied rendered result (alone_command running terminal result message stopped)
