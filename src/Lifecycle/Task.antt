-- ===== src/Lifecycle/Task.antt =====
-- src/mini_agent/application/agent_run_service.py: `_finish_with_task`, which ends a run together with its task,
-- and the end of a run after an error.
use mini_agent.Lifecycle.Ending.{validate_finish}
use mini_agent.Lifecycle.Service.{
  RunFailure, Finished, bad_result, terminal_run, reply_of, stopped_event, finalize,
}
use mini_agent.Lifecycle.Service.{bad_run, bad_event, bad_link, bad_task, bad_message, bad_result}
use mini_agent.Lifecycle.{MessageRecord, validate_message}
use mini_agent.Presentation.{AgentRunResult, map_result}
use mini_agent.Recovery.Service.{bare_event}
use mini_agent.Recovery.Aggregates.{ConversationRecord}
use mini_agent.Recovery.{TaskTransition, RunTaskLink, validate_apply, validate_link}
use mini_agent.Clock.{DateTime}
use mini_agent.Lifecycle.Command.{FinalizeRun, FinishError}
use mini_agent.Prelude.Texts.{Uuid, Text}
use mini_agent.Tasks.{TaskStatus, TaskRecord, RequestUnitRecord, completed, blocked}
use mini_agent.Prelude.{
  none, some, nat_eq, list_eq, option_eq, ◌>>=◌, if◌then◌else◌, [], ◌∷◌, ◌++◌, ◌+◌, Option, ℕ, List,
  Bool, contains, Result, err, ok, or_raise,
}
use mini_agent.Runs.{
  goal_completed, not_found_or_not_accessible, gate_rejected, provider_protocol_error,
  order_service_unavailable, presentation_plan_rejected, renderer_invariant_failed, completed_run,
  failed_run, response_rendered, task_state_changed, AgentRunRecord, TraceEvent, StopReason,
  validate_run, validate_event,
}

-- `_project_task(...)` and `_project_request_unit(...)`
abbrev pub finished_task : TaskStatus → Uuid → DateTime → TaskRecord → TaskRecord
finished_task target_status reason_ref changed_at t = record t {
  status = target_status;
  state_version = t.state_version + 1;
  updated_at = changed_at;
  last_outcome_ref = some reason_ref;
}

abbrev pub with_observation : Option Uuid → List Uuid → List Uuid
with_observation none refs = refs
with_observation (some r) refs = if contains r refs then refs else refs ++ r ∷ []

abbrev pub finished_unit :
    TaskStatus → Uuid → Option Uuid → DateTime → RequestUnitRecord → RequestUnitRecord
finished_unit target_status reason_ref observation_ref changed_at u = record u {
  observation_refs = with_observation observation_ref u.observation_refs;
  result_refs = u.result_refs ++ reason_ref ∷ [];
  status = target_status;
  state_version = u.state_version + 1;
  updated_at = changed_at;
}

abbrev pub finishing :
    TaskStatus → Uuid → Option Uuid → DateTime → TaskRecord → RequestUnitRecord → TaskTransition
finishing target_status reason_ref observation_ref changed_at t u = record {
  expected_task_record = t;
  next_task_record = finished_task target_status reason_ref changed_at t;
  expected_request_unit_record = u;
  next_request_unit_record = finished_unit target_status reason_ref observation_ref changed_at u;
  task_state_transition = record {
    task_id = t.task_id;
    request_unit_id = u.request_unit_id;
    from_status = t.status;
    to_status = target_status;
    base_state_version = t.state_version;
    result_state_version = t.state_version + 1;
    reason_ref = reason_ref;
    changed_at = changed_at;
  };
}

abbrev pub changed_event : Uuid → Uuid → TaskTransition → TraceEvent
changed_event run_id id t =
    record (bare_event id task_state_changed t.task_state_transition.changed_at run_id) {
      task_id = some t.next_task_record.task_id;
      request_unit_id = some t.next_request_unit_record.request_unit_id;
    }

abbrev pub rendered_event_of :
    Uuid → DateTime → Uuid → Uuid → Uuid → Option Uuid → Option Uuid → TraceEvent
rendered_event_of id at run_id task_id request_unit_id observation_ref presentation_plan_ref =
    record (bare_event id response_rendered at run_id) {
      task_id = some task_id;
      request_unit_id = some request_unit_id;
      observation_ref = observation_ref;
      presentation_plan_ref = presentation_plan_ref;
    }

abbrev pub joint_command :
    AgentRunRecord
    → AgentRunRecord
    → RunTaskLink
    → RunTaskLink
    → TaskTransition
    → AgentRunResult
    → MessageRecord
    → List TraceEvent
    → FinalizeRun
joint_command running terminal active_link terminal_link transition result message events = record {
  expected_active_record = running;
  terminal_record = terminal;
  expected_active_links = active_link ∷ [];
  terminal_links = terminal_link ∷ [];
  result_task_records = transition.next_task_record ∷ [];
  task_transition = some transition;
  terminal_result = some result;
  assistant_message = some message;
  terminal_trace_events = events;
}

-- The status in which `_handle` leaves the task, at each of its calls of `_finish_with_task`.
abbrev pub target_of : StopReason → Option TaskStatus
target_of goal_completed = some completed
target_of not_found_or_not_accessible = some completed
target_of gate_rejected = some blocked
target_of provider_protocol_error = some blocked
target_of order_service_unavailable = some blocked
target_of presentation_plan_rejected = some blocked
target_of renderer_invariant_failed = some blocked
target_of r = none

-- What `_handle` passes on for a run with a task.
pub record Turn : Type 0 where
  pub running_run : AgentRunRecord
  pub conversation : ConversationRecord
  pub current_task : TaskRecord
  pub current_unit : RequestUnitRecord
  pub active_link : RunTaskLink
  pub stop_reason : StopReason
  pub target_status : TaskStatus
  pub reason_ref : Uuid
  pub observation_ref : Option Uuid
  pub presentation_plan_ref : Option Uuid
  pub rendered_message : Option Text

module _ (clock : ℕ → DateTime) (uuid_factory : ℕ → Uuid) (applied : FinalizeRun → Bool) where
  unfoldable pub finish_with_task : Turn → Result RunFailure Finished
  finish_with_task q = do
    result ← or_raise (map_result run_id q.stop_reason q.rendered_message) bad_result
    rendered ←
        or_raise
          (validate_event (
            rendered_event_of (uuid_factory 0) (clock 0) run_id q.current_task.task_id
              q.current_unit.request_unit_id q.observation_ref q.presentation_plan_ref))
          bad_event
    transition ←
        or_raise
          (validate_apply (
            finishing q.target_status q.reason_ref q.observation_ref (clock 1) q.current_task
              q.current_unit))
          bad_task
    terminal_link ←
        or_raise
          (validate_link record q.active_link {
            result_task_state_version = some transition.next_task_record.state_version;
          })
          bad_link
    terminal ←
        or_raise
          (validate_run (terminal_run completed_run (some q.stop_reason) (clock 2) q.running_run))
          bad_run
    message ←
        or_raise
          (validate_message
            (reply_of (uuid_factory 1) q.conversation.conversation_id result.message (clock 2)))
          bad_message
    changed ← or_raise (validate_event (changed_event run_id (uuid_factory 2) transition)) bad_event
    stopped ←
        or_raise
          (validate_event
            (stopped_event (uuid_factory 3) (clock 2) run_id result.outcome q.stop_reason))
          bad_event
    finalize applied rendered result (
        joint_command q.running_run terminal q.active_link terminal_link transition result message
          (changed ∷ stopped ∷ []))
    where
      run_id : Uuid
      run_id = q.running_run.run_id

-- The link of a failed run with the task that it has now, or neither.
abbrev pub failed_command :
    AgentRunRecord
    → AgentRunRecord
    → List RunTaskLink
    → List RunTaskLink
    → List TaskRecord
    → FinalizeRun
failed_command running terminal active ends tasks = record {
  expected_active_record = running;
  terminal_record = terminal;
  expected_active_links = active;
  terminal_links = ends;
  result_task_records = tasks;
  task_transition = none;
  terminal_result = none;
  assistant_message = none;
  terminal_trace_events = [];
}

-- What became of the run after an error: nothing to do, a note on the original error, or its end.
pub data Failed : Type 0 where
  not_running incomplete_cursor refused_end not_applied : Failed
  ended_run : FinalizeRun → Failed

-- `load_task_for_owner`, where it returns a task
abbrev pub reloaded : Option TaskRecord → TaskRecord → TaskRecord
reloaded none t = t
reloaded (some u) t = u

unfoldable pub end_failed :
    (FinalizeRun → Bool) → Result FinishError FinalizeRun → Result RunFailure Failed
end_failed applied (err e) = ok refused_end
end_failed applied (ok c) = ok (if applied c then ended_run c else not_applied)

-- `_finalize_failed_run_after_error`. A record that is refused before the port is called raises itself.
module _ (clock : DateTime) (load : Option TaskRecord) (applied : FinalizeRun → Bool) where
  unfoldable pub finalize_failed_run :
      Option AgentRunRecord → Option RunTaskLink → Option TaskRecord → Result RunFailure Failed
  unfolding end_failed
  finalize_failed_run none active_link result_task = ok not_running
  finalize_failed_run (some running) none (some t) = ok incomplete_cursor
  finalize_failed_run (some running) (some l) none = ok incomplete_cursor
  finalize_failed_run (some running) none none = do
    terminal ← or_raise (validate_run (terminal_run failed_run none clock running)) bad_run
    end_failed applied (validate_finish (failed_command running terminal [] [] []))
  finalize_failed_run (some running) (some l) (some t) = do
    end ←
        or_raise
          (validate_link
            record l { result_task_state_version = some (reloaded load t).state_version })
          bad_link
    terminal ← or_raise (validate_run (terminal_run failed_run none clock running)) bad_run
    end_failed applied (
        validate_finish
          (failed_command running terminal (l ∷ []) (end ∷ []) (reloaded load t ∷ [])))
