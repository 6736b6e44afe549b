-- ===== src/Lifecycle/Finishes.antt =====
-- The runs that src/mini_agent/application/agent_run_service.py ends.
use mini_agent.Recovery.Projected.{ended}
use mini_agent.Recovery.Traced.{IsFresh, fresh-apart}
use mini_agent.Lifecycle.Steps.{Finishable, finishing-ok}
use mini_agent.Lifecycle.Joint.{IsLinked, joint-ok, end-ok}
use mini_agent.Recovery.Service.{bare_event}
use mini_agent.Lifecycle.Alone.{alone-ok}
use mini_agent.Lifecycle.Answers.{map_result-valid, alone_row, alone_result, joint_row}
use mini_agent.Lifecycle.Parts.{IsUnderWay, terminal_run-ok, reply-ok, stopped-ok, changed-ok}
use mini_agent.Lifecycle.Ending.{validate_finish}
use mini_agent.Recovery.Aggregates.{ConversationRecord}
use mini_agent.Presentation.{AgentRunResult, map_result}
use mini_agent.Prelude.Texts.{Uuid, Text}
use mini_agent.Lifecycle.Task.{
  target_of, rendered_event_of, finish_with_task, Turn, finishing, joint_command,
}
use mini_agent.Recovery.{is_restart}
use mini_agent.Lifecycle.Service.{
  finalize, finish_without_task, ends_alone, RunFailure, finalization_conflict, Finished,
  alone_command, terminal_run, reply_of, stopped_event,
}
use mini_agent.Lifecycle.Command.{FinalizeRun}
use mini_agent.Prelude.{
  none, some, nat_eq, list_eq, option_eq, [], ◌∷◌, ◌+◌, refl, ◌≡◌, ok, true, false, err, ℕ, Bool,
  Option, arith, Result, if◌then◌else◌, ok_value, is_ok,
}
use mini_agent.Clock.{time_eq, DateTime, is_utc, earlier}
use mini_agent.Tasks.{task_status_eq, TaskStatus}
use mini_agent.Lifecycle.Task.{joint_command, changed_event}
use mini_agent.Runs.{
  completed_run, StopReason, AgentRunRecord, TraceEvent, validate_event, event_fields_valid,
  TraceEventType,
}

-- The readings of the clock are in UTC.
abbrev pub InUtc : (ℕ → DateTime) → Type 0
InUtc clock = (n : ℕ) → is_utc (clock n) ≡ true

-- What a finish leaves: a command that passes its validation, for the run and the reason, with the result of
-- the renderer. The finish raises only if the port does not apply the command.
abbrev pub Finishes :
    (FinalizeRun → Bool)
    → AgentRunRecord
    → StopReason
    → Option Text
    → Result RunFailure Finished
    → Finished
    → Type 0
Finishes applied r reason rendered outcome f =
    (validate_finish f.command ≡ ok f.command)
    × (f.command.expected_active_record ≡ r)
    × (f.command.terminal_record.stop_reason ≡ some reason)
    × (map_result r.run_id reason rendered ≡ ok f.result)
    × (outcome ≡ (if applied f.command then ok f else err finalization_conflict))

abbrev finished : TraceEvent → AgentRunResult → FinalizeRun → Finished
finished e x c = record { rendered_event = e; command = c; result = x }

finalize-eq :
    (applied : FinalizeRun → Bool) (e : TraceEvent) (x : AgentRunResult) (c : FinalizeRun)
    → validate_finish c ≡ ok c
    → finalize applied e x c
      ≡ (if applied c then ok (finished e x c) else err finalization_conflict)
unfolding finalize
finalize-eq applied e x c h = rw h (ground arith)

unrestarted : (r : StopReason) → ends_alone r ≡ true → is_restart (some r) ≡ false
unrestarted r h = ground arith

unrestarted_target :
    (r : StopReason) (s : TaskStatus) → target_of r ≡ some s → is_restart (some r) ≡ false
unrestarted_target r s h = ground arith

rendered-ok :
    (id : Uuid) (at : DateTime) (run_id : Uuid)
    → is_utc at ≡ true
    → validate_event (bare_event id TraceEventType.response_rendered at run_id)
      ≡ ok (bare_event id TraceEventType.response_rendered at run_id)
unfolding validate_event event_fields_valid
rendered-ok id at run_id utc = ground arith

joint_rendered-ok :
    (id : Uuid) (at : DateTime) (run_id task_id unit_id : Uuid) (seen plan : Option Uuid)
    → is_utc at ≡ true
    → validate_event (rendered_event_of id at run_id task_id unit_id seen plan)
      ≡ ok (rendered_event_of id at run_id task_id unit_id seen plan)
unfolding validate_event event_fields_valid
joint_rendered-ok id at run_id task_id unit_id seen plan utc = ground arith

-- For both reasons with which it is called, and a clock in UTC whose second reading is not before the start of
-- the run, `_finish_without_task` ends a run that is under way.
pub finish_without_task-Finishes :
    (clock : ℕ → DateTime) (f : ℕ → Uuid) (applied : FinalizeRun → Bool) (r : AgentRunRecord)
    (conversation : ConversationRecord) (reason : StopReason)
    → IsUnderWay r conversation.conversation_id
    → ends_alone reason ≡ true
    → InUtc clock
    → earlier (clock 1) r.started_at ≡ false
    → (x : Finished) × Finishes applied r reason none
        (finish_without_task clock f applied r conversation reason)
        x
unfolding finish_without_task
finish_without_task-Finishes clock f applied r conversation reason run alone utc after =
    let (x, made) =
      ok_value (map_result r.run_id reason none) (alone_result r.run_id reason alone) in
    let (of_run, content) = map_result-valid r.run_id reason none x made in
    let whole =
      alone-ok r conversation.conversation_id reason (clock 1) x (f 1) (f 2) run (utc 1) after
        of_run content (alone_row r.run_id reason none x made alone) (unrestarted reason alone) in
    let e = bare_event (f 0) TraceEventType.response_rendered (clock 0) r.run_id in
    let c =
      alone_command r (terminal_run completed_run (some reason) (clock 1) r) x
        (reply_of (f 1) conversation.conversation_id x.message (clock 1))
        (stopped_event (f 2) (clock 1) r.run_id x.outcome reason) in
    (
      finished e x c,
      (
        whole,
        refl,
        refl,
        made,
        rw
            (
              made,
              rendered-ok (f 0) (clock 0) r.run_id (utc 0),
              terminal_run-ok r conversation.conversation_id reason (clock 1) run (utc 1) after,
              reply-ok (f 1) conversation.conversation_id x.message (clock 1) content (utc 1),
              stopped-ok (f 2) (clock 1) r.run_id x.outcome reason (utc 1),
            )
            (finalize-eq applied e x c whole),
      ),
    )

-- For a run that is under way, linked with its task, and the status that the service gives the task for the
-- reason, `_finish_with_task` ends both, if the renderer returns, task and unit can go on to that status at the
-- second reading of the clock, the readings are in UTC, the third is not before the second nor before the
-- start of the run, and the factory never repeats a UUID.
pub finish_with_task-Finishes :
    (clock : ℕ → DateTime) (f : ℕ → Uuid) (applied : FinalizeRun → Bool) (q : Turn)
    → IsUnderWay q.running_run q.conversation.conversation_id
    → IsLinked q.running_run.run_id q.active_link q.current_task
    → target_of q.stop_reason ≡ some q.target_status
    → is_ok (map_result q.running_run.run_id q.stop_reason q.rendered_message) ≡ true
    → Finishable (clock 1) q.target_status q.current_task q.current_unit
    → InUtc clock
    → earlier (clock 2) (clock 1) ≡ false
    → earlier (clock 2) q.running_run.started_at ≡ false
    → IsFresh f
    → (x : Finished) × Finishes applied q.running_run q.stop_reason q.rendered_message
        (finish_with_task clock f applied q)
        x
unfolding finish_with_task
finish_with_task-Finishes clock f applied q run link target returns task utc in_order after fresh =
    let r = q.running_run in
    let (x, made) = ok_value (map_result r.run_id q.stop_reason q.rendered_message) returns in
    let (of_run, content) = map_result-valid r.run_id q.stop_reason q.rendered_message x made in
    let row = joint_row r.run_id q.stop_reason q.rendered_message x q.target_status made target in
    let other = unrestarted_target q.stop_reason q.target_status target in
    let differ = fresh-apart f 3 2 fresh (omega arith) in
    let step =
      finishing q.target_status q.reason_ref q.observation_ref (clock 1) q.current_task
        q.current_unit in
    let whole =
      joint-ok q (clock 1) (clock 2) x (f 1) (f 2) (f 3) differ run link task (utc 2) after in_order
        of_run content row other in
    let e =
      rendered_event_of (f 0) (clock 0) r.run_id q.current_task.task_id
        q.current_unit.request_unit_id q.observation_ref q.presentation_plan_ref in
    let c =
      joint_command r (terminal_run completed_run (some q.stop_reason) (clock 2) r) q.active_link
        (ended q.active_link (q.current_task.state_version + 1)) step x
        (reply_of (f 1) q.conversation.conversation_id x.message (clock 2))
        (changed_event r.run_id (f 2) step
          ∷ stopped_event (f 3) (clock 2) r.run_id x.outcome q.stop_reason
          ∷ []) in
    (
      finished e x c,
      (
        whole,
        refl,
        refl,
        made,
        rw
            (
              made,
              joint_rendered-ok (f 0) (clock 0) r.run_id q.current_task.task_id
                  q.current_unit.request_unit_id q.observation_ref q.presentation_plan_ref (utc 0),
              finishing-ok (clock 1) q.target_status q.reason_ref q.observation_ref q.current_task
                  q.current_unit task,
              end-ok q (clock 1) (clock 2) x (f 1) (f 2) (f 3) differ run link task (utc 2) after
                  in_order of_run content,
              terminal_run-ok r q.conversation.conversation_id q.stop_reason (clock 2) run (utc 2)
                  after,
              reply-ok (f 1) q.conversation.conversation_id x.message (clock 2) content (utc 2),
              changed-ok r.run_id (f 2) step (utc 1),
              stopped-ok (f 3) (clock 2) r.run_id x.outcome q.stop_reason (utc 2),
            )
            (finalize-eq applied e x c whole),
      ),
    )
