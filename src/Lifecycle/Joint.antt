-- ===== src/Lifecycle/Joint.antt =====
-- `_finish_with_task` of src/mini_agent/application/agent_run_service.py ends each run that is under way
-- together with its task.
use mini_agent.Lifecycle.Alone.{reason_same, outcome_same, answer-ok}
use mini_agent.Recovery.Exact.{other_fields_blank, task_beq_refl, rest_is_blank}
use mini_agent.Lifecycle.Parts.{changed-ok, stopped-ok, runs-ok, one_link-ok}
use mini_agent.Prelude.{option_beq}
use mini_agent.Lifecycle.Service.{reply_of, stopped_event, terminal_run}
use mini_agent.Lifecycle.Ending.{check_events, check_ending, validate_finish}
use mini_agent.Lifecycle.Command.{FinalizeRun, finish_fields_valid, check_linked, is_terminal_row}
use mini_agent.Recovery.Projected.{ended, ended-valid, reached-regresses}
use mini_agent.Lifecycle.{is_content, MessageRecord}
use mini_agent.Recovery.Closure.{exceeds}
use mini_agent.Lifecycle.Steps.{Finishable, task-finished, finishing-ok}
use mini_agent.Lifecycle.Parts.{IsUnderWay, terminal_run-ok, reply-ok, changed-ok}
use mini_agent.Presentation.{AgentRunResult}
use mini_agent.Recovery.{RunTaskLink, validate_link, TaskTransition, is_restart}
use mini_agent.Lifecycle.Task.{Turn, finishing, changed_event, joint_command, finished_task}
use mini_agent.Prelude.Texts.{Uuid}
use mini_agent.Prelude.{
  none, some, nat_eq, list_eq, option_eq, pair_eq, [], ◌∷◌, ◌==◌, ◌+◌, refl, sym, ap, ◌≡◌, beq_refl,
  ok, true, false, is_ok, nat_beq_iff, arith, distinct, contains, option_beq,
}
use mini_agent.Clock.{time_eq, DateTime, is_utc, earlier}
use mini_agent.Tasks.{task_status_eq, TaskRecord}
use mini_agent.Runs.{completed_run, AgentRunRecord, TraceEvent}

-- The link of a run that is under way, with its task.
abbrev pub IsLinked : Uuid → RunTaskLink → TaskRecord → Type 0
IsLinked run_id l t =
    (is_ok (validate_link l) ≡ true)
    × (l.run_id ≡ run_id)
    × (l.task_id ≡ t.task_id)
    × (l.result_task_state_version ≡ none)
    × (exceeds l.base_task_state_version (some t) ≡ false)

module _ (q : Turn) (at done : DateTime) (result : AgentRunResult)
    (message_id change_id stop_id : Uuid) (apart : (stop_id == change_id) ≡ false)
    (run : IsUnderWay q.running_run q.conversation.conversation_id)
    (link : IsLinked q.running_run.run_id q.active_link q.current_task)
    (task : Finishable at q.target_status q.current_task q.current_unit) (utc : is_utc done ≡ true)
    (after : earlier done q.running_run.started_at ≡ false) (in_order : earlier done at ≡ false)
    (of_run : result.run_id ≡ q.running_run.run_id)
    (content : is_content result.message ≡ true) where
  abbrev terminal : AgentRunRecord
  terminal = terminal_run completed_run (some q.stop_reason) done q.running_run

  abbrev message : MessageRecord
  message = reply_of message_id q.conversation.conversation_id result.message done

  abbrev step : TaskTransition
  step = finishing q.target_status q.reason_ref q.observation_ref at q.current_task q.current_unit

  abbrev changed : TraceEvent
  changed = changed_event q.running_run.run_id change_id step

  abbrev stopped : TraceEvent
  stopped = stopped_event stop_id done q.running_run.run_id result.outcome q.stop_reason

  abbrev end : RunTaskLink
  end = ended q.active_link (q.current_task.state_version + 1)

  abbrev command : FinalizeRun
  command =
      joint_command q.running_run terminal q.active_link end step result message
        (changed ∷ stopped ∷ [])

  utc_change : is_utc at ≡ true
  utc_change = let (_, _, _, _, _, _, u, _, _) = task in u

  pub end-ok : validate_link end ≡ ok end
  end-ok =
      let (valid, _, _, _, base) = link in
      ended-valid q.active_link (q.current_task.state_version + 1) valid
        (reached-regresses q.active_link.base_task_state_version q.current_task
          (q.current_task.state_version + 1) base (omega arith))
        (ground arith)

  fields-joint : finish_fields_valid command ≡ true
  unfolding finish_fields_valid
  fields-joint =
      let (valid, _, _, _) = run in
      let (valid_link, _, _, _, _) = link in
      let (valid_task, _, _, _, _, _, _, after_task, _) = task in
      rw
        (
          valid,
          terminal_run-ok q.running_run q.conversation.conversation_id q.stop_reason done run utc
              after,
          valid_link,
          end-ok,
          task-finished at q.target_status q.reason_ref q.observation_ref q.current_task
              q.current_unit valid_task utc_change after_task,
          finishing-ok at q.target_status q.reason_ref q.observation_ref q.current_task
              q.current_unit task,
          content,
          reply-ok message_id q.conversation.conversation_id result.message done content utc,
          changed-ok q.running_run.run_id change_id step utc_change,
          stopped-ok stop_id done q.running_run.run_id result.outcome q.stop_reason utc,
        )
        refl

  linked-joint : check_linked command q.active_link step ≡ ok tt
  unfolding check_linked
  linked-joint =
      let (_, _, of_task, _, base) = link in
      let (_, _, _, version, _, _, _, _, _) = task in
      let same = (nat_beq_iff q.current_task.task_id q.active_link.task_id).1 (sym of_task) in
      let same_version =
        (nat_beq_iff (q.current_task.state_version + 1) (q.current_unit.state_version + 1)).1
          (ap (λ v. v + 1) (sym version)) in
      rw
        (
          same,
          base,
          beq_refl q.target_status,
          same_version,
          task_beq_refl (finished_task q.target_status q.reason_ref at q.current_task),
          in_order,
        )
        refl

  events-joint : check_events command result (changed ∷ stopped ∷ []) ≡ ok tt
  unfolding check_events other_fields_blank rest_is_blank distinct contains option_beq
  events-joint =
      rw
        (
          apart,
          beq_refl q.running_run.run_id,
          beq_refl q.current_task.task_id,
          beq_refl q.current_unit.request_unit_id,
          beq_refl at,
          reason_same q.stop_reason,
          outcome_same result.outcome,
          beq_refl done,
        )
        refl

  ending-joint :
      is_terminal_row (some q.stop_reason) true result.outcome (some q.target_status) ≡ true
      → check_ending command completed_run ≡ ok tt
  unfolding check_ending
  ending-joint row =
      let (_, _, _, conversation) = run in
      rw
        (
          linked-joint,
          answer-ok command result message message_id q.conversation.conversation_id done row of_run
              conversation refl refl,
          events-joint,
        )
        refl

  pub joint-ok :
      is_terminal_row (some q.stop_reason) true result.outcome (some q.target_status) ≡ true
      → is_restart (some q.stop_reason) ≡ false
      → validate_finish command ≡ ok command
  unfolding validate_finish
  joint-ok row other =
      let (_, link_run, of_task, open_still, _) = link in
      rw
        (
          fields-joint,
          runs-ok q.running_run q.conversation.conversation_id q.stop_reason done run other,
          one_link-ok q.running_run.run_id q.active_link
              (finished_task q.target_status q.reason_ref at q.current_task) link_run open_still
              of_task,
          ending-joint row,
        )
        refl
