-- ===== src/Lifecycle/Alone.antt =====
-- `_finish_without_task` of src/mini_agent/application/agent_run_service.py ends each run that is under way.
use mini_agent.Recovery.{is_restart}
use mini_agent.Lifecycle.Service.{reply_of, alone_command, terminal_run, stopped_event}
use mini_agent.Lifecycle.Parts.{
  IsUnderWay, terminal_run-ok, reply-ok, runs-ok, stopped-ok, no_links-ok,
}
use mini_agent.Lifecycle.{MessageRecord, is_content}
use mini_agent.Presentation.{AgentRunResult}
use mini_agent.Lifecycle.Command.{FinalizeRun, outcome_beq, is_terminal_row, finish_fields_valid}
use mini_agent.Prelude.Texts.{Uuid, codes}
use mini_agent.Recovery.Exact.{reason_beq, other_fields_blank, rest_is_blank}
use mini_agent.Lifecycle.Ending.{
  check_answer, next_status, check_events, check_ending, validate_finish,
}
use mini_agent.Prelude.{
  none, some, nat_eq, list_eq, option_eq, pair_eq, [], ◌∷◌, refl, ◌≡◌, beq_refl, ok, true, false,
  option_beq, arith, not, is_empty, nat_beq_iff, distinct, contains,
}
use mini_agent.Clock.{time_eq, DateTime, is_utc, earlier}
use mini_agent.Runs.{completed_run, StopReason, AgentOutcome, AgentRunRecord, TraceEvent}

pub reason_same : (r : StopReason) → reason_beq (some r) (some r) ≡ true
reason_same r = ground arith

pub outcome_same : (o : AgentOutcome) → outcome_beq o o ≡ true
outcome_same o = ground arith

-- The answer fits the run that it ends.
pub answer-ok :
    (c : FinalizeRun) (result : AgentRunResult) (message : MessageRecord) (id cid : Uuid)
    (at : DateTime)
    → is_terminal_row c.terminal_record.stop_reason
        (not (is_empty c.expected_active_links))
        result.outcome
        (next_status c.task_transition)
      ≡ true
    → result.run_id ≡ c.terminal_record.run_id
    → c.terminal_record.conversation_id ≡ some cid
    → c.terminal_record.completed_at ≡ some at
    → message ≡ reply_of id cid result.message at
    → check_answer c result message ≡ ok tt
unfolding check_answer option_beq
answer-ok c result message id cid at row of_run conversation done is_reply =
    let same = (nat_beq_iff result.run_id c.terminal_record.run_id).1 of_run in
    rw
      (
        row,
        same,
        conversation,
        done,
        is_reply,
        beq_refl (codes "message_record.p0.v1"),
        beq_refl cid,
        beq_refl result.message,
        beq_refl at,
      )
      refl

module _ (r : AgentRunRecord) (cid : Uuid) (reason : StopReason) (at : DateTime)
    (result : AgentRunResult) (message_id event_id : Uuid) (run : IsUnderWay r cid)
    (utc : is_utc at ≡ true) (after : earlier at r.started_at ≡ false)
    (of_run : result.run_id ≡ r.run_id) (content : is_content result.message ≡ true) where
  abbrev terminal : AgentRunRecord
  terminal = terminal_run completed_run (some reason) at r

  abbrev message : MessageRecord
  message = reply_of message_id cid result.message at

  abbrev stopped : TraceEvent
  stopped = stopped_event event_id at r.run_id result.outcome reason

  abbrev command : FinalizeRun
  command = alone_command r terminal result message stopped

  fields-alone : finish_fields_valid command ≡ true
  unfolding finish_fields_valid
  fields-alone =
      let (valid, _, _, _) = run in
      rw
        (
          valid,
          terminal_run-ok r cid reason at run utc after,
          content,
          reply-ok message_id cid result.message at content utc,
          stopped-ok event_id at r.run_id result.outcome reason utc,
        )
        refl

  events-alone : check_events command result (stopped ∷ []) ≡ ok tt
  unfolding check_events other_fields_blank rest_is_blank distinct contains option_beq
  events-alone =
      rw (beq_refl r.run_id, reason_same reason, outcome_same result.outcome, beq_refl at) refl

  ending-alone :
      is_terminal_row (some reason) false result.outcome none ≡ true
      → check_ending command completed_run ≡ ok tt
  unfolding check_ending
  ending-alone row =
      let (_, _, _, conversation) = run in
      rw
        (
          answer-ok command result message message_id cid at row of_run conversation refl refl,
          events-alone,
        )
        refl

  pub alone-ok :
      is_terminal_row (some reason) false result.outcome none ≡ true
      → is_restart (some reason) ≡ false
      → validate_finish command ≡ ok command
  unfolding validate_finish
  alone-ok row other =
      rw (fields-alone, runs-ok r cid reason at run other, no_links-ok r.run_id, ending-alone row)
        refl
