-- ===== src/Lifecycle/Parts.antt =====
-- The records that src/mini_agent/application/agent_run_service.py makes to end a run pass the validators of
-- src/mini_agent/core/trace.py and src/mini_agent/application/records.py.
use mini_agent.Clock.{is_utc_or_none}
use mini_agent.Recovery.Projected.{ended}
use mini_agent.Recovery.Closure.{task_by_id}
use mini_agent.Recovery.Command.{link_by_task}
use mini_agent.Lifecycle.Task.{changed_event}
use mini_agent.Lifecycle.Service.{reply_of, stopped_event, terminal_run}
use mini_agent.Recovery.{same_run, TaskTransition, is_restart, RunTaskLink}
use mini_agent.Prelude.Texts.{Uuid, Text}
use mini_agent.Lifecycle.Command.{check_runs, check_links}
use mini_agent.Lifecycle.{validate_message, is_running_run, is_content}
use mini_agent.Prelude.{
  none, some, nat_eq, list_eq, option_eq, pair_eq, [], ◌∷◌, refl, sym, ◌≡◌, beq_refl, ok, true,
  distinct, is_ok, same_set, subset, false, contains, arith, option_beq, nat_beq_iff,
}
use mini_agent.Clock.{time_eq, DateTime, is_utc, earlier}
use mini_agent.Tasks.{task_status_eq, TaskRecord}
use mini_agent.Runs.{
  completed_run, failed_run, AgentRunRecord, validate_run, validate_event, event_fields_valid,
  StopReason, AgentOutcome,
}

-- A run that is under way in a conversation.
abbrev pub IsUnderWay : AgentRunRecord → Uuid → Type 0
IsUnderWay r conversation_id =
    (is_ok (validate_run r) ≡ true)
    × (is_running_run r.status ≡ true)
    × (r.incomplete_reason ≡ none)
    × (r.conversation_id ≡ some conversation_id)

pub terminal_run-ok :
    (r : AgentRunRecord) (cid : Uuid) (reason : StopReason) (at : DateTime)
    → IsUnderWay r cid
    → is_utc at ≡ true
    → earlier at r.started_at ≡ false
    → validate_run (terminal_run completed_run (some reason) at r)
      ≡ ok (terminal_run completed_run (some reason) at r)
unfolding validate_run is_utc_or_none
terminal_run-ok r cid reason at (valid, _, _, _) utc after = ground arith

pub failed_run-ok :
    (r : AgentRunRecord) (at : DateTime)
    → is_ok (validate_run r) ≡ true
    → is_utc at ≡ true
    → earlier at r.started_at ≡ false
    → validate_run (terminal_run failed_run none at r) ≡ ok (terminal_run failed_run none at r)
unfolding validate_run is_utc_or_none
failed_run-ok r at valid utc after = ground arith

pub reply-ok :
    (id cid : Uuid) (content : Text) (at : DateTime)
    → is_content content ≡ true
    → is_utc at ≡ true
    → validate_message (reply_of id cid content at) ≡ ok (reply_of id cid content at)
unfolding validate_message
reply-ok id cid content at long utc = rw (long, utc) refl

pub stopped-ok :
    (id : Uuid) (at : DateTime) (run_id : Uuid) (o : AgentOutcome) (reason : StopReason)
    → is_utc at ≡ true
    → validate_event (stopped_event id at run_id o reason)
      ≡ ok (stopped_event id at run_id o reason)
unfolding validate_event event_fields_valid
stopped-ok id at run_id o reason utc = ground arith

pub changed-ok :
    (run_id id : Uuid) (t : TaskTransition)
    → is_utc t.task_state_transition.changed_at ≡ true
    → validate_event (changed_event run_id id t) ≡ ok (changed_event run_id id t)
unfolding validate_event event_fields_valid
changed-ok run_id id t utc = ground arith

pub runs-ok :
    (r : AgentRunRecord) (cid : Uuid) (reason : StopReason) (at : DateTime)
    → IsUnderWay r cid
    → is_restart (some reason) ≡ false
    → check_runs r (terminal_run completed_run (some reason) at r) ≡ ok tt
unfolding check_runs same_run
runs-ok r cid reason at (_, active, no_reason, conversation) other =
    rw
      (
        active,
        no_reason,
        other,
        conversation,
        beq_refl r.run_id,
        beq_refl (some cid),
        beq_refl r.provider_lane,
        beq_refl r.started_at,
      )
      refl

pub failed_runs-ok :
    (r : AgentRunRecord) (at : DateTime)
    → is_running_run r.status ≡ true
    → r.incomplete_reason ≡ none
    → check_runs r (terminal_run failed_run none at r) ≡ ok tt
unfolding check_runs same_run
failed_runs-ok r at active no_reason =
    rw
      (
        active,
        no_reason,
        beq_refl r.run_id,
        beq_refl r.conversation_id,
        beq_refl r.provider_lane,
        beq_refl r.started_at,
      )
      refl

pub no_links-ok : (run_id : Uuid) → check_links run_id [] [] [] ≡ ok tt
unfolding check_links distinct same_set subset
no_links-ok run_id = refl

-- The one link of a run, ended at the version of its task.
pub one_link-ok :
    (run_id : Uuid) (l : RunTaskLink) (t : TaskRecord)
    → l.run_id ≡ run_id
    → l.result_task_state_version ≡ none
    → l.task_id ≡ t.task_id
    → check_links run_id (l ∷ []) (ended l t.state_version ∷ []) (t ∷ []) ≡ ok tt
unfolding check_links distinct same_set subset contains link_by_task task_by_id option_beq
one_link-ok run_id l t of_run open_still of_task =
    let same_run_id = (nat_beq_iff l.run_id run_id).1 of_run in
    let same = (nat_beq_iff t.task_id l.task_id).1 (sym of_task) in
    let same_back = (nat_beq_iff l.task_id t.task_id).1 of_task in
    rw
      (
        same_run_id,
        open_still,
        same,
        same_back,
        beq_refl l.task_id,
        beq_refl l.schema_version,
        beq_refl l.base_task_state_version,
        beq_refl t.state_version,
      )
      refl
