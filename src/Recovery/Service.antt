-- ===== src/Recovery/Service.antt =====
-- src/mini_agent/application/restart_recovery_service.py: `recover_pending` as a whole. The UUIDs are those
-- that the factory gives in turn, and the port that loads the closure and applies the command is a
-- parameter.
use mini_agent.Recovery.Plan.{run_transition, interrupt_of, block_tasks}
use mini_agent.Recovery.Audit.{validate_recovery}
use mini_agent.Recovery.Closure.{RestartRecoveryClosure, task_of, task_by_id, call_of}
use mini_agent.Tasks.{TaskRecord}
use mini_agent.Clock.{DateTime}
use mini_agent.Recovery.{
  TaskTransition, RunTaskLink, InterruptCall, RecoveryError, missing_record, validate_link,
}
use mini_agent.Recovery.Command.{RecoveryCommand, CommandError, next_or}
use mini_agent.Prelude.Texts.{Uuid}
use mini_agent.Prelude.{
  none, some, nat_eq, list_eq, option_eq, ◌>>=◌, if◌then◌else◌, [], ◌∷◌, ◌==◌, ◌++◌, ◌+◌, List,
  Option, ℕ, Bool, Result, true, false, err, traverse, ok, length, map, suc, or_raise,
}
use mini_agent.Tools.Call.{interrupted}
use mini_agent.Runs.{
  run_stopped, task_state_changed, tool_call_interrupted, blocked_outcome, process_restart_detected,
  TraceEventType, TraceEvent, TraceError, validate_event,
}

pub data RecoveryFailure : Type 0 where
  bad_run bad_call bad_task bad_link bad_event : RecoveryFailure
  refused : CommandError → RecoveryFailure

-- `transition_by_task`, here by the next record; the last transition of a task counts.
unfoldable pub next_by_task : List TaskTransition → Uuid → Option TaskTransition
next_by_task [] i = none
next_by_task (c ∷ cs) i =
    let later = next_by_task cs i in
    elim later [ some d ↦ some d | none ↦ if c.next_task_record.task_id == i then some c else none ]

-- One entry of `terminal_links`; a link to a task that the closure lacks would be a `KeyError`.
unfoldable pub end_link : Option ℕ → RunTaskLink → Result RecoveryError RunTaskLink
end_link none l = err missing_record
end_link (some v) l = validate_link (record l { result_task_state_version = some v })

unfoldable pub end_links :
    List TaskTransition
    → List TaskRecord
    → List RunTaskLink
    → Result RecoveryError (List RunTaskLink)
unfolding next_by_task end_link
end_links changes tasks links =
    traverse
      (λ l. end_link (next_or (next_by_task changes l.task_id) (task_by_id tasks l.task_id)) l)
      links

-- A trace event with the fields that have no default.
abbrev pub bare_event : Uuid → TraceEventType → DateTime → Uuid → TraceEvent
bare_event trace_event_id event_type occurred_at run_id = record {
  trace_event_id = trace_event_id;
  event_type = event_type;
  occurred_at = occurred_at;
  run_id = run_id;
  case_id = none;
  message_ref = none;
  accepted_delta_ref = none;
  task_id = none;
  request_unit_id = none;
  input_binding_ref = none;
  model_call_id = none;
  model_call_purpose = none;
  context_manifest_id = none;
  provider_name = none;
  model_snapshot = none;
  tool_registry_version = none;
  model_visible_toolset_hash = none;
  next_move_kind = none;
  requested_tool_name = none;
  proposed_base_task_state_version = none;
  validated_task_state_version = none;
  argument_binding_refs = [];
  gate_decision = none;
  gate_reason_code = none;
  tool_call_id = none;
  tool_call_terminal_status = none;
  safe_tool_outcome = none;
  observation_ref = none;
  presentation_plan_ref = none;
  user_outcome = none;
  stop_reason = none;
  timing_and_usage_summary = none;
}

unfoldable pub stop_event : Uuid → DateTime → Uuid → TraceEvent
stop_event run_id recovered_at id = record (bare_event id run_stopped recovered_at run_id) {
  user_outcome = some blocked_outcome;
  stop_reason = some process_restart_detected;
}

unfoldable pub change_event : Uuid → TaskTransition → Uuid → TraceEvent
change_event run_id t id =
    record (bare_event id task_state_changed t.task_state_transition.changed_at run_id) {
      task_id = some t.next_task_record.task_id;
      request_unit_id = some t.next_request_unit_record.request_unit_id;
    }

unfoldable pub interruption_event : Uuid → Uuid → Uuid → DateTime → TraceEvent
interruption_event run_id call_id id finished_at =
    record (bare_event id tool_call_interrupted finished_at run_id) {
      tool_call_id = some call_id;
      tool_call_terminal_status = some interrupted;
    }

-- Each is a `TraceEvent(...)`; an interrupted record without its finish would be refused.
unfoldable pub record_change : Uuid → TaskTransition → Uuid → Result TraceError TraceEvent
unfolding change_event
record_change run_id t id = validate_event (change_event run_id t id)

unfoldable pub record_interruption :
    Uuid → InterruptCall → Uuid → Option DateTime → Result TraceError TraceEvent
unfolding interruption_event
record_interruption run_id t id none = err TraceError.field
record_interruption run_id t id (some finished_at) =
    validate_event (interruption_event run_id t.interrupted_record.tool_call_id id finished_at)

-- `ApplyRestartRecoveryCommand(...)`
unfoldable pub admit : RecoveryCommand → Result RecoveryFailure RecoveryCommand
admit c = elim (validate_recovery c) [ ok d ↦ ok d | err e ↦ err (refused e) ]

module _ (uuid_factory : ℕ → Uuid) where
  -- The events of a list, with the UUIDs from number `n` on.
  unfoldable pub events_from {ℓ} :
      {A : Type ℓ}
      → (A → Uuid → Result TraceError TraceEvent)
      → ℕ
      → List A
      → Result TraceError (List TraceEvent)
  events_from make n [] = ok []
  events_from make n (a ∷ rest) = do
    e ← make a (uuid_factory n)
    es ← events_from make (suc n) rest
    ok (e ∷ es)

  -- `trace_events`; the first `n` UUIDs are those of the transitions.
  unfoldable pub trace_events :
      Uuid
      → DateTime
      → List TaskTransition
      → List InterruptCall
      → Result TraceError (List TraceEvent)
  unfolding stop_event record_change record_interruption events_from
  trace_events run_id recovered_at changes interruptions = do
    stop ← validate_event (stop_event run_id recovered_at (uuid_factory n))
    changed ← events_from (λ t. record_change run_id t) (suc n) changes
    ended ←
        events_from (λ t id. record_interruption run_id t id t.interrupted_record.finished_at)
          (suc n + n) interruptions
    ok (stop ∷ changed ++ ended)
    where
      n : ℕ
      n = length changes

  -- The command for a closure that was found at a restart.
  unfoldable pub recovery_of :
      DateTime → RestartRecoveryClosure → Result RecoveryFailure RecoveryCommand
  unfolding end_links trace_events admit
  recovery_of recovered_at closure = do
    marked ← or_raise (run_transition recovered_at run) bad_run
    interruptions ←
        or_raise (traverse (interrupt_of recovered_at) (map call_of closure.tool_call_aggregates))
          bad_call
    changes ←
        or_raise (block_tasks recovered_at closure.request_unit_records uuid_factory 0 tasks)
          bad_task
    ends ← or_raise (end_links changes tasks closure.run_task_links) bad_link
    events ← or_raise (trace_events run.run_id recovered_at changes interruptions) bad_event
    admit record {
      expected_closure = closure;
      run_transition = marked;
      tool_call_transitions = interruptions;
      task_transitions = changes;
      terminal_run_task_links = ends;
      recovery_trace_events = events;
    }
    where
      open closure use {active_run_record as run}

      tasks : List TaskRecord
      tasks = map task_of closure.task_aggregates

pub data RecoveryWriteResult : Type 0 where
  applied closure_conflict not_applicable reconciliation_required : RecoveryWriteResult

pub record RestartRecoveryResult : Type 0 where
  pub ready : Bool
  pub closure_found : Bool
  pub write_result : Option RecoveryWriteResult

abbrev pub is_applied : RecoveryWriteResult → Bool
is_applied applied = true
is_applied r = false

-- `load_next_restart_recovery_closure` gives the closure, and the port's `apply` takes the command.
unfoldable pub recover_pending :
    (RecoveryCommand → RecoveryWriteResult)
    → (ℕ → Uuid)
    → DateTime
    → Option RestartRecoveryClosure
    → Result RecoveryFailure RestartRecoveryResult
recover_pending claim_and_apply uuid_factory recovered_at none =
    ok record { ready = true; closure_found = false; write_result = none }
recover_pending claim_and_apply uuid_factory recovered_at (some closure) = do
  command ← recovery_of uuid_factory recovered_at closure
  ok record {
    ready = is_applied (claim_and_apply command);
    closure_found = true;
    write_result = some (claim_and_apply command);
  }
