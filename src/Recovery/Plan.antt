-- ===== src/Recovery/Plan.antt =====
-- src/mini_agent/application/restart_recovery_service.py: the commands that `recover_pending` makes for
-- one closure that is stuck after a restart. The clock is read once, as `recovered_at`.
use mini_agent.Prelude.Texts.{Uuid}
use mini_agent.Tools.Call.{ToolCallRecord, interrupted}
use mini_agent.Runs.{AgentRunRecord, incomplete_run, process_restart_detected}
use mini_agent.Recovery.{
  validate_mark, validate_interrupt, validate_apply, RecoveryError, TaskTransition, MarkIncomplete,
  restart_text, InterruptCall, missing_record,
}
use mini_agent.Clock.{DateTime}
use mini_agent.Prelude.{
  if◌then◌else◌, nat_eq, list_eq, option_eq, ◌>>=◌, ◌++◌, [], ◌∷◌, List, Bool, false, Result, ◌+◌,
  Option, ℕ, true, some, none, ◌==◌, err, ok, suc,
}
use mini_agent.Tasks.{blocked, TaskStatus, RequestUnitRecord, TaskRecord, completed, cancelled}

-- `_ACTIVE_TASK_STATUSES`
unfoldable pub is_active_task : TaskStatus → Bool
is_active_task completed = false
is_active_task blocked = false
is_active_task cancelled = false
is_active_task s = true

-- `MarkRunIncompleteForRecoveryCommand(...)`, with `_project_run`
unfoldable pub incomplete_of : DateTime → AgentRunRecord → AgentRunRecord
incomplete_of recovered_at r = record {
  run_id = r.run_id;
  conversation_id = r.conversation_id;
  status = incomplete_run;
  provider_lane = r.provider_lane;
  started_at = r.started_at;
  completed_at = some recovered_at;
  stop_reason = some process_restart_detected;
  incomplete_reason = some restart_text;
}

unfoldable pub marking : DateTime → AgentRunRecord → MarkIncomplete
unfolding incomplete_of
marking recovered_at r = record {
  expected_active_record = r;
  incomplete_record = incomplete_of recovered_at r;
}

unfoldable pub run_transition : DateTime → AgentRunRecord → Result RecoveryError MarkIncomplete
unfolding marking validate_mark
run_transition recovered_at r = validate_mark (marking recovered_at r)

-- `_project_tool_call`
unfoldable pub interrupted_of : DateTime → ToolCallRecord → ToolCallRecord
interrupted_of recovered_at r = record {
  tool_call_id = r.tool_call_id;
  run_id = r.run_id;
  task_id = r.task_id;
  request_unit_id = r.request_unit_id;
  model_call_id = r.model_call_id;
  context_manifest_id = r.context_manifest_id;
  gate_decision_id = r.gate_decision_id;
  provider_tool_call_id = r.provider_tool_call_id;
  canonical_tool_name = r.canonical_tool_name;
  tool_registry_version = r.tool_registry_version;
  validated_task_state_version = r.validated_task_state_version;
  argument_binding_refs = r.argument_binding_refs;
  effect = r.effect;
  attempt_count = r.attempt_count;
  status = interrupted;
  started_at = r.started_at;
  finished_at = some recovered_at;
  failure_code = r.failure_code;
  timeout_phase = r.timeout_phase;
  interruption_reason = some restart_text;
  result_ref = r.result_ref;
}

unfoldable pub interruption : DateTime → ToolCallRecord → InterruptCall
unfolding interrupted_of
interruption recovered_at r = record {
  active_record = r;
  interrupted_record = interrupted_of recovered_at r;
}

unfoldable pub interrupt_of : DateTime → ToolCallRecord → Result RecoveryError InterruptCall
unfolding interruption validate_interrupt
interrupt_of recovered_at r = validate_interrupt (interruption recovered_at r)

-- `_project_task` and `_project_request_unit`
unfoldable pub blocked_task : DateTime → Uuid → TaskRecord → TaskRecord
blocked_task recovered_at reason_ref t = record {
  task_id = t.task_id;
  owner_customer_id = t.owner_customer_id;
  status = blocked;
  state_version = t.state_version + 1;
  created_at = t.created_at;
  updated_at = recovered_at;
  last_outcome_ref = some reason_ref;
}

unfoldable pub blocked_unit : DateTime → Uuid → RequestUnitRecord → RequestUnitRecord
blocked_unit recovered_at reason_ref u = record {
  request_unit_id = u.request_unit_id;
  task_id = u.task_id;
  goal_text = u.goal_text;
  goal_source_refs = u.goal_source_refs;
  contextualization_ref = u.contextualization_ref;
  constraint_refs = u.constraint_refs;
  dependency_refs = u.dependency_refs;
  input_binding_refs = u.input_binding_refs;
  open_questions = u.open_questions;
  observation_refs = u.observation_refs;
  evidence_binding_refs = u.evidence_binding_refs;
  pending_action_ref = u.pending_action_ref;
  result_refs = u.result_refs ++ reason_ref ∷ [];
  status = blocked;
  state_version = u.state_version + 1;
  created_at = u.created_at;
  updated_at = recovered_at;
}

-- `ApplyTaskTransitionCommand(...)`
unfoldable pub blocking : DateTime → Uuid → TaskRecord → RequestUnitRecord → TaskTransition
blocking recovered_at reason_ref t u = record {
  expected_task_record = t;
  next_task_record = blocked_task recovered_at reason_ref t;
  expected_request_unit_record = u;
  next_request_unit_record = blocked_unit recovered_at reason_ref u;
  task_state_transition = record {
    task_id = t.task_id;
    request_unit_id = u.request_unit_id;
    from_status = t.status;
    to_status = blocked;
    base_state_version = t.state_version;
    result_state_version = t.state_version + 1;
    reason_ref = reason_ref;
    changed_at = recovered_at;
  };
}

-- `unit_by_task[task.task_id]`: the last unit of a task counts.
unfoldable pub unit_by_task : List RequestUnitRecord → Uuid → Option RequestUnitRecord
unit_by_task [] i = none
unit_by_task (u ∷ us) i =
    let later = unit_by_task us i in
    elim later [ some v ↦ some v | none ↦ if u.task_id == i then some u else none ]

unfoldable pub block :
    DateTime → Uuid → TaskRecord → Option RequestUnitRecord → Result RecoveryError TaskTransition
unfolding blocking validate_apply
block recovered_at reason_ref t none = err missing_record
block recovered_at reason_ref t (some u) = validate_apply (blocking recovered_at reason_ref t u)

abbrev pub Transitions : Type 0
Transitions = Result RecoveryError (List TaskTransition)

-- One round of the loop: the transition and what follows it, or what follows an untouched task.
unfoldable pub take_up :
    Bool → Result RecoveryError TaskTransition → Transitions → Transitions → Transitions
take_up true transition rest untouched = do c ← transition; cs ← rest; ok (c ∷ cs)
take_up false transition rest untouched = untouched

-- The loop over the tasks, with the UUIDs that the factory gives in turn.
module _ (recovered_at : DateTime) (units : List RequestUnitRecord) (uuid_factory : ℕ → Uuid) where
  unfoldable pub block_tasks : ℕ → List TaskRecord → Transitions
  unfolding take_up is_active_task block unit_by_task
  block_tasks n [] = ok []
  block_tasks n (t ∷ ts) =
      take_up (is_active_task t.status)
        (block recovered_at (uuid_factory n) t (unit_by_task units t.task_id))
        (block_tasks (suc n) ts) (block_tasks n ts)
