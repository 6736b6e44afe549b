-- ===== src/Recovery.antt =====
-- src/mini_agent/application/records.py: the commands that a restart applies to runs, tasks, tool calls
-- and the links between runs and tasks.
pub mod Plan
pub mod Applies
pub mod Covers
pub mod Interrupts
pub mod Aggregates
pub mod Facts
pub mod Stages
pub mod Total
pub mod Projected
pub mod Traced
pub mod Shape
pub mod Service
pub mod Command
pub mod Audit
pub mod Exact
pub mod Closure
use mini_agent.Tools.Gate.{is_version}
use mini_agent.Tools.Commands.{same_immutable}
use mini_agent.Runs.{
  AgentRunStatus, AgentRunRecord, StopReason, process_restart_detected, incomplete_run,
  validate_run, is_active_run,
}
use mini_agent.Prelude.Texts.{Text, codes, Uuid, non_empty}
use mini_agent.Tools.Call.{ToolTimeoutPhase, before_dispatch, after_dispatch, unknown}
use mini_agent.Prelude.{
  none, some, nat_eq, list_eq, option_eq, ◌>>=◌, ◌>>◌, ◌&&◌, ◌||◌, if◌then◌else◌, [], ◌∷◌, Option,
  Result, Bool, true, ◌==◌, raise_if, is_ok, ℕ, some, false, not, ltb, ok, is_some, is_none, leb,
}
use mini_agent.Clock.{time_eq, earlier}
use mini_agent.Tasks.{
  task_status_eq, TaskRecord, RequestUnitRecord, TaskStateTransition, validate_task,
  validate_request_unit, validate_transition,
}
use mini_agent.Tools.Call.{
  status_eq, ToolCallRecord, ToolTimeoutPhase, validate_call, is_terminal, interrupted,
}

pub data RecoveryError : Type 0 where
  field not_active stray_reason not_incomplete other_stop_reason other_reason changed_fields :
      RecoveryError
  not_interrupted retried carried_result other_step other_time : RecoveryError
  version_regress missing_record : RecoveryError

abbrev pub restart_text : Text
restart_text = codes "PROCESS_RESTART_DETECTED"

abbrev pub is_restart : Option StopReason → Bool
is_restart (some process_restart_detected) = true
is_restart r = false

abbrev pub is_incomplete : AgentRunStatus → Bool
is_incomplete incomplete_run = true
is_incomplete s = false

-- `_RUN_STABLE_FIELDS`
unfoldable pub same_run : AgentRunRecord → AgentRunRecord → Bool
same_run a b =
    a.run_id == b.run_id
    && a.conversation_id == b.conversation_id
    && a.provider_lane == b.provider_lane
    && a.started_at == b.started_at

pub record MarkIncomplete : Type 0 where
  pub expected_active_record : AgentRunRecord
  pub incomplete_record : AgentRunRecord

-- `MarkRunIncompleteForRecoveryCommand`
unfoldable pub validate_mark : MarkIncomplete → Result RecoveryError MarkIncomplete
unfolding same_run
validate_mark m = do
  raise_if (not (is_ok (validate_run expected) && is_ok (validate_run incomplete))) field
  raise_if (not (is_active_run expected.status)) not_active
  raise_if (is_some expected.incomplete_reason) stray_reason
  raise_if (not (is_incomplete incomplete.status)) not_incomplete
  raise_if (not (is_restart incomplete.stop_reason)) other_stop_reason
  raise_if
      (not
        (is_none incomplete.incomplete_reason || incomplete.incomplete_reason == some restart_text))
      other_reason
  raise_if (not (same_run expected incomplete)) changed_fields
  ok m
  where
    open m use {expected_active_record as expected, incomplete_record as incomplete}

-- `_RECOVERY_STABLE_TOOL_FIELDS`
abbrev pub phase_beq : Option ToolTimeoutPhase → Option ToolTimeoutPhase → Bool
phase_beq none none = true
phase_beq (some before_dispatch) (some before_dispatch) = true
phase_beq (some after_dispatch) (some after_dispatch) = true
phase_beq (some unknown) (some unknown) = true
phase_beq _ _ = false

unfoldable pub same_facts : ToolCallRecord → ToolCallRecord → Bool
same_facts a b =
    same_immutable a b
    && a.attempt_count == b.attempt_count
    && a.failure_code == b.failure_code
    && phase_beq a.timeout_phase b.timeout_phase
    && a.result_ref == b.result_ref

pub record InterruptCall : Type 0 where
  pub active_record : ToolCallRecord
  pub interrupted_record : ToolCallRecord

-- `InterruptToolCallForRecoveryCommand`
unfoldable pub validate_interrupt : InterruptCall → Result RecoveryError InterruptCall
unfolding same_facts
validate_interrupt c = do
  raise_if (not (is_ok (validate_call active_call) && is_ok (validate_call interrupted_call))) field
  raise_if (is_terminal active_call.status) not_active
  raise_if (not (interrupted_call.status == interrupted)) not_interrupted
  raise_if (not (interrupted_call.interruption_reason == some restart_text)) other_reason
  raise_if (not (leb active_call.attempt_count 1)) retried
  raise_if (is_some active_call.failure_code || is_some active_call.result_ref) carried_result
  raise_if (not (same_facts active_call interrupted_call)) changed_fields
  ok c
  where
    open c use {active_record as active_call, interrupted_record as interrupted_call}

pub record TaskTransition : Type 0 where
  pub expected_task_record : TaskRecord
  pub next_task_record : TaskRecord
  pub expected_request_unit_record : RequestUnitRecord
  pub next_request_unit_record : RequestUnitRecord
  pub task_state_transition : TaskStateTransition

-- `_TASK_STABLE_FIELDS` and `_REQUEST_UNIT_STABLE_FIELDS`
unfoldable pub same_task : TaskRecord → TaskRecord → Bool
same_task a b =
    a.task_id == b.task_id
    && a.owner_customer_id == b.owner_customer_id
    && a.created_at == b.created_at

unfoldable pub same_unit : RequestUnitRecord → RequestUnitRecord → Bool
same_unit a b =
    a.request_unit_id == b.request_unit_id
    && a.task_id == b.task_id
    && a.goal_text == b.goal_text
    && a.goal_source_refs == b.goal_source_refs
    && a.contextualization_ref == b.contextualization_ref
    && a.constraint_refs == b.constraint_refs
    && a.dependency_refs == b.dependency_refs
    && a.input_binding_refs == b.input_binding_refs
    && a.created_at == b.created_at

unfoldable pub transition_records_valid : TaskTransition → Bool
transition_records_valid t =
    is_ok (validate_task t.expected_task_record)
    && is_ok (validate_task t.next_task_record)
    && is_ok (validate_request_unit t.expected_request_unit_record)
    && is_ok (validate_request_unit t.next_request_unit_record)
    && is_ok (validate_transition t.task_state_transition)

-- The records of one task and unit, at the versions and in the states of the transition.
unfoldable pub same_steps : TaskTransition → Bool
same_steps t =
    unit.task_id == task.task_id
    && next_unit.task_id == next_task.task_id
    && step.task_id == task.task_id
    && step.request_unit_id == unit.request_unit_id
    && task.state_version == step.base_state_version
    && unit.state_version == step.base_state_version
    && next_task.state_version == step.result_state_version
    && next_unit.state_version == step.result_state_version
    && task.status == step.from_status
    && unit.status == step.from_status
    && next_task.status == step.to_status
    && next_unit.status == step.to_status
  where
    open t use {
      expected_task_record as task, next_task_record as next_task,
      expected_request_unit_record as unit, next_request_unit_record as next_unit,
      task_state_transition as step,
    }

-- The times are not those of the transition, or go back.
unfoldable pub late_steps : TaskTransition → Bool
late_steps t =
    earlier t.next_task_record.updated_at t.expected_task_record.updated_at
    || earlier t.next_request_unit_record.updated_at t.expected_request_unit_record.updated_at
    || not (t.next_task_record.updated_at == t.task_state_transition.changed_at)
    || not (t.next_request_unit_record.updated_at == t.task_state_transition.changed_at)

-- `ApplyTaskTransitionCommand`; the tests of `same_steps` all raise alike.
unfoldable pub validate_apply : TaskTransition → Result RecoveryError TaskTransition
unfolding transition_records_valid same_task same_unit same_steps late_steps
validate_apply t = do
  raise_if (not (transition_records_valid t)) field
  raise_if (not (same_task t.expected_task_record t.next_task_record)) changed_fields
  raise_if (not (same_unit t.expected_request_unit_record t.next_request_unit_record))
      changed_fields
  raise_if (not (same_steps t)) other_step
  raise_if (late_steps t) other_time
  ok t

pub record RunTaskLink : Type 0 where
  pub schema_version : Text
  pub run_id : Uuid
  pub task_id : Uuid
  pub base_task_state_version : Option ℕ
  pub result_task_state_version : Option ℕ

abbrev pub regresses : Option ℕ → Option ℕ → Bool
regresses (some base) (some result) = ltb result base
regresses _ _ = false

-- `RunTaskLinkRecord`
unfoldable pub validate_link : RunTaskLink → Result RecoveryError RunTaskLink
validate_link l = do
  raise_if
      (not (
        non_empty l.schema_version
        && is_version l.base_task_state_version
        && is_version l.result_task_state_version))
      field
  raise_if (regresses l.base_task_state_version l.result_task_state_version) version_regress
  ok l
