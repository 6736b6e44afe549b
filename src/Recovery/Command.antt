-- ===== src/Recovery/Command.antt =====
-- src/mini_agent/application/records.py: `ApplyRestartRecoveryCommand`, all that a recovery writes, next to
-- the closure that it was made from. As lists have at most one entry of each kind, the tests of one loop
-- come one after the other.
use mini_agent.Recovery.Plan.{unit_by_task, is_active_task}
use mini_agent.Recovery.Exact.{call_beq, task_beq, unit_beq, run_beq}
use mini_agent.Prelude.Texts.{Uuid}
use mini_agent.Recovery.{
  InterruptCall, TaskTransition, RunTaskLink, MarkIncomplete, validate_mark, validate_interrupt,
  validate_apply, validate_link,
}
use mini_agent.Recovery.Closure.{
  RestartRecoveryClosure, task_by_id, validate_recovery_closure, task_of, call_of, task_id_of,
}
use mini_agent.Prelude.{
  none, some, nat_eq, list_eq, option_eq, pair_eq, ◌>>◌, ◌&&◌, if◌then◌else◌, [], ◌∷◌, ◌==◌, Bool,
  List, Option, Result, is_ok, false, raise_if, ℕ, map, not, is_some, distinct, leb, any, length,
  same_set, all, select,
}
use mini_agent.Clock.{time_eq}
use mini_agent.Tasks.{task_status_eq, blocked, TaskRecord, RequestUnitRecord}
use mini_agent.Tools.Call.{status_eq, ToolCallRecord}
use mini_agent.Runs.{TraceEvent, validate_event}

pub data CommandError : Type 0 where
  field other_run repeated_identity other_call other_call_set : CommandError
  other_task not_blocked other_task_set other_link other_version other_link_set : CommandError
  unsupported_event stray_field not_one_stop other_outcome other_reason other_time : CommandError
  other_event_set not_interrupted : CommandError

pub record RecoveryCommand : Type 0 where
  pub expected_closure : RestartRecoveryClosure
  pub run_transition : MarkIncomplete
  pub tool_call_transitions : List InterruptCall
  pub task_transitions : List TaskTransition
  pub terminal_run_task_links : List RunTaskLink
  pub recovery_trace_events : List TraceEvent

-- The fields of `ApplyRestartRecoveryCommand`, and `recovery_trace_events_are_canonical`
unfoldable pub command_fields_valid : RecoveryCommand → Bool
command_fields_valid c =
    is_ok (validate_recovery_closure c.expected_closure)
    && is_ok (validate_mark c.run_transition)
    && leb (length c.tool_call_transitions) 1
    && all (λ t. is_ok (validate_interrupt t)) c.tool_call_transitions
    && leb (length c.task_transitions) 1
    && all (λ t. is_ok (validate_apply t)) c.task_transitions
    && leb (length c.terminal_run_task_links) 1
    && all (λ l. is_ok (validate_link l)) c.terminal_run_task_links
    && leb 1 (length c.recovery_trace_events)
    && leb (length c.recovery_trace_events) 3
    && all (λ e. is_ok (validate_event e)) c.recovery_trace_events

-- `expected_tool_by_id.get(tool_call_id) != transition.active_record`
unfoldable pub is_call_of : List ToolCallRecord → ToolCallRecord → Bool
is_call_of [] c = false
is_call_of (d ∷ ds) c =
    let rest = is_call_of ds c in if d.tool_call_id == c.tool_call_id then call_beq d c else rest

abbrev pub active_id : InterruptCall → Uuid
active_id t = t.active_record.tool_call_id

unfoldable pub check_call_transitions :
    List ToolCallRecord → List InterruptCall → Result CommandError (Unit {0})
unfolding is_call_of
check_call_transitions calls changes = do
  raise_if (not (distinct (map active_id changes))) repeated_identity
  raise_if (any (λ t. not (is_call_of calls t.active_record)) changes) other_call
  raise_if (not (same_set (map active_id changes) (map (λ c. c.tool_call_id) calls))) other_call_set

abbrev pub is_exact_task : TaskRecord → Option TaskRecord → Bool
is_exact_task t none = false
is_exact_task t (some u) = task_beq u t

abbrev pub is_exact_unit : RequestUnitRecord → Option RequestUnitRecord → Bool
is_exact_unit t none = false
is_exact_unit t (some u) = unit_beq u t

abbrev pub expected_id : TaskTransition → Uuid
expected_id t = t.expected_task_record.task_id

unfoldable pub is_exact : List TaskRecord → List RequestUnitRecord → TaskTransition → Bool
is_exact tasks units t =
    is_exact_task t.expected_task_record (task_by_id tasks (expected_id t))
    && is_exact_unit t.expected_request_unit_record (unit_by_task units (expected_id t))

unfoldable pub check_task_transitions :
    List TaskRecord → List RequestUnitRecord → List TaskTransition → Result CommandError (Unit {0})
unfolding is_exact
check_task_transitions tasks units changes = do
  raise_if (not (distinct (map expected_id changes))) repeated_identity
  raise_if (any (λ t. not (is_exact tasks units t)) changes) other_task
  raise_if
      (any
        (λ t.
          not
            (t.next_task_record.status == blocked && t.next_request_unit_record.status == blocked))
        changes)
      not_blocked
  raise_if
      (not (
        same_set (map expected_id changes)
          (map task_id_of (select (λ t. is_active_task t.status) tasks))))
      other_task_set

-- `expected_link_by_task.get(link.task_id)`
unfoldable pub link_by_task : List RunTaskLink → Uuid → Option RunTaskLink
link_by_task [] i = none
link_by_task (l ∷ ls) i = let rest = link_by_task ls i in if l.task_id == i then some l else rest

abbrev pub keeps_link : RunTaskLink → Option RunTaskLink → Bool
keeps_link l none = false
keeps_link l (some k) =
    l.run_id == k.run_id
    && l.schema_version == k.schema_version
    && l.base_task_state_version == k.base_task_state_version
    && is_some l.result_task_state_version

abbrev pub version_of : Option TaskRecord → Option ℕ
version_of none = none
version_of (some t) = some t.state_version

abbrev pub next_or : Option TaskTransition → Option TaskRecord → Option ℕ
next_or (some c) t = some c.next_task_record.state_version
next_or none t = version_of t

-- `transition_by_task.get(link.task_id)`; the last transition of a task counts.
unfoldable pub transition_by_task : List TaskTransition → Uuid → Option TaskTransition
transition_by_task [] i = none
transition_by_task (c ∷ cs) i =
    let later = transition_by_task cs i in
    elim later [ some d ↦ some d | none ↦ if expected_id c == i then some c else none ]

-- `expected_result_version`
unfoldable pub final_version : List TaskTransition → List TaskRecord → Uuid → Option ℕ
unfolding transition_by_task
final_version changes tasks i = next_or (transition_by_task changes i) (task_by_id tasks i)

unfoldable pub check_terminal_links :
    List RunTaskLink
    → List TaskRecord
    → List TaskTransition
    → List RunTaskLink
    → Result CommandError (Unit {0})
unfolding link_by_task final_version
check_terminal_links links tasks changes ends = do
  raise_if (not (distinct (map (λ l. l.task_id) ends))) repeated_identity
  raise_if (any (λ l. not (keeps_link l (link_by_task links l.task_id))) ends) other_link
  raise_if
      (any (λ l. not (l.result_task_state_version == final_version changes tasks l.task_id)) ends)
      other_version
  raise_if (not (same_set (map (λ l. l.task_id) ends) (map (λ l. l.task_id) links))) other_link_set

-- `next_projections_are_bijective_with_expected_closure`
unfoldable pub check_projections : RecoveryCommand → Result CommandError (Unit {0})
unfolding check_call_transitions check_task_transitions check_terminal_links
check_projections c = do
  raise_if (not (run_beq c.run_transition.expected_active_record closure.active_run_record))
      other_run
  check_call_transitions (map call_of closure.tool_call_aggregates) c.tool_call_transitions
  check_task_transitions tasks closure.request_unit_records c.task_transitions
  check_terminal_links closure.run_task_links tasks c.task_transitions c.terminal_run_task_links
  where
    open c use {expected_closure as closure}

    tasks : List TaskRecord
    tasks = map task_of closure.task_aggregates
