-- ===== src/Recovery/Closure.antt =====
-- src/mini_agent/application/records.py: `RestartRecoveryClosure`, the records of one run that a restart
-- left active. Each list has at most one entry, so that the tests of one loop over a list come one after
-- the other.
use mini_agent.Recovery.{RunTaskLink, validate_link}
use mini_agent.Tools.Call.{ToolCallRecord, is_terminal}
use mini_agent.Recovery.Aggregates.{
  TaskRecoveryAggregate, ToolCallRecoveryAggregate, ConversationRecord, ConversationTaskLink,
  validate_conversation, validate_conversation_link, validate_task_aggregate,
  validate_call_aggregate,
}
use mini_agent.Prelude.Texts.{Uuid, Text}
use mini_agent.Prelude.{
  none, some, nat_eq, list_eq, option_eq, ◌>>◌, ◌&&◌, ◌||◌, if◌then◌else◌, [], ◌∷◌, ◌==◌, List,
  Bool, Result, Option, true, is_ok, is_empty, raise_if, ℕ, false, any, map, not, ltb, distinct,
  is_some, subset, ok, leb, same_set, is_none, length, all,
}
use mini_agent.Tasks.{task_status_eq, TaskRecord, RequestUnitRecord, validate_request_unit}
use mini_agent.Runs.{created_run, AgentRunStatus, AgentRunRecord, validate_run, is_active_run}

pub data GraphError : Type 0 where
  field not_active stray_reason other_conversation not_empty repeated_identity : GraphError
  other_owner other_run link_ended other_task_set version_ahead orphan_unit : GraphError
  other_status orphan_transition other_call_graph other_version other_bindings : GraphError

pub record RestartRecoveryClosure : Type 0 where
  pub closure_fence : Uuid
  pub conversation_record : ConversationRecord
  pub active_run_record : AgentRunRecord
  pub conversation_task_links : List ConversationTaskLink
  pub run_task_links : List RunTaskLink
  pub task_aggregates : List TaskRecoveryAggregate
  pub request_unit_records : List RequestUnitRecord
  pub tool_call_aggregates : List ToolCallRecoveryAggregate

abbrev pub is_created_run : AgentRunStatus → Bool
is_created_run created_run = true
is_created_run s = false

abbrev pub task_of : TaskRecoveryAggregate → TaskRecord
task_of a = a.task_record

abbrev pub call_of : ToolCallRecoveryAggregate → ToolCallRecord
call_of a = a.tool_call_record

abbrev pub task_id_of : TaskRecord → Uuid
task_id_of t = t.task_id

-- `task_by_id.get(task_id)`
unfoldable pub task_by_id : List TaskRecord → Uuid → Option TaskRecord
task_by_id [] i = none
task_by_id (t ∷ ts) i = let rest = task_by_id ts i in if t.task_id == i then some t else rest

unfoldable pub unit_by_id : List RequestUnitRecord → Uuid → Option RequestUnitRecord
unit_by_id [] i = none
unit_by_id (u ∷ us) i =
    let rest = unit_by_id us i in if u.request_unit_id == i then some u else rest

-- Every record and every list of at most one entry is valid on its own.
unfoldable pub closure_fields_valid : RestartRecoveryClosure → Bool
closure_fields_valid c =
    is_ok (validate_conversation c.conversation_record)
    && is_ok (validate_run c.active_run_record)
    && leb (length c.conversation_task_links) 1
    && all (λ l. is_ok (validate_conversation_link l)) c.conversation_task_links
    && leb (length c.run_task_links) 1
    && all (λ l. is_ok (validate_link l)) c.run_task_links
    && leb (length c.task_aggregates) 1
    && all (λ a. is_ok (validate_task_aggregate a)) c.task_aggregates
    && leb (length c.request_unit_records) 1
    && all (λ u. is_ok (validate_request_unit u)) c.request_unit_records
    && leb (length c.tool_call_aggregates) 1
    && all (λ a. is_ok (validate_call_aggregate a)) c.tool_call_aggregates

unfoldable pub is_quiet : RestartRecoveryClosure → Bool
is_quiet c =
    is_empty c.conversation_task_links
    && is_empty c.run_task_links
    && is_empty c.task_aggregates
    && is_empty c.request_unit_records
    && is_empty c.tool_call_aggregates

unfoldable pub check_run : RestartRecoveryClosure → Result GraphError (Unit {0})
unfolding is_quiet
check_run c = do
  raise_if (not (is_active_run run.status)) not_active
  raise_if (is_some run.incomplete_reason) stray_reason
  raise_if (not (run.conversation_id == some c.conversation_record.conversation_id))
      other_conversation
  raise_if (is_created_run run.status && not (is_quiet c)) not_empty
  where
    open c use {active_run_record as run}

unfoldable pub check_tasks : Text → List TaskRecord → Result GraphError (Unit {0})
check_tasks owner tasks = do
  raise_if (not (distinct (map task_id_of tasks))) repeated_identity
  raise_if (any (λ t. not (t.owner_customer_id == owner)) tasks) other_owner

abbrev pub exceeds : Option ℕ → Option TaskRecord → Bool
exceeds (some base) (some t) = ltb t.state_version base
exceeds _ _ = false

unfoldable pub check_run_links :
    Uuid → List TaskRecord → List RunTaskLink → Result GraphError (Unit {0})
check_run_links run_id tasks links = do
  raise_if (any (λ l. not (l.run_id == run_id)) links) other_run
  raise_if (any (λ l. is_some l.result_task_state_version) links) link_ended
  raise_if (not (distinct (map (λ l. l.task_id) links))) repeated_identity
  raise_if (not (same_set (map (λ l. l.task_id) links) (map task_id_of tasks))) other_task_set
  raise_if (any (λ l. exceeds l.base_task_state_version (task_by_id tasks l.task_id)) links)
      version_ahead

unfoldable pub check_conversation_links :
    Uuid → List TaskRecord → List ConversationTaskLink → Result GraphError (Unit {0})
check_conversation_links conversation_id tasks links = do
  raise_if (any (λ l. not (l.conversation_id == conversation_id) || is_some l.ended_at) links)
      link_ended
  raise_if (not (distinct (map (λ l. l.task_id) links))) repeated_identity
  raise_if (not (same_set (map (λ l. l.task_id) links) (map task_id_of tasks))) other_task_set

abbrev pub differs : RequestUnitRecord → Option TaskRecord → Bool
differs u none = false
differs u (some t) = not (u.status == t.status && u.state_version == t.state_version)

unfoldable pub check_units : List TaskRecord → List RequestUnitRecord → Result GraphError (Unit {0})
check_units tasks units = do
  raise_if (not (distinct (map (λ u. u.request_unit_id) units))) repeated_identity
  raise_if (any (λ u. is_none (task_by_id tasks u.task_id)) units) orphan_unit
  raise_if (not (distinct (map (λ u. u.task_id) units))) repeated_identity
  raise_if (any (λ u. differs u (task_by_id tasks u.task_id)) units) other_status
  raise_if (not (same_set (map (λ u. u.task_id) units) (map task_id_of tasks))) other_task_set

abbrev pub unit_of_other : Uuid → Option RequestUnitRecord → Bool
unit_of_other task_id none = true
unit_of_other task_id (some u) = not (u.task_id == task_id)

unfoldable pub is_orphan : List RequestUnitRecord → TaskRecoveryAggregate → Bool
is_orphan units a =
    any (λ s. unit_of_other a.task_record.task_id (unit_by_id units s.request_unit_id))
      a.task_state_transitions

abbrev pub other_version_of : ToolCallRecord → Option TaskRecord → Bool
other_version_of c none = false
other_version_of c (some t) = not (c.validated_task_state_version == t.state_version)

abbrev pub unbound : ToolCallRecord → Option RequestUnitRecord → Bool
unbound c none = false
unbound c (some u) = not (subset c.argument_binding_refs u.input_binding_refs)

unfoldable pub check_calls :
    Uuid
    → List TaskRecord
    → List RequestUnitRecord
    → List ToolCallRecord
    → Result GraphError (Unit {0})
check_calls run_id tasks units calls = do
  raise_if (not (distinct (map (λ c. c.tool_call_id) calls))) repeated_identity
  raise_if
      (any
        (λ c.
          is_terminal c.status
          || not (c.run_id == run_id)
          || is_none (task_by_id tasks c.task_id)
          || unit_of_other c.task_id (unit_by_id units c.request_unit_id))
        calls)
      other_call_graph
  raise_if (any (λ c. other_version_of c (task_by_id tasks c.task_id)) calls) other_version
  raise_if (any (λ c. unbound c (unit_by_id units c.request_unit_id)) calls) other_bindings

-- `supplied_graph_is_internally_owner_consistent`
unfoldable pub validate_recovery_closure :
    RestartRecoveryClosure → Result GraphError RestartRecoveryClosure
unfolding closure_fields_valid check_run check_tasks check_run_links check_conversation_links
    check_units is_orphan check_calls
validate_recovery_closure c = do
  raise_if (not (closure_fields_valid c)) field
  check_run c
  check_tasks c.conversation_record.owner_customer_id tasks
  check_run_links run.run_id tasks c.run_task_links
  check_conversation_links c.conversation_record.conversation_id tasks c.conversation_task_links
  check_units tasks units
  raise_if (any (is_orphan units) c.task_aggregates) orphan_transition
  check_calls run.run_id tasks units (map call_of c.tool_call_aggregates)
  ok c
  where
    open c use {active_run_record as run, request_unit_records as units}

    tasks : List TaskRecord
    tasks = map task_of c.task_aggregates
