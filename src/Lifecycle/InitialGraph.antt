-- ===== src/Lifecycle/InitialGraph.antt =====
-- src/mini_agent/application/records.py: `CreateInitialTaskGraphV2Command`, the first graph of a task with the
-- understanding that it comes from. The operation, name, authority and status of an input are literals.
use mini_agent.Lifecycle.Initial.{
  repeated_identity, other_child, other_time, other_task, field, validate_accepted_command,
  validate_roots, other_unit, other_child, other_link, early_record,
}
use mini_agent.Order.Number.{normalize_text}
use mini_agent.Recovery.{RunTaskLink}
use mini_agent.Runs.{AgentRunRecord, validate_run}
use mini_agent.Lifecycle.{MessageRecord, validate_message}
use mini_agent.Lifecycle.Initial.{
  InitialError, other_owner, other_binding, validate_create_task, bad_value, validate_create_unit,
  validate_save_binding, validate_create_link,
}
use mini_agent.Recovery.Aggregates.{
  ConversationRecord, validate_conversation, ConversationTaskLink, validate_conversation_link,
}
use mini_agent.Understanding.Graph.{TaskGraph, graph_identities}
use mini_agent.Understanding.Durable.{UnderstandingRecord, DurableInput}
use mini_agent.Prelude.Texts.{Text, Uuid}
use mini_agent.Prelude.{
  none, some, nat_eq, list_eq, option_eq, ◌>>=◌, ◌>>◌, ◌&&◌, ◌||◌, [], ◌∷◌, ◌==◌, ◌++◌, Bool,
  Option, List, Result, is_ok, is_none, raise_if, is_empty, all, leb, not, err, length, or_raise,
  distinct, ok,
}
use mini_agent.Clock.{time_eq, DateTime, earlier}
use mini_agent.Tasks.{task_status_eq, active, TaskRecord, InputBinding}

pub record CreateInitialGraph : Type 0 where
  pub owner_scope : Text
  pub expected_conversation_record : ConversationRecord
  pub expected_message_records : List MessageRecord
  pub expected_active_run_record : AgentRunRecord
  pub understanding_record : UnderstandingRecord
  pub graph : TaskGraph
  pub binding_request_unit_id : Uuid
  pub conversation_task_link : ConversationTaskLink
  pub run_task_link : RunTaskLink

unfoldable pub initial_fields_valid : CreateInitialGraph → Bool
initial_fields_valid c =
    is_ok (validate_conversation c.expected_conversation_record)
    && leb 1 (length c.expected_message_records)
    && leb (length c.expected_message_records) 8
    && all (λ m. is_ok (validate_message m)) c.expected_message_records
    && is_ok (validate_run c.expected_active_run_record)
    && is_ok (validate_create_task c.graph.task)
    && is_ok (validate_create_unit c.graph.request_unit)
    && is_ok (validate_save_binding c.graph.input_binding)
    && is_ok (validate_conversation_link c.conversation_task_link)
    && is_ok (validate_create_link c.run_task_link)

unfoldable pub clean_task : Text → TaskRecord → Result InitialError (Unit {0})
clean_task scope t = do
  raise_if (not (t.owner_customer_id == scope)) other_owner
  raise_if (not (t.status == active && t.state_version == 1 && is_none t.last_outcome_ref))
      other_task

unfoldable pub clean_unit : UnderstandingRecord → TaskGraph → Bool
clean_unit r g =
    u.task_id == g.task.task_id
    && u.goal_text == g.accepted_delta.goal_text
    && u.goal_source_refs == r.message_ref ∷ []
    && u.input_binding_refs == g.input_binding.binding_id ∷ []
    && u.status == active
    && u.state_version == 1
    && is_none u.contextualization_ref
    && is_empty u.constraint_refs
    && is_empty u.dependency_refs
    && is_empty u.open_questions
    && is_empty u.observation_refs
    && is_empty u.evidence_binding_refs
    && is_none u.pending_action_ref
    && is_empty u.result_refs
  where
    open g use {request_unit as u}

unfoldable pub binds_child : TaskGraph → Bool
binds_child g =
    g.accepted_delta.task_id == g.task.task_id
    && g.accepted_delta.input_binding_refs == g.input_binding.binding_id ∷ []
    && is_none g.accepted_delta.base_task_state_version
    && g.accepted_delta.result_task_state_version == g.task.state_version
    && g.accepted_delta.result_task_state_version == g.request_unit.state_version

abbrev pub known : Option Uuid → List Uuid
known none = []
known (some i) = i ∷ []

-- `generated_ids`; the reference to the next move is there, by the accepted command.
unfoldable pub initial_identities : UnderstandingRecord → TaskGraph → List Uuid
initial_identities r g =
    r.request_understanding_record_id ∷ known r.next_move_candidate_ref ++ graph_identities g

-- `len(timestamps) != 1`: all equal the first.
unfoldable pub one_trusted_time : UnderstandingRecord → TaskGraph → DateTime → Bool
one_trusted_time r g linked_at =
    all (λ t. t == r.created_at)
      (g.accepted_delta.accepted_at ∷ g.task.created_at ∷ g.task.updated_at
        ∷ g.request_unit.created_at ∷ g.request_unit.updated_at ∷ g.input_binding.created_at
        ∷ g.input_binding.updated_at ∷ linked_at ∷ [])

unfoldable pub projects_value : List DurableInput → InputBinding → Result InitialError (Unit {0})
projects_value [] b = err other_binding
projects_value (i ∷ inputs) b = do
  n ← or_raise (normalize_text i.candidate_value) bad_value
  raise_if (not (b.normalized_value == n && b.source_refs == i.source_ref ∷ [])) other_binding

-- `graph_is_exact_clean_initial_projection`
unfoldable pub validate_initial_graph : CreateInitialGraph → Result InitialError CreateInitialGraph
unfolding initial_fields_valid clean_task clean_unit binds_child initial_identities one_trusted_time
    projects_value
validate_initial_graph c = do
  raise_if (not (initial_fields_valid c)) field
  candidate ← validate_accepted_command r g.accepted_delta
  current ←
      validate_roots c.owner_scope c.expected_conversation_record c.expected_message_records run r
  projects_value candidate.input_candidates g.input_binding
  clean_task c.owner_scope g.task
  raise_if (not (clean_unit r g)) other_unit
  raise_if
      (not (
        c.binding_request_unit_id == g.request_unit.request_unit_id
        && is_none g.input_binding.supersedes))
      other_binding
  raise_if (not (binds_child g)) other_child
  raise_if (not (distinct (initial_identities r g))) repeated_identity
  raise_if
      (not (
        c.conversation_task_link.conversation_id == c.expected_conversation_record.conversation_id
        && c.conversation_task_link.task_id == g.task.task_id
        && is_none c.conversation_task_link.ended_at))
      other_link
  raise_if
      (not (
        c.run_task_link.run_id == run.run_id
        && c.run_task_link.task_id == g.task.task_id
        && is_none c.run_task_link.base_task_state_version
        && is_none c.run_task_link.result_task_state_version))
      other_link
  raise_if (not (one_trusted_time r g c.conversation_task_link.linked_at)) other_time
  raise_if (earlier r.created_at current.received_at || earlier r.created_at run.started_at)
      early_record
  ok c
  where
    open c use {understanding_record as r, graph as g, expected_active_run_record as run}
