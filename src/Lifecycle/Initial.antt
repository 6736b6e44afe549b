-- ===== src/Lifecycle/Initial.antt =====
-- src/mini_agent/application/records.py: the commands that write the understanding of a request, with the first
-- graph of a task or without one. The owner scope is the customer id that it holds.
use mini_agent.Understanding.Decision.{no_next_move}
use mini_agent.Runs.{AgentRunRecord, validate_run}
use mini_agent.Recovery.Aggregates.{ConversationRecord, validate_conversation}
use mini_agent.Recovery.{RunTaskLink, validate_link}
use mini_agent.Understanding.Durable.{
  UnderstandingRecord, AcceptedTaskDelta, DurableTaskDelta, CandidateValidation, is_accept,
  validate_record, validate_accepted, is_accepted,
}
use mini_agent.Lifecycle.{
  MessageRecord, MessageDirection, user_message, is_running_run, validate_message,
}
use mini_agent.Prelude.Texts.{Text, Uuid, non_empty}
use mini_agent.Prelude.{
  none, some, nat_eq, list_eq, option_eq, ◌>>=◌, ◌>>◌, ◌&&◌, ◌||◌, if◌then◌else◌, [], ◌∷◌, ◌==◌,
  ◌++◌, List, Option, Bool, Result, raise_if, true, map, err, not, false, ok, distinct, is_ok, any,
  length, same_set, is_none, leb, is_some, select, all, is_empty,
}
use mini_agent.Clock.{time_eq, earlier}
use mini_agent.Tasks.{
  task_status_eq, InputBinding, TaskRecord, RequestUnitRecord, CustomerContext, validate_binding,
  validate_task, validate_request_unit,
}

pub data InitialError : Type 0 where
  field repeated_message other_owner other_conversation other_message_set : InitialError
  other_current_message not_running other_run early_record not_one_candidate : InitialError
  other_child other_effect other_time task_effect repeated_source not_initial : InitialError
  stray_result bad_value other_binding other_task other_unit other_link : InitialError
  repeated_identity not_scoped : InitialError

-- `TrustedOwnerScope.from_customer_context` and its validator
unfoldable pub scope_of : Text → CustomerContext → Result InitialError Text
scope_of customer_id context = do
  raise_if (not (customer_id == context.customer_id)) not_scoped
  raise_if (not (non_empty customer_id)) field
  ok customer_id

abbrev pub message_id_of : MessageRecord → Uuid
message_id_of m = m.message_id

abbrev pub is_user : MessageDirection → Bool
is_user user_message = true
is_user d = false

-- The current message: exactly one of that id, of the user.
abbrev pub current_of : List MessageRecord → Option MessageRecord
current_of (m ∷ []) = if is_user m.direction then some m else none
current_of ms = none

abbrev pub concat_map {ℓ κ} : {A : Type ℓ} {B : Type κ} → (A → List B) → List A → List B
concat_map f [] = []
concat_map f (a ∷ rest) = f a ++ concat_map f rest

-- `_referenced_message_ids_v2`
unfoldable pub referenced_message_ids : UnderstandingRecord → List Uuid
referenced_message_ids r =
    r.message_ref ∷ r.contextualization.source_message_refs
    ++ map (λ c. c.source_ref) r.contextualization.resolved_reference_candidates
    ++ concat_map (λ u. u.source_message_refs) r.contextualization.uncertainties
    ++ concat_map (λ d. map (λ c. c.source_ref) d.input_candidates) r.task_delta_candidates

unfoldable pub require_current : Option MessageRecord → Result InitialError MessageRecord
require_current none = err other_current_message
require_current (some m) = ok m

-- `_validate_v2_owner_roots_and_messages`
unfoldable pub validate_roots :
    Text
    → ConversationRecord
    → List MessageRecord
    → AgentRunRecord
    → UnderstandingRecord
    → Result InitialError MessageRecord
unfolding referenced_message_ids require_current
validate_roots scope conversation messages run r = do
  raise_if (not (distinct (map message_id_of messages))) repeated_message
  raise_if (not (conversation.owner_customer_id == scope)) other_owner
  raise_if (any (λ m. not (m.conversation_id == conversation.conversation_id)) messages)
      other_conversation
  raise_if (not (same_set (map message_id_of messages) (referenced_message_ids r)))
      other_message_set
  m ← require_current (current_of (select (λ m. m.message_id == r.message_ref) messages))
  raise_if (not (is_running_run run.status) || is_some run.incomplete_reason) not_running
  raise_if (not (run.conversation_id == some conversation.conversation_id)) other_conversation
  raise_if (not (r.run_id == run.run_id)) other_run
  raise_if (earlier r.created_at m.received_at || earlier r.created_at run.started_at) early_record
  ok m

-- `SaveRequestUnderstandingV2AcceptedCommand`
unfoldable pub keeps_candidate :
    UnderstandingRecord
    → AcceptedTaskDelta
    → DurableTaskDelta
    → CandidateValidation
    → Result InitialError (Unit {0})
keeps_candidate r child d v = do
  raise_if
      (not (
        v.candidate_ref == d.candidate_id
        && is_accept v.decision
        && r.accepted_delta_refs == child.accepted_delta_id ∷ []
        && child.candidate_ref == d.candidate_id
        && child.message_ref == r.message_ref
        && child.goal_text == d.goal_patch))
      other_child
  raise_if
      (not (
        length child.input_binding_refs == 1
        && is_none child.base_task_state_version
        && child.result_task_state_version == 1
        && is_none r.proposed_base_task_state_version
        && r.validated_task_state_version == some 1
        && is_some r.next_move_candidate_ref))
      other_effect
  raise_if (not (r.created_at == child.accepted_at)) other_time

unfoldable pub one_candidate :
    UnderstandingRecord
    → AcceptedTaskDelta
    → List DurableTaskDelta
    → List CandidateValidation
    → Result InitialError DurableTaskDelta
unfolding keeps_candidate
one_candidate r child (d ∷ []) (v ∷ []) = do keeps_candidate r child d v; ok d
one_candidate r child ds vs = err not_one_candidate

unfoldable pub validate_accepted_command :
    UnderstandingRecord → AcceptedTaskDelta → Result InitialError DurableTaskDelta
unfolding one_candidate
validate_accepted_command r child = do
  raise_if (not (is_ok (validate_record r) && is_ok (validate_accepted child))) field
  one_candidate r child r.task_delta_candidates r.candidate_validation

-- `SaveRequestUnderstandingV2NoTaskCommand`
unfoldable pub validate_no_task_command :
    Text
    → ConversationRecord
    → List MessageRecord
    → AgentRunRecord
    → UnderstandingRecord
    → Result InitialError UnderstandingRecord
unfolding validate_roots
validate_no_task_command scope conversation messages run r = do
  raise_if
      (not (
        is_ok (validate_conversation conversation)
        && leb 1 (length messages)
        && leb (length messages) 8
        && all (λ m. is_ok (validate_message m)) messages
        && is_ok (validate_run run)
        && is_ok (validate_record r)))
      field
  m ← validate_roots scope conversation messages run r
  raise_if
      (not (is_empty r.accepted_delta_refs)
        || any is_accepted r.candidate_validation
        || not (no_next_move r))
      task_effect
  ok r

-- `SaveInputBindingCommand`
unfoldable pub validate_save_binding : InputBinding → Result InitialError InputBinding
validate_save_binding b = do
  raise_if (not (is_ok (validate_binding b))) field
  raise_if (not (distinct b.source_refs)) repeated_source
  ok b

-- `CreateTaskCommand`, `CreateRequestUnitCommand` and `CreateRunTaskLinkCommand`
unfoldable pub validate_create_task : TaskRecord → Result InitialError TaskRecord
validate_create_task t = do
  raise_if (not (is_ok (validate_task t))) field
  raise_if (not (t.state_version == 1)) not_initial
  ok t

unfoldable pub validate_create_unit : RequestUnitRecord → Result InitialError RequestUnitRecord
validate_create_unit u = do
  raise_if (not (is_ok (validate_request_unit u))) field
  raise_if (not (u.state_version == 1)) not_initial
  ok u

unfoldable pub validate_create_link : RunTaskLink → Result InitialError RunTaskLink
validate_create_link l = do
  raise_if (not (is_ok (validate_link l))) field
  raise_if (is_some l.result_task_state_version) stray_result
  ok l
