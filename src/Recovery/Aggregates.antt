-- ===== src/Recovery/Aggregates.antt =====
-- src/mini_agent/application/records.py: the records that a recovery reads together, each with its
-- history: a task with its transitions, a tool call with its attempts.
use mini_agent.Prelude.Texts.{Text, Uuid, non_empty}
use mini_agent.Prelude.{
  some, nat_eq, list_eq, option_eq, pair_eq, ◌>>◌, ◌&&◌, ◌||◌, [], ◌∷◌, ◌==◌, ◌+◌, Result, List, ℕ,
  Option, raise_if, Bool, suc, ok, not, true, false, zero, is_none, is_some, any, err, length,
  is_ok, distinct, map, leb, all,
}
use mini_agent.Clock.{time_eq, DateTime, earlier, is_utc, is_utc_or_none}
use mini_agent.Tasks.{
  task_status_eq, TaskRecord, TaskStateTransition, validate_task, validate_transition,
}
use mini_agent.Tools.Call.{
  status_eq, created, running, succeeded, failed, timed_out, interrupted, ToolCallRecord,
  ToolAttemptRecord, ToolCallStatus, ToolResultOutcome, business_failure, success,
  interrupted_result, system_failure, validate_call, timeout, ends_early, validate_attempt,
  is_terminal,
}

pub data ClosureError : Type 0 where
  field link_ends_early stray_history incomplete_history early_history : ClosureError
  repeated_identity other_task broken_chain other_status disordered late_history : ClosureError
  retried early_result other_attempts other_call other_active_attempt : ClosureError
  other_interruption open_attempt other_outcome other_finish other_failure : ClosureError
  out_of_range : ClosureError

pub record ConversationRecord : Type 0 where
  pub schema_version : Text
  pub conversation_id : Uuid
  pub owner_customer_id : Text
  pub created_at : DateTime

unfoldable pub validate_conversation : ConversationRecord → Result ClosureError ConversationRecord
validate_conversation c = do
  raise_if
      (not (non_empty c.schema_version && non_empty c.owner_customer_id && is_utc c.created_at))
      field
  ok c

pub record ConversationTaskLink : Type 0 where
  pub schema_version : Text
  pub conversation_id : Uuid
  pub task_id : Uuid
  pub link_reason : Text
  pub linked_at : DateTime
  pub ended_at : Option DateTime

-- `ConversationTaskLinkRecord`
unfoldable pub validate_conversation_link :
    ConversationTaskLink → Result ClosureError ConversationTaskLink
validate_conversation_link l = do
  raise_if
      (not (
        non_empty l.schema_version
        && non_empty l.link_reason
        && is_utc l.linked_at
        && is_utc_or_none l.ended_at))
      field
  raise_if (ends_early l.ended_at l.linked_at) link_ends_early
  ok l

abbrev pub last_of {ℓ} : {A : Type ℓ} → A → List A → A
last_of a [] = a
last_of a (b ∷ bs) = last_of b bs

-- `attempts[:-1]`, the entries before the last
abbrev pub before_last {ℓ} : {A : Type ℓ} → A → List A → List A
before_last a [] = []
before_last a (b ∷ bs) = a ∷ before_last b bs

pub record TaskRecoveryAggregate : Type 0 where
  pub task_record : TaskRecord
  pub task_state_transitions : List TaskStateTransition

-- The versions are `start`, `start + 1`, and so on.
abbrev pub numbered : ℕ → List TaskStateTransition → Bool
numbered n [] = true
numbered n (s ∷ steps) = s.result_state_version == n && numbered (suc n) steps

abbrev identity_of : TaskStateTransition → Uuid × (Uuid × ℕ)
identity_of s = (s.task_id, (s.request_unit_id, s.result_state_version))

abbrev pub chained : TaskStateTransition → List TaskStateTransition → Bool
chained s [] = true
chained s (r ∷ steps) = s.to_status == r.from_status && chained r steps

abbrev pub disordered_after : TaskStateTransition → List TaskStateTransition → Bool
disordered_after s [] = false
disordered_after s (r ∷ steps) = earlier r.changed_at s.changed_at || disordered_after r steps

-- The history of a task at a version after the first, whose first transition is taken off.
unfoldable pub history :
    TaskRecord → TaskStateTransition → List TaskStateTransition → Result ClosureError (Unit {0})
history t s steps = do
  raise_if (not (numbered 2 (s ∷ steps))) incomplete_history
  raise_if (earlier s.changed_at t.created_at) early_history
  raise_if (not (distinct (map identity_of (s ∷ steps)))) repeated_identity
  raise_if (any (λ r. not (r.task_id == t.task_id)) (s ∷ steps)) other_task
  raise_if (not (chained s steps)) broken_chain
  raise_if (not ((last_of s steps).to_status == t.status)) other_status
  raise_if (disordered_after s steps) disordered
  raise_if (earlier t.updated_at (last_of s steps).changed_at) late_history

unfoldable pub history_of : TaskRecord → List TaskStateTransition → Result ClosureError (Unit {0})
unfolding history
history_of t [] = raise_if (not (t.state_version == 1)) incomplete_history
history_of t (s ∷ steps) = do
  raise_if (t.state_version == 1) stray_history
  raise_if (not (t.state_version == length (s ∷ steps) + 1)) incomplete_history
  history t s steps

-- `transition_history_is_complete_contiguous_and_unique`
unfoldable pub validate_task_aggregate :
    TaskRecoveryAggregate → Result ClosureError TaskRecoveryAggregate
unfolding history_of
validate_task_aggregate a = do
  raise_if
      (not (
        is_ok (validate_task a.task_record)
        && leb (length a.task_state_transitions) 1
        && all (λ s. is_ok (validate_transition s)) a.task_state_transitions))
      field
  history_of a.task_record a.task_state_transitions
  ok a

pub record ToolCallRecoveryAggregate : Type 0 where
  pub tool_call_record : ToolCallRecord
  pub tool_attempt_records : List ToolAttemptRecord

abbrev pub attempts_from : ℕ → ℕ → List ℕ
attempts_from n zero = []
attempts_from n (suc k) = n ∷ attempts_from (suc n) k

abbrev is_open : ToolAttemptRecord → Bool
is_open a = is_none a.finished_at || is_none a.outcome

-- `terminal_outcomes`
abbrev pub agrees : ToolCallStatus → Option ToolResultOutcome → Bool
agrees succeeded (some success) = true
agrees failed (some business_failure) = true
agrees failed (some system_failure) = true
agrees timed_out (some timeout) = true
agrees _ _ = false

abbrev is_interrupted : Option ToolResultOutcome → Bool
is_interrupted (some interrupted_result) = true
is_interrupted o = false

-- The attempts of a call that runs, was interrupted, or ended.
unfoldable pub running_attempts :
    ToolAttemptRecord → List ToolAttemptRecord → Result ClosureError (Unit {0})
running_attempts a rest =
    let last = last_of a rest in
    raise_if (is_some last.finished_at || is_some last.outcome || any is_open (before_last a rest))
      other_active_attempt

unfoldable pub interrupted_attempts :
    ToolCallRecord → ToolAttemptRecord → List ToolAttemptRecord → Result ClosureError (Unit {0})
interrupted_attempts c a rest = do
  raise_if (any is_open (before_last a rest)) other_interruption
  raise_if (is_some (last_of a rest).finished_at && not (is_interrupted (last_of a rest).outcome))
      other_outcome
  raise_if
      (is_some (last_of a rest).finished_at && not (c.finished_at == (last_of a rest).finished_at))
      other_finish

unfoldable pub ended_attempts :
    ToolCallRecord → ToolAttemptRecord → List ToolAttemptRecord → Result ClosureError (Unit {0})
ended_attempts c a rest = do
  raise_if (any is_open (a ∷ rest)) open_attempt
  raise_if (not (agrees c.status (last_of a rest).outcome)) other_outcome
  raise_if (not (c.finished_at == (last_of a rest).finished_at)) other_finish
  raise_if (not (c.failure_code == (last_of a rest).failure_code)) other_failure

-- `attempts[-1]` of no attempts is out of range.
unfoldable pub attempts_of :
    ToolCallStatus → ToolCallRecord → List ToolAttemptRecord → Result ClosureError (Unit {0})
unfolding running_attempts interrupted_attempts ended_attempts
attempts_of created c attempts = ok tt
attempts_of running c [] = err other_active_attempt
attempts_of running c (a ∷ rest) = running_attempts a rest
attempts_of interrupted c [] = ok tt
attempts_of interrupted c (a ∷ rest) = interrupted_attempts c a rest
attempts_of s c [] = err out_of_range
attempts_of s c (a ∷ rest) = ended_attempts c a rest

-- `attempt_history_is_exact_and_lifecycle_consistent`
unfoldable pub validate_call_aggregate :
    ToolCallRecoveryAggregate → Result ClosureError ToolCallRecoveryAggregate
unfolding attempts_of
validate_call_aggregate a = do
  raise_if
      (not (
        is_ok (validate_call c)
        && leb (length a.tool_attempt_records) 1
        && all (λ s. is_ok (validate_attempt s)) a.tool_attempt_records))
      field
  raise_if (not (leb c.attempt_count 1)) retried
  raise_if (not (is_terminal c.status) && (is_some c.failure_code || is_some c.result_ref))
      early_result
  raise_if (not (map (λ s. s.attempt_no) a.tool_attempt_records == attempts_from 1 c.attempt_count))
      other_attempts
  raise_if (any (λ s. not (s.tool_call_id == c.tool_call_id)) a.tool_attempt_records) other_call
  attempts_of c.status c a.tool_attempt_records
  ok a
  where
    open a use {tool_call_record as c}
