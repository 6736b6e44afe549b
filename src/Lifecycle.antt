-- ===== src/Lifecycle.antt =====
-- src/mini_agent/application/records.py: the messages of a conversation, and the commands that create a run
-- and start it.
pub mod Command
pub mod Trace
pub mod Agrees
pub mod Initial
pub mod InitialGraph
pub mod Decided
pub mod Traces
pub mod Starts
pub mod Finishes
pub mod Joint
pub mod Alone
pub mod Steps
pub mod Parts
pub mod Answers
pub mod Task
pub mod Service
pub mod Ending
use mini_agent.Recovery.Closure.{is_created_run}
use mini_agent.Recovery.{same_run}
use mini_agent.Prelude.Texts.{Text, Uuid, non_empty}
use mini_agent.Prelude.{
  none, some, nat_eq, list_eq, option_eq, ◌>>=◌, ◌>>◌, ◌&&◌, ◌||◌, [], ◌∷◌, ◌==◌, Result, Bool,
  raise_if, leb, not, true, length, false, is_ok, ok, is_some,
}
use mini_agent.Clock.{time_eq, DateTime, is_utc}
use mini_agent.Runs.{created_run, running_run, AgentRunStatus, AgentRunRecord, validate_run}

pub data LifecycleError : Type 0 where
  field not_created stray_completion stray_reason not_running changed_fields : LifecycleError

pub data MessageDirection : Type 0 where
  user_message assistant_message : MessageDirection

pub record MessageRecord : Type 0 where
  pub schema_version : Text
  pub message_id : Uuid
  pub conversation_id : Uuid
  pub direction : MessageDirection
  pub content : Text
  pub received_at : DateTime

-- `MessageContent`
abbrev pub is_content : Text → Bool
is_content s = leb 1 (length s) && leb (length s) 4000

unfoldable pub validate_message : MessageRecord → Result LifecycleError MessageRecord
validate_message m = do
  raise_if (not (non_empty m.schema_version && is_content m.content && is_utc m.received_at)) field
  ok m

abbrev pub is_running_run : AgentRunStatus → Bool
is_running_run running_run = true
is_running_run s = false

-- `CreateRunCommand`
unfoldable pub validate_create_run : AgentRunRecord → Result LifecycleError AgentRunRecord
validate_create_run r = do
  raise_if (not (is_ok (validate_run r))) field
  raise_if (not (is_created_run r.status)) not_created
  raise_if (is_some r.completed_at || is_some r.stop_reason || is_some r.incomplete_reason)
      stray_completion
  ok r

pub record TransitionRun : Type 0 where
  pub expected_active_record : AgentRunRecord
  pub next_record : AgentRunRecord

-- `TransitionRunCommand`
unfoldable pub validate_transition_run : TransitionRun → Result LifecycleError TransitionRun
validate_transition_run c = do
  raise_if (not (is_ok (validate_run expected) && is_ok (validate_run next))) field
  raise_if (not (is_created_run expected.status)) not_created
  raise_if (is_some expected.incomplete_reason) stray_reason
  raise_if (not (is_running_run next.status)) not_running
  raise_if (is_some next.incomplete_reason) stray_reason
  raise_if (not (same_run expected next)) changed_fields
  ok c
  where
    open c use {expected_active_record as expected, next_record as next}
