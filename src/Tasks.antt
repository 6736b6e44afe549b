-- ===== src/Tasks.antt =====
-- src/mini_agent/core/task_state.py, identity.py and memory.py: the records of a task.
use mini_agent.Prelude.Texts.{Uuid, Text, non_empty, digest_after, codes}
use mini_agent.Prelude.{
  Bool, ◌≡◌, Eq, Result, true, List, ◌>>◌, ℕ, false, ◌↔◌, Option, raise_if, arith, not, ◌&&◌, leb,
  is_empty, ok, ◌==◌, all, ◌+◌, nat_eq, none, some,
}
use mini_agent.Clock.{DateTime, is_utc, earlier}
use mini_agent.Order.Number.{is_order_id}

pub data TaskStatus : Type 0 where
  active waiting_user pending_action action_in_progress recovering completed blocked cancelled :
      TaskStatus

abbrev pub task_status_beq : TaskStatus → TaskStatus → Bool
task_status_beq active active = true
task_status_beq waiting_user waiting_user = true
task_status_beq pending_action pending_action = true
task_status_beq action_in_progress action_in_progress = true
task_status_beq recovering recovering = true
task_status_beq completed completed = true
task_status_beq blocked blocked = true
task_status_beq cancelled cancelled = true
task_status_beq _ _ = false

pub task_status_beq_iff : (a b : TaskStatus) → (task_status_beq a b ≡ true) ↔ (a ≡ b)
task_status_beq_iff a b = ground arith

instance abbrev pub task_status_eq : Eq TaskStatus
task_status_eq = record { beq = task_status_beq; beq_iff = task_status_beq_iff }

pub data TaskError : Type 0 where
  field update_before_creation version_step same_status : TaskError
  rejected_without_reason accepted_with_reason : TaskError

-- The fields `name`, `authority`, `validation_status` and `confirmed_by_user` are literals with one
-- value each, and are left out.
pub record InputBinding : Type 0 where
  pub binding_id : Uuid
  pub normalized_value : Text
  pub source_refs : List Uuid
  pub created_at : DateTime
  pub updated_at : DateTime
  pub supersedes : Option Uuid

unfoldable pub validate_binding : InputBinding → Result TaskError InputBinding
validate_binding b = do
  raise_if
      (not (
        is_order_id b.normalized_value
        && not (is_empty b.source_refs)
        && is_utc b.created_at
        && is_utc b.updated_at))
      field
  raise_if (earlier b.updated_at b.created_at) update_before_creation
  ok b

pub record RequestUnitRecord : Type 0 where
  pub request_unit_id : Uuid
  pub task_id : Uuid
  pub goal_text : Text
  pub goal_source_refs : List Uuid
  pub contextualization_ref : Option Uuid
  pub constraint_refs : List Uuid
  pub dependency_refs : List Uuid
  pub input_binding_refs : List Uuid
  pub open_questions : List Text
  pub observation_refs : List Uuid
  pub evidence_binding_refs : List Uuid
  pub pending_action_ref : Option Uuid
  pub result_refs : List Uuid
  pub status : TaskStatus
  pub state_version : ℕ
  pub created_at : DateTime
  pub updated_at : DateTime

unfoldable pub validate_request_unit : RequestUnitRecord → Result TaskError RequestUnitRecord
validate_request_unit u = do
  raise_if
      (not (
        non_empty u.goal_text
        && not (is_empty u.goal_source_refs)
        && not (is_empty u.input_binding_refs)
        && all non_empty u.open_questions
        && leb 1 u.state_version
        && is_utc u.created_at
        && is_utc u.updated_at))
      field
  raise_if (earlier u.updated_at u.created_at) update_before_creation
  ok u

pub record TaskRecord : Type 0 where
  pub task_id : Uuid
  pub owner_customer_id : Text
  pub status : TaskStatus
  pub state_version : ℕ
  pub created_at : DateTime
  pub updated_at : DateTime
  pub last_outcome_ref : Option Uuid

unfoldable pub validate_task : TaskRecord → Result TaskError TaskRecord
validate_task t = do
  raise_if
      (not (
        non_empty t.owner_customer_id
        && leb 1 t.state_version
        && is_utc t.created_at
        && is_utc t.updated_at))
      field
  raise_if (earlier t.updated_at t.created_at) update_before_creation
  ok t

pub record TaskStateTransition : Type 0 where
  pub task_id : Uuid
  pub request_unit_id : Uuid
  pub from_status : TaskStatus
  pub to_status : TaskStatus
  pub base_state_version : ℕ
  pub result_state_version : ℕ
  pub reason_ref : Uuid
  pub changed_at : DateTime

unfoldable pub validate_transition : TaskStateTransition → Result TaskError TaskStateTransition
validate_transition t = do
  raise_if (not (leb 1 t.base_state_version && leb 1 t.result_state_version && is_utc t.changed_at))
      field
  raise_if (not (t.result_state_version == t.base_state_version + 1)) version_step
  raise_if (t.from_status == t.to_status) same_status
  ok t

-- core/identity.py
pub record CustomerContext : Type 0 where
  pub subject_ref : Text
  pub customer_id : Text
  pub auth_scopes : List Text
  pub authenticated_at : DateTime
  pub session_ref_hash : Text

unfoldable pub validate_customer : CustomerContext → Result TaskError CustomerContext
validate_customer c = do
  raise_if
      (not (
        non_empty c.subject_ref
        && non_empty c.customer_id
        && all non_empty c.auth_scopes
        && is_utc c.authenticated_at
        && non_empty c.session_ref_hash))
      field
  ok c

-- core/memory.py
pub record TaskStateRefAndVersion : Type 0 where
  pub task_id : Uuid
  pub state_version : ℕ

pub record ContextManifest : Type 0 where
  pub context_manifest_id : Uuid
  pub run_id : Uuid
  pub model_call_id : Uuid
  pub tool_registry_version : Text
  pub model_visible_toolset_hash : Text
  pub selected_message_refs : List Uuid
  pub task_state_ref_and_version : Option TaskStateRefAndVersion
  pub observation_refs_and_versions : List (Uuid × Text)
  pub evidence_refs_and_versions : List (Uuid × Text)
  pub action_record_refs : List Uuid
  pub redaction_policy_version : Text
  pub truncation_decisions : List (Uuid × Text)
  pub input_tokens : Option ℕ
  pub output_tokens : Option ℕ
  pub assembled_at : DateTime

abbrev versioned : Uuid × Text → Bool
versioned r = non_empty r.1

unfoldable pub validate_manifest : ContextManifest → Result TaskError ContextManifest
validate_manifest m = do
  raise_if
      (not (
        non_empty m.tool_registry_version
        && digest_after (codes "sha256:") m.model_visible_toolset_hash
        && elim m.task_state_ref_and_version [ none ↦ true | some r ↦ leb 1 r.state_version ]
        && all versioned m.observation_refs_and_versions
        && all versioned m.evidence_refs_and_versions
        && non_empty m.redaction_policy_version
        && all versioned m.truncation_decisions
        && is_utc m.assembled_at))
      field
  ok m
