-- ===== src/Tools/Gate.antt =====
-- `GateDecision` of core/tool_system.py.
use mini_agent.Prelude.{
  Option, Bool, Result, ℕ, ◌&&◌, true, ◌>>◌, err, List, some, false, raise_if, leb, not, is_empty,
  none, is_none, ok, is_some,
}
use mini_agent.Prelude.Texts.{Uuid, Text, none_or, non_empty, is_tool_name}
use mini_agent.Clock.{DateTime, is_utc}

pub data GateDecisionValue : Type 0 where
  accept reject : GateDecisionValue

pub data GateReasonCode : Type 0 where
  action_requires_proposal argument_binding_mismatch budget_exceeded no_progress : GateReasonCode
  schema_invalid snapshot_mismatch state_version_mismatch tool_not_registered : GateReasonCode
  trusted_field_injection : GateReasonCode

pub record GateDecision : Type 0 where
  pub gate_decision_id : Uuid
  pub model_call_id : Uuid
  pub context_manifest_id : Uuid
  pub provider_tool_call_id : Option Text
  pub requested_provider_tool_name : Text
  pub resolved_canonical_tool_name : Option Text
  pub snapshot_match : Bool
  pub registration_valid : Bool
  pub schema_valid : Bool
  pub trusted_field_valid : Bool
  pub argument_binding_valid : Bool
  pub argument_binding_refs : List Uuid
  pub budget_valid : Bool
  pub progress_valid : Bool
  pub proposed_base_task_state_version : Option ℕ
  pub validated_task_state_version : Option ℕ
  pub state_version_valid : Bool
  pub action_boundary_valid : Bool
  pub decision : GateDecisionValue
  pub reason_code : Option GateReasonCode
  pub decided_at : DateTime

pub data GateError : Type 0 where
  field accept_with_failed_check accept_without_tool accept_without_version : GateError
  accept_without_bindings accept_with_reason reject_without_reason reject_with_all_checks :
      GateError
  reason_of_passed_check mismatch_without_bindings : GateError

abbrev pub is_version : Option ℕ → Bool
is_version none = true
is_version (some v) = leb 1 v

gate_fields_valid : GateDecision → Bool
gate_fields_valid d =
    none_or non_empty d.provider_tool_call_id
    && non_empty d.requested_provider_tool_name
    && none_or is_tool_name d.resolved_canonical_tool_name
    && is_version d.proposed_base_task_state_version
    && is_version d.validated_task_state_version
    && is_utc d.decided_at

-- `all(checks)`
abbrev pub all_checks : GateDecision → Bool
all_checks d =
    d.snapshot_match && d.registration_valid && d.schema_valid && d.trusted_field_valid
    && d.argument_binding_valid && d.budget_valid && d.progress_valid && d.state_version_valid
    && d.action_boundary_valid

-- `getattr(self, _GATE_REASON_TO_FAILED_CHECK[reason])`
abbrev pub check_of : GateReasonCode → GateDecision → Bool
check_of action_requires_proposal d = d.action_boundary_valid
check_of argument_binding_mismatch d = d.argument_binding_valid
check_of budget_exceeded d = d.budget_valid
check_of no_progress d = d.progress_valid
check_of schema_invalid d = d.schema_valid
check_of snapshot_mismatch d = d.snapshot_match
check_of state_version_mismatch d = d.state_version_valid
check_of tool_not_registered d = d.registration_valid
check_of trusted_field_injection d = d.trusted_field_valid

abbrev is_mismatch : GateReasonCode → Bool
is_mismatch argument_binding_mismatch = true
is_mismatch r = false

accepted_matches : GateDecision → Result GateError GateDecision
accepted_matches d = do
  raise_if (not (all_checks d)) accept_with_failed_check
  raise_if (is_none d.resolved_canonical_tool_name) accept_without_tool
  raise_if (is_none d.validated_task_state_version) accept_without_version
  raise_if (is_empty d.argument_binding_refs) accept_without_bindings
  raise_if (is_some d.reason_code) accept_with_reason
  ok d

rejected_matches : Option GateReasonCode → GateDecision → Result GateError GateDecision
rejected_matches none d = err reject_without_reason
rejected_matches (some reason) d = do
  raise_if (all_checks d) reject_with_all_checks
  raise_if (check_of reason d) reason_of_passed_check
  raise_if (is_mismatch reason && is_empty d.argument_binding_refs) mismatch_without_bindings
  ok d

-- `decision_matches_checks`
decision_matches : GateDecisionValue → GateDecision → Result GateError GateDecision
unfolding accepted_matches rejected_matches
decision_matches accept d = accepted_matches d
decision_matches reject d = rejected_matches d.reason_code d

unfoldable pub validate_gate_decision : GateDecision → Result GateError GateDecision
unfolding gate_fields_valid decision_matches
validate_gate_decision d = do
  raise_if (not (gate_fields_valid d)) field
  decision_matches d.decision d
