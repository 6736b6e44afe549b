-- ===== src/Gateway/Acceptance.antt =====
-- The gate accepts exactly the authorised calls.
use mini_agent.Prelude.Int.{pos}
use mini_agent.Prelude.{◌≡◌, true, ◌↔◌, ok, false, arith, none}
use mini_agent.Prelude.Texts.{Text, casefold, text_iff}
use mini_agent.Gateway.Laws.{IsTyped}
use mini_agent.Gateway.Decision.{evaluate-total}
use mini_agent.Gateway.Authority.{
  IsCurrent, state_version_valid_iff, IsBound, argument_binding_valid_iff, budget_valid_iff,
  IsGetOrder, HasOneOrder, tool_checks-IsGetOrder, schema_valid-HasOneOrder,
  IsGetOrder-registration_valid, IsGetOrder-action_boundary_valid, IsGetOrder-schema_valid,
}
use mini_agent.Gateway.{
  GatewayCall, registration_valid, snapshot_match, schema_valid, trusted_field_valid,
  argument_binding_valid, budget_valid, state_version_valid, action_boundary_valid, decide,
  evaluate_control_gateway,
}
use mini_agent.Json.{find_trusted_argument_field, obj, int, is_trusted}
use mini_agent.Json.Trusted.{HasKey, find_trusted-none_iff}
use mini_agent.Tools.Gate.{GateDecision, GateDecisionValue}

pub record IsAuthorized (c : GatewayCall) : Type 0 where
  pub tool : IsGetOrder c
  pub order : HasOneOrder c
  pub bound : IsBound c
  pub current : IsCurrent c
  pub untrusted :
      (k : Text)
      → HasKey k (obj c.revalidated_move.candidate_arguments)
      → is_trusted (casefold k) ≡ false
  pub unused : c.tool_calls_used ≡ int (pos 0)
  pub one_call : c.max_tool_calls ≡ int (pos 1)
  pub progress : c.progress_valid ≡ true
  pub version : c.context_manifest.tool_registry_version ≡ c.registry_snapshot.tool_registry_version
  pub hash :
      c.context_manifest.model_visible_toolset_hash ≡ c.registry_snapshot.model_visible_toolset_hash

abbrev pub AllPass : GatewayCall → Type 0
AllPass c =
    (snapshot_match c ≡ true)
    × (registration_valid c ≡ true)
    × (schema_valid c ≡ true)
    × (trusted_field_valid c ≡ true)
    × (argument_binding_valid c ≡ true)
    × (budget_valid c.tool_calls_used c.max_tool_calls ≡ true)
    × (c.progress_valid ≡ true)
    × (state_version_valid c ≡ true)
    × (action_boundary_valid c ≡ true)

decide-AllPass : (c : GatewayCall) → ((decide c).decision ≡ GateDecisionValue.accept) ↔ AllPass c
unfolding decide
decide-AllPass c = (λ h. ground arith, λ h. ground arith)

snapshot_match_iff :
    (c : GatewayCall)
    → (snapshot_match c ≡ true) ↔ (
        (c.context_manifest.tool_registry_version ≡ c.registry_snapshot.tool_registry_version)
        × (c.context_manifest.model_visible_toolset_hash
            ≡ c.registry_snapshot.model_visible_toolset_hash))
unfolding snapshot_match
snapshot_match_iff c =
    let v =
      text_iff c.context_manifest.tool_registry_version c.registry_snapshot.tool_registry_version in
    let w =
      text_iff c.context_manifest.model_visible_toolset_hash
        c.registry_snapshot.model_visible_toolset_hash in
    (λ h. ground (arith, v, w), λ h. ground (arith, v, w))

trusted_field_valid_iff :
    (c : GatewayCall)
    → (trusted_field_valid c ≡ true)
      ↔ (find_trusted_argument_field (obj c.revalidated_move.candidate_arguments) ≡ none)
unfolding trusted_field_valid
trusted_field_valid_iff c = (λ h. ground arith, λ h. ground arith)

AllPass-IsAuthorized : (c : GatewayCall) → AllPass c → IsAuthorized c
AllPass-IsAuthorized c
      (snapshot, registration, schema, trusted, argument, budget, progress, state, action) =
    record {
      tool = tool_checks-IsGetOrder c registration schema action;
      order = schema_valid-HasOneOrder c schema;
      bound = (argument_binding_valid_iff c).0 argument;
      current = (state_version_valid_iff c).0 state;
      untrusted = (find_trusted-none_iff _).0 ((trusted_field_valid_iff c).0 trusted);
      unused = ((budget_valid_iff _ _).0 budget).0;
      one_call = ((budget_valid_iff _ _).0 budget).1;
      progress = progress;
      version = ((snapshot_match_iff c).0 snapshot).0;
      hash = ((snapshot_match_iff c).0 snapshot).1;
    }

pub IsAuthorized-AllPass : (c : GatewayCall) → IsAuthorized c → AllPass c
IsAuthorized-AllPass c h = (
  (snapshot_match_iff c).1 (h.version, h.hash),
  IsGetOrder-registration_valid c h.tool,
  IsGetOrder-schema_valid c h.tool h.order,
  (trusted_field_valid_iff c).1 ((find_trusted-none_iff _).1 h.untrusted),
  (argument_binding_valid_iff c).1 h.bound,
  (budget_valid_iff _ _).1 (h.unused, h.one_call),
  h.progress,
  (state_version_valid_iff c).1 h.current,
  IsGetOrder-action_boundary_valid c h.tool,
)

-- For arguments of their field types, the gate returns an acceptance exactly for an authorised call: the one tool `get_order`, read
-- only and shown to the provider as registered; one argument, the order number of the current
-- binding; no trusted field at any depth; a task of the same customer, active and at the validated
-- version; no tool call used so far; progress; and the manifest's registry version and hash.
pub evaluate-accept_iff :
    (c : GatewayCall)
    → IsTyped c
    → ((d : GateDecision) × (evaluate_control_gateway c ≡ ok d)
        × (d.decision ≡ GateDecisionValue.accept))
      ↔ IsAuthorized c
evaluate-accept_iff c t = (sound, complete)
  where
    sound :
        (d : GateDecision) × (evaluate_control_gateway c ≡ ok d)
          × (d.decision ≡ GateDecisionValue.accept)
        → IsAuthorized c
    sound (d, e, a) =
        AllPass-IsAuthorized c ((decide-AllPass c).0 (ground (arith, evaluate-total c t)))

    complete :
        IsAuthorized c
        → (d : GateDecision) × (evaluate_control_gateway c ≡ ok d)
          × (d.decision ≡ GateDecisionValue.accept)
    complete h = (decide c, evaluate-total c t, (decide-AllPass c).1 (IsAuthorized-AllPass c h))
