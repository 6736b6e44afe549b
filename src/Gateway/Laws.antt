-- ===== src/Gateway/Laws.antt =====
-- Facts about the parts of the gate that its theorems use.
use mini_agent.Clock.{is_utc}
use mini_agent.Tools.Gate.{is_version}
use mini_agent.Prelude.Texts.{is_tool_name, non_empty, Text, none_or}
use mini_agent.Prelude.{
  Bool, List, all, ◌≡◌, true, select, some, ◌∷◌, [], arith, is_some, is_empty, Option-cases, false,
  inl, inr, leb, refl, option_beq,
}
use mini_agent.Gateway.{
  GatewayCall, resolved, resolve_registration, registration_valid, binding_for, only,
}
use mini_agent.Tools.Registry.{ProviderToolNameBinding, RegistrySnapshot}

select-all {ℓ} :
    {A : Type ℓ} (p q : A → Bool) (xs : List A) → all p xs ≡ true → all p (select q xs) ≡ true
select-all p q [] h = h
select-all p q (x ∷ xs) h = ground (arith, select-all p q xs)

only-all {ℓ} :
    {A : Type ℓ} (p : A → Bool) (xs : List A) {x : A}
    → all p xs ≡ true
    → only xs ≡ some x
    → p x ≡ true
unfolding only
only-all p [] h e = cc
only-all p (x ∷ []) h e = ground arith
only-all p (x ∷ y ∷ xs) h e = cc

abbrev names_tool : ProviderToolNameBinding → Bool
names_tool b = is_tool_name b.canonical_tool_name

-- What the field types of the arguments guarantee, as far as the decision copies them.
pub record IsTyped (c : GatewayCall) : Type 0 where
  pub requested : non_empty c.revalidated_move.requested_provider_tool_name ≡ true
  pub provider_id : none_or non_empty c.provider_tool_call_id ≡ true
  pub refs : is_empty c.revalidated_move.argument_binding_refs ≡ false
  pub proposed : is_version c.revalidated_move.proposed_base_task_state_version ≡ true
  pub validated : leb 1 c.revalidated_move.validated_task_state_version ≡ true
  pub names : all names_tool c.registry_snapshot.provider_name_to_canonical_name ≡ true
  pub decided : is_utc c.decided_at ≡ true

binding_for-names_tool :
    (s : RegistrySnapshot) (name : Text) {b : ProviderToolNameBinding}
    → all names_tool s.provider_name_to_canonical_name ≡ true
    → binding_for s name ≡ some b
    → names_tool b ≡ true
unfolding binding_for
binding_for-names_tool s name h e =
    only-all names_tool _ (select-all names_tool _ s.provider_name_to_canonical_name h) e

pub resolved-is_tool_name :
    (c : GatewayCall) → IsTyped c → none_or is_tool_name (resolved c).0 ≡ true
unfolding resolved resolve_registration
resolved-is_tool_name c t =
    elim (Option-cases
      (binding_for c.registry_snapshot c.revalidated_move.requested_provider_tool_name)) [
        | inl none' ↦ rw (none', none_or) refl
        | inr (b, e) ↦ rw (e, none_or) (binding_for-names_tool c.registry_snapshot _ t.names e)
      ]

-- A call whose registration is valid has a canonical name.
pub registration_valid-is_some :
    (c : GatewayCall) → registration_valid c ≡ true → is_some (resolved c).0 ≡ true
unfolding registration_valid option_beq
registration_valid-is_some c h = ground arith
