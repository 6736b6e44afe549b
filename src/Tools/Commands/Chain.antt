-- ===== src/Tools/Commands/Chain.antt =====
-- The three writes in the life of a tool call, src/mini_agent/application/records.py: create, dispatch
-- and finalize, each on the record that the one before it left.
use mini_agent.Tools.Commands.{
  same_immutable, validate_start, effect_beq, StartCommand, validate_finalize, validate_create,
  FinalizeCommand, terminal_outcomes,
}
use mini_agent.Tools.Spec.{ToolEffect}
use mini_agent.Tools.Call.{ToolCallRecord, running, status_beq_iff, created}
use cubical.Cubical.Foundations.Prelude.{subst}
use mini_agent.Clock.{time_eq}
use mini_agent.Prelude.{
  and-true, nat_eq, list_eq, option_eq, eq_of_beq, ◌≡◌, ◌∙◌, true, ok, arith, nat_eq, list_eq,
  option_eq, is_some,
}

-- The fields that every projection of a call keeps (`_TOOL_IMMUTABLE_FIELDS`).
pub record SameCall (a b : ToolCallRecord) : Type 0 where
  pub call : a.tool_call_id ≡ b.tool_call_id
  pub run : a.run_id ≡ b.run_id
  pub task : a.task_id ≡ b.task_id
  pub unit : a.request_unit_id ≡ b.request_unit_id
  pub model : a.model_call_id ≡ b.model_call_id
  pub manifest : a.context_manifest_id ≡ b.context_manifest_id
  pub gate : a.gate_decision_id ≡ b.gate_decision_id
  pub provider : a.provider_tool_call_id ≡ b.provider_tool_call_id
  pub tool : a.canonical_tool_name ≡ b.canonical_tool_name
  pub registry : a.tool_registry_version ≡ b.tool_registry_version
  pub version : a.validated_task_state_version ≡ b.validated_task_state_version
  pub bindings : a.argument_binding_refs ≡ b.argument_binding_refs
  pub effect : a.effect ≡ b.effect
  pub start : a.started_at ≡ b.started_at

effect_of_beq : (a b : ToolEffect) → effect_beq a b ≡ true → a ≡ b
effect_of_beq a b h = ground arith

same_immutable-SameCall : (a b : ToolCallRecord) → same_immutable a b ≡ true → SameCall a b
unfolding same_immutable
same_immutable-SameCall a b h =
    let (h, start) = and-true _ _ h in
    let (h, effect) = and-true _ _ h in
    let (h, bindings) = and-true _ _ h in
    let (h, version) = and-true _ _ h in
    let (h, registry) = and-true _ _ h in
    let (h, tool) = and-true _ _ h in
    let (h, provider) = and-true _ _ h in
    let (h, gate) = and-true _ _ h in
    let (h, manifest) = and-true _ _ h in
    let (h, model) = and-true _ _ h in
    let (h, unit) = and-true _ _ h in
    let (h, task) = and-true _ _ h in
    let (call, run) = and-true _ _ h in
    record {
      call = eq_of_beq _ _ call;
      run = eq_of_beq _ _ run;
      task = eq_of_beq _ _ task;
      unit = eq_of_beq _ _ unit;
      model = eq_of_beq _ _ model;
      manifest = eq_of_beq _ _ manifest;
      gate = eq_of_beq _ _ gate;
      provider = eq_of_beq _ _ provider;
      tool = eq_of_beq _ _ tool;
      registry = eq_of_beq _ _ registry;
      version = eq_of_beq _ _ version;
      bindings = eq_of_beq _ _ bindings;
      effect = effect_of_beq _ _ effect;
      start = eq_of_beq _ _ start;
    }

trans : {a b c : ToolCallRecord} → SameCall a b → SameCall b c → SameCall a c
trans h k = record {
  call = h.call ∙ k.call;
  run = h.run ∙ k.run;
  task = h.task ∙ k.task;
  unit = h.unit ∙ k.unit;
  model = h.model ∙ k.model;
  manifest = h.manifest ∙ k.manifest;
  gate = h.gate ∙ k.gate;
  provider = h.provider ∙ k.provider;
  tool = h.tool ∙ k.tool;
  registry = h.registry ∙ k.registry;
  version = h.version ∙ k.version;
  bindings = h.bindings ∙ k.bindings;
  effect = h.effect ∙ k.effect;
  start = h.start ∙ k.start;
}

-- What the two conditional writes check of the statuses and of the kept fields.
dispatched :
    (c : StartCommand)
    → validate_start c ≡ ok c
    → (c.running_record.status ≡ running)
      × (same_immutable c.expected_created_record c.running_record ≡ true)
unfolding validate_start
dispatched c h = ground (arith, status_beq_iff c.running_record.status running)

finalized :
    (c : FinalizeCommand)
    → validate_finalize c ≡ ok c
    → (is_some (terminal_outcomes c.terminal_record.status) ≡ true)
      × (same_immutable c.expected_running_record c.terminal_record ≡ true)
      × (c.finalized_attempt.tool_call_id ≡ c.terminal_record.tool_call_id)
unfolding validate_finalize
finalized c h = ground arith

-- Along a create, a dispatch and a finalize command that pass their validators, each on the record that
-- the one before it left, a call goes from created over running to a terminal status; the finalized
-- attempt belongs to it; and the terminal record keeps every immutable field of the created one.
pub chain-SameCall :
    (s : StartCommand) (f : FinalizeCommand)
    → validate_create s.expected_created_record ≡ ok s.expected_created_record
    → validate_start s ≡ ok s
    → validate_finalize f ≡ ok f
    → f.expected_running_record ≡ s.running_record
    → (s.expected_created_record.status ≡ created)
      × (s.running_record.status ≡ running)
      × (is_some (terminal_outcomes f.terminal_record.status) ≡ true)
      × (f.finalized_attempt.tool_call_id ≡ f.terminal_record.tool_call_id)
      × SameCall s.expected_created_record f.terminal_record
unfolding validate_create
chain-SameCall s f h k l e =
    let (is_running, first) = dispatched s k in
    let (ended, second, own) = finalized f l in
    let moved = subst (λ r. same_immutable r f.terminal_record ≡ true) e second in
    (
      ground (arith, status_beq_iff s.expected_created_record.status created),
      is_running,
      ended,
      own,
      trans (same_immutable-SameCall _ _ first) (same_immutable-SameCall _ _ moved),
    )
