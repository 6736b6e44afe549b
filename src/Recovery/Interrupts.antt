-- ===== src/Recovery/Interrupts.antt =====
-- When the tool call that a restart left behind can be interrupted, by `recover_pending` of
-- src/mini_agent/application/restart_recovery_service.py.
use mini_agent.Prelude.Texts.{is_reason_code}
use mini_agent.Recovery.Plan.{interrupted_of, interrupt_of, interruption}
use mini_agent.Recovery.{same_facts, validate_interrupt, InterruptCall, phase_beq, restart_text}
use mini_agent.Tools.Commands.{same_immutable, effect_beq}
use mini_agent.Tools.Spec.{ToolEffect}
use mini_agent.Clock.{DateTime, is_utc_or_none, is_utc, earlier}
use mini_agent.Prelude.{
  nat_eq, list_eq, option_eq, ◌&&◌, refl, sym, ◌∙◌, and-true, beq_refl, true, false, none, some,
  Option, is_ok, ◌≡◌, arith, ok, leb, ◌↔◌, not, ◌==◌,
}
use mini_agent.Tools.Call.{
  status_eq, interrupted, call_fields_valid, validate_call, ToolCallRecord, ToolTimeoutPhase,
  lifecycle, is_terminal,
}

-- A call that can be interrupted now.
abbrev pub Interruptible : DateTime → ToolCallRecord → Type 0
Interruptible now r =
    (is_ok (validate_call r) ≡ true)
    × (is_terminal r.status ≡ false)
    × (leb r.attempt_count 1 ≡ true)
    × (r.failure_code ≡ none)
    × (r.result_ref ≡ none)
    × (is_utc now ≡ true)
    × (earlier now r.started_at ≡ false)

pub phase_beq_same : (p : Option ToolTimeoutPhase) → phase_beq p p ≡ true
phase_beq_same p = ground arith

pub effect_beq_same : (e : ToolEffect) → effect_beq e e ≡ true
effect_beq_same e = ground arith

same_immutable-interrupted :
    (now : DateTime) (r : ToolCallRecord) → same_immutable r (interrupted_of now r) ≡ true
unfolding same_immutable interrupted_of
same_immutable-interrupted now r =
    rw
      (
        beq_refl r.tool_call_id,
        beq_refl r.run_id,
        beq_refl r.task_id,
        beq_refl r.request_unit_id,
        beq_refl r.model_call_id,
        beq_refl r.context_manifest_id,
        beq_refl r.gate_decision_id,
        beq_refl r.provider_tool_call_id,
        beq_refl r.canonical_tool_name,
        beq_refl r.tool_registry_version,
        beq_refl r.validated_task_state_version,
        beq_refl r.argument_binding_refs,
        effect_beq_same r.effect,
        beq_refl r.started_at,
      )
      refl

same_facts-interrupted :
    (now : DateTime) (r : ToolCallRecord) → same_facts r (interrupted_of now r) ≡ true
unfolding same_facts interrupted_of
same_facts-interrupted now r =
    rw
      (
        same_immutable-interrupted now r,
        beq_refl r.attempt_count,
        beq_refl r.failure_code,
        phase_beq_same r.timeout_phase,
        beq_refl r.result_ref,
      )
      refl

fields-interrupted :
    (now : DateTime) (r : ToolCallRecord)
    → call_fields_valid r ≡ true
    → call_fields_valid (interrupted_of now r) ≡ is_utc now
unfolding call_fields_valid interrupted_of is_utc_or_none is_reason_code
fields-interrupted now r h = ground arith

validate_call_fields :
    (r : ToolCallRecord)
    → is_ok (validate_call r) ≡ true
    → (call_fields_valid r ≡ true) × (is_ok (lifecycle r) ≡ true)
unfolding validate_call
validate_call_fields r h = ground arith

active_unphased :
    (r : ToolCallRecord)
    → is_ok (lifecycle r) ≡ true
    → is_terminal r.status ≡ false
    → r.timeout_phase ≡ none
unfolding lifecycle
active_unphased r h a = ground arith

lifecycle-interrupted :
    (now : DateTime) (r : ToolCallRecord)
    → r.timeout_phase ≡ none
    → is_ok (lifecycle (interrupted_of now r)) ≡ not (earlier now r.started_at)
unfolding lifecycle interrupted_of
lifecycle-interrupted now r p = rw p (ground arith)

validate-interrupted :
    (now : DateTime) (r : ToolCallRecord)
    → is_ok (validate_call r) ≡ true
    → is_terminal r.status ≡ false
    → is_ok (validate_call (interrupted_of now r)) ≡ (is_utc now && not (earlier now r.started_at))
unfolding validate_call
validate-interrupted now r h a =
    let (fields, cycle) = validate_call_fields r h in
    let next_fields = fields-interrupted now r fields in
    let next_cycle = lifecycle-interrupted now r (active_unphased r cycle a) in
    rw next_fields (ground arith)

validate_interrupt-ok_iff :
    (c d : InterruptCall)
    → (validate_interrupt c ≡ ok d) ↔ (
        (c ≡ d)
        × (is_ok (validate_call c.active_record) ≡ true)
        × (is_ok (validate_call c.interrupted_record) ≡ true)
        × (is_terminal c.active_record.status ≡ false)
        × ((c.interrupted_record.status == interrupted) ≡ true)
        × ((c.interrupted_record.interruption_reason == some restart_text) ≡ true)
        × (leb c.active_record.attempt_count 1 ≡ true)
        × (c.active_record.failure_code ≡ none)
        × (c.active_record.result_ref ≡ none)
        × (same_facts c.active_record c.interrupted_record ≡ true))
unfolding validate_interrupt
validate_interrupt-ok_iff c d = ground arith

-- An active call is interrupted exactly if it is valid, has at most one attempt, carries neither failure
-- nor result, and the recovery is at a time in UTC that is not before its start.
pub interrupt_of-ok_iff :
    (now : DateTime) (r : ToolCallRecord) (c : InterruptCall)
    → (interrupt_of now r ≡ ok c) ↔ ((interruption now r ≡ c) × Interruptible now r)
unfolding interrupt_of interruption interrupted_of
interrupt_of-ok_iff now r c = (sound, complete)
  where
    sound : interrupt_of now r ≡ ok c → (interruption now r ≡ c) × Interruptible now r
    sound h =
        let (e, valid, ends, act, _, _, one, failure, result, _) =
          (validate_interrupt-ok_iff (interruption now r) c).0 h in
        let (utc, after) =
          and-true (is_utc now) (not (earlier now r.started_at))
            (sym (validate-interrupted now r valid act) ∙ ends) in
        (e, (valid, act, one, failure, result, utc, ground arith))

    complete : (interruption now r ≡ c) × Interruptible now r → interrupt_of now r ≡ ok c
    complete (e, (valid, act, one, failure, result, utc, after)) =
        let ends = validate-interrupted now r valid act ∙ (rw (utc, after) refl) in
        (validate_interrupt-ok_iff (interruption now r) c).1 (
          e,
          valid,
          ends,
          act,
          refl,
          beq_refl (some restart_text),
          one,
          failure,
          result,
          same_facts-interrupted now r,
        )
