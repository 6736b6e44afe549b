-- ===== src/Recovery/Applies.antt =====
-- When the commands of `recover_pending` in src/mini_agent/application/restart_recovery_service.py pass the
-- validators of src/mini_agent/application/records.py.
use mini_agent.Prelude.Texts.{Uuid}
use mini_agent.Recovery.Plan.{
  run_transition, incomplete_of, marking, blocked_task, blocked_unit, blocking, block,
}
use mini_agent.Runs.{validate_run, AgentRunRecord, is_active_run}
use mini_agent.Recovery.{
  same_run, validate_mark, MarkIncomplete, is_incomplete, is_restart, restart_text, same_task,
  same_unit, validate_apply, TaskTransition, transition_records_valid, same_steps, late_steps,
}
use mini_agent.Recovery.{field, changed_fields, other_step, other_time}
use mini_agent.Prelude.{
  sym, ◌∙◌, and-true, nat_eq, list_eq, option_eq, ◌>>◌, ◌&&◌, ◌||◌, refl, beq_refl, is_ok, ◌≡◌,
  true, ok, ◌↔◌, none, not, false, arith, is_none, ◌==◌, some, ◌≢◌, ◌+◌, Bool, raise_if, Bool-cases,
  inl, inr,
}
use mini_agent.Clock.{time_eq, DateTime, is_utc, earlier, is_utc_or_none}
use mini_agent.Tasks.{
  task_status_eq, blocked, TaskRecord, validate_task, validate_request_unit, RequestUnitRecord,
  validate_transition,
}
use mini_agent.Tools.Call.{status_eq}

-- A run that can be stopped now.
abbrev pub Stoppable : DateTime → AgentRunRecord → Type 0
Stoppable now r =
    (is_ok (validate_run r) ≡ true)
    × (is_active_run r.status ≡ true)
    × (r.incomplete_reason ≡ none)
    × (is_utc now ≡ true)
    × (earlier now r.started_at ≡ false)

same_run-incomplete :
    (now : DateTime) (r : AgentRunRecord) → same_run r (incomplete_of now r) ≡ true
unfolding same_run incomplete_of
same_run-incomplete now r =
    rw
      (
        beq_refl r.run_id,
        beq_refl r.conversation_id,
        beq_refl r.provider_lane,
        beq_refl r.started_at,
      )
      refl

validate-incomplete :
    (now : DateTime) (r : AgentRunRecord)
    → is_ok (validate_run r) ≡ true
    → is_ok (validate_run (incomplete_of now r)) ≡ (is_utc now && not (earlier now r.started_at))
unfolding validate_run incomplete_of is_utc_or_none
validate-incomplete now r h = ground arith

validate_mark-ok_iff :
    (m n : MarkIncomplete)
    → (validate_mark m ≡ ok n) ↔ (
        (m ≡ n)
        × (is_ok (validate_run m.expected_active_record) ≡ true)
        × (is_ok (validate_run m.incomplete_record) ≡ true)
        × (is_active_run m.expected_active_record.status ≡ true)
        × (m.expected_active_record.incomplete_reason ≡ none)
        × (is_incomplete m.incomplete_record.status ≡ true)
        × (is_restart m.incomplete_record.stop_reason ≡ true)
        × ((is_none m.incomplete_record.incomplete_reason
              || m.incomplete_record.incomplete_reason == some restart_text)
            ≡ true)
        × (same_run m.expected_active_record m.incomplete_record ≡ true))
unfolding validate_mark
validate_mark-ok_iff m n = ground arith

-- A run is marked incomplete exactly if it is valid and active, has no reason yet, and the recovery is at a
-- time in UTC that is not before its start.
pub run_transition-ok_iff :
    (now : DateTime) (r : AgentRunRecord) (m : MarkIncomplete)
    → (run_transition now r ≡ ok m) ↔ ((marking now r ≡ m) × Stoppable now r)
unfolding run_transition marking incomplete_of
run_transition-ok_iff now r m = (sound, complete)
  where
    sound : run_transition now r ≡ ok m → (marking now r ≡ m) × Stoppable now r
    sound h =
        let (e, valid, ends, act, reason, _, _, _, _) =
          (validate_mark-ok_iff (marking now r) m).0 h in
        let (utc, after) =
          and-true (is_utc now) (not (earlier now r.started_at))
            (sym (validate-incomplete now r valid) ∙ ends) in
        (e, (valid, act, reason, utc, ground arith))

    complete : (marking now r ≡ m) × Stoppable now r → run_transition now r ≡ ok m
    complete (e, (valid, act, reason, utc, after)) =
        let ends = validate-incomplete now r valid ∙ (rw (utc, after) refl) in
        (validate_mark-ok_iff (marking now r) m).1 (
          e,
          valid,
          ends,
          act,
          reason,
          refl,
          refl,
          beq_refl (some restart_text),
          same_run-incomplete now r,
        )

-- A task and its request unit that can be blocked now.
abbrev pub Blockable : DateTime → TaskRecord → RequestUnitRecord → Type 0
Blockable now t u =
    (is_ok (validate_task t) ≡ true)
    × (is_ok (validate_request_unit u) ≡ true)
    × (u.task_id ≡ t.task_id)
    × (u.state_version ≡ t.state_version)
    × (u.status ≡ t.status)
    × (t.status ≢ blocked)
    × (is_utc now ≡ true)
    × (earlier now t.updated_at ≡ false)
    × (earlier now u.updated_at ≡ false)

task-blocked :
    (now : DateTime) (ref : Uuid) (t : TaskRecord)
    → earlier now t.updated_at ≡ false
    → is_ok (validate_task t) ≡ true
    → is_ok (validate_task (blocked_task now ref t)) ≡ is_utc now
unfolding validate_task blocked_task
task-blocked now ref t e h = ground arith

unit-blocked :
    (now : DateTime) (ref : Uuid) (u : RequestUnitRecord)
    → earlier now u.updated_at ≡ false
    → is_ok (validate_request_unit u) ≡ true
    → is_ok (validate_request_unit (blocked_unit now ref u)) ≡ is_utc now
unfolding validate_request_unit blocked_unit
unit-blocked now ref u e h = ground arith

same_task-blocked :
    (now : DateTime) (ref : Uuid) (t : TaskRecord) → same_task t (blocked_task now ref t) ≡ true
unfolding same_task blocked_task
same_task-blocked now ref t =
    rw (beq_refl t.task_id, beq_refl t.owner_customer_id, beq_refl t.created_at) refl

same_unit-blocked :
    (now : DateTime) (ref : Uuid) (u : RequestUnitRecord)
    → same_unit u (blocked_unit now ref u) ≡ true
unfolding same_unit blocked_unit
same_unit-blocked now ref u =
    rw
      (
        beq_refl u.request_unit_id,
        beq_refl u.task_id,
        beq_refl u.goal_text,
        beq_refl u.goal_source_refs,
        beq_refl u.contextualization_ref,
        beq_refl u.constraint_refs,
        beq_refl u.dependency_refs,
        beq_refl u.input_binding_refs,
        beq_refl u.created_at,
      )
      refl

transition-blocked :
    (now : DateTime) (ref : Uuid) (t : TaskRecord) (u : RequestUnitRecord)
    → is_ok (validate_task t) ≡ true
    → is_ok (validate_transition (blocking now ref t u).task_state_transition)
      ≡ (is_utc now && not (t.status == blocked))
unfolding blocking validate_transition validate_task
transition-blocked now ref t u h = ground (arith, beq_refl (t.state_version + 1))

five_guards :
    (a b c d e : Bool) (x y : TaskTransition)
    → ((do
      raise_if (not a) field
      raise_if (not b) changed_fields
      raise_if (not c) changed_fields
      raise_if (not d) other_step
      raise_if e other_time
      ok x)
        ≡ ok y)
      ↔ ((x ≡ y) × (a ≡ true) × (b ≡ true) × (c ≡ true) × (d ≡ true) × (e ≡ false))
five_guards a b c d e x y = ground arith

pub validate_apply-ok_iff :
    (c d : TaskTransition)
    → (validate_apply c ≡ ok d) ↔ (
        (c ≡ d)
        × (transition_records_valid c ≡ true)
        × (same_task c.expected_task_record c.next_task_record ≡ true)
        × (same_unit c.expected_request_unit_record c.next_request_unit_record ≡ true)
        × (same_steps c ≡ true)
        × (late_steps c ≡ false))
unfolding validate_apply
validate_apply-ok_iff c d =
    five_guards (transition_records_valid c) (same_task c.expected_task_record c.next_task_record)
      (same_unit c.expected_request_unit_record c.next_request_unit_record) (same_steps c)
      (late_steps c) c d

records-blocked :
    (now : DateTime) (ref : Uuid) (t : TaskRecord) (u : RequestUnitRecord)
    → earlier now t.updated_at ≡ false
    → earlier now u.updated_at ≡ false
    → (transition_records_valid (blocking now ref t u) ≡ true) ↔ (
        (is_ok (validate_task t) ≡ true)
        × (is_ok (validate_request_unit u) ≡ true)
        × (is_utc now ≡ true)
        × ((t.status == blocked) ≡ false))
unfolding transition_records_valid blocking
records-blocked now ref t u et eu =
    ground
      (arith, task-blocked now ref t et, unit-blocked now ref u eu, transition-blocked now ref t u)

steps-blocked :
    (now : DateTime) (ref : Uuid) (t : TaskRecord) (u : RequestUnitRecord)
    → (same_steps (blocking now ref t u) ≡ true)
      ↔ ((u.task_id ≡ t.task_id) × (u.state_version ≡ t.state_version) × (u.status ≡ t.status))
unfolding same_steps blocking blocked_task blocked_unit
steps-blocked now ref t u =
    ground (arith, beq_refl t.status, task_status_eq.beq_iff u.status t.status)

late-blocked :
    (now : DateTime) (ref : Uuid) (t : TaskRecord) (u : RequestUnitRecord)
    → (late_steps (blocking now ref t u) ≡ false)
      ↔ ((earlier now t.updated_at ≡ false) × (earlier now u.updated_at ≡ false))
unfolding late_steps blocking blocked_task blocked_unit
late-blocked now ref t u = ground (arith, beq_refl now)

-- A task is blocked exactly if it and its unit are valid, belong together, are in the same state at the
-- same version and not blocked yet, and the recovery is at a time in UTC that is not before their last
-- change; both then go to the next version.
pub block-ok_iff :
    (now : DateTime) (ref : Uuid) (t : TaskRecord) (u : RequestUnitRecord) (c : TaskTransition)
    → (block now ref t (some u) ≡ ok c) ↔ ((blocking now ref t u ≡ c) × Blockable now t u)
unfolding block blocking
block-ok_iff now ref t u c = (sound, complete)
  where
    sound : block now ref t (some u) ≡ ok c → (blocking now ref t u ≡ c) × Blockable now t u
    sound h =
        let (e, valid, _, _, steps, late) = (validate_apply-ok_iff (blocking now ref t u) c).0 h in
        let (after_task, after_unit) = (late-blocked now ref t u).0 late in
        let (task, unit, utc, other) =
          (records-blocked now ref t u after_task after_unit).0 valid in
        let (of_task, version, status) = (steps-blocked now ref t u).0 steps in
        (e, (task, unit, of_task, version, status, apart other, utc, after_task, after_unit))
      where
        apart : (t.status == blocked) ≡ false → t.status ≢ blocked
        apart h e = absurd (let b = (task_status_eq.beq_iff t.status blocked).1 e in cc)

    complete : (blocking now ref t u ≡ c) × Blockable now t u → block now ref t (some u) ≡ ok c
    complete (e, (task, unit, of_task, version, status, other, utc, after_task, after_unit)) =
        (validate_apply-ok_iff (blocking now ref t u) c).1 (
          e,
          (records-blocked now ref t u after_task after_unit).1 (task, unit, utc, apart),
          same_task-blocked now ref t,
          same_unit-blocked now ref u,
          (steps-blocked now ref t u).1 (of_task, version, status),
          (late-blocked now ref t u).1 (after_task, after_unit),
        )
      where
        apart : (t.status == blocked) ≡ false
        apart = elim (Bool-cases (t.status == blocked)) [
          | inl b ↦ absurd (other ((task_status_eq.beq_iff t.status blocked).0 b))
          | inr b ↦ b
        ]
