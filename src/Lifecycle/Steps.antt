-- ===== src/Lifecycle/Steps.antt =====
-- The transition of a task and its unit that src/mini_agent/application/agent_run_service.py makes at the end of
-- a run passes `ApplyTaskTransitionCommand` of src/mini_agent/application/records.py.
use mini_agent.Recovery.Applies.{validate_apply-ok_iff}
use mini_agent.Lifecycle.Task.{finished_task, finished_unit, finishing}
use mini_agent.Recovery.{
  same_task, same_unit, transition_records_valid, same_steps, late_steps, validate_apply,
}
use mini_agent.Prelude.Texts.{Uuid}
use mini_agent.Prelude.{
  nat_eq, list_eq, option_eq, ◌==◌, ◌+◌, refl, ◌≡◌, beq_refl, ok, true, false, Option, is_ok, arith,
}
use mini_agent.Clock.{time_eq, DateTime, is_utc, earlier}
use mini_agent.Tasks.{
  task_status_eq, TaskStatus, TaskRecord, RequestUnitRecord, validate_task, validate_request_unit,
  validate_transition,
}

-- A task and its unit that can go on to another status now.
abbrev pub Finishable : DateTime → TaskStatus → TaskRecord → RequestUnitRecord → Type 0
Finishable at target t u =
    (is_ok (validate_task t) ≡ true)
    × (is_ok (validate_request_unit u) ≡ true)
    × (u.task_id ≡ t.task_id)
    × (u.state_version ≡ t.state_version)
    × (u.status ≡ t.status)
    × ((t.status == target) ≡ false)
    × (is_utc at ≡ true)
    × (earlier at t.updated_at ≡ false)
    × (earlier at u.updated_at ≡ false)

module _ (at : DateTime) (target : TaskStatus) (ref : Uuid) (seen : Option Uuid) (t : TaskRecord)
    (u : RequestUnitRecord) where
  pub task-finished :
      is_ok (validate_task t) ≡ true
      → is_utc at ≡ true
      → earlier at t.updated_at ≡ false
      → is_ok (validate_task (finished_task target ref at t)) ≡ true
  unfolding validate_task
  task-finished valid utc after = ground arith

  unit-finished :
      is_ok (validate_request_unit u) ≡ true
      → is_utc at ≡ true
      → earlier at u.updated_at ≡ false
      → is_ok (validate_request_unit (finished_unit target ref seen at u)) ≡ true
  unfolding validate_request_unit
  unit-finished valid utc after = ground arith

  step-finished :
      is_ok (validate_task t) ≡ true
      → is_utc at ≡ true
      → (t.status == target) ≡ false
      → is_ok (validate_transition (finishing target ref seen at t u).task_state_transition) ≡ true
  unfolding validate_transition validate_task
  step-finished valid utc other = ground (arith, beq_refl (t.state_version + 1))

  same_task-finished : same_task t (finished_task target ref at t) ≡ true
  unfolding same_task
  same_task-finished =
      rw (beq_refl t.task_id, beq_refl t.owner_customer_id, beq_refl t.created_at) refl

  same_unit-finished : same_unit u (finished_unit target ref seen at u) ≡ true
  unfolding same_unit
  same_unit-finished =
      rw
        (
          beq_refl u.request_unit_id,
          beq_refl u.task_id,
          beq_refl u.goal_text,
          beq_refl u.goal_source_refs,
          beq_refl u.contextualization_ref,
          beq_refl u.constraint_refs,
          beq_refl u.dependency_refs,
          beq_refl u.input_binding_refs,
          beq_refl u.created_at,
        )
        refl

  records-finished :
      Finishable at target t u → transition_records_valid (finishing target ref seen at t u) ≡ true
  unfolding transition_records_valid
  records-finished (task, unit, _, _, _, other, utc, after_task, after_unit) =
      rw
        (
          task,
          unit,
          task-finished task utc after_task,
          unit-finished unit utc after_unit,
          step-finished task utc other,
        )
        refl

  steps-finished : Finishable at target t u → same_steps (finishing target ref seen at t u) ≡ true
  unfolding same_steps
  steps-finished (_, _, of_task, version, status, _, _, _, _) =
      ground (arith, beq_refl t.status, beq_refl target, task_status_eq.beq_iff u.status t.status)

  late-finished : Finishable at target t u → late_steps (finishing target ref seen at t u) ≡ false
  unfolding late_steps
  late-finished (_, _, _, _, _, _, _, after_task, after_unit) =
      rw (after_task, after_unit, beq_refl at) refl

  pub finishing-ok :
      Finishable at target t u
      → validate_apply (finishing target ref seen at t u) ≡ ok (finishing target ref seen at t u)
  finishing-ok h =
      (validate_apply-ok_iff (finishing target ref seen at t u)
          (finishing target ref seen at t u)).1
        (
          refl,
          records-finished h,
          same_task-finished,
          same_unit-finished,
          steps-finished h,
          late-finished h,
        )
