-- ===== src/Understanding/Revalidation/Matches.antt =====
-- `_runtime_values_match_exactly_v2` of src/mini_agent/core/request_processing.py tells records apart.
use mini_agent.Understanding.Revalidation.{task_matches, unit_matches, binding_matches}
use mini_agent.Tasks.{TaskRecord, RequestUnitRecord, InputBinding, task_status_eq}
use mini_agent.Clock.{time_eq}
use mini_agent.Prelude.{and-true, nat_eq, list_eq, option_eq, ◌≡◌, ◌==◌, true, arith, eq_of_beq}

pub task_matches-eq : (a b : TaskRecord) → task_matches a b ≡ true → a ≡ b
unfolding task_matches
task_matches-eq a b h = ground (
  arith,
  eq_of_beq a.owner_customer_id b.owner_customer_id,
  task_status_eq.beq_iff a.status b.status,
  eq_of_beq a.created_at b.created_at,
  eq_of_beq a.updated_at b.updated_at,
  eq_of_beq a.last_outcome_ref b.last_outcome_ref,
)

pub binding_matches-eq : (a b : InputBinding) → binding_matches a b ≡ true → a ≡ b
unfolding binding_matches
binding_matches-eq a b h = ground (
  arith,
  eq_of_beq a.normalized_value b.normalized_value,
  eq_of_beq a.source_refs b.source_refs,
  eq_of_beq a.created_at b.created_at,
  eq_of_beq a.updated_at b.updated_at,
  eq_of_beq a.supersedes b.supersedes,
)

pub unit_matches-eq : (a b : RequestUnitRecord) → unit_matches a b ≡ true → a ≡ b
unfolding unit_matches
unit_matches-eq a b h =
    let (r16, p16) = and-true _ (a.updated_at == b.updated_at) h in
    let (r15, p15) = and-true _ (a.created_at == b.created_at) r16 in
    let (r14, p14) = and-true _ (a.state_version == b.state_version) r15 in
    let (r13, p13) = and-true _ (a.status == b.status) r14 in
    let (r12, p12) = and-true _ (a.result_refs == b.result_refs) r13 in
    let (r11, p11) = and-true _ (a.pending_action_ref == b.pending_action_ref) r12 in
    let (r10, p10) = and-true _ (a.evidence_binding_refs == b.evidence_binding_refs) r11 in
    let (r9, p9) = and-true _ (a.observation_refs == b.observation_refs) r10 in
    let (r8, p8) = and-true _ (a.open_questions == b.open_questions) r9 in
    let (r7, p7) = and-true _ (a.input_binding_refs == b.input_binding_refs) r8 in
    let (r6, p6) = and-true _ (a.dependency_refs == b.dependency_refs) r7 in
    let (r5, p5) = and-true _ (a.constraint_refs == b.constraint_refs) r6 in
    let (r4, p4) = and-true _ (a.contextualization_ref == b.contextualization_ref) r5 in
    let (r3, p3) = and-true _ (a.goal_source_refs == b.goal_source_refs) r4 in
    let (r2, p2) = and-true _ (a.goal_text == b.goal_text) r3 in
    let (p0, p1) = and-true _ (a.task_id == b.task_id) r2 in
    cc (
      eq_of_beq a.request_unit_id b.request_unit_id p0,
      eq_of_beq a.task_id b.task_id p1,
      eq_of_beq a.goal_text b.goal_text p2,
      eq_of_beq a.goal_source_refs b.goal_source_refs p3,
      eq_of_beq a.contextualization_ref b.contextualization_ref p4,
      eq_of_beq a.constraint_refs b.constraint_refs p5,
      eq_of_beq a.dependency_refs b.dependency_refs p6,
      eq_of_beq a.input_binding_refs b.input_binding_refs p7,
      eq_of_beq a.open_questions b.open_questions p8,
      eq_of_beq a.observation_refs b.observation_refs p9,
      eq_of_beq a.evidence_binding_refs b.evidence_binding_refs p10,
      eq_of_beq a.pending_action_ref b.pending_action_ref p11,
      eq_of_beq a.result_refs b.result_refs p12,
      eq_of_beq a.status b.status p13,
      eq_of_beq a.state_version b.state_version p14,
      eq_of_beq a.created_at b.created_at p15,
      eq_of_beq a.updated_at b.updated_at p16,
    )
