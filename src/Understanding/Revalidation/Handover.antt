-- ===== src/Understanding/Revalidation/Handover.antt =====
-- What `revalidate_next_move_v2` of src/mini_agent/core/request_processing.py hands over to
-- `evaluate_control_gateway` of src/mini_agent/core/control_gateway.py.
use mini_agent.Json.{Fields, find_trusted_argument_field, obj}
use mini_agent.Understanding.Contracts.{NextMove}
use mini_agent.Understanding.Closure.{UnderstandingClosure}
use mini_agent.Understanding.Decision.{InitialDecision, no_task, unrouted, routable}
use mini_agent.Understanding.Graph.{TaskGraph}
use mini_agent.Gateway.{
  GatewayCall, graph_binding_valid, RevalidatedNextMove, trusted_field_valid, state_version_valid,
}
use mini_agent.Understanding.Revalidation.{
  check_current, CurrentGraph, construct_move, revalidate_call, revalidate_next_move, move_for,
  call_of, trusted_argument_field,
}
use mini_agent.Prelude.{
  nat_eq, list_eq, option_eq, ◌&&◌, beq_refl, refl, ◌≡◌, true, ok, arith, ◌==◌, ◌∷◌, [], Bool,
  Option, is_none, some, >>=-eq-ok, none, raise_if, is_some, contains, eq_of_beq, ap,
}
use cubical.Cubical.Foundations.Prelude.{subst}
use mini_agent.Tasks.{task_status_eq, active}
use mini_agent.Prelude.Texts.{Uuid, Text}

-- The current records of a call of the gate.
abbrev pub now_of : GatewayCall → CurrentGraph
now_of c = record {
  current_task = c.current_task;
  current_request_unit = c.current_request_unit;
  current_input_binding = c.current_input_binding;
}

pub current-Active :
    (expected : TaskGraph) (now : CurrentGraph)
    → check_current expected now ≡ ok tt
    → (now.current_request_unit.task_id == now.current_task.task_id ≡ true)
      × (now.current_task.status == active ≡ true)
      × (now.current_request_unit.status == active ≡ true)
      × (now.current_task.state_version ≡ 1)
      × (now.current_request_unit.state_version ≡ 1)
      × (now.current_request_unit.input_binding_refs == now.current_input_binding.binding_id ∷ []
          ≡ true)
unfolding check_current
current-Active expected now h = ground arith

construct_move-same : (m n : RevalidatedNextMove) → construct_move m ≡ ok n → m ≡ n
unfolding construct_move
construct_move-same m n h = ground arith

-- A move that was revalidated is the call of a routable decision, against records that are current.
abbrev pub HandedOver : InitialDecision → CurrentGraph → RevalidatedNextMove → Type 0
HandedOver d now m =
    (closure : UnderstandingClosure) × (expected : TaskGraph) × (next_ref : Uuid)
    × (move : NextMove) × (name : Text) × (arguments : Fields) × (d
        ≡ routable closure expected next_ref move)
    × (check_current expected now ≡ ok tt)
    × (call_of move ≡ some (name, arguments))
    × (find_trusted_argument_field (obj arguments) ≡ none)
    × (move_for closure next_ref move name arguments now ≡ m)

call-HandedOver :
    (call : Option (Text × Fields)) (closure : UnderstandingClosure) (next_ref : Uuid)
    (move : NextMove) (now : CurrentGraph) (m : RevalidatedNextMove)
    → revalidate_call call closure next_ref move now ≡ ok m
    → (name : Text) × (arguments : Fields) × (call ≡ some (name, arguments))
      × (find_trusted_argument_field (obj arguments) ≡ none)
      × (move_for closure next_ref move name arguments now ≡ m)
unfolding revalidate_call
call-HandedOver none closure next_ref move now m h = cc
call-HandedOver (some (name, arguments)) closure next_ref move now m h =
    let (u, free, k) =
      >>=-eq-ok
        (raise_if (is_some (find_trusted_argument_field (obj arguments))) trusted_argument_field) _
        h in
    (name, arguments, refl, ground arith, construct_move-same _ m k)

pub revalidate-HandedOver :
    (d : InitialDecision) (now : CurrentGraph) (m : RevalidatedNextMove)
    → revalidate_next_move d now ≡ ok m
    → HandedOver d now m
unfolding revalidate_next_move
revalidate-HandedOver (no_task c) now m h = cc
revalidate-HandedOver (unrouted c gs) now m h = cc
revalidate-HandedOver (routable closure expected next_ref move) now m h =
    let (u, current, k) = >>=-eq-ok (check_current expected now) _ h in
    let (name, arguments, call, free, same) =
      call-HandedOver (call_of move) closure next_ref move now m k in
    (closure, expected, next_ref, move, name, arguments, refl, current, call, free, same)

-- What is left of the gate's check of the state.
abbrev pub state_left : GatewayCall → Bool
state_left c =
    c.current_task.owner_customer_id == c.customer_context.customer_id
    && is_none c.revalidated_move.proposed_base_task_state_version
    && is_none c.context_manifest.task_state_ref_and_version
    && c.context_manifest.run_id == c.revalidated_move.run_id
    && c.context_manifest.model_call_id == c.model_call_id

binding-of_handed :
    (c : GatewayCall)
    → c.current_request_unit.input_binding_refs ≡ c.current_input_binding.binding_id ∷ []
    → c.current_input_binding.binding_id ∷ [] ≡ c.revalidated_move.argument_binding_refs
    → c.current_input_binding.normalized_value ≡ c.revalidated_move.binding_normalized_value
    → graph_binding_valid c ≡ true
unfolding graph_binding_valid contains
binding-of_handed c refs argument value =
    rw
      (
        refs,
        ← argument,
        ← value,
        beq_refl c.current_input_binding.binding_id,
        beq_refl (c.current_input_binding.binding_id ∷ []),
        beq_refl c.current_input_binding.normalized_value,
      )
      refl

state-of_handed :
    (c : GatewayCall)
    → (c.current_request_unit.task_id == c.current_task.task_id ≡ true)
    → (c.current_task.status == active ≡ true)
    → (c.current_request_unit.status == active ≡ true)
    → (c.current_task.state_version ≡ 1)
    → (c.current_request_unit.state_version ≡ 1)
    → c.current_task.task_id ≡ c.revalidated_move.task_id
    → c.current_request_unit.request_unit_id ≡ c.revalidated_move.request_unit_id
    → c.current_task.state_version ≡ c.revalidated_move.validated_task_state_version
    → state_version_valid c ≡ state_left c
unfolding state_version_valid
state-of_handed c of_task task_active unit_active task_one unit_one task unit version = ground arith

-- After a successful revalidation against the records that the gate is given, the gate's checks of the
-- binding graph and of trusted fields hold, and its check of the state comes down to the owner, the
-- manifest and a move that states no version.
pub revalidated-passes :
    (d : InitialDecision) (c : GatewayCall)
    → revalidate_next_move d (now_of c) ≡ ok c.revalidated_move
    → (graph_binding_valid c ≡ true)
      × (trusted_field_valid c ≡ true)
      × (state_version_valid c ≡ state_left c)
unfolding trusted_field_valid move_for
revalidated-passes d c h =
    let (closure, expected, next_ref, move, name, arguments, _, current, _, free, same) =
      revalidate-HandedOver d (now_of c) c.revalidated_move h in
    let (of_task, task_active, unit_active, task_one, unit_one, refs) =
      current-Active expected (now_of c) current in
    (
      binding-of_handed c (eq_of_beq _ _ refs) (ap (λ m. m.argument_binding_refs) same)
          (ap (λ m. m.binding_normalized_value) same),
      subst (λ fs. is_none (find_trusted_argument_field (obj fs)) ≡ true)
          (ap (λ m. m.candidate_arguments) same) (rw free refl),
      state-of_handed c of_task task_active unit_active task_one unit_one (ap (λ m. m.task_id) same)
          (ap (λ m. m.request_unit_id) same) (ap (λ m. m.validated_task_state_version) same),
    )
