-- ===== src/Understanding/Graph/Built.antt =====
-- `_build_initial_task_graph_v2` of src/mini_agent/core/request_processing.py: when the graph that it
-- builds passes the validators.
use mini_agent.Understanding.Durable.{validate_accepted}
use mini_agent.Prelude.{
  nat_eq, list_eq, option_eq, ◌≡◌, true, distinct, arith, beq_refl, ◌∷◌, ◌↔◌, [], refl, ok,
}
use mini_agent.Order.Number.{is_order_id}
use mini_agent.Clock.{time_eq, DateTime, is_utc}
use mini_agent.Prelude.Texts.{Text, Uuid, non_empty}
use mini_agent.Tasks.{CustomerContext, validate_binding, validate_task, validate_request_unit}
use mini_agent.Understanding.Graph.{
  IdentityAllocation, TaskGraph, graph_records_valid, delta_initial, initial_graph, generated,
  binding_initial, task_initial, unit_initial, one_time, graph_identities, validate_graph,
  build_graph,
}
use mini_agent.Understanding.Contracts.{TaskDeltaCandidate}

-- What the graph of an accepted candidate needs.
abbrev pub Buildable :
    TaskDeltaCandidate → IdentityAllocation → CustomerContext → Text → DateTime → Type 0
Buildable d a customer order_id now =
    (is_order_id order_id ≡ true)
    × (distinct (generated a) ≡ true)
    × (non_empty d.goal_patch ≡ true)
    × (non_empty customer.customer_id ≡ true)
    × (is_utc now ≡ true)

module _ (d : TaskDeltaCandidate) (a : IdentityAllocation) (customer : CustomerContext) (m : Uuid)
    (n : Text) (now : DateTime) where
  abbrev g : TaskGraph
  g = initial_graph d a customer m n now

  records_valid_iff : (graph_records_valid g ≡ true) ↔ (
      (is_order_id n ≡ true)
      × (non_empty d.goal_patch ≡ true)
      × (non_empty customer.customer_id ≡ true)
      × (is_utc now ≡ true))
  unfolding graph_records_valid initial_graph validate_accepted validate_binding validate_task
      validate_request_unit
  records_valid_iff = ground arith

  initial-delta : delta_initial g ≡ true
  unfolding delta_initial initial_graph
  initial-delta = ground (arith, beq_refl a.task_id, beq_refl (a.binding_id ∷ []))

  initial-binding : binding_initial g ≡ true
  unfolding binding_initial initial_graph
  initial-binding = ground (arith, beq_refl (m ∷ []))

  initial-task : task_initial g.task ≡ true
  unfolding task_initial initial_graph
  initial-task = refl

  initial-unit : unit_initial g ≡ true
  unfolding unit_initial initial_graph
  initial-unit = ground (
    arith,
    beq_refl a.task_id,
    beq_refl d.goal_patch,
    beq_refl (m ∷ []),
    beq_refl (a.binding_id ∷ []),
  )

  initial-time : one_time g ≡ true
  unfolding one_time initial_graph
  initial-time = ground (arith, beq_refl now)

  initial-identities : distinct (graph_identities g) ≡ distinct (generated a)
  unfolding initial_graph
  initial-identities = refl

  validate_iff :
      (h : TaskGraph)
      → (validate_graph g ≡ ok h)
        ↔ ((g ≡ h) × (graph_records_valid g ≡ true) × (distinct (generated a) ≡ true))
  unfolding validate_graph
  validate_iff h =
      rw
        (
          initial-identities, initial-delta, initial-binding, initial-task, initial-unit,
          initial-time,
        )
        (ground arith)

-- The graph of an accepted candidate is built exactly when the order number is one, the goal and the
-- customer's id are not empty, the time is in UTC and the four identities are distinct; it is then the
-- graph of one active task at version 1 with one bound input.
pub build_graph-ok_iff :
    (d : TaskDeltaCandidate) (a : IdentityAllocation) (customer : CustomerContext) (m : Uuid)
    (n : Text) (now : DateTime) (g : TaskGraph)
    → (build_graph d a customer m n now ≡ ok g)
      ↔ ((initial_graph d a customer m n now ≡ g) × Buildable d a customer n now)
unfolding build_graph
build_graph-ok_iff d a customer m n now g =
    ground (arith, validate_iff d a customer m n now g, records_valid_iff d a customer m n now)
