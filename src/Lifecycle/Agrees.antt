-- ===== src/Lifecycle/Agrees.antt =====
-- The graph that `CreateInitialTaskGraphV2Command` of src/mini_agent/application/records.py takes is one that
-- src/mini_agent/core/request_processing.py may make.
use cubical.Cubical.Foundations.Prelude.{subst}
use mini_agent.Understanding.Graph.{
  delta_initial, task_initial, unit_initial, binding_initial, one_time, TaskGraph, graph_identities,
  validate_graph, graph_records_valid,
}
use mini_agent.Understanding.Durable.{
  DurableTaskDelta, UnderstandingRecord, validate_record, DurableInput, AcceptedTaskDelta,
  CandidateValidation, validate_accepted, bound_to,
}
use mini_agent.Lifecycle.Initial.{
  InitialError, validate_accepted_command, validate_roots, one_candidate, validate_create_task,
  keeps_candidate, validate_create_unit, validate_save_binding,
}
use mini_agent.Prelude.Texts.{Uuid, Text}
use mini_agent.Lifecycle.InitialGraph.{
  validate_initial_graph, CreateInitialGraph, initial_fields_valid, projects_value, clean_task,
  clean_unit, binds_child, initial_identities, one_trusted_time, known,
}
use mini_agent.Prelude.{
  nat_eq, list_eq, option_eq, ◌&&◌, [], ◌∷◌, ◌==◌, ◌++◌, refl, ◌∙◌, ◌≡◌, ok, true, >>=-eq-ok, List,
  Bool, arith, raise_if, not, false, is_none, is_ok, all, and-true, eq_of_beq, ap, beq_refl,
}
use mini_agent.Clock.{time_eq, DateTime}
use mini_agent.Tasks.{
  task_status_eq, InputBinding, validate_binding, validate_task, validate_request_unit, TaskRecord,
}
use mini_agent.Prelude.{distinct}

distinct-append : (xs ys : List Uuid) → distinct (xs ++ ys) ≡ true → distinct ys ≡ true
unfolding distinct
distinct-append [] ys h = h
distinct-append (x ∷ xs) ys h = distinct-append xs ys (ground arith)

passed : (b : Bool) (e : InitialError) {u : Unit {0}} → raise_if (not b) e ≡ ok u → b ≡ true
passed true e h = refl
passed false e h = cc

stages :
    (c d : CreateInitialGraph)
    → validate_initial_graph c ≡ ok d
    → (candidate : DurableTaskDelta) × (initial_fields_valid c ≡ true)
      × (validate_accepted_command c.understanding_record c.graph.accepted_delta ≡ ok candidate)
      × (projects_value candidate.input_candidates c.graph.input_binding ≡ ok tt)
      × (clean_task c.owner_scope c.graph.task ≡ ok tt)
      × (clean_unit c.understanding_record c.graph ≡ true)
      × ((c.binding_request_unit_id == c.graph.request_unit.request_unit_id
            && is_none c.graph.input_binding.supersedes)
          ≡ true)
      × (binds_child c.graph ≡ true)
      × (distinct (initial_identities c.understanding_record c.graph) ≡ true)
      × (one_trusted_time c.understanding_record c.graph c.conversation_task_link.linked_at ≡ true)
unfolding validate_initial_graph
stages c d h =
    let (_, fields, h1) =
      >>=-eq-ok (raise_if (not (initial_fields_valid c)) InitialError.field) _ h in
    let (candidate, accepted, h2) =
      >>=-eq-ok (validate_accepted_command c.understanding_record c.graph.accepted_delta) _ h1 in
    let (_, _, h3) =
      >>=-eq-ok
        (validate_roots c.owner_scope c.expected_conversation_record c.expected_message_records
          c.expected_active_run_record c.understanding_record)
        _ h2 in
    let (_, value, h4) =
      >>=-eq-ok (projects_value candidate.input_candidates c.graph.input_binding) _ h3 in
    let (_, task, h5) = >>=-eq-ok (clean_task c.owner_scope c.graph.task) _ h4 in
    let (_, unit, h6) =
      >>=-eq-ok (raise_if (not (clean_unit c.understanding_record c.graph)) InitialError.other_unit)
        _ h5 in
    let (_, binding, h7) =
      >>=-eq-ok
        (raise_if
          (not (
            c.binding_request_unit_id == c.graph.request_unit.request_unit_id
            && is_none c.graph.input_binding.supersedes))
          InitialError.other_binding)
        _ h6 in
    let (_, child, h8) =
      >>=-eq-ok (raise_if (not (binds_child c.graph)) InitialError.other_child) _ h7 in
    let (_, ids, h9) =
      >>=-eq-ok
        (raise_if (not (distinct (initial_identities c.understanding_record c.graph)))
          InitialError.repeated_identity)
        _ h8 in
    let (_, _, h10) =
      >>=-eq-ok
        (raise_if
          (not (
            c.conversation_task_link.conversation_id
              == c.expected_conversation_record.conversation_id
            && c.conversation_task_link.task_id == c.graph.task.task_id
            && is_none c.conversation_task_link.ended_at))
          InitialError.other_link)
        _ h9 in
    let (_, _, h11) =
      >>=-eq-ok
        (raise_if
          (not (
            c.run_task_link.run_id == c.expected_active_run_record.run_id
            && c.run_task_link.task_id == c.graph.task.task_id
            && is_none c.run_task_link.base_task_state_version
            && is_none c.run_task_link.result_task_state_version))
          InitialError.other_link)
        _ h10 in
    let (_, time, _) =
      >>=-eq-ok
        (raise_if
          (not (one_trusted_time c.understanding_record c.graph c.conversation_task_link.linked_at))
          InitialError.other_time)
        _ h11 in
    (
      candidate,
      passed (initial_fields_valid c) _ fields,
      accepted,
      value,
      task,
      passed (clean_unit c.understanding_record c.graph) _ unit,
      (passed
          (c.binding_request_unit_id == c.graph.request_unit.request_unit_id
            && is_none c.graph.input_binding.supersedes)
          _ binding),
      passed (binds_child c.graph) _ child,
      passed (distinct (initial_identities c.understanding_record c.graph)) _ ids,
      passed (one_trusted_time c.understanding_record c.graph c.conversation_task_link.linked_at) _
          time,
    )

one_candidate-facts :
    (r : UnderstandingRecord) (child : AcceptedTaskDelta) (ds : List DurableTaskDelta)
    (vs : List CandidateValidation) (d : DurableTaskDelta)
    → one_candidate r child ds vs ≡ ok d
    → (ds ≡ d ∷ [])
      × ((child.message_ref == r.message_ref) ≡ true)
      × ((r.created_at == child.accepted_at) ≡ true)
      × ((child.result_task_state_version == 1) ≡ true)
unfolding one_candidate keeps_candidate
one_candidate-facts r child [] vs d h = absurd (ground arith)
one_candidate-facts r child (e ∷ f ∷ ds) vs d h = absurd (ground arith)
one_candidate-facts r child (e ∷ []) [] d h = absurd (ground arith)
one_candidate-facts r child (e ∷ []) (v ∷ w ∷ vs) d h = absurd (ground arith)
one_candidate-facts r child (e ∷ []) (v ∷ []) d h =
    (ground arith, ground arith, ground arith, ground arith)

accepted_command-facts :
    (r : UnderstandingRecord) (child : AcceptedTaskDelta) (d : DurableTaskDelta)
    → validate_accepted_command r child ≡ ok d
    → (is_ok (validate_record r) ≡ true)
      × (is_ok (validate_accepted child) ≡ true)
      × (one_candidate r child r.task_delta_candidates r.candidate_validation ≡ ok d)
unfolding validate_accepted_command
accepted_command-facts r child d h = (ground arith, ground arith, ground arith)

record-bound :
    (r : UnderstandingRecord)
    → is_ok (validate_record r) ≡ true
    → all (bound_to r.message_ref) r.task_delta_candidates ≡ true
unfolding validate_record
record-bound r h = ground arith

value-source :
    (inputs : List DurableInput) (b : InputBinding) (m : Uuid)
    → projects_value inputs b ≡ ok tt
    → all (λ c. c.source_ref == m) inputs ≡ true
    → b.source_refs ≡ m ∷ []
unfolding projects_value
value-source [] b m h all_bound = absurd (ground arith)
value-source (i ∷ inputs) b m h all_bound =
    let (same, _) = and-true (i.source_ref == m) (all (λ c. c.source_ref == m) inputs) all_bound in
    eq_of_beq b.source_refs (i.source_ref ∷ []) (source_beq i inputs b h)
    ∙ ap (λ k. k ∷ []) (eq_of_beq i.source_ref m same)
  where
    source_beq :
        (i : DurableInput) (inputs : List DurableInput) (b : InputBinding)
        → projects_value (i ∷ inputs) b ≡ ok tt
        → (b.source_refs == i.source_ref ∷ []) ≡ true
    source_beq i inputs b h = ground arith

command-records :
    (c : CreateInitialGraph)
    → initial_fields_valid c ≡ true
    → (is_ok (validate_binding c.graph.input_binding) ≡ true)
      × (is_ok (validate_task c.graph.task) ≡ true)
      × (is_ok (validate_request_unit c.graph.request_unit) ≡ true)
unfolding initial_fields_valid validate_create_task validate_create_unit validate_save_binding
command-records c h = (ground arith, ground arith, ground arith)

child-initial :
    (g : TaskGraph)
    → binds_child g ≡ true
    → (g.accepted_delta.result_task_state_version == 1) ≡ true
    → delta_initial g ≡ true
unfolding binds_child delta_initial
child-initial g h one = ground arith

task-initial : (scope : Text) (t : TaskRecord) → clean_task scope t ≡ ok tt → task_initial t ≡ true
unfolding clean_task task_initial
task-initial scope t h = ground arith

unit-initial :
    (r : UnderstandingRecord) (g : TaskGraph)
    → clean_unit r g ≡ true
    → g.accepted_delta.message_ref ≡ r.message_ref
    → unit_initial g ≡ true
unfolding clean_unit unit_initial
unit-initial r g h e = rw e h

binding-initial :
    (r : UnderstandingRecord) (g : TaskGraph)
    → g.input_binding.source_refs ≡ r.message_ref ∷ []
    → g.accepted_delta.message_ref ≡ r.message_ref
    → is_none g.input_binding.supersedes ≡ true
    → binding_initial g ≡ true
unfolding binding_initial
binding-initial r g sources e fresh = rw (sources, e, beq_refl (r.message_ref ∷ []), fresh) refl

reordered :
    (x a b c d e f l : Bool)
    → (x && (a && (b && (c && (d && (e && (f && (l && true)))))))) ≡ true
    → (e && (f && (a && (b && (c && (d && true)))))) ≡ true
reordered x a b c d e f l h = ground arith

graph-one_time :
    (r : UnderstandingRecord) (g : TaskGraph) (at : DateTime)
    → one_trusted_time r g at ≡ true
    → r.created_at ≡ g.accepted_delta.accepted_at
    → one_time g ≡ true
unfolding one_trusted_time one_time
graph-one_time r g at h e =
    let now = g.accepted_delta.accepted_at in
    reordered (now == now) (g.task.created_at == now) (g.task.updated_at == now)
      (g.request_unit.created_at == now) (g.request_unit.updated_at == now)
      (g.input_binding.created_at == now) (g.input_binding.updated_at == now) (at == now)
      (subst
        (λ t.
          all (λ u. u == t)
            (now ∷ g.task.created_at ∷ g.task.updated_at ∷ g.request_unit.created_at
              ∷ g.request_unit.updated_at ∷ g.input_binding.created_at ∷ g.input_binding.updated_at
              ∷ at ∷ [])
          ≡ true)
        e h)

identities-distinct :
    (r : UnderstandingRecord) (g : TaskGraph)
    → distinct (initial_identities r g) ≡ true
    → distinct (graph_identities g) ≡ true
unfolding initial_identities
identities-distinct r g h =
    distinct-append (r.request_understanding_record_id ∷ known r.next_move_candidate_ref)
      (graph_identities g) h

-- If the command that writes the first graph of a task passes its validation, so does its graph by the
-- validator with which the reducer makes graphs.
pub validate_initial_graph-agrees :
    (c d : CreateInitialGraph)
    → validate_initial_graph c ≡ ok d
    → validate_graph c.graph ≡ ok c.graph
unfolding validate_graph graph_records_valid
validate_initial_graph-agrees c d h =
    let r = c.understanding_record in
    let g = c.graph in
    let (e, fields, accepted, value, task, unit, binding, child, ids, time) = stages c d h in
    let (record_ok, child_ok, one) = accepted_command-facts r g.accepted_delta e accepted in
    let (sole, message, created, result) =
      one_candidate-facts r g.accepted_delta r.task_delta_candidates r.candidate_validation e one in
    let (binding_ok, task_ok, unit_ok) = command-records c fields in
    let same_message = eq_of_beq g.accepted_delta.message_ref r.message_ref message in
    let same_time = eq_of_beq r.created_at g.accepted_delta.accepted_at created in
    let (bound, _) =
      and-true (bound_to r.message_ref e) true
        (subst (λ ds. all (bound_to r.message_ref) ds ≡ true) sole (record-bound r record_ok)) in
    let sources = value-source e.input_candidates g.input_binding r.message_ref value bound in
    let (_, fresh) =
      and-true (c.binding_request_unit_id == g.request_unit.request_unit_id)
        (is_none g.input_binding.supersedes) binding in
    rw
      (
        child_ok,
        binding_ok,
        task_ok,
        unit_ok,
        identities-distinct r g ids,
        child-initial g child result,
        binding-initial r g sources same_message fresh,
        task-initial c.owner_scope g.task task,
        unit-initial r g unit same_message,
        graph-one_time r g c.conversation_task_link.linked_at time same_time,
      )
      refl
