-- ===== src/Understanding/Reducer/Coverage.antt =====
-- What the decisions of `_validate_and_reduce_initial_request_v2_impl` in
-- src/mini_agent/core/request_processing.py cover, and why a checked request always gets them.
use mini_agent.Order.Number.{normalize_text, is_order_id, NumberError}
use mini_agent.Tasks.{validate_customer}
use mini_agent.Understanding.Graph.Reasons.{
  Emits, IsBound, reason_of, rejection_reason-eq, emitted-IsBound,
}
use mini_agent.Understanding.Graph.Built.{build_graph-ok_iff}
use mini_agent.Understanding.Closure.{accepted_refs, by_id}
use mini_agent.Understanding.Reducer.Decisions.{
  Decides, rejects, accepts, done, IsGraphOf, decide_candidates-Decides,
}
use mini_agent.Understanding.Durable.{
  validate_validation, CandidateValidation, validated_ref, validation_ok, input_value_invalid,
}
use mini_agent.Understanding.Reducer.{
  ReducerContext, allocation_ref, check_allocations, first_value, decide_candidates,
}
use mini_agent.Prelude.Texts.{Uuid, non_empty, Text}
use mini_agent.Understanding.Contracts.{TaskDeltaCandidate, validate_delta}
use mini_agent.Understanding.Output.{
  RequestUnderstandingOutput, candidate_id, Uncertainty, validate_output,
}
use mini_agent.Understanding.Graph.{
  TaskGraph, validate_graph, initial_graph, build_graph, IdentityAllocation, validate_allocation,
  generated, rejection_reason,
}
use mini_agent.Prelude.{
  refl, sym, ap, ◌∙◌, nat_eq, list_eq, option_eq, List, map, all, is_ok, ◌≡◌, true, ap, ◌∷◌, refl,
  ok, or_raise-ok, contains, subset, ◌++◌, is_some, some, arith, [], beq_refl, same_set, distinct,
  subset-contains, Option-cases, inl, inr, none, Result, err,
}
use mini_agent.Clock.{time_eq, is_utc}
use mathlib.Core.List.{append_assoc}
use cubical.Cubical.Foundations.Prelude.{subst}

abbrev pub graph_ref : TaskGraph → Uuid
graph_ref g = g.accepted_delta.candidate_ref

graph_ref-IsGraphOf :
    (o : RequestUnderstandingOutput) (x : ReducerContext) (d : TaskDeltaCandidate) (g : TaskGraph)
    → IsGraphOf o x d g
    → graph_ref g ≡ d.candidate_id
unfolding initial_graph
graph_ref-IsGraphOf o x d g (n, a, p, q, e, b) = sym (ap graph_ref e)

pub graph-IsValid :
    (o : RequestUnderstandingOutput) (x : ReducerContext) (d : TaskDeltaCandidate) (g : TaskGraph)
    → IsGraphOf o x d g
    → validate_graph g ≡ ok g
unfolding build_graph
graph-IsValid o x d g (n, a, p, q, e, b) =
    let built = (build_graph-ok_iff d a x.customer_context o.message_ref n x.now g).1 (e, b) in
    subst (λ h. validate_graph h ≡ ok g) e (or_raise-ok _ _ g built)

module _ {o : RequestUnderstandingOutput} {x : ReducerContext} where
  refs-Decides :
      {ds : List TaskDeltaCandidate} {vs : List CandidateValidation} {gs : List TaskGraph}
      → Decides o x ds vs gs
      → (map validated_ref vs ≡ map candidate_id ds) × (map graph_ref gs ≡ accepted_refs vs)
  refs-Decides done = (refl, refl)
  refs-Decides (rejects {d} e rest) =
      let (a, b) = refs-Decides rest in (ap (λ t. d.candidate_id ∷ t) a, b)
  refs-Decides (accepts {d} {g} {gs = hs} e graph rest) =
      let (a, b) = refs-Decides rest in
      (
        ap (λ t. d.candidate_id ∷ t) a,
        ap (λ r. r ∷ map graph_ref hs) (graph_ref-IsGraphOf o x d g graph)
            ∙ ap (λ t. d.candidate_id ∷ t) b,
      )

  validations-Decides :
      {ds : List TaskDeltaCandidate} {vs : List CandidateValidation} {gs : List TaskGraph}
      → Decides o x ds vs gs
      → all validation_ok vs ≡ true
  unfolding validate_validation
  validations-Decides done = refl
  validations-Decides (rejects e rest) = validations-Decides rest
  validations-Decides (accepts e g rest) = validations-Decides rest

  graphs-Decides :
      {ds : List TaskDeltaCandidate} {vs : List CandidateValidation} {gs : List TaskGraph}
      → Decides o x ds vs gs
      → all (λ g. is_ok (validate_graph g)) gs ≡ true
  graphs-Decides done = refl
  graphs-Decides (rejects e rest) = graphs-Decides rest
  graphs-Decides (accepts {d} {g} e graph rest) =
      rw (graph-IsValid o x d g graph) (graphs-Decides rest)

-- Where `x` is well formed for the candidates of the validated output `o`.
module _ (o p : RequestUnderstandingOutput) (x : ReducerContext) where
  found-allocation :
      (as_ : List IdentityAllocation) (i : Uuid)
      → contains i (map allocation_ref as_) ≡ true
      → is_some (by_id allocation_ref as_ i) ≡ true
  unfolding contains by_id
  found-allocation [] i h = h
  found-allocation (a ∷ as_) i h = ground (arith, found-allocation as_ i)

  allocation-IsValid :
      (as_ : List IdentityAllocation) (i : Uuid) (a : IdentityAllocation)
      → all (λ a. is_ok (validate_allocation a)) as_ ≡ true
      → by_id allocation_ref as_ i ≡ some a
      → is_ok (validate_allocation a) ≡ true
  unfolding by_id
  allocation-IsValid [] i a v h = cc
  allocation-IsValid (b ∷ as_) i a v h = ground (arith, allocation-IsValid as_ i a)

  emitted-contains :
      (pre : List TaskDeltaCandidate) (d : TaskDeltaCandidate) (post : List TaskDeltaCandidate)
      → contains d.candidate_id (map candidate_id (pre ++ d ∷ post)) ≡ true
  unfolding contains
  emitted-contains [] d post = ground (arith, beq_refl d.candidate_id)
  emitted-contains (e ∷ pre) d post = ground (arith, emitted-contains pre d post)

  abbrev IsReady : Type 0
  IsReady = check_allocations x (map candidate_id o.task_delta_candidates) ≡ ok tt

  customer-IsNamed :
      IsReady → (non_empty x.customer_context.customer_id ≡ true) × (is_utc x.now ≡ true)
  unfolding check_allocations validate_customer
  customer-IsNamed h = ground arith

  allocations-Cover :
      IsReady
      → (all (λ a. is_ok (validate_allocation a)) x.allocations ≡ true)
        × (subset (map candidate_id o.task_delta_candidates) (map allocation_ref x.allocations)
            ≡ true)
  unfolding check_allocations same_set
  allocations-Cover h = ground arith

  allocated :
      (d : TaskDeltaCandidate)
      → IsReady
      → Emits o d
      → (a : IdentityAllocation) × (by_id allocation_ref x.allocations d.candidate_id ≡ some a)
        × (distinct (generated a) ≡ true)
  unfolding validate_allocation
  allocated d h (pre, post, e) =
      let (valid, cover) = allocations-Cover h in
      let here =
        subst (λ ds. contains d.candidate_id (map candidate_id ds) ≡ true) (sym e)
          (emitted-contains pre d post) in
      let found =
        found-allocation x.allocations d.candidate_id
          (subset-contains d.candidate_id _ _ cover here) in
      elim (Option-cases (by_id allocation_ref x.allocations d.candidate_id)) [
        | inl f ↦ absurd (cc)
        | inr (a, f) ↦
            let v = allocation-IsValid x.allocations d.candidate_id a valid f in
            (a, f, ground arith)
      ]

  normal-IsNumber : (s : Text) (n : Text) → normalize_text s ≡ ok n → is_order_id n ≡ true
  unfolding normalize_text
  normal-IsNumber s n h = ground arith

  value-IsNormal :
      (us : List Uncertainty) (s : Text)
      → reason_of us s ≡ none
      → (n : Text) × (normalize_text s ≡ ok n)
  value-IsNormal [] s h = normal (normalize_text s) h
    where
      normal :
          (r : Result NumberError Text)
          → elim r [ ok n ↦ none | err e ↦ some input_value_invalid ] ≡ none
          → (n : Text) × (r ≡ ok n)
      normal (ok n) h = (n, refl)
      normal (err e) h = cc
  value-IsNormal (u ∷ us) s h = cc

  goal-IsFilled : (m : Uuid) (d : TaskDeltaCandidate) → IsBound m d → non_empty d.goal_patch ≡ true
  unfolding validate_delta
  goal-IsFilled m d (h, k) = ground arith

  graph-of_emitted :
      (d : TaskDeltaCandidate)
      → validate_output o ≡ ok p
      → IsReady
      → Emits o d
      → rejection_reason d o ≡ none
      → (g : TaskGraph) × IsGraphOf o x d g
  unfolding first_value
  graph-of_emitted d v h e r =
      let (c, one, table) = rejection_reason-eq o p d v e in
      let (n, normal) =
        value-IsNormal o.contextualization.uncertainties c.candidate_value (sym table ∙ r) in
      let (a, found, separate) = allocated d h e in
      let (named, utc) = customer-IsNamed h in
      let goal = goal-IsFilled o.message_ref d (emitted-IsBound o p d v e) in
      (
        _,
        (
          n,
          a,
          rw one normal,
          found,
          refl,
          (normal-IsNumber c.candidate_value n normal, separate, goal, named, utc),
        ),
      )

  decide-rest :
      (pre ds : List TaskDeltaCandidate)
      → validate_output o ≡ ok p
      → IsReady
      → o.task_delta_candidates ≡ pre ++ ds
      → (vs : List CandidateValidation) × (gs : List TaskGraph) × Decides o x ds vs gs
  decide-rest pre [] v h e = ([], [], done)
  decide-rest pre (d ∷ ds) v h e =
      let (vs, gs, rest) =
        decide-rest (pre ++ d ∷ []) ds v h (e ∙ sym (append_assoc pre (d ∷ []) ds)) in
      elim (Option-cases (rejection_reason d o)) [
        | inl r ↦
            let (g, graph) = graph-of_emitted d v h (pre, ds, e) r in (_, _, accepts r graph rest)
        | inr (reason, r) ↦ (_, _, rejects r rest)
      ]

-- For a validated output and checked allocations, the loop over the candidates never fails: it decides
-- every candidate, in order, with a valid decision, and gives a valid graph for each accepted one and
-- for no other.
pub decide_candidates-total :
    (o p : RequestUnderstandingOutput) (x : ReducerContext)
    → validate_output o ≡ ok p
    → check_allocations x (map candidate_id o.task_delta_candidates) ≡ ok tt
    → (vs : List CandidateValidation) × (gs : List TaskGraph) × (decide_candidates o x
          o.task_delta_candidates
        ≡ ok (vs, gs))
      × (map validated_ref vs ≡ map candidate_id o.task_delta_candidates)
      × (map graph_ref gs ≡ accepted_refs vs)
      × (all validation_ok vs ≡ true)
      × (all (λ g. is_ok (validate_graph g)) gs ≡ true)
decide_candidates-total o p x v h =
    let (vs, gs, r) = decide-rest o p x [] o.task_delta_candidates v h refl in
    let (covered, accepted) = refs-Decides r in
    (
      vs,
      gs,
      (decide_candidates-Decides o x o.task_delta_candidates vs gs).1 r,
      covered,
      accepted,
      validations-Decides r,
      graphs-Decides r,
    )
