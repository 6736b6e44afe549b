-- ===== src/Understanding/Reducer/Judged.antt =====
-- What the decisions of `_validate_and_reduce_initial_request_v2_impl` in
-- src/mini_agent/core/request_processing.py say of each candidate, told without the reducer's own steps.
use mini_agent.Understanding.Graph.Reasons.{reason_of, rejection_reason-eq}
use mini_agent.Understanding.Reducer.Decisions.{Decides, IsGraphOf, rejects, accepts, done}
use mini_agent.Order.Number.{normalize_text}
use mini_agent.Understanding.Durable.{CandidateValidation, RejectionReason, reject, accept}
use mini_agent.Understanding.Contracts.{TaskDeltaCandidate, InputCandidate}
use mini_agent.Understanding.Reducer.{ReducerContext, allocation_ref, first_value}
use mini_agent.Prelude.Texts.{Uuid, Text}
use mini_agent.Understanding.Output.{RequestUnderstandingOutput, validate_output}
use mini_agent.Understanding.Closure.{by_id}
use mini_agent.Understanding.Graph.{
  TaskGraph, IdentityAllocation, initial_graph, validate_graph, graph_identities, generated,
}
use mini_agent.Understanding.Reducer.Coverage.{graph-IsValid}
use mini_agent.Prelude.{
  List, ◌≡◌, refl, sym, ap, ◌∙◌, ok, some, none, [], ◌∷◌, ◌++◌, Bool-cases, Option-cases, inl, inr,
  nat_eq, arith, eq_of_beq, ◌==◌,
}
use mathlib.Core.List.{append_assoc}
use cubical.Cubical.Foundations.Prelude.{subst}

-- The identities that the caller handed over for a candidate.
abbrev pub Allots : List IdentityAllocation → Uuid → IdentityAllocation → Type 0
Allots as_ i a =
    (a.candidate_ref ≡ i)
    × (pre : List IdentityAllocation) × (post : List IdentityAllocation) × (as_ ≡ pre ++ a ∷ post)

Allots-by_id :
    (as_ : List IdentityAllocation) (i : Uuid) (a : IdentityAllocation)
    → by_id allocation_ref as_ i ≡ some a
    → Allots as_ i a
unfolding by_id
Allots-by_id [] i a h = absurd (cc)
Allots-by_id (b ∷ as_) i a h = elim (Option-cases (by_id allocation_ref as_ i)) [
  | inl e ↦ elim (Bool-cases (b.candidate_ref == i)) [
    | inl here ↦
        let same : b ≡ a = ground arith in
        subst (λ y. Allots (b ∷ as_) i y) same (eq_of_beq _ _ here, [], as_, refl)
    | inr there ↦ absurd (ground arith)
  ]
  | inr (y, e) ↦
      let (own, pre, post, split) = Allots-by_id as_ i a (ground arith) in
      (own, b ∷ pre, post, ap (λ t. b ∷ t) split)
]

module _ (o : RequestUnderstandingOutput) (x : ReducerContext) where
  -- The graph of an accepted candidate: it is valid, has the order number that its value names, the goal, message
  -- and customer of the request, and the identities that were handed over for the candidate.
  abbrev pub IsBuiltFor : TaskDeltaCandidate → Text → TaskGraph → Type 0
  IsBuiltFor d value g =
      (validate_graph g ≡ ok g)
      × (normalize_text value ≡ ok g.input_binding.normalized_value)
      × (g.accepted_delta.candidate_ref ≡ d.candidate_id)
      × (g.accepted_delta.goal_text ≡ d.goal_patch)
      × (g.accepted_delta.message_ref ≡ o.message_ref)
      × (g.task.owner_customer_id ≡ x.customer_context.customer_id)
      × (g.task.created_at ≡ x.now)
      × (a : IdentityAllocation) × Allots x.allocations d.candidate_id a
      × (graph_identities g ≡ generated a)

  -- One decision for each candidate, in order, by the table of reasons for its one value; and a graph for
  -- each accepted candidate and for no other.
  pub data Judges
      : List TaskDeltaCandidate → List CandidateValidation → List TaskGraph → Type 0 where
    no_more : Judges [] [] []
    turned_down :
        {d : TaskDeltaCandidate} {ds : List TaskDeltaCandidate} {vs : List CandidateValidation}
        {gs : List TaskGraph} (c : InputCandidate) (r : RejectionReason)
        → d.input_candidates ≡ c ∷ []
        → reason_of o.contextualization.uncertainties c.candidate_value ≡ some r
        → Judges ds vs gs
        → Judges
            (d ∷ ds)
            (record { candidate_ref = d.candidate_id; decision = reject; reason_code = some r }
              ∷ vs)
            gs
    taken :
        {d : TaskDeltaCandidate} {g : TaskGraph} {ds : List TaskDeltaCandidate}
        {vs : List CandidateValidation} {gs : List TaskGraph} (c : InputCandidate)
        → d.input_candidates ≡ c ∷ []
        → reason_of o.contextualization.uncertainties c.candidate_value ≡ none
        → IsBuiltFor d c.candidate_value g
        → Judges ds vs gs
        → Judges
            (d ∷ ds)
            (record { candidate_ref = d.candidate_id; decision = accept; reason_code = none } ∷ vs)
            (g ∷ gs)

  built-IsBuiltFor :
      (d : TaskDeltaCandidate) (c : InputCandidate) (g : TaskGraph)
      → d.input_candidates ≡ c ∷ []
      → IsGraphOf o x d g
      → IsBuiltFor d c.candidate_value g
  unfolding initial_graph first_value
  built-IsBuiltFor d c g one graph =
      let (n, a, normal, found, e, b) = graph in
      let value = ap (λ cs. elim cs [ [] ↦ [] | y ∷ ys ↦ y.candidate_value ]) one in
      (
        graph-IsValid o x d g graph,
        ap normalize_text (sym value) ∙ normal ∙ ap (λ h. ok h.input_binding.normalized_value) e,
        sym (ap (λ h. h.accepted_delta.candidate_ref) e),
        sym (ap (λ h. h.accepted_delta.goal_text) e),
        sym (ap (λ h. h.accepted_delta.message_ref) e),
        sym (ap (λ h. h.task.owner_customer_id) e),
        sym (ap (λ h. h.task.created_at) e),
        a,
        Allots-by_id x.allocations d.candidate_id a found,
        sym (ap graph_identities e),
      )

  pub judge_rest :
      (p : RequestUnderstandingOutput) (pre : List TaskDeltaCandidate)
      {ds : List TaskDeltaCandidate} {vs : List CandidateValidation} {gs : List TaskGraph}
      → validate_output o ≡ ok p
      → o.task_delta_candidates ≡ pre ++ ds
      → Decides o x ds vs gs
      → Judges ds vs gs
  judge_rest p pre v e done = no_more
  judge_rest p pre v e (rejects {d} {r} {ds} why rest) =
      let (c, one, table) = rejection_reason-eq o p d v (pre, ds, e) in
      turned_down c r one (sym table ∙ why)
        (judge_rest p (pre ++ d ∷ []) v (e ∙ sym (append_assoc pre (d ∷ []) ds)) rest)
  judge_rest p pre v e (accepts {d} {g} {ds} why graph rest) =
      let (c, one, table) = rejection_reason-eq o p d v (pre, ds, e) in
      taken c one (sym table ∙ why) (built-IsBuiltFor d c g one graph)
        (judge_rest p (pre ++ d ∷ []) v (e ∙ sym (append_assoc pre (d ∷ []) ds)) rest)
