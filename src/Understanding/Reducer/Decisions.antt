-- ===== src/Understanding/Reducer/Decisions.antt =====
-- The loop of `_validate_and_reduce_initial_request_v2_impl` in src/mini_agent/core/request_processing.py:
-- a relation that says what it decides, and why it never fails.
use mini_agent.Understanding.Span.{durable_closure_commit_failed, FailureCode}
use mini_agent.Understanding.Closure.{by_id}
use mini_agent.Understanding.Graph.Built.{build_graph-ok_iff, Buildable}
use mini_agent.Order.Number.{normalize_text}
use mini_agent.Prelude.Texts.{Text}
use mini_agent.Understanding.Durable.{CandidateValidation, RejectionReason}
use mini_agent.Understanding.Graph.{TaskGraph, IdentityAllocation, rejection_reason, initial_graph}
use mini_agent.Understanding.Reducer.{
  ReducerContext, accepted_graph, first_value, allocation_ref, decided, decide_candidates,
  decide_one, Verdicts,
}
use mini_agent.Understanding.Contracts.{TaskDeltaCandidate}
use mini_agent.Understanding.Output.{RequestUnderstandingOutput}
use mini_agent.Prelude.{
  nat_eq, list_eq, option_eq, List, [], ◌≡◌, ok, ◌↔◌, some, ◌∷◌, none, >>=-eq-ok, or_raise, refl,
  Option-cases, inl, inr, or_raise-ok, arith, Option, Result, ok_injective,
}
use mini_agent.Clock.{time_eq}
use cubical.Cubical.Foundations.Prelude.{subst}

module _ (o : RequestUnderstandingOutput) (x : ReducerContext) where
  -- The graph that goes with an accepted candidate.
  abbrev pub IsGraphOf : TaskDeltaCandidate → TaskGraph → Type 0
  IsGraphOf d g =
      (n : Text) × (a : IdentityAllocation) × (normalize_text (first_value d) ≡ ok n)
      × (by_id allocation_ref x.allocations d.candidate_id ≡ some a)
      × (initial_graph d a x.customer_context o.message_ref n x.now ≡ g)
      × Buildable d a x.customer_context n x.now

  -- Every candidate gets one decision, and every accepted one a graph, in the order of the candidates.
  pub data Decides
      : List TaskDeltaCandidate → List CandidateValidation → List TaskGraph → Type 0 where
    done : Decides [] [] []
    rejects :
        {d : TaskDeltaCandidate} {r : RejectionReason} {ds : List TaskDeltaCandidate}
        {vs : List CandidateValidation} {gs : List TaskGraph}
        → rejection_reason d o ≡ some r
        → Decides ds vs gs
        → Decides (d ∷ ds) (decided d (some r) ∷ vs) gs
    accepts :
        {d : TaskDeltaCandidate} {g : TaskGraph} {ds : List TaskDeltaCandidate}
        {vs : List CandidateValidation} {gs : List TaskGraph}
        → rejection_reason d o ≡ none
        → IsGraphOf d g
        → Decides ds vs gs
        → Decides (d ∷ ds) (decided d none ∷ vs) (g ∷ gs)

  accepted-IsGraphOf :
      (d : TaskDeltaCandidate) (g : TaskGraph) → (accepted_graph o x d ≡ ok g) ↔ IsGraphOf d g
  unfolding accepted_graph
  accepted-IsGraphOf d g = (sound, complete)
    where
      sound : accepted_graph o x d ≡ ok g → IsGraphOf d g
      sound h =
          let (n, e, k) =
            >>=-eq-ok (or_raise (normalize_text (first_value d)) durable_closure_commit_failed) _
              h in
          elim (Option-cases (by_id allocation_ref x.allocations d.candidate_id)) [
            | inl f ↦ absurd (cc)
            | inr (a, f) ↦
                let (eq, b) =
                  (build_graph-ok_iff d a x.customer_context o.message_ref n x.now g).0
                    (ground arith) in
                (n, a, or_raise-ok _ _ n e, f, eq, b)
          ]

      complete : IsGraphOf d g → accepted_graph o x d ≡ ok g
      complete (n, a, e, f, eq, b) =
          rw (e, f) ((build_graph-ok_iff d a x.customer_context o.message_ref n x.now g).1 (eq, b))

  one-Decides :
      (d : TaskDeltaCandidate) (ds : List TaskDeltaCandidate) (r : Option RejectionReason)
      (rest : Result FailureCode Verdicts) (vs : List CandidateValidation) (gs : List TaskGraph)
      → rejection_reason d o ≡ r
      → ((vs : List CandidateValidation) (gs : List TaskGraph)
          → rest ≡ ok (vs, gs)
          → Decides ds vs gs)
      → decide_one o x d r rest ≡ ok (vs, gs)
      → Decides (d ∷ ds) vs gs
  unfolding decide_one
  one-Decides d ds (some r) rest vs gs e ih h =
      let ((ws, hs), k, l) = >>=-eq-ok rest _ h in
      subst (λ p. Decides (d ∷ ds) p.0 p.1) (ok_injective _ _ l) (rejects e (ih ws hs k))
  one-Decides d ds none rest vs gs e ih h =
      let (g, j, h2) = >>=-eq-ok (accepted_graph o x d) _ h in
      let ((ws, hs), k, l) = >>=-eq-ok rest _ h2 in
      subst (λ p. Decides (d ∷ ds) p.0 p.1) (ok_injective _ _ l)
        (accepts e ((accepted-IsGraphOf d g).0 j) (ih ws hs k))

  decide_sound :
      (ds : List TaskDeltaCandidate) (vs : List CandidateValidation) (gs : List TaskGraph)
      → decide_candidates o x ds ≡ ok (vs, gs)
      → Decides ds vs gs
  unfolding decide_candidates
  decide_sound [] vs gs h = subst (λ p. Decides [] p.0 p.1) (ok_injective _ _ h) done
  decide_sound (d ∷ ds) vs gs h =
      one-Decides d ds (rejection_reason d o) (decide_candidates o x ds) vs gs refl
        (decide_sound ds) h

  decide_complete :
      {ds : List TaskDeltaCandidate} {vs : List CandidateValidation} {gs : List TaskGraph}
      → Decides ds vs gs
      → decide_candidates o x ds ≡ ok (vs, gs)
  unfolding decide_candidates decide_one
  decide_complete done = refl
  decide_complete (rejects e rest) = rw (e, decide_complete rest) refl
  decide_complete (accepts {d} {g} e graph rest) =
      rw (e, (accepted-IsGraphOf d g).1 graph, decide_complete rest) refl

-- The loop returns decisions and graphs exactly when the relation holds of them: one decision for each
-- candidate, in order; a rejection with its reason, or an acceptance with the graph that is built from
-- the candidate's own identities and order number.
pub decide_candidates-Decides :
    (o : RequestUnderstandingOutput) (x : ReducerContext) (ds : List TaskDeltaCandidate)
    (vs : List CandidateValidation) (gs : List TaskGraph)
    → (decide_candidates o x ds ≡ ok (vs, gs)) ↔ Decides o x ds vs gs
decide_candidates-Decides o x ds vs gs = (decide_sound o x ds vs gs, decide_complete o x)
