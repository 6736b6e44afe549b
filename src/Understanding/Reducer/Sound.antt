-- ===== src/Understanding/Reducer/Sound.antt =====
-- What a decision of `validate_and_reduce_initial_request_v2` in src/mini_agent/core/request_processing.py
-- holds.
use mini_agent.Understanding.Reducer.Decisions.{decide_candidates-Decides}
use mini_agent.Understanding.Graph.{TaskGraph}
use mini_agent.Understanding.Durable.{validate_record, CandidateValidation}
use mini_agent.Understanding.Reducer.{
  ReducerContext, conclude, reduce, exact_one, closure_request, preflight, check_allocations,
  decide_candidates,
}
use mini_agent.Understanding.Reducer.Judged.{Judges, no_more, turned_down, taken, judge_rest}
use mini_agent.Understanding.Decision.{InitialDecision, no_task, routable, unrouted}
use mini_agent.Understanding.Closure.{
  validate_closure, canonical_output, build_closure, UnderstandingClosure, canonical_input,
}
use mini_agent.Understanding.Contracts.{RequestUnderstandingInput, TaskDeltaCandidate}
use mini_agent.Understanding.Output.{RequestUnderstandingOutput, candidate_id}
use mini_agent.Understanding.Project.{Messages}
use mini_agent.Prelude.Texts.{Text}
use mini_agent.Tools.Spec.{ToolSpec}
use mini_agent.Prelude.{
  ◌<◌, ◌≤◌, ◌≢◌, ◌⊎◌, inl, inr, nat_eq, list_eq, option_eq, List, ◌≡◌, ok, is_ok, arith, >>=-eq-ok,
  true, ◌∷◌, [], some, none, sym, map, ap, refl, length,
}
use mini_agent.Clock.{time_eq}
use cubical.Cubical.Foundations.Prelude.{subst}
use mini_agent.Understanding.Reducer.Closed.{Closes, build-Closes, canonical_output-same}

module _ (digest : List ToolSpec → Text) (sha256 : Text → Text) (messages : Messages) where
  -- What the last step makes of the graphs.
  abbrev result_of :
      UnderstandingClosure
      → RequestUnderstandingOutput
      → ReducerContext
      → List TaskGraph
      → InitialDecision
  result_of c o x [] = no_task c
  result_of c o x (g ∷ gs) = elim (exact_one o.task_delta_candidates (g ∷ gs)) [
    | some one ↦ routable c one x.next_move_candidate_ref o.next_move_candidate
    | none ↦ unrouted c (g ∷ gs)
  ]

  conclude-result_of :
      (c : UnderstandingClosure) (o : RequestUnderstandingOutput) (x : ReducerContext)
      (gs : List TaskGraph) (r : InitialDecision)
      → conclude digest sha256 messages c o x gs ≡ ok r
      → result_of c o x gs ≡ r
  unfolding conclude
  conclude-result_of c o x [] r h = ground arith
  conclude-result_of c o x (g ∷ gs) r h = ground arith

-- The closure of a decision: it has the identity and time of the call, the decisions and the accepted deltas
-- of the graphs, and is valid.
abbrev pub Keeps :
    ReducerContext → List CandidateValidation → List TaskGraph → UnderstandingClosure → Type 0
Keeps x vs gs c =
    (c.record_.request_understanding_record_id ≡ x.request_understanding_record_id)
    × (c.record_.created_at ≡ x.now)
    × (c.record_.candidate_validation ≡ vs)
    × (c.accepted_task_deltas ≡ map (λ g. g.accepted_delta) gs)
    × (is_ok (validate_record c.record_) ≡ true)
    × (validate_closure c ≡ ok c)

-- The record of a decision that has no next move.
abbrev pub HasNoMove : UnderstandingClosure → Type 0
HasNoMove c =
    (c.record_.next_move_candidate_ref ≡ none)
    × (c.record_.proposed_base_task_state_version ≡ none)
    × (c.record_.validated_task_state_version ≡ none)

-- When each of the three decisions is made, and what it has.
abbrev pub Settles :
    RequestUnderstandingOutput
    → ReducerContext
    → List CandidateValidation
    → List TaskGraph
    → InitialDecision
    → Type 0
Settles o x vs gs (no_task c) = (gs ≡ []) × Keeps x vs gs c × HasNoMove c
Settles o x vs gs (routable c g ref move) =
    (length o.task_delta_candidates ≡ 1)
    × (gs ≡ g ∷ [])
    × (ref ≡ x.next_move_candidate_ref)
    × (move ≡ o.next_move_candidate)
    × Keeps x vs gs c
    × (c.record_.next_move_candidate_ref ≡ some ref)
    × (c.record_.proposed_base_task_state_version ≡ move.base_task_state_version)
    × (c.record_.validated_task_state_version ≡ some 1)
Settles o x vs gs (unrouted c hs) =
    (1 < length o.task_delta_candidates) × (gs ≢ []) × (hs ≡ gs) × Keeps x vs gs c × HasNoMove c

length-Judges :
    {o : RequestUnderstandingOutput} {x : ReducerContext} {ds : List TaskDeltaCandidate}
    {vs : List CandidateValidation} {gs : List TaskGraph}
    → Judges o x ds vs gs
    → length gs ≤ length ds
length-Judges no_more = omega arith
length-Judges (turned_down c r one why rest) = omega (arith, length-Judges rest)
length-Judges (taken c one why graph rest) = omega (arith, length-Judges rest)

exact_one-none : (ds : List TaskDeltaCandidate) → exact_one ds [] ≡ none
unfolding exact_one
exact_one-none [] = refl
exact_one-none (d ∷ []) = refl
exact_one-none (d ∷ e ∷ ds) = refl

exact_one-cases :
    (ds : List TaskDeltaCandidate) (g : TaskGraph) (gs : List TaskGraph)
    → length (g ∷ gs) ≤ length ds
    → ((exact_one ds (g ∷ gs) ≡ some g) × (length ds ≡ 1) × (gs ≡ []))
      ⊎ ((exact_one ds (g ∷ gs) ≡ none) × (1 < length ds))
unfolding exact_one
exact_one-cases [] g gs h = absurd (ground arith)
exact_one-cases (d ∷ []) g [] h = inl (refl, refl, refl)
exact_one-cases (d ∷ []) g (k ∷ gs) h = absurd (ground arith)
exact_one-cases (d ∷ e ∷ ds) g gs h = inr (refl, ground arith)

module _ (digest : List ToolSpec → Text) (sha256 : Text → Text) (messages : Messages)
    (o : RequestUnderstandingOutput) (x : ReducerContext) where
  closed-Keeps :
      (vs : List CandidateValidation) (gs : List TaskGraph) (c : UnderstandingClosure)
      → Closes digest sha256 messages (closure_request digest sha256 messages o x vs gs) c
      → Keeps x vs gs c
  unfolding closure_request
  closed-Keeps vs gs c (id, decisions, deltas, ref, base, version, now, recorded, valid) =
      (id, now, decisions, deltas, recorded, valid)

  closed-HasNoMove :
      (vs : List CandidateValidation) (gs : List TaskGraph) (c : UnderstandingClosure)
      → exact_one o.task_delta_candidates gs ≡ none
      → Closes digest sha256 messages (closure_request digest sha256 messages o x vs gs) c
      → HasNoMove c
  unfolding closure_request
  closed-HasNoMove vs gs c e (id, decisions, deltas, ref, base, version, now, recorded, valid) =
      (rw (ref, e) refl, rw (base, e) refl, rw (version, e) refl)

  result_of-some :
      (c : UnderstandingClosure) (g : TaskGraph) (gs : List TaskGraph)
      → exact_one o.task_delta_candidates (g ∷ gs) ≡ some g
      → result_of digest sha256 messages c o x (g ∷ gs)
        ≡ routable c g x.next_move_candidate_ref o.next_move_candidate
  result_of-some c g gs e = rw (result_of, e) refl

  result_of-none :
      (c : UnderstandingClosure) (g : TaskGraph) (gs : List TaskGraph)
      → exact_one o.task_delta_candidates (g ∷ gs) ≡ none
      → result_of digest sha256 messages c o x (g ∷ gs) ≡ unrouted c (g ∷ gs)
  result_of-none c g gs e = rw (result_of, e) refl

  closed-Settles :
      (vs : List CandidateValidation) (gs : List TaskGraph) (c : UnderstandingClosure)
      → length gs ≤ length o.task_delta_candidates
      → Closes digest sha256 messages (closure_request digest sha256 messages o x vs gs) c
      → Settles o x vs gs (result_of digest sha256 messages c o x gs)
  unfolding closure_request
  closed-Settles vs [] c few h =
      let none_left = exact_one-none o.task_delta_candidates in
      (refl, closed-Keeps vs [] c h, closed-HasNoMove vs [] c none_left h)
  closed-Settles vs (g ∷ gs) c few h =
      let (id, decisions, deltas, ref, base, version, now, recorded, valid) = h in
      let kept = closed-Keeps vs (g ∷ gs) c h in
      elim (exact_one-cases o.task_delta_candidates g gs few) [
        | inl (e, single, alone) ↦ subst (Settles o x vs (g ∷ gs)) (sym (result_of-some c g gs e)) (
          single,
          ap (λ hs. g ∷ hs) alone,
          refl,
          refl,
          kept,
          rw (ref, e) refl,
          rw (base, e) refl,
          rw (version, e) refl,
        )
        | inr (e, several) ↦
            subst (Settles o x vs (g ∷ gs)) (sym (result_of-none c g gs e))
              (several, λ q. cc, refl, kept, closed-HasNoMove vs (g ∷ gs) c e h)
      ]

-- A decision of the reducer has one decision for each candidate, in order, by the table of reasons, and a valid
-- graph with the candidate's own identities for each accepted one. It is one of three: no task, if no
-- candidate is accepted; a graph that is routable, if it is that of a single candidate, with the next move that
-- the model proposed; or graphs without a next move, if there are several candidates and at least one is
-- accepted. Its closure is valid and holds exactly these decisions and accepted deltas, and its record names the
-- next move and the version of the task in the second case only.
pub reduce_sound :
    (digest : List ToolSpec → Text) (sha256 : Text → Text) (messages : Messages)
    (i : RequestUnderstandingInput) (o : RequestUnderstandingOutput) (x : ReducerContext)
    (r : InitialDecision)
    → reduce digest sha256 messages i o x ≡ ok r
    → (vs : List CandidateValidation) × (gs : List TaskGraph) × Judges o x o.task_delta_candidates
        vs gs
      × Settles o x vs gs r
unfolding reduce preflight
reduce_sound digest sha256 messages i o x r h0 =
    let (u, e1, h1) = >>=-eq-ok (preflight digest sha256 messages i o) _ h0 in
    let (w, e2, h2) =
      >>=-eq-ok (check_allocations x (map candidate_id o.task_delta_candidates)) _ h1 in
    let ((vs, gs), e3, h3) = >>=-eq-ok (decide_candidates o x o.task_delta_candidates) _ h2 in
    let (c, e4, h4) =
      >>=-eq-ok
        (build_closure digest sha256 messages i o
          (closure_request digest sha256 messages o x vs gs))
        _ h3 in
    let (_, _, checked) = >>=-eq-ok (canonical_input digest i) _ e1 in
    let (p, output_ok, _) = >>=-eq-ok (canonical_output o) _ checked in
    let (valid, _) = canonical_output-same digest sha256 messages o p output_ok in
    let decides = (decide_candidates-Decides o x o.task_delta_candidates vs gs).0 e3 in
    let judges = judge_rest o x p [] valid refl decides in
    let closes =
      build-Closes digest sha256 messages i o (closure_request digest sha256 messages o x vs gs) c
        e4 in
    (
      vs,
      gs,
      judges,
      subst (Settles o x vs gs) (conclude-result_of digest sha256 messages c o x gs r h4)
          (closed-Settles digest sha256 messages o x vs gs c (length-Judges judges) closes),
    )
