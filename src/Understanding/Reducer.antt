-- ===== src/Understanding/Reducer.antt =====
-- src/mini_agent/core/request_processing.py: `validate_and_reduce_initial_request_v2`, from the model's
-- output to a decision. The seal of a routable decision, an object that only the reducer can make, is
-- left out: a decision of the model is made by the reducer alone.
pub mod Decisions
pub mod Coverage
pub mod Judged
pub mod Closed
pub mod Sound
use mini_agent.Understanding.Decision.{
  InitialDecision, no_task, routable, unrouted, validate_no_task, validate_routable,
  validate_unrouted,
}
use mini_agent.Understanding.Project.{Messages, project_contextualization, project_delta}
use mini_agent.Understanding.Span.{FailureCode, durable_closure_commit_failed}
use mini_agent.Tools.Spec.{ToolSpec}
use mini_agent.Tasks.{CustomerContext, validate_customer}
use mini_agent.Understanding.Graph.{
  TaskGraph, IdentityAllocation, validate_allocation, rejection_reason, graph_identities, generated,
  build_graph,
}
use mini_agent.Prelude.Texts.{Uuid, Text}
use mini_agent.Understanding.Closure.{
  UnderstandingClosure, by_id, canonical_input, ClosureRequest, build_closure, canonical_output,
  check_sources,
}
use mini_agent.Prelude.{
  [], ◌∷◌, nat_eq, list_eq, option_eq, traverse, List, Option, Bool, Result, some, is_none, err,
  ◌==◌, select, ◌++◌, none, distinct, true, ◌&&◌, ◌>>◌, ◌>>=◌, false, ok, raise_if, all, or_raise,
  is_some, not, map, is_empty, leb, is_ok, if◌then◌else◌, any, length, same_set,
}
use mini_agent.Clock.{time_eq, DateTime, is_utc}
use mini_agent.Order.Number.{normalize_text}
use mini_agent.Understanding.Contracts.{
  field, TaskDeltaCandidate, NextMove, ContractError, RequestUnderstandingInput, unlike_candidates,
  unlike_graph, repeated_candidate,
}
use mini_agent.Understanding.Output.{RequestUnderstandingOutput, candidate_id}
use mini_agent.Understanding.Durable.{
  accept, reject, UnderstandingRecord, AcceptedTaskDelta, DurableInput, DurableTaskDelta,
  RejectionReason, CandidateValidation, is_accept, is_accepted,
}

abbrev pub allocation_ref : IdentityAllocation → Uuid
allocation_ref a = a.candidate_ref

abbrev pub concat_generated : List IdentityAllocation → List Uuid
concat_generated [] = []
concat_generated (a ∷ as_) = generated a ++ concat_generated as_

-- The trusted arguments of the reducer.
pub record ReducerContext : Type 0 where
  pub customer_context : CustomerContext
  pub request_understanding_record_id : Uuid
  pub allocations : List IdentityAllocation
  pub next_move_candidate_ref : Uuid
  pub now : DateTime

-- `_canonical_initial_identity_allocations_v2`
unfoldable pub check_allocations : ReducerContext → List Uuid → Result FailureCode (Unit {0})
unfolding validate_allocation
check_allocations x emitted = do
  raise_if (not (is_ok (validate_customer x.customer_context) && is_utc x.now))
      durable_closure_commit_failed
  raise_if (not (all (λ a. is_ok (validate_allocation a)) x.allocations))
      durable_closure_commit_failed
  raise_if
      (not (
        distinct (map allocation_ref x.allocations)
        && same_set (map allocation_ref x.allocations) emitted))
      durable_closure_commit_failed
  raise_if
      (not (
        distinct (
          x.request_understanding_record_id
          ∷ x.next_move_candidate_ref
          ∷ concat_generated x.allocations)))
      durable_closure_commit_failed

-- `input_candidates[0].candidate_value`
unfoldable pub first_value : TaskDeltaCandidate → Text
first_value d = elim d.input_candidates [ [] ↦ [] | c ∷ cs ↦ c.candidate_value ]

-- The graph of a candidate that is not rejected.
unfoldable pub accepted_graph :
    RequestUnderstandingOutput → ReducerContext → TaskDeltaCandidate → Result FailureCode TaskGraph
unfolding by_id first_value build_graph
accepted_graph o x d = do
  order_id ← or_raise (normalize_text (first_value d)) durable_closure_commit_failed
  elim (by_id allocation_ref x.allocations d.candidate_id) [
    | none ↦ err durable_closure_commit_failed
    | some a ↦ build_graph d a x.customer_context o.message_ref order_id x.now
  ]

abbrev pub decided : TaskDeltaCandidate → Option RejectionReason → CandidateValidation
decided d none = record { candidate_ref = d.candidate_id; decision = accept; reason_code = none }
decided d (some r) = record {
  candidate_ref = d.candidate_id;
  decision = reject;
  reason_code = some r;
}

abbrev pub Verdicts : Type 0
Verdicts = List CandidateValidation × List TaskGraph

-- One round of the loop over the candidates, before what the rounds after it give.
unfoldable pub decide_one :
    RequestUnderstandingOutput
    → ReducerContext
    → TaskDeltaCandidate
    → Option RejectionReason
    → Result FailureCode Verdicts
    → Result FailureCode Verdicts
unfolding accepted_graph
decide_one o x d (some r) rest = do (vs, gs) ← rest; ok (decided d (some r) ∷ vs, gs)
decide_one o x d none rest = do
  g ← accepted_graph o x d
  (vs, gs) ← rest
  ok (decided d none ∷ vs, g ∷ gs)

unfoldable pub decide_candidates :
    RequestUnderstandingOutput
    → ReducerContext
    → List TaskDeltaCandidate
    → Result FailureCode Verdicts
unfolding rejection_reason decide_one
decide_candidates o x [] = ok ([], [])
decide_candidates o x (d ∷ ds) = decide_one o x d (rejection_reason d o) (decide_candidates o x ds)

-- `len(task_delta_candidates) == 1 and len(graphs) == 1`
unfoldable pub exact_one : List TaskDeltaCandidate → List TaskGraph → Option TaskGraph
exact_one (d ∷ []) (g ∷ []) = some g
exact_one ds gs = none

module _ (digest : List ToolSpec → Text) (sha256 : Text → Text) (messages : Messages) where
  -- `_preflight_initial_request_projection_v2`
  unfoldable pub preflight :
      RequestUnderstandingInput → RequestUnderstandingOutput → Result FailureCode (Unit {0})
  unfolding canonical_input canonical_output check_sources
  preflight i o = do
    canonical_input digest i
    canonical_output o
    check_sources digest sha256 messages i o
    project_contextualization sha256 messages o.contextualization
    traverse (project_delta sha256 messages) o.task_delta_candidates
    ok tt

  -- The last step: the decision that the closure and the graphs make.
  unfoldable pub conclude :
      UnderstandingClosure
      → RequestUnderstandingOutput
      → ReducerContext
      → List TaskGraph
      → Result FailureCode InitialDecision
  unfolding validate_no_task validate_routable validate_unrouted exact_one
  conclude c o x [] = do or_raise (validate_no_task c) durable_closure_commit_failed; ok (no_task c)
  conclude c o x (g ∷ gs) = elim (exact_one o.task_delta_candidates (g ∷ gs)) [
    | some one ↦ do
      or_raise (validate_routable c one x.next_move_candidate_ref o.next_move_candidate)
          durable_closure_commit_failed
      ok (routable c one x.next_move_candidate_ref o.next_move_candidate)
    | none ↦ do
      or_raise (validate_unrouted c (g ∷ gs)) durable_closure_commit_failed
      ok (unrouted c (g ∷ gs))
  ]

  -- The closure that the reducer asks for: the next move goes with a single accepted candidate.
  unfoldable pub closure_request :
      RequestUnderstandingOutput
      → ReducerContext
      → List CandidateValidation
      → List TaskGraph
      → ClosureRequest
  unfolding exact_one
  closure_request o x vs gs =
      let one = is_some (exact_one o.task_delta_candidates gs) in
      record {
        request_understanding_record_id = x.request_understanding_record_id;
        candidate_validation = vs;
        accepted_task_deltas = map (λ g. g.accepted_delta) gs;
        proposed_base_task_state_version =
            if one then o.next_move_candidate.base_task_state_version else none;
        validated_task_state_version = if one then some 1 else none;
        next_move_candidate_ref = if one then some x.next_move_candidate_ref else none;
        now = x.now;
      }

  unfoldable pub reduce :
      RequestUnderstandingInput
      → RequestUnderstandingOutput
      → ReducerContext
      → Result FailureCode InitialDecision
  unfolding preflight check_allocations decide_candidates closure_request build_closure conclude
  reduce i o x = do
    preflight i o
    check_allocations x (map candidate_id o.task_delta_candidates)
    (vs, gs) ← decide_candidates o x o.task_delta_candidates
    closure ← build_closure digest sha256 messages i o (closure_request o x vs gs)
    conclude closure o x gs
