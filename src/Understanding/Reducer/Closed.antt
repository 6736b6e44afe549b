-- ===== src/Understanding/Reducer/Closed.antt =====
-- What the closure holds that `build_request_understanding_closure_v2` in
-- src/mini_agent/core/request_processing.py builds.
use mini_agent.Understanding.Span.{trusted_or_private_field_present, durable_closure_commit_failed}
use mini_agent.Understanding.Durable.{validate_record}
use mini_agent.Understanding.Closure.{
  validate_closure, canonical_output, ClosureRequest, build_closure, UnderstandingClosure, assemble,
  construct, canonical_input, check_request, durable_closure,
}
use mini_agent.Understanding.Contracts.{RequestUnderstandingInput, trusted_argument}
use mini_agent.Understanding.Output.{validate_output, RequestUnderstandingOutput}
use mini_agent.Understanding.Project.{Messages, project_contextualization, project_delta}
use mini_agent.Prelude.Texts.{Text}
use mini_agent.Tools.Spec.{ToolSpec}
use mini_agent.Prelude.{
  nat_eq, list_eq, option_eq, List, ◌≡◌, ok, is_ok, arith, >>=-eq-ok, raise_if, true, or_raise-ok,
  or_raise, traverse, sym, ap, refl,
}
use mini_agent.Clock.{time_eq}
use cubical.Cubical.Foundations.Prelude.{subst}

module _ (digest : List ToolSpec → Text) (sha256 : Text → Text) (messages : Messages) where
  validate_output-same : (o p : RequestUnderstandingOutput) → validate_output o ≡ ok p → o ≡ p
  unfolding validate_output
  validate_output-same o p h = ground arith

  validate_closure-same : (c d : UnderstandingClosure) → validate_closure c ≡ ok d → c ≡ d
  unfolding validate_closure
  validate_closure-same c d h = ground arith

  pub canonical_output-same :
      (o p : RequestUnderstandingOutput)
      → canonical_output o ≡ ok p
      → (validate_output o ≡ ok p) × (o ≡ p)
  unfolding canonical_output
  canonical_output-same o p h =
      let (u, a, k) =
        >>=-eq-ok
          (raise_if (trusted_argument o.next_move_candidate.arguments)
            trusted_or_private_field_present)
          _ h in
      let v = or_raise-ok _ _ p k in (v, validate_output-same o p v)

  -- The closure holds what was asked for, and has passed the validators.
  abbrev pub Closes : ClosureRequest → UnderstandingClosure → Type 0
  Closes q c =
      (c.record_.request_understanding_record_id ≡ q.request_understanding_record_id)
      × (c.record_.candidate_validation ≡ q.candidate_validation)
      × (c.accepted_task_deltas ≡ q.accepted_task_deltas)
      × (c.record_.next_move_candidate_ref ≡ q.next_move_candidate_ref)
      × (c.record_.proposed_base_task_state_version ≡ q.proposed_base_task_state_version)
      × (c.record_.validated_task_state_version ≡ q.validated_task_state_version)
      × (c.record_.created_at ≡ q.now)
      × (is_ok (validate_record c.record_) ≡ true)
      × (validate_closure c ≡ ok c)

  construct-IsValid :
      (c d : UnderstandingClosure)
      → construct digest sha256 messages c ≡ ok d
      → (c ≡ d) × (is_ok (validate_record d.record_) ≡ true) × (validate_closure d ≡ ok d)
  unfolding construct
  construct-IsValid c d h =
      let (r, e, k) =
        >>=-eq-ok (or_raise (validate_record c.record_) durable_closure_commit_failed) _ h in
      let valid = or_raise-ok _ _ d k in
      let same = validate_closure-same c d valid in
      let recorded = or_raise-ok _ _ r e in
      (
        same,
        subst (λ b. is_ok (validate_record b.record_) ≡ true) same (rw recorded refl),
        subst (λ b. validate_closure b ≡ ok d) same valid,
      )

  pub build-Closes :
      (i : RequestUnderstandingInput) (o : RequestUnderstandingOutput) (q : ClosureRequest)
      (c : UnderstandingClosure)
      → build_closure digest sha256 messages i o q ≡ ok c
      → Closes q c
  unfolding build_closure assemble
  build-Closes request_input output q c h0 =
      let (i, e1, h1) = >>=-eq-ok (canonical_input digest request_input) _ h0 in
      let (o, e2, h2) = >>=-eq-ok (canonical_output output) _ h1 in
      let (u, e3, h3) = >>=-eq-ok (check_request digest sha256 messages i o q) _ h2 in
      let (contextualization, e4, h4) =
        >>=-eq-ok (project_contextualization sha256 messages o.contextualization) _ h3 in
      let (candidates, e5, h5) =
        >>=-eq-ok (traverse (project_delta sha256 messages) o.task_delta_candidates) _ h4 in
      let (w, e6, h6) =
        >>=-eq-ok (durable_closure o q.candidate_validation q.accepted_task_deltas q.now) _ h5 in
      let (same, recorded, closed) =
        construct-IsValid (assemble digest sha256 messages i o contextualization candidates q) c
          h6 in
      (
        sym (ap (λ b. b.record_.request_understanding_record_id) same),
        sym (ap (λ b. b.record_.candidate_validation) same),
        sym (ap (λ b. b.accepted_task_deltas) same),
        sym (ap (λ b. b.record_.next_move_candidate_ref) same),
        sym (ap (λ b. b.record_.proposed_base_task_state_version) same),
        sym (ap (λ b. b.record_.validated_task_state_version) same),
        sym (ap (λ b. b.record_.created_at) same),
        recorded,
        closed,
      )
