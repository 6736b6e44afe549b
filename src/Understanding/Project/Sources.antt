-- ===== src/Understanding/Project/Sources.antt =====
-- Where the durable candidates of src/mini_agent/core/request_processing.py come from.
use mini_agent.Understanding.Span.{exact_source_span, model_output_schema_invalid}
use mini_agent.Understanding.Durable.{
  validate_durable_input, DurableInput, DurableTaskDelta, validate_durable_delta,
}
use mini_agent.Understanding.Contracts.{InputCandidate, TaskDeltaCandidate, is_user_claim}
use mini_agent.Understanding.Project.{project_delta, Messages, authoritative_message, project_input}
use mini_agent.Prelude.Texts.{Text, Uuid}
use cubical.Cubical.Foundations.Prelude.{subst}
use mini_agent.Prelude.{
  sym, ap, ◌∙◌, nat_eq, list_eq, List, traverse, lookup, ◌≡◌, [], some, ok, ◌∷◌, arith, >>=-eq-ok,
  raise_if, true, not, or_raise-ok, ◌∙◌, ap, sym, ok_injective,
}

module _ (sha256 : Text → Text) (messages : Messages) where
  -- A durable input is the candidate of a quote that stands in one place of a known message.
  abbrev pub IsSourced : InputCandidate → DurableInput → Type 0
  IsSourced c r =
      (message : Text) × (lookup c.source_ref messages ≡ some message)
      × (exact_source_span sha256 message c.source_quote c.candidate_value ≡ ok r.span)
      × (r.source_ref ≡ c.source_ref)
      × (r.candidate_value ≡ c.candidate_value)
      × (is_user_claim c.authority ≡ true)

  message-Known :
      (i : Uuid) (m : Text) → authoritative_message messages i ≡ ok m → lookup i messages ≡ some m
  unfolding authoritative_message
  message-Known i m h = ground arith

  validated-same : (r s : DurableInput) → validate_durable_input r ≡ ok s → r ≡ s
  unfolding validate_durable_input
  validated-same r s h = ground arith

  input-IsSourced :
      (c : InputCandidate) (r : DurableInput)
      → project_input sha256 messages c ≡ ok r
      → IsSourced c r
  unfolding project_input
  input-IsSourced c r h =
      let (message, known, h1) = >>=-eq-ok (authoritative_message messages c.source_ref) _ h in
      let (span, placed, h2) =
        >>=-eq-ok (exact_source_span sha256 message c.source_quote c.candidate_value) _ h1 in
      let (_, claim, h3) =
        >>=-eq-ok (raise_if (not (is_user_claim c.authority)) model_output_schema_invalid) _ h2 in
      let same = validated-same _ r (or_raise-ok _ _ r h3) in
      (
        message,
        message-Known c.source_ref message known,
        placed ∙ ap (λ d. ok d.span) same,
        sym (ap (λ d. d.source_ref) same),
        sym (ap (λ d. d.candidate_value) same),
        ground arith,
      )

  -- Element by element.
  pub data AllSourced : List InputCandidate → List DurableInput → Type 0 where
    none_left : AllSourced [] []
    one_more :
        {c : InputCandidate} {r : DurableInput} {cs : List InputCandidate} {rs : List DurableInput}
        → IsSourced c r
        → AllSourced cs rs
        → AllSourced (c ∷ cs) (r ∷ rs)

  inputs-AllSourced :
      (cs : List InputCandidate) (rs : List DurableInput)
      → traverse (project_input sha256 messages) cs ≡ ok rs
      → AllSourced cs rs
  unfolding traverse
  inputs-AllSourced [] rs h = subst (AllSourced []) (ok_injective _ _ h) none_left
  inputs-AllSourced (c ∷ cs) rs h =
      let (r, e, h1) = >>=-eq-ok (project_input sha256 messages c) _ h in
      let (ss, k, h2) = >>=-eq-ok (traverse (project_input sha256 messages) cs) _ h1 in
      subst (AllSourced (c ∷ cs)) (ok_injective _ _ h2)
        (one_more (input-IsSourced c r e) (inputs-AllSourced cs ss k))

delta-same : (r s : DurableTaskDelta) → validate_durable_delta r ≡ ok s → r ≡ s
unfolding validate_durable_delta
delta-same r s h = ground arith

-- Every input of a durable candidate is the user's own claim: its value and its message are those of the
-- model's candidate at the same place, and its span is that of a quote of that message, as known.
pub project_delta-AllSourced :
    (sha256 : Text → Text) (messages : Messages) (d : TaskDeltaCandidate) (r : DurableTaskDelta)
    → project_delta sha256 messages d ≡ ok r
    → (r.candidate_id ≡ d.candidate_id)
      × (r.goal_patch ≡ d.goal_patch)
      × AllSourced sha256 messages d.input_candidates r.input_candidates
unfolding project_delta
project_delta-AllSourced sha256 messages d r h =
    let (inputs, e, h1) =
      >>=-eq-ok (traverse (project_input sha256 messages) d.input_candidates) _ h in
    let same = delta-same _ r (or_raise-ok _ _ r h1) in
    (
      sym (ap (λ b. b.candidate_id) same),
      sym (ap (λ b. b.goal_patch) same),
      subst (AllSourced sha256 messages d.input_candidates) (ap (λ b. b.input_candidates) same)
          (inputs-AllSourced sha256 messages d.input_candidates inputs e),
    )
