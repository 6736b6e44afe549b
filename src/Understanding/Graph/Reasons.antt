-- ===== src/Understanding/Graph/Reasons.antt =====
-- `_candidate_rejection_reason_v2` of src/mini_agent/core/request_processing.py, for a candidate of an
-- output that has passed its validator.
use mini_agent.Order.Number.{normalize_text}
use mini_agent.Understanding.Durable.{
  RejectionReason, input_value_invalid, reference_unresolved, reference_ambiguous,
}
use mini_agent.Understanding.Graph.{input_reason, rejection_reason, is_missing, is_ambiguous}
use mini_agent.Prelude.Texts.{Uuid, Text, codes}
use mini_agent.Prelude.{
  if◌then◌else◌, nat_eq, list_eq, option_eq, beq_refl, ◌≡◌, List, ok, ◌++◌, true, all, ◌∷◌, arith,
  [], distinct, is_empty, contains, false, Option, map, refl, none, err, some, any,
}
use mini_agent.Understanding.Contracts.{
  validate_delta, TaskDeltaCandidate, InputCandidate, is_user_claim, input_name,
}
use mini_agent.Understanding.Output.{
  RequestUnderstandingOutput, deltas_bound, validate_output, delta_ok, inputs_bound, input_bound,
  Uncertainty,
}

-- The candidate stands in the output.
abbrev pub Emits : RequestUnderstandingOutput → TaskDeltaCandidate → Type 0
Emits o d =
    (pre : List TaskDeltaCandidate) × (post : List TaskDeltaCandidate) × (o.task_delta_candidates
      ≡ pre ++ d ∷ post)

-- What the validators say of one candidate.
abbrev pub IsBound : Uuid → TaskDeltaCandidate → Type 0
IsBound m d = (delta_ok d ≡ true) × (inputs_bound m d.input_candidates ≡ ok tt)

IsBound-at :
    (m : Uuid) (d : TaskDeltaCandidate) (pre post : List TaskDeltaCandidate)
    → all delta_ok (pre ++ d ∷ post) ≡ true
    → deltas_bound m (pre ++ d ∷ post) ≡ ok tt
    → IsBound m d
unfolding deltas_bound
IsBound-at m d [] post h k = ground arith
IsBound-at m d (e ∷ pre) post h k = IsBound-at m d pre post (ground arith) (ground arith)

output-bound :
    (o p : RequestUnderstandingOutput)
    → validate_output o ≡ ok p
    → (all delta_ok o.task_delta_candidates ≡ true)
      × (deltas_bound o.message_ref o.task_delta_candidates ≡ ok tt)
unfolding validate_output
output-bound o p h = ground arith

pub emitted-IsBound :
    (o p : RequestUnderstandingOutput) (d : TaskDeltaCandidate)
    → validate_output o ≡ ok p
    → Emits o d
    → IsBound o.message_ref d
emitted-IsBound o p d h (pre, post, e) =
    let (all_ok, bound) = output-bound o p h in
    IsBound-at o.message_ref d pre post (rw (← e) all_ok) (rw (← e) bound)

two-names :
    (c b : InputCandidate) (cs : List InputCandidate)
    → distinct (map input_name (c ∷ b ∷ cs)) ≡ false
unfolding distinct contains
two-names c b cs = rw (beq_refl (codes "order_id")) refl

-- Every name is `order_id`, so a candidate has one input.
one_input :
    (m : Uuid) (cs : List InputCandidate)
    → is_empty cs ≡ false
    → distinct (map input_name cs) ≡ true
    → inputs_bound m cs ≡ ok tt
    → (c : InputCandidate) × (cs ≡ c ∷ []) × (c.source_ref ≡ m) × (is_user_claim c.authority ≡ true)
unfolding inputs_bound input_bound
one_input m [] e n k = cc
one_input m (c ∷ []) e n k = (c, refl, ground arith, ground arith)
one_input m (c ∷ b ∷ cs) e n k = absurd (let r = two-names c b cs in cc)

delta-shape :
    (d : TaskDeltaCandidate)
    → delta_ok d ≡ true
    → (is_empty d.input_candidates ≡ false) × (distinct (map input_name d.input_candidates) ≡ true)
unfolding validate_delta
delta-shape d h = ground arith

pub bound-one_input :
    (m : Uuid) (d : TaskDeltaCandidate)
    → IsBound m d
    → (c : InputCandidate) × (d.input_candidates ≡ c ∷ [])
      × (c.source_ref ≡ m)
      × (is_user_claim c.authority ≡ true)
bound-one_input m d (h, k) = let (e, n) = delta-shape d h in one_input m d.input_candidates e n k

-- What the reason depends on.
abbrev pub reason_of : List Uncertainty → Text → Option RejectionReason
reason_of [] value = elim (normalize_text value) [ ok n ↦ none | err e ↦ some input_value_invalid ]
reason_of (u ∷ us) value =
    some (if any is_missing (u ∷ us) then reference_unresolved else reference_ambiguous)

kind-known : (u : Uncertainty) → is_missing u ≡ false → is_ambiguous u ≡ true
kind-known u h = ground arith

input_reason-of_claim :
    (m : Uuid) (c : InputCandidate)
    → c.source_ref ≡ m
    → is_user_claim c.authority ≡ true
    → input_reason m (c ∷ []) ≡ reason_of [] c.candidate_value
unfolding input_reason
input_reason-of_claim m c s a = rw (a, s, beq_refl m) refl

-- The reason by the uncertainties, for the one input of a candidate.
by_uncertainties : Uuid → List Uncertainty → InputCandidate → Option RejectionReason
by_uncertainties m us c =
    if any is_missing us
    then some reference_unresolved
    else if any is_ambiguous us
    then some reference_ambiguous
    else input_reason m (c ∷ [])

by_uncertainties-eq :
    (m : Uuid) (us : List Uncertainty) (c : InputCandidate)
    → c.source_ref ≡ m
    → is_user_claim c.authority ≡ true
    → by_uncertainties m us c ≡ reason_of us c.candidate_value
unfolding by_uncertainties
by_uncertainties-eq m [] c s a = input_reason-of_claim m c s a
by_uncertainties-eq m (u ∷ us) c s a = ground (arith, kind-known u)

-- For a candidate of a validated output the reason is that of this table: an uncertainty rejects the
-- candidate, as unresolved if a reference is missing and else as ambiguous, and without one a value that
-- is no order number does. The reason `REQUIRED_INPUT_MISSING` is thus never given.
pub rejection_reason-eq :
    (o p : RequestUnderstandingOutput) (d : TaskDeltaCandidate)
    → validate_output o ≡ ok p
    → Emits o d
    → (c : InputCandidate) × (d.input_candidates ≡ c ∷ [])
      × (rejection_reason d o ≡ reason_of o.contextualization.uncertainties c.candidate_value)
unfolding rejection_reason by_uncertainties
rejection_reason-eq o p d h e =
    let (c, one, source, claim) = bound-one_input o.message_ref d (emitted-IsBound o p d h e) in
    (
      c,
      one,
      rw one (by_uncertainties-eq o.message_ref o.contextualization.uncertainties c source claim),
    )
