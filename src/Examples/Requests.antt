-- ===== src/Examples/Requests.antt =====
-- A customer asks for one order, and the model proposes to look it up.
use mini_agent.Understanding.Span.Sole.{exact_source_span-bounds, exact_source_span-ok_iff}
use mini_agent.Understanding.Reducer.Sound.{Settles, reduce_sound}
use mini_agent.Understanding.Reducer.Coverage.{graph_ref, decide_candidates-total}
use mini_agent.Understanding.Span.Laws.{IsSole}
use mini_agent.Understanding.Reducer.Judged.{Judges}
use mini_agent.Understanding.Graph.Built.{Buildable, build_graph-ok_iff}
use mini_agent.Understanding.Graph.Reasons.{reason_of, rejection_reason-eq}
use mini_agent.Understanding.Project.Sources.{AllSourced, project_delta-AllSourced}
use mini_agent.Understanding.Contracts.{
  is_confidence, validate_input, validate_delta, validate_next_move,
}
use mini_agent.Understanding.Output.{
  validate_contextualization, deltas_bound, validate_output, candidate_id,
}
use mini_agent.Understanding.Span.{
  starts_with, index_of, find, occurrences, is_alphanumeric, digits_here, match_here, matches,
  names_order, contains_exact_order_id, holds_value, span_at, exact_source_span, SourceSpan,
}
use mini_agent.Understanding.Durable.{
  validate_span, validate_durable_input, validate_durable_contextualization, validate_durable_delta,
  validate_validation, validate_accepted, record_fields_valid, validate_record, DurableTaskDelta,
  CandidateValidation, validated_ref, validation_ok,
}
use mini_agent.Understanding.Project.{
  authoritative_message, project_input, project_contextualization, project_delta,
}
use mini_agent.Understanding.Closure.{validate_closure, accepted_refs}
use mini_agent.Understanding.Graph.{
  validate_allocation, graph_records_valid, delta_initial, binding_initial, task_initial,
  unit_initial, one_time, validate_graph, rejection_reason, initial_graph, build_graph,
}
use mini_agent.Understanding.Reducer.{check_allocations, decide_candidates, reduce}
use mini_agent.Understanding.Decision.{InitialDecision}
use mini_agent.Prelude.{
  contains, distinct, subset, same_set, list_beq, lookup, option_beq, traverse, map, ◌↔◌, ◌<◌, ◌≢◌,
  ◌≤◌, ok_value, length, all,
}
use mini_agent.Prelude.Texts.{
  is_digit, is_upper, is_lower, is_space, lstrip, rstrip, strip, fold_special, fold_code, casefold,
  is_hex, digest_after,
}
use mini_agent.Clock.{require_utc, is_utc, is_utc_or_none}
use mini_agent.Order.Number.{is_order_id, capitalized, normalize_text, normalize_order_id}
use mini_agent.Tasks.{validate_binding, validate_request_unit, validate_task, validate_customer}
use mini_agent.Json.{is_trusted}
use mini_agent.Tools.Registry.{compute_hash}
use mini_agent.Tools.Registry.{compute_hash}
use mini_agent.Tools.Spec.{ToolSpec}
use mini_agent.Understanding.Reducer.{ReducerContext, reduce}
use mini_agent.Understanding.Graph.{IdentityAllocation, initial_graph, TaskGraph}
use mini_agent.Tasks.{CustomerContext}
use mini_agent.Understanding.Contracts.{
  RequestUnderstandingInput, InputCandidate, TaskDeltaCandidate, user_claim, NextMoveKind,
  validate_input, validate_delta, is_confidence, validate_next_move,
}
use mini_agent.Understanding.Output.{
  RequestUnderstandingOutput, validate_output, validate_contextualization,
}
use mini_agent.Understanding.Project.{Messages}
use mini_agent.Prelude.Texts.{Text, codes, digest_after, casefold}
use mini_agent.Prelude.{
  is_ok, nat_eq, list_eq, [], ◌∷◌, ◌++◌, some, none, ok, refl, true, List, ◌≡◌, list_beq, distinct,
  contains,
}
use mini_agent.Examples.Data.{moment, arguments}
use mini_agent.Tools.Spec.GetOrder.{get_order_tool_spec}
use mini_agent.Json.{finite, find_trusted_argument_field, is_trusted, all_finite}
use mini_agent.Prelude.Int.{pos}
use mini_agent.Understanding.Span.Sole.{Points}

abbrev hex : Text
hex = codes "aaaaaaaaaaaaaaaaaaaaaaaaaaaaaaaaaaaaaaaaaaaaaaaaaaaaaaaaaaaaaaaa"

abbrev pub sha256 : Text → Text
sha256 s = hex

abbrev pub digest : List ToolSpec → Text
digest specs = codes "sha256:" ++ hex

abbrev pub query : Text
query = codes "Where is O-20260001 now?"

abbrev pub quote : Text
quote = codes "O-20260001"

abbrev pub messages : Messages
messages = (6, query) ∷ []

abbrev pub request_input : RequestUnderstandingInput
request_input = record {
  run_id = 1;
  message_ref = 6;
  original_query = query;
  recent_message_refs = [];
  pending_question = none;
  active_task_summaries = [];
  focused_task_summary = none;
  pending_action_summaries = [];
  output_constraints = [];
  provider_visible_tool_specs = get_order_tool_spec ∷ [];
  model_visible_toolset_hash = codes "sha256:" ++ hex;
}

abbrev claim : InputCandidate
claim = record {
  candidate_value = quote;
  authority = user_claim;
  source_ref = 6;
  source_quote = quote;
  confidence = finite (pos 1);
}

abbrev pub candidate : TaskDeltaCandidate
candidate = record {
  candidate_id = 20;
  goal_patch = codes "find the order";
  input_candidates = claim ∷ [];
  confidence = finite (pos 1);
}

abbrev pub output : RequestUnderstandingOutput
output = record {
  message_ref = 6;
  contextualization = record {
    text = query;
    resolved_reference_candidates = [];
    uncertainties = [];
    source_message_refs = 6 ∷ [];
  };
  task_delta_candidates = candidate ∷ [];
  next_move_candidate = record {
    kind = NextMoveKind.call_tool;
    requested_tool_name = some (codes "get_order");
    arguments = some arguments;
    base_task_state_version = none;
  };
}

abbrev pub customer : CustomerContext
customer = record {
  subject_ref = codes "s";
  customer_id = codes "c1";
  auth_scopes = [];
  authenticated_at = moment 0;
  session_ref_hash = codes "h";
}

abbrev pub allocation : IdentityAllocation
allocation = record {
  candidate_ref = 20;
  accepted_delta_id = 21;
  task_id = 22;
  request_unit_id = 23;
  binding_id = 24;
}

abbrev pub context : ReducerContext
context = record {
  customer_context = customer;
  request_understanding_record_id = 30;
  allocations = allocation ∷ [];
  next_move_candidate_ref = 31;
  now = moment 5;
}

abbrev pub graph : TaskGraph
graph = initial_graph candidate allocation customer 6 quote (moment 5)

abbrev pub span : SourceSpan
span = record { start = 9; end_exclusive = 19; quote_sha256 = hex }

abbrev pub durable : DurableTaskDelta
durable = record {
  candidate_id = 20;
  goal_patch = codes "find the order";
  input_candidates =
      record { candidate_value = quote; source_ref = 6; span = span; confidence = finite (pos 1) }
      ∷ [];
  confidence = finite (pos 1);
}

validated : validate_output output ≡ ok output
unfolding validate_output validate_contextualization distinct contains validate_delta is_confidence
    validate_next_move all_finite find_trusted_argument_field is_trusted list_beq casefold
    deltas_bound
validated = refl

allocated : check_allocations context (map candidate_id output.task_delta_candidates) ≡ ok tt
unfolding check_allocations validate_allocation validate_customer distinct contains same_set subset
    is_utc require_utc
allocated = refl

placed : exact_source_span sha256 query quote quote ≡ ok span
unfolding exact_source_span span_at occurrences find index_of starts_with holds_value
    contains_exact_order_id names_order matches match_here digits_here is_alphanumeric is_upper
    is_lower strip lstrip rstrip is_space casefold fold_code fold_special is_digit is_order_id
    capitalized normalize_text list_beq
placed = refl

projected : project_delta sha256 messages candidate ≡ ok durable
unfolding project_delta project_input authoritative_message lookup traverse validate_durable_delta
    validate_durable_input validate_span digest_after is_hex is_confidence distinct
    exact_source_span span_at occurrences find index_of starts_with holds_value
    contains_exact_order_id names_order matches match_here digits_here is_alphanumeric is_upper
    is_lower strip lstrip rstrip is_space casefold fold_code fold_special is_digit is_order_id
    capitalized normalize_text list_beq
projected = refl

built : build_graph candidate allocation customer 6 quote (moment 5) ≡ ok graph
unfolding build_graph initial_graph validate_graph graph_records_valid delta_initial binding_initial
    task_initial unit_initial one_time validate_accepted validate_binding validate_task
    validate_request_unit is_utc require_utc is_order_id is_digit list_beq option_beq distinct
    contains
built = refl

pub reduced : is_ok (reduce digest sha256 messages request_input output context) ≡ true
unfolding is_confidence validate_input validate_delta validate_next_move validate_contextualization
    deltas_bound validate_output occurrences holds_value exact_source_span validate_durable_input
    validate_durable_contextualization validate_durable_delta validate_validation validate_accepted
    record_fields_valid validate_record project_contextualization project_delta validate_closure
    reduce distinct subset same_set list_beq lookup option_beq traverse is_space digest_after
    is_utc_or_none normalize_order_id validate_binding validate_request_unit validate_task
    validate_customer is_trusted compute_hash find_trusted_argument_field all_finite
reduced = refl

exact_source_span-ok_iff_example : (exact_source_span sha256 query quote quote ≡ ok span) ↔ (
    (quote ≢ [])
    × (quote ≢ query)
    × IsSole quote query 9
    × Points sha256 quote span
    × (holds_value quote quote ≡ true))
exact_source_span-ok_iff_example = exact_source_span-ok_iff sha256 query quote quote span

exact_source_span-bounds_example : (9 < 19) × (19 ≤ length query)
exact_source_span-bounds_example = exact_source_span-bounds sha256 query quote quote span placed

project_delta-AllSourced_example :
    (durable.candidate_id ≡ 20)
    × (durable.goal_patch ≡ codes "find the order")
    × AllSourced sha256 messages candidate.input_candidates durable.input_candidates
project_delta-AllSourced_example =
    project_delta-AllSourced sha256 messages candidate durable projected

build_graph-ok_iff_example :
    (build_graph candidate allocation customer 6 quote (moment 5) ≡ ok graph) ↔ (
      (initial_graph candidate allocation customer 6 quote (moment 5) ≡ graph)
      × Buildable candidate allocation customer quote (moment 5))
build_graph-ok_iff_example =
    build_graph-ok_iff candidate allocation customer 6 quote (moment 5) graph

rejection_reason-eq_example :
    (c : InputCandidate) × (candidate.input_candidates ≡ c ∷ [])
    × (rejection_reason candidate output ≡ reason_of [] c.candidate_value)
rejection_reason-eq_example = rejection_reason-eq output output candidate validated ([], [], refl)

decide_candidates-total_example :
    (vs : List CandidateValidation) × (gs : List TaskGraph) × (decide_candidates output context
        (candidate ∷ [])
      ≡ ok (vs, gs))
    × (map validated_ref vs ≡ 20 ∷ [])
    × (map graph_ref gs ≡ accepted_refs vs)
    × (all validation_ok vs ≡ true)
    × (all (λ g. is_ok (validate_graph g)) gs ≡ true)
decide_candidates-total_example = decide_candidates-total output output context validated allocated

abbrev decision : InitialDecision
decision = (ok_value (reduce digest sha256 messages request_input output context) reduced).0

reduce_sound_example :
    (vs : List CandidateValidation) × (gs : List TaskGraph) × Judges output context
      (candidate ∷ [])
      vs
      gs
    × Settles output context vs gs decision
reduce_sound_example =
    reduce_sound digest sha256 messages request_input output context decision
      (ok_value (reduce digest sha256 messages request_input output context) reduced).1
