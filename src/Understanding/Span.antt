-- ===== src/Understanding/Span.antt =====
-- `_exact_source_span_v2` and `_source_quote_contains_exact_order_id` of
-- src/mini_agent/core/request_processing.py. `sha256` stands for the hexadecimal SHA-256 of a text.
pub mod Laws
pub mod Sole
use mini_agent.Prelude.{
  ℕ, Option, Bool, none, drop, List, ◌∷◌, [], Result, true, if◌then◌else◌, some, suc, ok, any, err,
  ◌>>◌, ◌>>=◌, false, ◌+◌, ◌||◌, not, leb, ◌&&◌, length, ◌==◌, raise_if, nat_eq, ◌++◌, take, ◌-◌,
  list_eq, is_empty, ltb, all, zero, is_some,
}
use mini_agent.Prelude.Texts.{Text, is_upper, is_lower, is_digit}
use mini_agent.Order.Number.{normalize_text}

-- The five codes for a whole request, then the three for what is to be committed.
pub data FailureCode : Type 0 where
  model_input_schema_invalid model_output_schema_invalid model_schema_version_invalid : FailureCode
  trusted_or_private_field_present source_provenance_invalid : FailureCode
  task_state_cas_conflict task_commit_failed durable_closure_commit_failed : FailureCode

unfoldable pub starts_with : Text → Text → Bool
starts_with [] s = true
starts_with (c ∷ p) [] = false
starts_with (c ∷ p) (d ∷ s) = c == d && starts_with p s

-- `s.find(p)` for a `p` that is not empty
unfoldable pub index_of : Text → Text → Option ℕ
unfolding starts_with
index_of p [] = none
index_of p (c ∷ s) =
    let rest = index_of p s in
    if starts_with p (c ∷ s) then some 0 else elim rest [ none ↦ none | some i ↦ some (suc i) ]

-- `s.find(p, start)`
unfoldable pub find : Text → Text → ℕ → Option ℕ
unfolding index_of
find s p start = elim (index_of p (drop start s)) [ none ↦ none | some i ↦ some (i + start) ]

-- The loop over the occurrences stops at the second one, so two rounds are enough.
unfoldable pub occurrences : ℕ → Text → Text → ℕ → List ℕ → List ℕ
unfolding find
occurrences zero message quote start seen = seen
occurrences (suc rounds) message quote start seen = elim (find message quote start) [
  | none ↦ seen
  | some position ↦
      let next = occurrences rounds message quote (position + 1) (seen ++ position ∷ []) in
      if ltb 1 (length (seen ++ position ∷ [])) then seen ++ position ∷ [] else next
]

-- `[A-Za-z0-9]`
unfoldable pub is_alphanumeric : ℕ → Bool
is_alphanumeric c = is_upper c || is_lower c || is_digit c

abbrev pub is_boundary : Option ℕ → Bool
is_boundary none = true
is_boundary (some c) = not (is_alphanumeric c)

abbrev pub first : Text → Option ℕ
first [] = none
first (c ∷ s) = some c

-- `[0-9]{4,n}(?![A-Za-z0-9])`, the longest repetition first
unfoldable pub digits_here : ℕ → Text → Option Text
digits_here zero s = none
digits_here (suc n) s =
    let shorter = digits_here n s in
    if leb 4 (suc n)
      && length (take (suc n) s) == suc n
      && all is_digit (take (suc n) s)
      && is_boundary (first (drop (suc n) s))
    then some (take (suc n) s)
    else shorter

-- `(?<![A-Za-z0-9])(?:O|o)-[0-9]{4,20}(?![A-Za-z0-9])` at the start of a text, behind `before`
unfoldable pub match_here : Option ℕ → Text → Option Text
unfolding digits_here
match_here before (o ∷ dash ∷ s) =
    if is_boundary before && (o == b'O' || o == b'o') && dash == b'-'
    then elim (digits_here 20 s) [ none ↦ none | some ds ↦ some (o ∷ dash ∷ ds) ]
    else none
match_here before s = none

-- `pattern.finditer(s)`: the scan goes on behind a match; `skip` counts what is left of it.
unfoldable pub matches : Option ℕ → ℕ → Text → List Text
unfolding match_here
matches before skip [] = []
matches before (suc skip) (c ∷ s) = matches (some c) skip s
matches before zero (c ∷ s) = elim (match_here before (c ∷ s)) [
  | none ↦ matches (some c) 0 s
  | some w ↦ w ∷ matches (some c) (length w - 1) s
]

-- `_normalize_order_id(match.group()) == normalized_order_id`, for any match; a match is a `str`
-- that has a normal form.
unfoldable pub names_order : Text → Text → Bool
names_order order_id w = elim (normalize_text w) [ ok n ↦ n == order_id | err e ↦ false ]

unfoldable pub contains_exact_order_id : Text → Text → Bool
unfolding matches names_order
contains_exact_order_id quote order_id = any (names_order order_id) (matches none 0 quote)

-- The last test of a span: the quote holds the candidate's value.
unfoldable pub holds_value : Text → Text → Bool
unfolding contains_exact_order_id
holds_value quote value = elim (normalize_text value) [
  | err e ↦ not (is_empty value) && is_some (index_of value quote)
  | ok order_id ↦ contains_exact_order_id quote order_id
]

pub record SourceSpan : Type 0 where
  pub start : ℕ
  pub end_exclusive : ℕ
  pub quote_sha256 : Text

module _ (sha256 : Text → Text) where
  -- What follows `len(occurrences) != 1`.
  unfoldable pub span_at : Text → Text → Text → List ℕ → Result FailureCode SourceSpan
  span_at message quote value (start ∷ []) = do
    raise_if (not (holds_value quote value)) source_provenance_invalid
    ok (record {
      start = start;
      end_exclusive = start + length quote;
      quote_sha256 = sha256 (take (length quote) (drop start message));
    })
  span_at message quote value seen = err source_provenance_invalid

  unfoldable pub exact_source_span : Text → Text → Text → Result FailureCode SourceSpan
  unfolding span_at
  exact_source_span message quote value = do
    raise_if (is_empty quote) source_provenance_invalid
    raise_if (quote == message) source_provenance_invalid
    span_at message quote value (occurrences 2 message quote 0 [])
