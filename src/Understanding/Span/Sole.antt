-- ===== src/Understanding/Span/Sole.antt =====
-- `_exact_source_span_v2` of src/mini_agent/core/request_processing.py succeeds exactly for a quote that
-- stands in one place of the message.
use mini_agent.Understanding.Span.Laws.{
  IsSole, Occurs, drop-length_append, Occurs-at, find-before, find-none, take-length_append,
  occurrences-one, at-Occurs, find-at, occurrences-of_one,
}
use mini_agent.Understanding.Span.{
  SourceSpan, occurrences, exact_source_span, find, holds_value, span_at,
}
use mini_agent.Prelude.Texts.{Text}
use mini_agent.Prelude.{
  refl, ℕ, ◌≢◌, ◌∷◌, take, [], ◌≡◌, length, ◌+◌, ok, some, drop, ◌↔◌, none, Option-cases, true, inl,
  ◌++◌, arith, inr, ◌∙◌, ap, is_empty, List, false, ◌==◌, nat_eq, list_eq, Bool-cases, ◌<◌, ◌≤◌,
  length-append,
}
use mini_agent.Prelude.Texts.{text_iff}
use mini_agent.Understanding.Span.Laws.{at-Occurs, Occurs-at}
use native.Mathlib.Decide.{dec_lt}

IsSole-of_one :
    (m : Text) (c : ℕ) (p : Text) (i : ℕ)
    → occurrences 2 m (c ∷ p) 0 [] ≡ i ∷ []
    → IsSole (c ∷ p) m i
IsSole-of_one m c p i h =
    let (f, n) = occurrences-one m (c ∷ p) i h in
    (at-Occurs c p m i (find-at m (c ∷ p) 0 i f).0, unique f n)
  where
    unique :
        find m (c ∷ p) 0 ≡ some i
        → find m (c ∷ p) (i + 1) ≡ none
        → (j : ℕ) → Occurs (c ∷ p) m j
        → j ≡ i
    unique f n j o =
        let here = Occurs-at (c ∷ p) m j o in
        elim (dec_lt j i) [
          | yes l ↦
              let no_place = find-before m (c ∷ p) 0 i j f (omega arith) l in absurd (ground arith)
          | no l ↦ elim (dec_lt i j) [
            | yes k ↦
                let no_place = find-none m c p (i + 1) j n (omega arith) in absurd (ground arith)
            | no k ↦ omega arith
          ]
        ]

one-of_sole :
    (m : Text) (c : ℕ) (p : Text) (i : ℕ)
    → IsSole (c ∷ p) m i
    → occurrences 2 m (c ∷ p) 0 [] ≡ i ∷ []
one-of_sole m c p i (o, unique) = occurrences-of_one m (c ∷ p) i from_start from_next
  where
    from_start : find m (c ∷ p) 0 ≡ some i
    from_start = elim (Option-cases (find m (c ∷ p) 0)) [
      | inl e ↦
          let here = Occurs-at (c ∷ p) m i o in
          let no_place = find-none m c p 0 i e (omega arith) in absurd (ground arith)
      | inr (k, e) ↦ e ∙ ap some (unique k (at-Occurs c p m k (find-at m (c ∷ p) 0 k e).0))
    ]

    from_next : find m (c ∷ p) (i + 1) ≡ none
    from_next = elim (Option-cases (find m (c ∷ p) (i + 1))) [
      | inl e ↦ e
      | inr (k, e) ↦
          let (place, later) = find-at m (c ∷ p) (i + 1) k e in
          let same = unique k (at-Occurs c p m k place) in absurd (omega arith)
    ]

slice : (q m : Text) (i : ℕ) → Occurs q m i → take (length q) (drop i m) ≡ q
slice q m i (a, b, e, n) = rw (e, ← n, drop-length_append a (q ++ b)) (take-length_append q b)

-- The place and the digest of the quote.
abbrev pub Points : (Text → Text) → Text → SourceSpan → Type 0
Points sha256 q s = (s.end_exclusive ≡ s.start + length q) × (s.quote_sha256 ≡ sha256 q)

span_at-ok :
    (sha256 : Text → Text) (m q v : Text) (s : SourceSpan) (seen : List ℕ)
    → span_at sha256 m q v seen ≡ ok s
    → (seen ≡ s.start ∷ [])
      × (s.end_exclusive ≡ s.start + length q)
      × (s.quote_sha256 ≡ sha256 (take (length q) (drop s.start m)))
      × (holds_value q v ≡ true)
unfolding span_at
span_at-ok sha256 m q v s [] h = cc
span_at-ok sha256 m q v s (i ∷ []) h = ground arith
span_at-ok sha256 m q v s (i ∷ j ∷ rest) h = cc

exact_source_span-steps :
    (sha256 : Text → Text) (m q v : Text) (s : SourceSpan)
    → exact_source_span sha256 m q v ≡ ok s
    → (is_empty q ≡ false)
      × ((q == m) ≡ false)
      × (span_at sha256 m q v (occurrences 2 m q 0 []) ≡ ok s)
unfolding exact_source_span
exact_source_span-steps sha256 m q v s h = ground arith

exact_source_span-of_steps :
    (sha256 : Text → Text) (m q v : Text) (s : SourceSpan)
    → is_empty q ≡ false
    → (q == m) ≡ false
    → span_at sha256 m q v (occurrences 2 m q 0 []) ≡ ok s
    → exact_source_span sha256 m q v ≡ ok s
unfolding exact_source_span
exact_source_span-of_steps sha256 m q v s f o h = ground arith

span_at-one :
    (sha256 : Text → Text) (m q v : Text) (s : SourceSpan)
    → take (length q) (drop s.start m) ≡ q
    → Points sha256 q s
    → holds_value q v ≡ true
    → span_at sha256 m q v (s.start ∷ []) ≡ ok s
unfolding span_at
span_at-one sha256 m q v s cut points held = ground arith

-- A span is returned exactly for a quote that is not empty, is not the whole message, stands in exactly
-- one place of the message and holds the candidate's value; and the span is that place, with the
-- digest of the quote itself.
pub exact_source_span-ok_iff :
    (sha256 : Text → Text) (m q v : Text) (s : SourceSpan)
    → (exact_source_span sha256 m q v ≡ ok s)
      ↔ ((q ≢ []) × (q ≢ m) × IsSole q m s.start × Points sha256 q s × (holds_value q v ≡ true))
exact_source_span-ok_iff sha256 m q v s = (sound q, complete q)
  where
    sound :
        (q : Text)
        → exact_source_span sha256 m q v ≡ ok s
        → (q ≢ []) × (q ≢ m) × IsSole q m s.start × Points sha256 q s × (holds_value q v ≡ true)
    sound [] h = absurd (let e = exact_source_span-steps sha256 m [] v s h in cc)
    sound (c ∷ p) h =
        let (filled, other, found) = exact_source_span-steps sha256 m (c ∷ p) v s h in
        let (one, end, digest, held) = span_at-ok sha256 m (c ∷ p) v s _ found in
        let sole = IsSole-of_one m c p s.start one in
        (
          (λ e. cc),
          (λ e. ground (arith, text_iff (c ∷ p) m)),
          sole,
          (end, digest ∙ ap sha256 (slice (c ∷ p) m s.start sole.0)),
          held,
        )

    complete :
        (q : Text)
        → (q ≢ []) × (q ≢ m) × IsSole q m s.start × Points sha256 q s × (holds_value q v ≡ true)
        → exact_source_span sha256 m q v ≡ ok s
    complete [] h = absurd (h.0 refl)
    complete (c ∷ p) (filled, other, sole, points, held) =
        exact_source_span-of_steps sha256 m (c ∷ p) v s refl unlike (
          rw (one-of_sole m c p s.start sole)
            (span_at-one sha256 m (c ∷ p) v s (slice (c ∷ p) m s.start sole.0) points held))
      where
        unlike : ((c ∷ p) == m) ≡ false
        unlike = elim (Bool-cases ((c ∷ p) == m)) [
          | inl e ↦ absurd (other ((text_iff (c ∷ p) m).0 e))
          | inr e ↦ e
        ]

length-filled : (q : Text) → q ≢ [] → 1 ≤ length q
length-filled [] h = absurd (h refl)
length-filled (c ∷ q) h = omega arith

-- A span that is returned is not empty and lies within the message.
pub exact_source_span-bounds :
    (sha256 : Text → Text) (m q v : Text) (s : SourceSpan)
    → exact_source_span sha256 m q v ≡ ok s
    → (s.start < s.end_exclusive) × (s.end_exclusive ≤ length m)
exact_source_span-bounds sha256 m q v s h =
    let (filled, other, sole, points, held) = (exact_source_span-ok_iff sha256 m q v s).0 h in
    let (a, b, e, n) = sole.0 in
    let all_of = ap length e ∙ length-append a (q ++ b) in
    let tail_of = length-append q b in
    let filled_length = length-filled q filled in let end = points.0 in (omega arith, omega arith)
