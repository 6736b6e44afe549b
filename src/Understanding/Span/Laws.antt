-- ===== src/Understanding/Span/Laws.antt =====
-- The source span of a quote in src/mini_agent/core/request_processing.py, against the places where
-- one text stands in another.
use mini_agent.Understanding.Span.{starts_with, index_of, find, occurrences}
use mini_agent.Prelude.Texts.{Text}
use mini_agent.Prelude.{
  refl, ℕ, ◌≡◌, Bool, ◌++◌, take, ◌≤◌, drop, ◌∷◌, length, true, suc, some, none, arith, zero, [],
  sym, ◌<◌, false, ◌∙◌, ap, ◌+◌, Option-cases, ◌-◌, inl, inr,
}
use cubical.Cubical.Foundations.Prelude.{subst}

-- `p` stands in `s` behind `i` code points.
abbrev pub Occurs : Text → Text → ℕ → Type 0
Occurs p s i = (a : Text) × (b : Text) × (s ≡ a ++ (p ++ b)) × (length a ≡ i)

-- The one place of `p` in `s`.
abbrev pub IsSole : Text → Text → ℕ → Type 0
IsSole p s i = Occurs p s i × ((j : ℕ) → Occurs p s j → j ≡ i)

abbrev pub at : Text → Text → ℕ → Bool
at p s i = starts_with p (drop i s)

pub starts_with-append : (p b : Text) → starts_with p (p ++ b) ≡ true
unfolding starts_with
starts_with-append [] b = refl
starts_with-append (c ∷ p) b = ground (arith, starts_with-append p b)

starts_with-split : (p s : Text) → starts_with p s ≡ true → s ≡ p ++ drop (length p) s
unfolding starts_with
starts_with-split [] s h = refl
starts_with-split (c ∷ p) [] h = cc
starts_with-split (c ∷ p) (d ∷ s) h = ground (arith, starts_with-split p s)

take-drop : (i : ℕ) (s : Text) → take i s ++ drop i s ≡ s
take-drop zero s = refl
take-drop (suc i) [] = refl
take-drop (suc i) (c ∷ s) = cc (take-drop i s)

length-take : (i : ℕ) (s : Text) → i ≤ length s → length (take i s) ≡ i
length-take zero s h = refl
length-take (suc i) [] h = absurd (omega arith)
length-take (suc i) (c ∷ s) h = omega (arith, length-take i s (omega arith))

pub drop-length_append : (a s : Text) → drop (length a) (a ++ s) ≡ s
drop-length_append [] s = refl
drop-length_append (c ∷ a) s = drop-length_append a s

pub take-length_append : (a s : Text) → take (length a) (a ++ s) ≡ a
take-length_append [] s = refl
take-length_append (c ∷ a) s = cc (take-length_append a s)

at-below : (c : ℕ) (p s : Text) (i : ℕ) → at (c ∷ p) s i ≡ true → i ≤ length s
unfolding starts_with
at-below c p [] zero h = cc
at-below c p [] (suc i) h = cc
at-below c p (d ∷ s) zero h = omega arith
at-below c p (d ∷ s) (suc i) h = omega (arith, at-below c p s i h)

pub Occurs-at : (p s : Text) (i : ℕ) → Occurs p s i → at p s i ≡ true
Occurs-at p s i (a, b, e, n) = rw (e, ← n, drop-length_append a (p ++ b)) (starts_with-append p b)

pub at-Occurs : (c : ℕ) (p s : Text) (i : ℕ) → at (c ∷ p) s i ≡ true → Occurs (c ∷ p) s i
at-Occurs c p s i h = (
  take i s,
  drop (length (c ∷ p)) (drop i s),
  sym (take-drop i s) ∙ ap (λ t. take i s ++ t) (starts_with-split (c ∷ p) (drop i s) h),
  length-take i s (at-below c p s i h),
)

index_of-at : (p s : Text) (i : ℕ) → index_of p s ≡ some i → at p s i ≡ true
unfolding index_of
index_of-at p [] i h = cc
index_of-at p (c ∷ s) zero h = ground arith
index_of-at p (c ∷ s) (suc i) h = ground (arith, index_of-at p s i)

index_of-before : (p s : Text) (i j : ℕ) → index_of p s ≡ some i → j < i → at p s j ≡ false
unfolding index_of
index_of-before p [] i j h l = cc
index_of-before p (c ∷ s) zero j h l = absurd (omega arith)
index_of-before p (c ∷ s) (suc i) zero h l = ground arith
index_of-before p (c ∷ s) (suc i) (suc j) h l = ground (arith, index_of-before p s i j)

index_of-none : (c : ℕ) (p s : Text) (j : ℕ) → index_of (c ∷ p) s ≡ none → at (c ∷ p) s j ≡ false
unfolding index_of
index_of-none c p [] zero h = refl
index_of-none c p [] (suc j) h = refl
index_of-none c p (d ∷ s) zero h = ground arith
index_of-none c p (d ∷ s) (suc j) h = ground (arith, index_of-none c p s j)

drop-nil : (i : ℕ) → drop {A = ℕ} i [] ≡ []
drop-nil zero = refl
drop-nil (suc i) = refl

drop-drop : (i j : ℕ) (s : Text) → drop i (drop j s) ≡ drop (i + j) s
drop-drop i zero s = ap (λ k. drop k s) (omega arith)
drop-drop i (suc j) [] = drop-nil i ∙ sym (drop-nil (i + suc j))
drop-drop i (suc j) (c ∷ s) =
    drop-drop i j s ∙ ap (λ k. drop k (c ∷ s)) (let e : suc (i + j) ≡ i + suc j = omega arith in e)

-- What `find` returns is the first place from its start on.
pub find-at : (s p : Text) (k i : ℕ) → find s p k ≡ some i → (at p s i ≡ true) × (k ≤ i)
unfolding find
find-at s p k i h = elim (Option-cases (index_of p (drop k s))) [
  | inl e ↦ absurd (ground arith)
  | inr (j, e) ↦
      let i_is : j + k ≡ i = ground arith in
      (
        subst (λ n. at p s n ≡ true) i_is
            (subst (λ t. starts_with p t ≡ true) (drop-drop j k s) (index_of-at p (drop k s) j e)),
        omega arith,
      )
]

pub find-before : (s p : Text) (k i j : ℕ) → find s p k ≡ some i → k ≤ j → j < i → at p s j ≡ false
unfolding find
find-before s p k i j h l m = elim (Option-cases (index_of p (drop k s))) [
  | inl e ↦ absurd (ground arith)
  | inr (n, e) ↦
      let i_is : n + k ≡ i = ground arith in
      let j_is : j - k + k ≡ j = omega arith in
      subst (λ d. at p s d ≡ false) j_is
        (subst (λ t. starts_with p t ≡ false) (drop-drop (j - k) k s)
          (index_of-before p (drop k s) n (j - k) e (omega arith)))
]

pub find-none :
    (s : Text) (c : ℕ) (p : Text) (k j : ℕ)
    → find s (c ∷ p) k ≡ none
    → k ≤ j
    → at (c ∷ p) s j ≡ false
unfolding find
find-none s c p k j h l =
    let e : index_of (c ∷ p) (drop k s) ≡ none = ground arith in
    let j_is : j - k + k ≡ j = omega arith in
    subst (λ d. at (c ∷ p) s d ≡ false) j_is
      (subst (λ t. starts_with (c ∷ p) t ≡ false) (drop-drop (j - k) k s)
        (index_of-none c p (drop k s) (j - k) e))

-- The loop sees one place exactly when the first is the last.
pub occurrences-one :
    (m q : Text) (i : ℕ)
    → occurrences 2 m q 0 [] ≡ i ∷ []
    → (find m q 0 ≡ some i) × (find m q (i + 1) ≡ none)
unfolding occurrences
occurrences-one m q i h = elim (Option-cases (find m q 0)) [
  | inl e ↦ absurd (ground arith)
  | inr (j, e) ↦ ground (arith, Option-cases (find m q (j + 1)))
]

pub occurrences-of_one :
    (m q : Text) (i : ℕ)
    → find m q 0 ≡ some i
    → find m q (i + 1) ≡ none
    → occurrences 2 m q 0 [] ≡ i ∷ []
unfolding occurrences
occurrences-of_one m q i h k = ground arith
