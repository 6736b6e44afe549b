-- ===== src/Presentation/Inside.antt =====
-- Texts inside texts, and what Python's `in` finds.
use mini_agent.Understanding.Span.Laws.{starts_with-append}
use mini_agent.Presentation.{is_in, join}
use mini_agent.Understanding.Span.{index_of}
use mini_agent.Prelude.Texts.{Text}
use mini_agent.Prelude.{
  nat_eq, list_eq, ◌++◌, [], ◌∷◌, refl, sym, ap, ◌∙◌, ◌≡◌, ℕ, is_some, true, arith, List,
}
use mathlib.Core.List.{append_assoc}
use cubical.Cubical.Foundations.Prelude.{subst}

abbrev pub Inside : Text → Text → Type 0
Inside p s = (a : Text) × (b : Text) × (s ≡ a ++ (p ++ b))

append_nil : (s : Text) → s ++ [] ≡ s
append_nil [] = refl
append_nil (c ∷ s) = ap (λ t. c ∷ t) (append_nil s)

pub Inside-same : (s : Text) → Inside s s
Inside-same s = ([], [], sym (append_nil s))

pub Inside-right : (p s t : Text) → Inside p s → Inside p (t ++ s)
Inside-right p s t (a, b, e) = (t ++ a, b, ap (λ u. t ++ u) e ∙ sym (append_assoc t a (p ++ b)))

pub Inside-left : (p s t : Text) → Inside p s → Inside p (s ++ t)
Inside-left p s t (a, b, e) = (
  a,
  b ++ t,
  ap (λ u. u ++ t) e ∙ append_assoc a (p ++ b) t ∙ ap (λ u. a ++ u) (append_assoc p b t),
)

found-Inside : (c : ℕ) (p a b : Text) → is_some (index_of (c ∷ p) (a ++ ((c ∷ p) ++ b))) ≡ true
unfolding index_of
found-Inside c p [] b = rw (starts_with-append (c ∷ p) b) refl
found-Inside c p (d ∷ a) b = ground (arith, found-Inside c p a b)

pub is_in-Inside : (p s : Text) → Inside p s → is_in p s ≡ true
unfolding is_in
is_in-Inside [] s i = refl
is_in-Inside (c ∷ p) s (a, b, e) = rw (e, found-Inside c p a b) refl

pub Inside-trans : (p s t : Text) → Inside p s → Inside s t → Inside p t
Inside-trans p s t i (c, d, e) =
    subst (Inside p) (sym e) (Inside-right p (s ++ d) c (Inside-left p s d i))

pub Inside-join_first : (separator t : Text) (ts : List Text) → Inside t (join separator (t ∷ ts))
unfolding join
Inside-join_first separator t [] = Inside-same t
Inside-join_first separator t (u ∷ us) =
    Inside-left t t (separator ++ join separator (u ∷ us)) (Inside-same t)

pub Inside-join_later :
    (separator t u : Text) (us : List Text)
    → Inside (join separator (u ∷ us)) (join separator (t ∷ u ∷ us))
unfolding join
Inside-join_later separator t u us =
    Inside-right rest (separator ++ rest) t (Inside-right rest rest separator (Inside-same rest))
  where
    rest : Text
    rest = join separator (u ∷ us)
