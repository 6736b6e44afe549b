-- ===== src/Order/Number/Laws.antt =====
-- Which texts `_normalize_order_id` accepts, and what it makes of them.
use mini_agent.Prelude.{
  any, ℕ, all, ◌≡◌, false, true, ◌++◌, ◌∷◌, arith, [], refl, ◌⊎◌, drop, ok, take, Bool-cases, inl,
  ◌==◌, inr, eq_of_beq, sym, nat_eq, list_eq, list_beq, ◌↔◌,
}
use mini_agent.Prelude.Texts.{
  lstrip, rstrip, strip, is_digit, Text, is_space, fold_code, codes, casefold,
}
use mathlib.Core.Path.{subst}
use mini_agent.Json.{Json, scalar, arr, obj, str}
use mini_agent.Order.Number.{is_order_id, capitalized, normalize_text, normalize_order_id}

-- A text without white space is its own `strip`.
lstrip-solid : (s : Text) → any is_space s ≡ false → lstrip s ≡ s
unfolding lstrip
lstrip-solid [] h = refl
lstrip-solid (c ∷ s) h = ground arith

rstrip-solid : (s : Text) → any is_space s ≡ false → rstrip s ≡ s
unfolding rstrip
rstrip-solid [] h = refl
rstrip-solid (c ∷ s) h = ground (arith, rstrip-solid s)

strip-solid : (s : Text) → any is_space s ≡ false → strip s ≡ s
unfolding strip
strip-solid s h = rw lstrip-solid (rstrip-solid s h)

digit-IsSolid : (c : ℕ) → is_digit c ≡ true → is_space c ≡ false
unfolding is_digit is_space
digit-IsSolid c h = ground arith

digits-IsSolid : (s : Text) → all is_digit s ≡ true → any is_space s ≡ false
digits-IsSolid [] h = refl
digits-IsSolid (c ∷ s) h = ground (arith, digit-IsSolid c, digits-IsSolid s)

order_id-IsSolid : (s : Text) → is_order_id s ≡ true → any is_space s ≡ false
unfolding is_order_id is_space
order_id-IsSolid (o ∷ dash ∷ digits) h = ground (arith, digits-IsSolid digits)
order_id-IsSolid [] h = cc
order_id-IsSolid (o ∷ []) h = cc

fold_o :
    (c : ℕ) (rest : Text)
    → fold_code c ++ rest ≡ codes "o-"
    → ((c ≡ b'o') ⊎ (c ≡ b'O')) × (rest ≡ codes "-")
unfolding fold_code
fold_o c rest h = ground arith

fold_dash : (c : ℕ) → fold_code c ++ [] ≡ codes "-" → c ≡ b'-'
unfolding fold_code
fold_dash c h = ground arith

-- Folding the first two characters gives `o-` for `o-` and `O-` alone.
fold_two :
    (s : Text)
    → casefold (take 2 s) ≡ codes "o-"
    → (s ≡ b'o' ∷ b'-' ∷ drop 2 s) ⊎ (s ≡ b'O' ∷ b'-' ∷ drop 2 s)
unfolding casefold
fold_two [] h = cc
fold_two (c ∷ []) h = absurd (cc ((fold_o c [] h).1))
fold_two (c ∷ d ∷ s) h =
    let (letter, rest) = fold_o c (fold_code d ++ []) h in
    let dash = fold_dash d rest in ground arith

capitalized_cases : (s : Text) → (capitalized s ≡ s) ⊎ (s ≡ b'o' ∷ drop 1 (capitalized s))
unfolding capitalized
capitalized_cases s = elim (Bool-cases (casefold (take 2 s) == codes "o-")) [
  | inl e ↦ rw e (elim (fold_two s (eq_of_beq _ _ e)) [ inl p ↦ inr p | inr p ↦ inl (sym p) ])
  | inr e ↦ rw e (inl refl)
]

-- An order number is its own `capitalized`, and so is it with the other case of its letter.
capitalized-upper : (s : Text) → capitalized (b'O' ∷ b'-' ∷ s) ≡ b'O' ∷ b'-' ∷ s
unfolding capitalized casefold list_beq
capitalized-upper s = refl

capitalized-lower : (s : Text) → capitalized (b'o' ∷ b'-' ∷ s) ≡ b'O' ∷ b'-' ∷ s
unfolding capitalized casefold list_beq
capitalized-lower s = refl

order_id-starts : (t : Text) → is_order_id t ≡ true → t ≡ b'O' ∷ b'-' ∷ drop 2 t
unfolding is_order_id
order_id-starts [] h = cc
order_id-starts (o ∷ []) h = cc
order_id-starts (o ∷ dash ∷ digits) h = ground arith

abbrev pub Spells : Text → Text → Type 0
Spells s t = (strip s ≡ t) ⊎ (strip s ≡ b'o' ∷ drop 1 t)

capitalized-Spells : (s t : Text) → is_order_id t ≡ true → Spells s t → capitalized (strip s) ≡ t
capitalized-Spells s t h (inl e) =
    rw e (subst (λ u. capitalized u ≡ u) (sym (order_id-starts t h)) (capitalized-upper (drop 2 t)))
capitalized-Spells s t h (inr e) = rw e (
    subst (λ u. capitalized (b'o' ∷ drop 1 u) ≡ u) (sym (order_id-starts t h))
      (capitalized-lower (drop 2 t)))

pub normalize_order_id-is_order_id :
    (v : Json) (t : Text) → normalize_order_id v ≡ ok t → is_order_id t ≡ true
unfolding normalize_order_id
normalize_order_id-is_order_id (scalar (str s)) t h = ground arith
normalize_order_id-is_order_id (scalar s) t h = ground arith
normalize_order_id-is_order_id (arr xs) t h = ground arith
normalize_order_id-is_order_id (obj fs) t h = ground arith

-- `_normalize_order_id` accepts a text exactly when, without the white space round it, it is an
-- order number, or one whose letter is in lower case; and it returns that order number.
pub normalize_order_id-ok_iff :
    (s t : Text)
    → (normalize_order_id (scalar (str s)) ≡ ok t)
      ↔ ((is_order_id t ≡ true) × ((strip s ≡ t) ⊎ (strip s ≡ b'o' ∷ drop 1 t)))
unfolding normalize_order_id normalize_text
normalize_order_id-ok_iff s t = (sound, complete)
  where
    sound : normalize_text s ≡ ok t → (is_order_id t ≡ true) × Spells s t
    sound h = ground (arith, capitalized_cases (strip s))

    complete : (is_order_id t ≡ true) × Spells s t → normalize_text s ≡ ok t
    complete (v, h) = rw (capitalized-Spells s t v h, v)

-- A normalised order number is its own normal form.
pub normalize_order_id_idempotent :
    (v : Json) (t : Text) → normalize_order_id v ≡ ok t → normalize_order_id (scalar (str t)) ≡ ok t
normalize_order_id_idempotent v t h =
    let valid = normalize_order_id-is_order_id v t h in
    (normalize_order_id-ok_iff t t).1 (valid, inl (strip-solid t (order_id-IsSolid t valid)))
