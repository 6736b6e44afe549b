-- ===== src/Json/Trusted.antt =====
-- What `find_trusted_argument_field` of core/common.py finds, and that it misses nothing.
use mini_agent.Prelude.{
  ◌≡◌, false, none, arith, true, some, ◌↔◌, Option-cases, inl, inr, Bool-cases, refl,
}
use mini_agent.Prelude.Texts.{Text, casefold}
use mini_agent.Json.{
  Json, arr, obj, Items, cons, Fields, field, is_trusted, find_trusted_argument_field,
  find_trusted_item, find_trusted_field, scalar, nil, end,
}

-- `HasKey k v`: some object, at any depth of `v`, has the key `k`.
mutual
  pub data HasKey (k : Text) : Json → Type 0 where
    in_arr : {xs : Items} → ItemHasKey k xs → HasKey k (arr xs)
    in_obj : {fs : Fields} → FieldHasKey k fs → HasKey k (obj fs)

  pub data ItemHasKey (k : Text) : Items → Type 0 where
    here : {x : Json} {xs : Items} → HasKey k x → ItemHasKey k (cons x xs)
    there : {x : Json} {xs : Items} → ItemHasKey k xs → ItemHasKey k (cons x xs)

  pub data FieldHasKey (k : Text) : Fields → Type 0 where
    key : {j : Text} {v : Json} {fs : Fields} → j ≡ k → FieldHasKey k (field j v fs)
    nested : {j : Text} {v : Json} {fs : Fields} → HasKey k v → FieldHasKey k (field j v fs)
    later : {j : Text} {v : Json} {fs : Fields} → FieldHasKey k fs → FieldHasKey k (field j v fs)

mutual
  unfolding find_trusted_argument_field

  missed :
      (v : Json) (k : Text)
      → find_trusted_argument_field v ≡ none
      → HasKey k v
      → is_trusted (casefold k) ≡ false
  missed (scalar _) k h m = elim m [ ]
  missed (arr xs) k h (in_arr m) = missed_item xs k h m
  missed (obj fs) k h (in_obj m) = missed_field fs k h m

  missed_item :
      (xs : Items) (k : Text)
      → find_trusted_item xs ≡ none
      → ItemHasKey k xs
      → is_trusted (casefold k) ≡ false
  missed_item nil k h m = elim m [ ]
  missed_item (cons x xs) k h (here m) = missed x k (ground arith) m
  missed_item (cons x xs) k h (there m) = missed_item xs k (ground arith) m

  missed_field :
      (fs : Fields) (k : Text)
      → find_trusted_field fs ≡ none
      → FieldHasKey k fs
      → is_trusted (casefold k) ≡ false
  missed_field end k h m = elim m [ ]
  missed_field (field j v fs) k h (key e) = rw (← e) (ground arith)
  missed_field (field j v fs) k h (nested m) = missed v k (ground arith) m
  missed_field (field j v fs) k h (later m) = missed_field fs k (ground arith) m

-- A key that makes the scan return `t`.
abbrev Culprit : (Text → Type 0) → Text → Type 0
Culprit Has t = (k : Text) × Has k × (casefold k ≡ t) × (is_trusted t ≡ true)

mutual
  unfolding find_trusted_argument_field

  found :
      (v : Json) (t : Text) → find_trusted_argument_field v ≡ some t → Culprit (λ k. HasKey k v) t
  found (scalar s) t h = cc
  found (arr xs) t h = let (k, m, e, p) = found_item xs t h in (k, in_arr m, e, p)
  found (obj fs) t h = let (k, m, e, p) = found_field fs t h in (k, in_obj m, e, p)

  found_item :
      (xs : Items) (t : Text) → find_trusted_item xs ≡ some t → Culprit (λ k. ItemHasKey k xs) t
  found_item nil t h = cc
  found_item (cons x xs) t h = elim (Option-cases (find_trusted_argument_field x)) [
    | inl clean ↦ let (k, m, e, p) = found_item xs t (ground arith) in (k, there m, e, p)
    | inr (u, hit) ↦ let (k, m, e, p) = found x t (ground arith) in (k, here m, e, p)
  ]

  found_field :
      (fs : Fields) (t : Text) → find_trusted_field fs ≡ some t → Culprit (λ k. FieldHasKey k fs) t
  found_field end t h = cc
  found_field (field j v fs) t h = elim (Bool-cases (is_trusted (casefold j))) [
    | inl own ↦ (j, key refl, ground arith, ground arith)
    | inr other ↦ elim (Option-cases (find_trusted_argument_field v)) [
      | inl clean ↦ let (k, m, e, p) = found_field fs t (ground arith) in (k, later m, e, p)
      | inr (u, hit) ↦ let (k, m, e, p) = found v t (ground arith) in (k, nested m, e, p)
    ]
  ]

-- The scan returns nothing exactly when no key of any object, at any depth, is one of
-- `TRUSTED_ARGUMENT_FIELDS` up to case.
pub find_trusted-none_iff :
    (v : Json)
    → (find_trusted_argument_field v ≡ none)
      ↔ ((k : Text) → HasKey k v → is_trusted (casefold k) ≡ false)
find_trusted-none_iff v = (λ h k m. missed v k h m, complete)
  where
    complete :
        ((k : Text) → HasKey k v → is_trusted (casefold k) ≡ false)
        → find_trusted_argument_field v ≡ none
    complete h = elim (Option-cases (find_trusted_argument_field v)) [
      | inl e ↦ e
      | inr (t, e) ↦ let (k, m, f, p) = found v t e in cc (h k m)
    ]

-- What the scan returns is the folded form of a key that stands in the value, and is trusted.
pub find_trusted-some :
    (v : Json) (t : Text)
    → find_trusted_argument_field v ≡ some t
    → (k : Text) × HasKey k v × (casefold k ≡ t) × (is_trusted t ≡ true)
find_trusted-some = found
