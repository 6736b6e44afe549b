-- ===== src/Json/Heap/Total.antt =====
-- `freeze_json_value` always returns: the fuel of the model is never used up.
use mini_agent.Prelude.{
  ℕ, zero, suc, ◌+◌, ◌≤◌, ◌<◌, ◌≡◌, ◌≢◌, refl, true, false, Option, none, some, List, [], ◌∷◌,
  nat_eq, contains, distinct, length, get_elem?, if◌then◌else◌, Result, err, arith, Bool-cases, inl,
  inr, Option-cases, ◌==◌, ap,
}
use mini_agent.Prelude.Texts.{Text}
use mini_agent.Json.{Json}
use mini_agent.Json.Heap.{
  Value, atom, container, Cell, mapping, sequence, Heap, FreezeError, out_of_fuel, freeze_items,
  freeze_fields, freeze_cell, freeze_value, freeze_json_value,
}

abbrev Below : ℕ → List ℕ → Type 0
Below n [] = Unit
Below n (x ∷ xs) = (x < n) × Below n xs

-- `xs` without `k`
without : ℕ → List ℕ → List ℕ
without k [] = []
without k (x ∷ xs) = let rest = without k xs in if x == k then rest else x ∷ rest

contains-without :
    (k a : ℕ) (xs : List ℕ) → contains a xs ≡ false → contains a (without k xs) ≡ false
unfolding contains without
contains-without k a [] h = refl
contains-without k a (x ∷ xs) h = ground (arith, contains-without k a xs)

distinct-without : (k : ℕ) (xs : List ℕ) → distinct xs ≡ true → distinct (without k xs) ≡ true
unfolding distinct without
distinct-without k [] h = refl
distinct-without k (x ∷ xs) h = ground (arith, distinct-without k xs, contains-without k x xs)

without-absent : (k : ℕ) (xs : List ℕ) → contains k xs ≡ false → without k xs ≡ xs
unfolding contains without
without-absent k [] h = refl
without-absent k (x ∷ xs) h = ground (arith, without-absent k xs)

length-without :
    (k : ℕ) (xs : List ℕ) → distinct xs ≡ true → length xs ≤ suc (length (without k xs))
unfolding distinct without
length-without k [] h = omega arith
length-without k (x ∷ xs) h = elim (Bool-cases (x == k)) [
  | inl e ↦ rw e (omega (arith, ap length (without-absent k xs (absent e))))
  | inr e ↦ rw e (omega (arith, length-without k xs (ground arith)))
]
  where
    absent : (x == k) ≡ true → contains k xs ≡ false
    absent e = ground arith

Below-without : (n : ℕ) (xs : List ℕ) → Below (suc n) xs → Below n (without n xs)
unfolding without
Below-without n [] h = tt
Below-without n (x ∷ xs) h = elim (Bool-cases (x == n)) [
  | inl e ↦ rw e (Below-without n xs h.1)
  | inr e ↦ rw e (ground arith, Below-without n xs h.1)
]

-- Different numbers below `n` are at most `n` many.
length-le : (n : ℕ) (xs : List ℕ) → distinct xs ≡ true → Below n xs → length xs ≤ n
unfolding distinct
length-le n [] d h = omega arith
length-le zero (x ∷ xs) d h = absurd (omega arith)
length-le (suc n) (x ∷ xs) d h = omega (
  arith,
  length-without n (x ∷ xs) d,
  length-le n (without n (x ∷ xs)) (distinct-without n (x ∷ xs) d) (Below-without n (x ∷ xs) h),
)

get_elem?-lt {ℓ} :
    {A : Type ℓ} (xs : List A) (i : ℕ) {a : A} → get_elem? xs i ≡ some a → i < length xs
get_elem?-lt [] i h = cc
get_elem?-lt (x ∷ xs) zero h = omega arith
get_elem?-lt (x ∷ xs) (suc i) h = omega (arith, get_elem?-lt xs i h)

abbrev Ends : Value → (Value → Result FreezeError Json) → Type 0
Ends v go = go v ≢ err out_of_fuel

module _ (go : Value → Result FreezeError Json) (ends : (v : Value) → Ends v go) where
  freeze_items-ends : (vs : List Value) → freeze_items go vs ≢ err out_of_fuel
  unfolding freeze_items
  freeze_items-ends [] = ground arith
  freeze_items-ends (v ∷ vs) = ground (arith, ends v, freeze_items-ends vs)

  freeze_fields-ends : (kvs : List (Text × Value)) → freeze_fields go kvs ≢ err out_of_fuel
  unfolding freeze_fields
  freeze_fields-ends [] = ground arith
  freeze_fields-ends ((k, v) ∷ kvs) = ground (arith, ends v, freeze_fields-ends kvs)

  freeze_cell-ends : (c : Option Cell) → freeze_cell go c ≢ err out_of_fuel
  unfolding freeze_cell
  freeze_cell-ends none = ground arith
  freeze_cell-ends (some (mapping kvs)) = ground (arith, freeze_fields-ends kvs)
  freeze_cell-ends (some (sequence vs)) = ground (arith, freeze_items-ends vs)

freeze_value-ends :
    (fuel : ℕ) (h : Heap) (active : List ℕ) (v : Value)
    → distinct active ≡ true
    → Below (length h) active
    → length h < fuel + length active
    → freeze_value fuel h active v ≢ err out_of_fuel
unfolding freeze_value distinct
freeze_value-ends zero h active v d b f = absurd (omega (arith, length-le (length h) active d b))
freeze_value-ends (suc fuel) h active (atom s) d b f = ground arith
freeze_value-ends (suc fuel) h active (container a) d b f = elim (Bool-cases (contains a active)) [
  | inl seen ↦ rw seen (ground arith)
  | inr new ↦ rw new (elim (Option-cases (get_elem? h a)) [
    | inl gone ↦ rw gone (ground arith)
    | inr (c, there) ↦
        freeze_cell-ends _
          (λ u.
            freeze_value-ends fuel h (a ∷ active) u (ground arith) (get_elem?-lt h a there, b)
              (omega arith))
          (get_elem? h a)
  ])
]

-- Whatever the containers refer to, themselves included, freezing comes to an end within the fuel.
pub freeze-ne-out_of_fuel : (h : Heap) (v : Value) → freeze_json_value h v ≢ err out_of_fuel
unfolding freeze_json_value distinct
freeze-ne-out_of_fuel h v = freeze_value-ends (length h + 1) h [] v refl tt (omega arith)
