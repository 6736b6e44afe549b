-- ===== src/Json/Heap/Unfolding.antt =====
-- `freeze_json_value` returns exactly the finite tree that a value stands for.
use mini_agent.Prelude.{
  Result, ◌≡◌, true, ok, ℕ, List, get_elem?, ◌∷◌, some, >>=-eq-ok, [], refl, arith, Option-cases,
  ap, inl, inr, suc, ◌<◌, ◌≤◌, contains, ◌⊎◌, ◌↔◌, Bool-cases, false, err, length, zero, ◌+◌, ◌==◌,
  eq_of_beq, nat_eq,
}
use mini_agent.Json.Heap.Total.{freeze-ne-out_of_fuel}
use mini_agent.Json.Heap.{
  Value, atom, container, mapping, sequence, Heap, FreezeError, out_of_fuel, is_finite,
  freeze_items, freeze_fields, freeze_cell, freeze_value, freeze_json_value,
}
use mini_agent.Json.{Json, scalar, arr, obj, Items, nil, cons, Fields, end, field, Scalar}
use mini_agent.Prelude.Texts.{Text}

-- `Unfolds h v j`: following the references of `v` through the heap gives the finite tree `j`, and
-- every float on the way is finite.
mutual
  pub data Unfolds (h : Heap) : Value → Json → Type 0 where
    of_atom : {s : Scalar} → is_finite s ≡ true → Unfolds h (atom s) (scalar s)
    of_sequence :
        {a : ℕ} {vs : List Value} {xs : Items}
        → get_elem? h a ≡ some (sequence vs)
        → ItemsUnfold h vs xs
        → Unfolds h (container a) (arr xs)
    of_mapping :
        {a : ℕ} {kvs : List (Text × Value)} {fs : Fields}
        → get_elem? h a ≡ some (mapping kvs)
        → FieldsUnfold h kvs fs
        → Unfolds h (container a) (obj fs)

  pub data ItemsUnfold (h : Heap) : List Value → Items → Type 0 where
    no_item : ItemsUnfold h [] nil
    item :
        {v : Value} {j : Json} {vs : List Value} {xs : Items}
        → Unfolds h v j
        → ItemsUnfold h vs xs
        → ItemsUnfold h (v ∷ vs) (cons j xs)

  pub data FieldsUnfold (h : Heap) : List (Text × Value) → Fields → Type 0 where
    no_field : FieldsUnfold h [] end
    keyed :
        {k : Text} {v : Value} {j : Json} {kvs : List (Text × Value)} {fs : Fields}
        → Unfolds h v j
        → FieldsUnfold h kvs fs
        → FieldsUnfold h ((k, v) ∷ kvs) (field k j fs)

module _ (h : Heap) (go : Value → Result FreezeError Json)
    (sound : (v : Value) (j : Json) → go v ≡ ok j → Unfolds h v j) where
  items_sound : (vs : List Value) (xs : Items) → freeze_items go vs ≡ ok xs → ItemsUnfold h vs xs
  unfolding freeze_items
  items_sound [] nil e = no_item
  items_sound [] (cons x xs) e = cc
  items_sound (v ∷ vs) nil e = absurd (ground arith)
  items_sound (v ∷ vs) (cons x xs) e =
      item (sound v x (ground arith)) (items_sound vs xs (ground arith))

  fields_sound :
      (kvs : List (Text × Value)) (fs : Fields)
      → freeze_fields go kvs ≡ ok fs
      → FieldsUnfold h kvs fs
  unfolding freeze_fields
  fields_sound [] end e = no_field
  fields_sound [] (field k x fs) e = cc
  fields_sound ((k, v) ∷ kvs) end e = absurd (ground arith)
  fields_sound ((k, v) ∷ kvs) (field j x fs) e =
      let named : k ≡ j = ground arith in
      rw (← named) (keyed (sound v x (ground arith)) (fields_sound kvs fs (ground arith)))

  cell_sound :
      (a : ℕ) (j : Json) → freeze_cell go (get_elem? h a) ≡ ok j → Unfolds h (container a) j
  unfolding freeze_cell
  cell_sound a j e = elim (Option-cases (get_elem? h a)) [
    | inl gone ↦ absurd (ground arith)
    | inr (mapping kvs, there) ↦
        let (fs, p, q) = >>=-eq-ok (freeze_fields go kvs) (λ fs. ok (obj fs)) (rw there at e) in
        let r : obj fs ≡ j = cc in rw (← r) (of_mapping there (fields_sound kvs fs p))
    | inr (sequence vs, there) ↦
        let (xs, p, q) = >>=-eq-ok (freeze_items go vs) (λ xs. ok (arr xs)) (rw there at e) in
        let r : arr xs ≡ j = cc in rw (← r) (of_sequence there (items_sound vs xs p))
  ]

mutual
  deterministic :
      (h : Heap) {v w : Value} {j k : Json} → Unfolds h v j → Unfolds h w k → v ≡ w → j ≡ k
  deterministic h (of_atom p) (of_atom q) r = cc
  deterministic h (of_sequence e p) (of_sequence f q) r = ap arr (items_deterministic h p q (cc))
  deterministic h (of_mapping e p) (of_mapping f q) r = ap obj (fields_deterministic h p q (cc))
  deterministic h (of_sequence e p) (of_mapping f q) r = cc
  deterministic h (of_mapping e p) (of_sequence f q) r = cc
  deterministic h _ _ r = cc

  items_deterministic :
      (h : Heap) {vs ws : List Value} {xs ys : Items}
      → ItemsUnfold h vs xs
      → ItemsUnfold h ws ys
      → vs ≡ ws
      → xs ≡ ys
  items_deterministic h no_item no_item r = refl
  items_deterministic h (item p ps) (item q qs) r =
      cc (deterministic h p q (cc), items_deterministic h ps qs (cc))
  items_deterministic h _ _ r = cc

  fields_deterministic :
      (h : Heap) {vs ws : List (Text × Value)} {xs ys : Fields}
      → FieldsUnfold h vs xs
      → FieldsUnfold h ws ys
      → vs ≡ ws
      → xs ≡ ys
  fields_deterministic h no_field no_field r = refl
  fields_deterministic h (keyed p ps) (keyed q qs) r =
      ground
        (arith, deterministic h p q (ground arith), fields_deterministic h ps qs (ground arith))
  fields_deterministic h _ _ r = cc

freeze_value_sound :
    (fuel : ℕ) (h : Heap) (active : List ℕ) (v : Value) (j : Json)
    → freeze_value fuel h active v ≡ ok j
    → Unfolds h v j
unfolding freeze_value
freeze_value_sound zero h active v j e = cc
freeze_value_sound (suc fuel) h active (atom s) j e = elim (Bool-cases (is_finite s)) [
  | inl p ↦ let r : scalar s ≡ j = ground arith in rw (← r) (of_atom p)
  | inr p ↦ absurd (ground arith)
]
freeze_value_sound (suc fuel) h active (container a) j e =
    cell_sound h (freeze_value fuel h (a ∷ active)) (freeze_value_sound fuel h (a ∷ active)) a j
      (ground arith)

mutual
  size : Json → ℕ
  size (scalar s) = 1
  size (arr xs) = suc (size_items xs)
  size (obj fs) = suc (size_fields fs)

  size_items : Items → ℕ
  size_items nil = 0
  size_items (cons x xs) = size x + size_items xs

  size_fields : Fields → ℕ
  size_fields end = 0
  size_fields (field k v fs) = size v + size_fields fs

-- Each address of `active` stands for a tree that is larger than `n`.
abbrev Larger : Heap → ℕ → List ℕ → Type 0
Larger h n [] = Unit
Larger h n (a ∷ active) =
    ((j : Json) × Unfolds h (container a) j × (n < size j)) × Larger h n active

Larger-le : (h : Heap) (m n : ℕ) (active : List ℕ) → m ≤ n → Larger h n active → Larger h m active
Larger-le h m n [] l p = tt
Larger-le h m n (a ∷ active) l ((j, u, lt), p) = ((j, u, omega arith), Larger-le h m n active l p)

-- A value never stands for a tree within which it is met again.
not_active :
    (h : Heap) (a : ℕ) (j : Json) (active : List ℕ)
    → Unfolds h (container a) j
    → Larger h (size j) active
    → contains a active ≡ false
unfolding contains
not_active h a j [] u p = refl
not_active h a j (b ∷ active) u ((k, w, lt), p) = elim (Bool-cases (b == a)) [
  | inl e ↦ absurd (omega (arith, ap size (deterministic h w u (ap container (eq_of_beq b a e)))))
  | inr e ↦ rw e (not_active h a j active u p)
]

-- `r` is the tree `j`, unless the fuel was short.
abbrev Reaches {ℓ} : {A : Type ℓ} → Result FreezeError A → A → Type ℓ
Reaches r j = (r ≡ ok j) ⊎ (r ≡ err out_of_fuel)

module _ (h : Heap) (go : Value → Result FreezeError Json) where
  freeze_items-Reaches :
      (n : ℕ) {vs : List Value} {xs : Items}
      → ((v : Value) (j : Json) → Unfolds h v j → size j ≤ n → Reaches (go v) j)
      → ItemsUnfold h vs xs
      → size_items xs ≤ n
      → Reaches (freeze_items go vs) xs
  unfolding freeze_items size
  freeze_items-Reaches n ih no_item l = inl refl
  freeze_items-Reaches n ih (item {v} {j} u us) l =
      ground (arith, ih v j u (omega arith), freeze_items-Reaches n ih us (omega arith))

  freeze_fields-Reaches :
      (n : ℕ) {kvs : List (Text × Value)} {fs : Fields}
      → ((v : Value) (j : Json) → Unfolds h v j → size j ≤ n → Reaches (go v) j)
      → FieldsUnfold h kvs fs
      → size_fields fs ≤ n
      → Reaches (freeze_fields go kvs) fs
  unfolding freeze_fields size
  freeze_fields-Reaches n ih no_field l = inl refl
  freeze_fields-Reaches n ih (keyed {v} {j} u us) l =
      ground (arith, ih v j u (omega arith), freeze_fields-Reaches n ih us (omega arith))

freeze_value-Reaches :
    (fuel : ℕ) (h : Heap) (active : List ℕ) (v : Value) (j : Json)
    → Unfolds h v j
    → Larger h (size j) active
    → Reaches (freeze_value fuel h active v) j
unfolding freeze_value size
freeze_value-Reaches zero h active v j u p = inr refl
freeze_value-Reaches (suc fuel) h active (atom s) (scalar s') (of_atom f) p = rw f (inl refl)
freeze_value-Reaches (suc fuel) h active (atom s) (arr xs) u p = elim u [ ]
freeze_value-Reaches (suc fuel) h active (atom s) (obj fs) u p = elim u [ ]
freeze_value-Reaches (suc fuel) h active (container a) (scalar s') u p = elim u [ ]
freeze_value-Reaches (suc fuel) h active (container a) (arr xs) (of_sequence e us) p =
    let fresh = not_active h a (arr xs) active (of_sequence e us) p in
    let inner =
      freeze_items-Reaches h (freeze_value fuel h (a ∷ active)) (size_items xs)
        (λ v j u l. freeze_value-Reaches fuel h (a ∷ active) v j u (
          (arr xs, of_sequence e us, omega arith),
          Larger-le h (size j) (size (arr xs)) active (omega arith) p,
        ))
        us (omega arith) in
    ground arith
freeze_value-Reaches (suc fuel) h active (container a) (obj fs) (of_mapping e us) p =
    let fresh = not_active h a (obj fs) active (of_mapping e us) p in
    let inner =
      freeze_fields-Reaches h (freeze_value fuel h (a ∷ active)) (size_fields fs)
        (λ v j u l. freeze_value-Reaches fuel h (a ∷ active) v j u (
          (obj fs, of_mapping e us, omega arith),
          Larger-le h (size j) (size (obj fs)) active (omega arith) p,
        ))
        us (omega arith) in
    ground arith

-- Freezing returns a tree exactly when the value stands for that tree, finite and without
-- infinities or NaN; in every other case it raises.
pub freeze_iff : (h : Heap) (v : Value) (j : Json) → (freeze_json_value h v ≡ ok j) ↔ Unfolds h v j
unfolding freeze_json_value
freeze_iff h v j = (freeze_value_sound (length h + 1) h [] v j, complete)
  where
    complete : Unfolds h v j → freeze_value (length h + 1) h [] v ≡ ok j
    complete u = elim (freeze_value-Reaches (length h + 1) h [] v j u tt) [
      | inl e ↦ e
      | inr e ↦ absurd (freeze-ne-out_of_fuel h v e)
    ]
