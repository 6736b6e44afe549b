-- ===== src/Json.antt =====
-- src/mini_agent/core/common.py: JSON values, and the scan for fields that only the Runtime may set.
pub mod Trusted
pub mod Heap
use mini_agent.Prelude.{
  ℕ, zero, suc, ◌+◌, ◌-◌, ◌*◌, ◌^◌, Bool, true, false, ◌&&◌, Option, none, some, List, [], ◌∷◌,
  ◌==◌, nat_eq, option_eq, list_eq, if◌then◌else◌, contains,
}
use mini_agent.Prelude.Int.{ℤ, pos, negsuc, int_eq}
use mini_agent.Prelude.Texts.{Text, codes, casefold}

-- A finite float is a whole number of units of 2 ^ -1074; `infinite true` is the positive one.
pub data Float : Type 0 where
  finite : ℤ → Float
  infinite : Bool → Float
  nan : Float

pub data Scalar : Type 0 where
  null : Scalar
  bool : Bool → Scalar
  int : ℤ → Scalar
  float : Float → Scalar
  str : Text → Scalar

mutual
  pub data Json : Type 0 where
    scalar : Scalar → Json
    arr : Items → Json
    obj : Fields → Json

  pub data Items : Type 0 where
    nil : Items
    cons : Json → Items → Items

  pub data Fields : Type 0 where
    end : Fields
    field : Text → Json → Fields → Fields

-- Python compares `bool`, `int` and `float` by value: here in units of 2 ^ -1074.
scale : ℤ → ℤ
scale (pos n) = pos (n * 2 ^ 1074)
scale (negsuc n) = negsuc (n * 2 ^ 1074 + (2 ^ 1074 - 1))

number : Scalar → Option ℤ
unfolding scale
number (bool true) = some (scale (pos 1))
number (bool false) = some (pos 0)
number (int n) = some (scale n)
number (float (finite u)) = some u
number s = none

same_number : Option ℤ → Option ℤ → Bool
same_number (some a) (some b) = a == b
same_number _ _ = false

-- `==` of two scalars
unfoldable pub scalar_eq : Scalar → Scalar → Bool
unfolding number same_number
scalar_eq null null = true
scalar_eq (str s) (str t) = s == t
scalar_eq (float (infinite a)) (float (infinite b)) = if a then b else if b then false else true
scalar_eq s t = same_number (number s) (number t)

unfoldable pub count_fields : Fields → ℕ
count_fields end = 0
count_fields (field k v fs) = suc (count_fields fs)

unfoldable pub find_field : Text → Fields → Option Json
find_field k end = none
find_field k (field j v fs) = if j == k then some v else find_field k fs

-- `==` of two values: `dict` equality does not look at the order of the keys.
unfoldable mutual
  unfolding scalar_eq count_fields find_field

  pub json_eq : Json → Json → Bool
  json_eq (scalar s) (scalar t) = scalar_eq s t
  json_eq (arr xs) (arr ys) = items_eq xs ys
  json_eq (obj fs) (obj gs) = count_fields fs == count_fields gs && fields_eq fs gs
  json_eq _ _ = false

  pub items_eq : Items → Items → Bool
  items_eq nil nil = true
  items_eq (cons x xs) (cons y ys) = json_eq x y && items_eq xs ys
  items_eq _ _ = false

  pub fields_eq : Fields → Fields → Bool
  fields_eq end gs = true
  fields_eq (field k v fs) gs =
      elim (find_field k gs) [ none ↦ false | some w ↦ json_eq v w ] && fields_eq fs gs

-- `TRUSTED_ARGUMENT_FIELDS`
abbrev pub trusted_argument_fields : List Text
trusted_argument_fields =
    codes "auth_scope"
    ∷ codes "auth_scopes"
    ∷ codes "authorization_scope"
    ∷ codes "customer_id"
    ∷ codes "idempotency_key"
    ∷ codes "owner_customer_id"
    ∷ codes "run_id"
    ∷ codes "session_id"
    ∷ codes "session_ref_hash"
    ∷ codes "subject_ref"
    ∷ codes "trusted_context_ref"
    ∷ []

unfoldable pub is_trusted : Text → Bool
is_trusted k = contains k trusted_argument_fields

unfoldable mutual
  pub find_trusted_argument_field : Json → Option Text
  find_trusted_argument_field (scalar s) = none
  find_trusted_argument_field (arr xs) = find_trusted_item xs
  find_trusted_argument_field (obj fs) = find_trusted_field fs

  pub find_trusted_item : Items → Option Text
  find_trusted_item nil = none
  find_trusted_item (cons x xs) =
      let later = find_trusted_item xs in
      elim (find_trusted_argument_field x) [ some k ↦ some k | none ↦ later ]

  pub find_trusted_field : Fields → Option Text
  find_trusted_field end = none
  find_trusted_field (field key v fs) =
      let found = find_trusted_argument_field v in
      let later = find_trusted_field fs in
      if is_trusted (casefold key)
      then some (casefold key)
      else elim found [ some k ↦ some k | none ↦ later ]

-- No float is an infinity or NaN, as `freeze_json_value` and `thaw_json_value` require.
unfoldable mutual
  pub all_finite : Json → Bool
  all_finite (scalar (float (infinite b))) = false
  all_finite (scalar (float nan)) = false
  all_finite (scalar s) = true
  all_finite (arr xs) = items_finite xs
  all_finite (obj fs) = fields_finite fs

  pub items_finite : Items → Bool
  items_finite nil = true
  items_finite (cons x xs) = all_finite x && items_finite xs

  pub fields_finite : Fields → Bool
  fields_finite end = true
  fields_finite (field k v fs) = all_finite v && fields_finite fs

abbrev pub fields : List (Text × Json) → Fields
fields [] = end
fields ((k, v) ∷ rest) = field k v (fields rest)

abbrev pub items : List Json → Items
items [] = nil
items (x ∷ rest) = cons x (items rest)

abbrev pub text : Text → Json
text s = scalar (str s)
