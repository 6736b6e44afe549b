-- ===== src/Prelude/Results.antt =====
-- A Python call that may raise, as a value: `ok` of what it returns or `err` of what it raises.
use mathlib.Core.Path.{◌≡◌, refl, ap}
use mathlib.Core.Bool.{Bool, true, false}
use mathlib.Core.List.{List, [], ◌∷◌}

pub data Result {ℓ κ} (E : Type ℓ) (A : Type κ) : Type (ℓ ⊔ κ) where
  ok : A → Result E A
  err : E → Result E A

-- `if broken: raise e`
abbrev pub raise_if {ℓ} : {E : Type ℓ} → Bool → E → Result E (Unit {0})
raise_if broken e = elim broken [ true ↦ err e | false ↦ ok tt ]

infixl 5 ◌>>=◌
abbrev pub ◌>>=◌ {ℓ κ μ} :
    {E : Type ℓ} {A : Type κ} {B : Type μ} (r : Result E A) (next : A → Result E B) → Result E B
err e >>= next = err e
ok x >>= next = next x

infixl 5 ◌>>◌
abbrev pub ◌>>◌ {ℓ κ μ} :
    {E : Type ℓ} {A : Type κ} {B : Type μ} (r : Result E A) (next : Result E B) → Result E B
r >> next = r >>= λ _. next

pub >>=-eq-ok {ℓ κ μ} :
    {E : Type ℓ} {A : Type κ} {B : Type μ} {y : B} (r : Result E A) (next : A → Result E B)
    → (r >>= next) ≡ ok y
    → (x : A) × (r ≡ ok x) × (next x ≡ ok y)
>>=-eq-ok (err e) next h = cc
>>=-eq-ok (ok x) next h = (x, refl, h)

abbrev pub is_ok {ℓ κ} : {E : Type ℓ} {A : Type κ} → Result E A → Bool
is_ok (ok x) = true
is_ok (err e) = false

pub >>-is_ok {ℓ κ μ} :
    {E : Type ℓ} {A : Type κ} {B : Type μ} (r : Result E A) (next : Result E B)
    → is_ok (r >> next) ≡ true
    → (is_ok r ≡ true) × (is_ok next ≡ true)
>>-is_ok (err e) next h = cc
>>-is_ok (ok x) next h = (refl, h)

pub ok_value {ℓ κ} :
    {E : Type ℓ} {A : Type κ} (r : Result E A) → is_ok r ≡ true → (x : A) × (r ≡ ok x)
ok_value (ok x) h = (x, refl)
ok_value (err e) h = cc

-- A validator that passes, and that returns nothing but its argument, returns its argument.
pub ok-of_is_ok {ℓ κ} :
    {E : Type ℓ} {A : Type κ} (r : Result E A) (x : A)
    → ((v : A) → r ≡ ok v → v ≡ x)
    → is_ok r ≡ true
    → r ≡ ok x
ok-of_is_ok (ok v) x h t = ap ok (h v refl)
ok-of_is_ok (err e) x h t = cc

-- `except ...: raise other`
abbrev pub or_raise {ℓ κ μ} : {E : Type ℓ} {F : Type κ} {A : Type μ} → Result E A → F → Result F A
or_raise (ok x) f = ok x
or_raise (err e) f = err f

pub ok_injective {ℓ κ} :
    {E : Type ℓ} {A : Type κ} (x y : A) → ◌≡◌ {A = Result E A} (ok x) (ok y) → x ≡ y
ok_injective x y h = cc

pub or_raise-ok {ℓ κ μ} :
    {E : Type ℓ} {F : Type κ} {A : Type μ} (r : Result E A) (f : F) (x : A)
    → or_raise r f ≡ ok x
    → r ≡ ok x
or_raise-ok (ok y) f x h = cc
or_raise-ok (err e) f x h = cc

-- `tuple(f(x) for x in xs)`
unfoldable pub traverse {ℓ κ μ} :
    {E : Type ℓ} {A : Type κ} {B : Type μ} → (A → Result E B) → List A → Result E (List B)
traverse f [] = ok []
traverse f (x ∷ xs) = do y ← f x; ys ← traverse f xs; ok (y ∷ ys)
