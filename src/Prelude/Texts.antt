-- ===== src/Prelude/Texts.antt =====
-- Python's `str` as the list of its code points, with the methods that the program calls.
use mini_agent.Prelude.{
  ◌||◌, take, Option, not, false, length, true, all, drop, some, nat_eq, list_eq, none, ◌≡◌, ◌↔◌,
  list_beq_iff, option_beq_iff, option_eq,
}
use Prim.Native.Char.{code}
use Prim.Native.String.{String}
use mini_agent.Prelude.Lists.{contains, is_empty}
use mini_agent.Prelude.Tests.{◌==◌, nat_eq, leb, if◌then◌else◌}
use Prim.Native.Nat.{ℕ, ◌+◌}
use mathlib.Core.Bool.{Bool, ◌&&◌}
use mathlib.Core.List.{List, [], ◌∷◌, ◌++◌}

abbrev pub Text : Type 0
Text = List ℕ

-- The code points of a literal.
abbrev pub codes : String → Text
codes String.[] = []
codes (String.◌∷◌ c s) = code c ∷ codes s

unfoldable pub is_digit : ℕ → Bool
is_digit c = leb b'0' c && leb c b'9'

unfoldable pub is_upper : ℕ → Bool
is_upper c = leb b'A' c && leb c b'Z'

unfoldable pub is_lower : ℕ → Bool
is_lower c = leb b'a' c && leb c b'z'

-- The code points that `str.strip()` removes: those for which `str.isspace` holds.
abbrev pub white_space : List ℕ
white_space =
    9 ∷ 10 ∷ 11 ∷ 12 ∷ 13 ∷ 28 ∷ 29 ∷ 30 ∷ 31 ∷ 32 ∷ 133 ∷ 160 ∷ 5760 ∷ 8192 ∷ 8193 ∷ 8194 ∷ 8195
    ∷ 8196 ∷ 8197 ∷ 8198 ∷ 8199 ∷ 8200 ∷ 8201 ∷ 8202 ∷ 8232 ∷ 8233 ∷ 8239 ∷ 8287 ∷ 12288 ∷ []

unfoldable pub is_space : ℕ → Bool
unfolding contains
is_space c = contains c white_space

unfoldable pub lstrip : Text → Text
lstrip [] = []
lstrip (c ∷ s) = let rest = lstrip s in if is_space c then rest else c ∷ s

unfoldable pub rstrip : Text → Text
rstrip [] = []
rstrip (c ∷ s) = let rest = rstrip s in if is_empty rest && is_space c then [] else c ∷ rest

unfoldable pub strip : Text → Text
unfolding lstrip rstrip
strip s = rstrip (lstrip s)

-- Case folding of one code point, exact wherever the folded text is ASCII. Every other code point
-- folds to a text with a character outside ASCII, and is left as it is, so that a comparison with
-- an ASCII text has the result that it has in Python.
abbrev pub fold_table : List (ℕ × Text)
fold_table =
    (0xdf, codes "ss")
    ∷ (0x17f, codes "s")
    ∷ (0x1e9e, codes "ss")
    ∷ (0x212a, codes "k")
    ∷ (0xfb00, codes "ff")
    ∷ (0xfb01, codes "fi")
    ∷ (0xfb02, codes "fl")
    ∷ (0xfb03, codes "ffi")
    ∷ (0xfb04, codes "ffl")
    ∷ (0xfb05, codes "st")
    ∷ (0xfb06, codes "st")
    ∷ []

unfoldable pub fold_special : ℕ → List (ℕ × Text) → Text
fold_special c [] = c ∷ []
fold_special c ((d, s) ∷ rest) = if d == c then s else fold_special c rest

unfoldable pub fold_code : ℕ → Text
unfolding is_upper fold_special
fold_code c = if is_upper c then (c + 32) ∷ [] else fold_special c fold_table

unfoldable pub casefold : Text → Text
unfolding fold_code
casefold [] = []
casefold (c ∷ s) = fold_code c ++ casefold s

unfoldable pub is_hex : ℕ → Bool
unfolding is_digit
is_hex c = is_digit c || leb b'a' c && leb c b'f'

-- `^…[0-9a-f]{64}$` behind a fixed prefix
unfoldable pub digest_after : Text → Text → Bool
unfolding is_hex
digest_after prefix s =
    take (length prefix) s == prefix
    && length (drop (length prefix) s) == 64
    && all is_hex (drop (length prefix) s)

abbrev pub none_or {ℓ} : {A : Type ℓ} → (A → Bool) → Option A → Bool
none_or p none = true
none_or p (some s) = p s

abbrev pub non_empty : Text → Bool
non_empty s = not (is_empty s)

-- `^[a-z][a-z0-9_]*$`
unfoldable pub is_tool_name : Text → Bool
unfolding is_lower is_digit
is_tool_name [] = false
is_tool_name (c ∷ s) = is_lower c && all (λ d. is_lower d || is_digit d || d == b'_') s

-- `^[A-Z][A-Z0-9_]{1,127}$`
unfoldable pub is_reason_code : Text → Bool
unfolding is_upper is_digit
is_reason_code [] = false
is_reason_code (c ∷ s) =
    is_upper c
    && leb 1 (length s)
    && leb (length s) 127
    && all (λ d. is_upper d || is_digit d || d == b'_') s

-- A UUID is read for equality alone.
abbrev pub Uuid : Type 0
Uuid = ℕ

pub text_iff : (s t : Text) → ((s == t) ≡ true) ↔ (s ≡ t)
text_iff = list_beq_iff

pub option_text_iff : (s t : Option Text) → ((s == t) ≡ true) ↔ (s ≡ t)
option_text_iff = option_beq_iff
