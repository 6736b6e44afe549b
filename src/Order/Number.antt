-- ===== src/Order/Number.antt =====
-- `OrderId` of core/order.py and `_normalize_order_id` of core/request_processing.py.
pub mod Laws
use mini_agent.Prelude.{
  Result, Bool, if◌then◌else◌, err, take, ok, ◌==◌, ◌++◌, drop, nat_eq, list_eq, ◌∷◌, [], ◌&&◌, leb,
  length, all, false,
}
use mini_agent.Prelude.Texts.{is_digit, casefold, strip, Text, codes}
use mini_agent.Json.{Json, scalar, str}

-- `^O-[0-9]{4,20}$`
unfoldable pub is_order_id : Text → Bool
unfolding is_digit
is_order_id (o ∷ dash ∷ digits) =
    o == b'O'
    && dash == b'-'
    && leb 4 (length digits)
    && leb (length digits) 20
    && all is_digit digits
is_order_id s = false

pub data NumberError : Type 0 where
  invalid_candidate : NumberError

-- `if normalized[:2].casefold() == "o-": normalized = f"O-{normalized[2:]}"`
unfoldable pub capitalized : Text → Text
unfolding casefold
capitalized s = if casefold (take 2 s) == codes "o-" then codes "O-" ++ drop 2 s else s

unfoldable pub normalize_text : Text → Result NumberError Text
unfolding capitalized strip is_order_id
normalize_text s =
    let normalized = capitalized (strip s) in
    if is_order_id normalized then ok normalized else err invalid_candidate

unfoldable pub normalize_order_id : Json → Result NumberError Text
unfolding normalize_text
normalize_order_id (scalar (str s)) = normalize_text s
normalize_order_id v = err invalid_candidate
