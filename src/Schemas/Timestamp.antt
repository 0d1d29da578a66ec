-- ===== src/Schemas/Timestamp.antt =====
-- TIMESTAMP_REGEX of kin-node/kin/schemas.py, ^\d{4}-\d{2}-\d{2}T\d{2}:\d{2}:\d{2}(\.\d+)?Z$, as
-- `re.match` reads it: `\d` is any decimal digit of Unicode (the zeros below are those of version
-- 15), and `$` also stands before a line feed at the end.
use kin_gateway.Prelude.{
  ℕ, ◌+◌, String, ◌≡◌, refl, Bool, true, false, ◌&&◌, ◌||◌, Option, none, some, List, [], ◌∷◌, leb,
  ◌==◌, if◌then◌else◌, codes,
}

abbrev digit_zeros : List ℕ
digit_zeros =
    48 ∷ 1632 ∷ 1776 ∷ 1984 ∷ 2406 ∷ 2534 ∷ 2662 ∷ 2790 ∷ 2918 ∷ 3046 ∷ 3174 ∷ 3302 ∷ 3430 ∷ 3558
    ∷ 3664 ∷ 3792 ∷ 3872 ∷ 4160 ∷ 4240 ∷ 6112 ∷ 6160 ∷ 6470 ∷ 6608 ∷ 6784 ∷ 6800 ∷ 6992 ∷ 7088
    ∷ 7232 ∷ 7248 ∷ 42528 ∷ 43216 ∷ 43264 ∷ 43472 ∷ 43504 ∷ 43600 ∷ 44016 ∷ 65296 ∷ 66720 ∷ 68912
    ∷ 69734 ∷ 69872 ∷ 69942 ∷ 70096 ∷ 70384 ∷ 70736 ∷ 70864 ∷ 71248 ∷ 71360 ∷ 71472 ∷ 71904 ∷ 72016
    ∷ 72784 ∷ 73040 ∷ 73120 ∷ 73552 ∷ 92768 ∷ 92864 ∷ 93008 ∷ 120782 ∷ 120792 ∷ 120802 ∷ 120812
    ∷ 120822 ∷ 123200 ∷ 123632 ∷ 124144 ∷ 125264 ∷ 130032 ∷ []

is_decimal_from : List ℕ → ℕ → Bool
is_decimal_from [] c = false
is_decimal_from (z ∷ zs) c = (leb z c && leb c (z + 9)) || is_decimal_from zs c

is_decimal : ℕ → Bool
unfolding is_decimal_from
is_decimal c = is_decimal_from digit_zeros c

-- A fixed character, or a digit.
pub data Item : Type 0 where
  digit : Item
  mark : ℕ → Item

fits : Item → ℕ → Bool
unfolding is_decimal
fits digit c = is_decimal c
fits (mark m) c = c == m

-- What is left of a text after a run of items.
consume : List Item → List ℕ → Option (List ℕ)
unfolding fits
consume [] cs = some cs
consume (i ∷ is) [] = none
consume (i ∷ is) (c ∷ cs) = let rest = consume is cs in if fits i c then rest else none

abbrev date_time : List Item
date_time =
    digit
    ∷ digit
    ∷ digit
    ∷ digit
    ∷ mark b'-'
    ∷ digit
    ∷ digit
    ∷ mark b'-'
    ∷ digit
    ∷ digit
    ∷ mark b'T'
    ∷ digit
    ∷ digit
    ∷ mark b':'
    ∷ digit
    ∷ digit
    ∷ mark b':'
    ∷ digit
    ∷ digit
    ∷ []

-- `Z$`
at_zone : List ℕ → Bool
at_zone (c ∷ []) = c == b'Z'
at_zone (c ∷ d ∷ []) = c == b'Z' && d == 10
at_zone _ = false

-- `\d*` and then `Z$`: no digit is a `Z`, so the run is the longest one.
after_digits : List ℕ → Bool
unfolding is_decimal at_zone
after_digits [] = false
after_digits (c ∷ cs) =
    let rest = after_digits cs in if is_decimal c then rest else at_zone (c ∷ cs)

-- `(\.\d+)?Z$`
fraction : List ℕ → Bool
unfolding is_decimal at_zone after_digits
fraction (c ∷ d ∷ cs) = if c == b'.' then is_decimal d && after_digits cs else at_zone (c ∷ d ∷ cs)
fraction cs = at_zone cs

tail_matches : Option (List ℕ) → Bool
unfolding fraction
tail_matches none = false
tail_matches (some cs) = fraction cs

unfoldable pub is_timestamp : String → Bool
unfolding tail_matches consume
is_timestamp s = tail_matches (consume date_time (codes s))

pub is_timestamp_whole : is_timestamp "2026-07-23T12:00:00.000Z" ≡ true
unfolding is_timestamp
is_timestamp_whole = refl

is_timestamp_no_zone : is_timestamp "2026-07-23T12:00:00" ≡ false
unfolding is_timestamp
is_timestamp_no_zone = refl
