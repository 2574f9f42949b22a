-- ===== src/Wire/Decimal.antt =====
-- Decimal texts: what go-redis and Redis print for an integer, and `strconv.Atoi` and
-- `strconv.ParseInt(s, 10, 64)`, which read one back (an `int` has 64 bits here).
pub mod RoundTrip
use booking_monitor.Prelude.{
  ℕ, zero, suc, ◌+◌, ◌-◌, ◌*◌, ◌/◌, ◌%◌, ◌≤◌, ◌<◌, ◌≡◌, refl, ap, ◌∙◌, Bool, true, false, not, ◌&&◌,
  ◌||◌, Option, none, some, List, [], ◌∷◌, ◌++◌, arith, ltb, leb, ◌==◌, if◌then◌else◌,
}
use booking_monitor.Prelude.Int.{ℤ, pos, negsuc, sub_ℕ}
use booking_monitor.Domain.Currency.{Text}
use booking_monitor.Domain.TicketType.{is_empty}
use mathlib.Core.List.{reverse}
use mathlib.Core.List.{reverse-cons}

abbrev pub is_digit : ℕ → Bool
is_digit c = leb b'0' c && leb c b'9'

unfoldable pub all_digits : Text → Bool
all_digits [] = true
all_digits (c ∷ cs) = is_digit c && all_digits cs

-- The value of digits from the left, after `acc`; and of digits from the right.
unfoldable pub value_from : ℕ → Text → ℕ
value_from acc [] = acc
value_from acc (c ∷ cs) = value_from (acc * 10 + (c - 48)) cs

unfoldable pub value_right : Text → ℕ
value_right [] = 0
value_right (c ∷ cs) = (c - 48) + 10 * value_right cs

unfoldable pub parse_digits : Text → Option ℕ
unfolding all_digits value_from
parse_digits s = if is_empty s || not (all_digits s) then none else some (value_from 0 s)

-- The range of an int64, 2 ^ 63 on the negative side.
abbrev pub max_int64 : ℕ
max_int64 = 9223372036854775807

abbrev pub signed : Option ℕ → Option ℤ
signed none = none
signed (some n) = if leb n max_int64 then some (pos n) else none

abbrev pub negated : Option ℕ → Option ℤ
negated none = none
negated (some n) = if leb n (max_int64 + 1) then some (sub_ℕ 0 n) else none

unfoldable pub parse_int : Text → Option ℤ
unfolding parse_digits
parse_int [] = none
parse_int (c ∷ cs) =
    if c == b'-'
    then negated (parse_digits cs)
    else if c == b'+'
    then signed (parse_digits cs)
    else signed (parse_digits (c ∷ cs))

-- The digits of a number from the right; the number itself is fuel enough.
unfoldable pub digits_right : ℕ → ℕ → Text
digits_right zero n = []
digits_right (suc fuel) n =
    let rest = (n % 10 + 48) ∷ digits_right fuel (n / 10) in
    if ltb n 10 then (n + 48) ∷ [] else rest

unfoldable pub print : ℕ → Text
unfolding digits_right
print n = reverse (digits_right (suc n) n)

unfoldable pub print_int : ℤ → Text
unfolding print
print_int (pos n) = print n
print_int (negsuc n) = b'-' ∷ print (suc n)
