-- ===== src/Wire/Decimal/RoundTrip.antt =====
-- The formats of strconv in both directions.
use booking_monitor.Prelude.{
  ℕ, zero, suc, ◌+◌, ◌-◌, ◌*◌, ◌/◌, ◌≤◌, ◌<◌, ◌≡◌, refl, ap, ◌∙◌, true, false, ◌&&◌, Option, none,
  some, [], ◌∷◌, ◌++◌, arith,
}
use booking_monitor.Prelude.Int.{ℤ, pos, negsuc}
use booking_monitor.Domain.Currency.{Text}
use booking_monitor.Domain.TicketType.{is_empty}
use booking_monitor.Wire.Decimal.{
  all_digits, value_from, value_right, parse_digits, max_int64, signed, negated, parse_int,
  digits_right, print, print_int,
}
use mathlib.Core.List.{reverse, reverse-cons}

value_from-append :
    (acc : ℕ) (s t : Text) → value_from acc (s ++ t) ≡ value_from (value_from acc s) t
unfolding value_from
value_from-append acc [] t = refl
value_from-append acc (c ∷ s) t = value_from-append (acc * 10 + (c - 48)) s t

-- The digits read from the left, or turned round and read from the right.
pub value_from-reverse : (s : Text) → value_from 0 (reverse s) ≡ value_right s
unfolding value_from value_right
value_from-reverse [] = refl
value_from-reverse (c ∷ s) =
    rw (reverse-cons c s)
      (value_from-append 0 (reverse s) (c ∷ []) ∙ omega (arith, value_from-reverse s))

pub all_digits-append : (s t : Text) → all_digits (s ++ t) ≡ (all_digits s && all_digits t)
unfolding all_digits
all_digits-append [] t = refl
all_digits-append (c ∷ s) t = ground (arith, all_digits-append s t)

pub all_digits-reverse : (s : Text) → all_digits (reverse s) ≡ all_digits s
unfolding all_digits
all_digits-reverse [] = refl
all_digits-reverse (c ∷ s) =
    rw (reverse-cons c s)
      (all_digits-append (reverse s) (c ∷ []) ∙ ground (arith, all_digits-reverse s))

is_empty-append : (s : Text) (c : ℕ) (t : Text) → is_empty (s ++ (c ∷ t)) ≡ false
is_empty-append [] c t = refl
is_empty-append (a ∷ s) c t = refl

pub is_empty-reverse : (s : Text) → is_empty (reverse s) ≡ is_empty s
is_empty-reverse [] = refl
is_empty-reverse (c ∷ s) = rw (reverse-cons c s) (is_empty-append (reverse s) c [])

-- Digits from the right, turned round, are read back as their value.
pub parse_digits-reverse :
    (s : Text)
    → is_empty s ≡ false
    → all_digits s ≡ true
    → parse_digits (reverse s) ≡ some (value_right s)
unfolding parse_digits
parse_digits-reverse s ne d =
    rw (is_empty-reverse s, all_digits-reverse s, ne, d, value_from-reverse s) refl

digits_right-value : (fuel n : ℕ) → n < fuel → value_right (digits_right fuel n) ≡ n
unfolding digits_right value_right
digits_right-value zero n h = absurd (omega arith)
digits_right-value (suc fuel) n h = ground (arith, digits_right-value fuel (n / 10))

digits_right-digits : (fuel n : ℕ) → n < fuel → all_digits (digits_right fuel n) ≡ true
unfolding digits_right all_digits
digits_right-digits zero n h = refl
digits_right-digits (suc fuel) n h = ground (arith, digits_right-digits fuel (n / 10))

digits_right-nonempty : (fuel n : ℕ) → n < fuel → is_empty (digits_right fuel n) ≡ false
unfolding digits_right
digits_right-nonempty zero n h = absurd (omega arith)
digits_right-nonempty (suc fuel) n h = ground arith

pub parse_digits-print : (n : ℕ) → parse_digits (print n) ≡ some n
unfolding print
parse_digits-print n =
    parse_digits-reverse (digits_right (suc n) n) (digits_right-nonempty (suc n) n (omega arith))
      (digits_right-digits (suc n) n (omega arith))
    ∙ ap some (digits_right-value (suc n) n (omega arith))

-- A text that starts with a digit has no sign.
pub parse_int_unsigned :
    (s : Text) (n : ℕ) → parse_digits s ≡ some n → n ≤ max_int64 → parse_int s ≡ some (pos n)
unfolding parse_int parse_digits all_digits
parse_int_unsigned [] n e h = cc
parse_int_unsigned (c ∷ s) n e h = ground arith

-- Whether a number fits in an int64.
abbrev pub IsInt64 : ℤ → Type 0
IsInt64 (pos n) = n ≤ max_int64
IsInt64 (negsuc n) = n ≤ max_int64

-- What go-redis prints for an integer of 64 bits is read back as that integer.
pub parse_int-print_int : (x : ℤ) → IsInt64 x → parse_int (print_int x) ≡ some x
unfolding print_int
parse_int-print_int (pos n) h = parse_int_unsigned (print n) n (parse_digits-print n) h
parse_int-print_int (negsuc n) h =
    unfold parse_int in rw (parse_digits-print (suc n)) (ground arith)

signed-IsInt64 : (o : Option ℕ) (x : ℤ) → signed o ≡ some x → IsInt64 x
signed-IsInt64 none x e = cc
signed-IsInt64 (some n) (pos m) e = ground arith
signed-IsInt64 (some n) (negsuc m) e = ground arith

negated-IsInt64 : (o : Option ℕ) (x : ℤ) → negated o ≡ some x → IsInt64 x
negated-IsInt64 none x e = cc
negated-IsInt64 (some n) (pos m) e = ground arith
negated-IsInt64 (some n) (negsuc m) e = ground arith

-- Every integer that is read lies in the range of an int64.
pub parse_int-IsInt64 : (s : Text) (x : ℤ) → parse_int s ≡ some x → IsInt64 x
unfolding parse_int
parse_int-IsInt64 [] x e = cc
parse_int-IsInt64 (c ∷ s) x e = ground (
  arith,
  signed-IsInt64 (parse_digits s) x,
  negated-IsInt64 (parse_digits s) x,
  signed-IsInt64 (parse_digits (c ∷ s)) x,
)
