-- ===== src/Wire/Multiply.antt =====
-- `multiply_decimal_string_by_int` of internal/infrastructure/cache/lua/deduct.lua: a price, as the
-- text of its digits, times a quantity. A Lua number is a double: what it rounds to is a
-- parameter, and a product of one digit and a carry is exact where ten times the quantity is.
use booking_monitor.Prelude.{
  ℕ, zero, suc, ◌+◌, ◌-◌, ◌*◌, ◌/◌, ◌%◌, ◌≡◌, ◌<◌, ◌≤◌, refl, ◌∙◌, ap, sym, true, false, Option,
  none, some, [], ◌∷◌, arith, ltb, ◌==◌, if◌then◌else◌, Bool-cases, inl, inr, ==_iff,
}
use booking_monitor.Domain.Currency.{Text}
use booking_monitor.Domain.TicketType.{is_empty}
use booking_monitor.Wire.Decimal.{is_digit, all_digits, value_from, value_right, parse_digits}
use booking_monitor.Wire.Decimal.RoundTrip.{
  value_from-reverse, all_digits-reverse, is_empty-reverse, parse_digits-reverse,
}
use mathlib.Core.List.{reverse, reverse-reverse}
use mathlib.Core.Option

-- The double nearest to a number, and `math.floor(x / 10)` of a double.
pub record Doubles : Type 0 where
  pub nearest : ℕ → ℕ
  pub tenth : ℕ → ℕ

-- 2 ^ 53.
abbrev pub max_exact : ℕ
max_exact = 9007199254740992

-- A double holds every integer up to 2 ^ 53.
pub record IsExact (dbl : Doubles) : Type 0 where
  pub nearest : (n : ℕ) → n ≤ max_exact → dbl.nearest n ≡ n
  pub tenth : (n : ℕ) → n ≤ max_exact → dbl.tenth n ≡ n / 10

-- `while carry > 0`: the carry itself is fuel enough.
unfoldable pub carry_digits : Doubles → ℕ → ℕ → Text
carry_digits dbl zero carry = []
carry_digits dbl (suc fuel) carry =
    let rest = (carry % 10 + 48) ∷ carry_digits dbl fuel (dbl.tenth carry) in
    if ltb 0 carry then rest else []

-- The loop over the digits from the right, and the digits of the last carry.
unfoldable pub multiply_loop : Doubles → ℕ → ℕ → Text → Option Text
unfolding carry_digits
multiply_loop dbl k carry [] = some (carry_digits dbl (suc carry) carry)
multiply_loop dbl k carry (c ∷ cs) =
    let product : ℕ = dbl.nearest (dbl.nearest ((c - 48) * k) + carry) in
    let rest = multiply_loop dbl k (dbl.tenth product) cs in
    if is_digit c then Option.map (λ out. (product % 10 + 48) ∷ out) rest else none

unfoldable pub multiply_decimal_string_by_int : Doubles → Text → ℕ → Option Text
unfolding multiply_loop
multiply_decimal_string_by_int dbl s k =
    if k == 0 then some (b'0' ∷ []) else Option.map reverse (multiply_loop dbl k 0 (reverse s))

product_value :
    (a k carry v s : ℕ)
    → v ≡ s * k + (a * k + carry) / 10
    → ((a * k + carry) % 10 + 48 - 48) + 10 * v ≡ (a + 10 * s) * k + carry
product_value a k carry v s e = grind arith

one_digit : (a k : ℕ) → a ≤ 9 → a * k ≤ 9 * k
one_digit a k h =
    let spare : 9 ≡ a + (9 - a) = omega arith in
    let e : 9 * k ≡ (a + (9 - a)) * k = ap (λ n. n * k) spare in omega arith

module _ (dbl : Doubles) (exact : IsExact dbl) where
  carry_digits-value :
      (fuel carry : ℕ)
      → carry < fuel
      → carry ≤ max_exact
      → value_right (carry_digits dbl fuel carry) ≡ carry
  unfolding carry_digits value_right
  carry_digits-value zero carry h small = absurd (omega arith)
  carry_digits-value (suc fuel) carry h small =
      rw (exact.tenth carry small) (ground (arith, carry_digits-value fuel (carry / 10)))

  carry_digits-digits : (fuel carry : ℕ) → all_digits (carry_digits dbl fuel carry) ≡ true
  unfolding carry_digits all_digits
  carry_digits-digits zero carry = refl
  carry_digits-digits (suc fuel) carry = ground (arith, carry_digits-digits fuel (dbl.tenth carry))

  -- One round of the loop, where the doubles are exact.
  multiply_loop-step :
      (k carry c : ℕ) (s out : Text)
      → is_digit c ≡ true
      → (c - 48) * k + carry ≤ max_exact
      → multiply_loop dbl k (((c - 48) * k + carry) / 10) s ≡ some out
      → multiply_loop dbl k carry (c ∷ s) ≡ some ((((c - 48) * k + carry) % 10 + 48) ∷ out)
  unfolding multiply_loop
  multiply_loop-step k carry c s out digit small e =
      let first = exact.nearest ((c - 48) * k) (omega arith) in
      let sum = exact.nearest ((c - 48) * k + carry) small in
      let next = exact.tenth ((c - 48) * k + carry) small in rw (digit, first, sum, next, e) refl

  -- The loop's digits, from the right, are those of the product and the carry.
  multiply_loop-value :
      (k carry : ℕ) (s : Text)
      → 10 * k ≤ max_exact
      → carry ≤ k
      → all_digits s ≡ true
      → (out : Text) × (multiply_loop dbl k carry s ≡ some out)
        × (value_right out ≡ value_right s * k + carry)
        × (all_digits out ≡ true)
        × (is_empty s ≡ false → is_empty out ≡ false)
  unfolding multiply_loop value_right all_digits
  multiply_loop-value k carry [] wide small d = (
    carry_digits dbl (suc carry) carry,
    refl,
    carry_digits-value (suc carry) carry (omega arith) (omega arith) ∙ omega arith,
    carry_digits-digits (suc carry) carry,
    λ n. cc,
  )
  multiply_loop-value k carry (c ∷ s) wide small d =
      let digit : is_digit c ≡ true = ground arith in
      let nine : c - 48 ≤ 9 = unfold is_digit in ground arith in
      let bound : (c - 48) * k ≤ 9 * k = one_digit (c - 48) k nine in
      let product : ℕ = (c - 48) * k + carry in
      let (out, e, v, a, _) =
        multiply_loop-value k (product / 10) s wide (omega arith) (ground arith) in
      (
        (product % 10 + 48) ∷ out,
        multiply_loop-step k carry c s out digit (omega arith) e,
        product_value (c - 48) k carry (value_right out) (value_right s) v,
        ground arith,
        λ _. refl,
      )

parse_digits-inv :
    (s : Text) (p : ℕ)
    → parse_digits s ≡ some p
    → (is_empty s ≡ false) × (all_digits s ≡ true) × (value_from 0 s ≡ p)
unfolding parse_digits
parse_digits-inv s p e = (ground arith, ground arith, ground arith)

value_right-reverse : (s : Text) → value_right (reverse s) ≡ value_from 0 s
value_right-reverse s = sym (value_from-reverse (reverse s)) ∙ ap (value_from 0) (reverse-reverse s)

times_zero : (p k : ℕ) → (k == 0) ≡ true → 0 ≡ p * k
times_zero p k z = grind (arith, (==_iff k 0).0 z)

-- The product of a price and a quantity is exact, whatever the price: if the text is a number's
-- digits, and ten times the quantity is at most 2 ^ 53, then the answer is the digits of that number
-- times the quantity. A double holds every integer up to 2 ^ 53.
pub multiply_decimal-exact :
    (dbl : Doubles)
    → IsExact dbl
    → (s : Text) (p k : ℕ) → 10 * k ≤ max_exact
    → parse_digits s ≡ some p
    → (out : Text) × (multiply_decimal_string_by_int dbl s k ≡ some out)
      × (parse_digits out ≡ some (p * k))
unfolding multiply_decimal_string_by_int
multiply_decimal-exact dbl exact s p k wide e = elim (Bool-cases (k == 0)) [
  | inl z ↦ (
    b'0' ∷ [],
    rw z refl,
    unfold parse_digits all_digits value_from in ap some (times_zero p k z),
  )
  | inr z ↦
      let (ne, d, w) = parse_digits-inv s p e in
      let (out, m, v, a, n) =
        multiply_loop-value dbl exact k 0 (reverse s) wide (omega arith)
          (all_digits-reverse s ∙ d) in
      (
        reverse out,
        rw (z, m) refl,
        parse_digits-reverse out (n (is_empty-reverse s ∙ ne)) a
            ∙ ap some (rw (v, value_right-reverse s, w) (omega arith)),
      )
]
