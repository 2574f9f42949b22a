-- ===== src/Prelude/Int.antt =====
-- Go's signed integers over the native numbers, under the library's names. Sums and orders go
-- through the two parts of an integer, which are numbers that `omega` reads.
use Prim.Native.Nat.{ℕ, suc, ◌+◌, ◌-◌, ◌≤◌, ◌<◌}
use mathlib.Core.Path.{◌≡◌, ap}
use mathlib.Core.Bool.{Bool, true, false}
use native.Mathlib.Omega.{arith}
use booking_monitor.Prelude.Tests.{ltb, leb, if◌then◌else◌}

-- `negsuc n` is -(n + 1).
pub data ℤ : Type 0 where
  pos : ℕ → ℤ
  negsuc : ℕ → ℤ

abbrev pub pos_part : ℤ → ℕ
pos_part (pos n) = n
pos_part (negsuc n) = 0

abbrev pub neg_part : ℤ → ℕ
neg_part (pos n) = 0
neg_part (negsuc n) = suc n

-- a - b, as an integer.
abbrev pub sub_ℕ : ℕ → ℕ → ℤ
sub_ℕ a b = if leb b a then pos (a - b) else negsuc (b - a - 1)

infixl 65 ◌+ℤ◌ ◌-ℤ◌
infix 50 ◌≤ℤ◌ ◌<ℤ◌
unfoldable pub ◌+ℤ◌ : ℤ → ℤ → ℤ
a +ℤ b = sub_ℕ (pos_part a + pos_part b) (neg_part a + neg_part b)

unfoldable pub ◌-ℤ◌ : ℤ → ℤ → ℤ
a -ℤ b = sub_ℕ (pos_part a + neg_part b) (neg_part a + pos_part b)

abbrev pub ◌≤ℤ◌ : ℤ → ℤ → Type 0
a ≤ℤ b = pos_part a + neg_part b ≤ pos_part b + neg_part a

abbrev pub ◌<ℤ◌ : ℤ → ℤ → Type 0
a <ℤ b = pos_part a + neg_part b < pos_part b + neg_part a

abbrev pub leb_ℤ : ℤ → ℤ → Bool
leb_ℤ a b = leb (pos_part a + neg_part b) (pos_part b + neg_part a)

abbrev pub ltb_ℤ : ℤ → ℤ → Bool
ltb_ℤ a b = ltb (pos_part a + neg_part b) (pos_part b + neg_part a)

-- Go's test `x <= 0`.
abbrev pub nonpositive : ℤ → Bool
nonpositive x = leb_ℤ x (pos 0)

-- One lemma for each operation lets `omega` work with the operations shut, at any depth.
pub +ℤ_parts :
    (a b : ℤ)
    → pos_part (a +ℤ b) + neg_part a + neg_part b ≡ neg_part (a +ℤ b) + pos_part a + pos_part b
unfolding ◌+ℤ◌
+ℤ_parts a b = ground arith

pub -ℤ_parts :
    (a b : ℤ)
    → pos_part (a -ℤ b) + neg_part a + pos_part b ≡ neg_part (a -ℤ b) + pos_part a + neg_part b
unfolding ◌-ℤ◌
-ℤ_parts a b = ground arith

pub eq_of_parts : (a b : ℤ) → pos_part a + neg_part b ≡ pos_part b + neg_part a → a ≡ b
eq_of_parts a b h = ground arith

pub leb→le_ℤ : (a b : ℤ) → leb_ℤ a b ≡ true → a ≤ℤ b
leb→le_ℤ a b h = ground arith

pub leb→gt_ℤ : (a b : ℤ) → leb_ℤ a b ≡ false → b <ℤ a
leb→gt_ℤ a b h = ground arith

pub ruleset int_laws = (arith, +ℤ_parts, -ℤ_parts, eq_of_parts)

-- Sums of integers: what the books of stock and holdings need.
pub add_swap : (a b c : ℤ) → a +ℤ b +ℤ c ≡ c +ℤ b +ℤ a
add_swap a b c =
    eq_of_parts _ _
      (omega (arith, +ℤ_parts a b, +ℤ_parts (a +ℤ b) c, +ℤ_parts c b, +ℤ_parts (c +ℤ b) a))

pub add_under : (a b b' c d : ℤ) → b +ℤ c ≡ b' +ℤ d → a +ℤ b +ℤ c ≡ a +ℤ b' +ℤ d
add_under a b b' c d e = eq_of_parts _ _ (
    omega (
      arith,
      ap pos_part e,
      ap neg_part e,
      +ℤ_parts a b,
      +ℤ_parts a b',
      +ℤ_parts (a +ℤ b) c,
      +ℤ_parts (a +ℤ b') d,
      +ℤ_parts b c,
      +ℤ_parts b' d,
    ))

pub add_cancel : (a b c : ℤ) → a +ℤ c ≡ b +ℤ c → a ≡ b
add_cancel a b c e =
    eq_of_parts _ _ (omega (arith, ap pos_part e, ap neg_part e, +ℤ_parts a c, +ℤ_parts b c))

pub add_zero : (a : ℤ) → a +ℤ pos 0 ≡ a
add_zero a = eq_of_parts _ _ (omega (arith, +ℤ_parts a (pos 0)))

pub add_last : (a b c : ℤ) → a +ℤ b +ℤ c ≡ a +ℤ c +ℤ b
add_last a b c =
    eq_of_parts _ _
      (omega (arith, +ℤ_parts a b, +ℤ_parts (a +ℤ b) c, +ℤ_parts a c, +ℤ_parts (a +ℤ c) b))

pub sub_add : (a b c : ℤ) → a +ℤ c ≡ a -ℤ b +ℤ c +ℤ b
sub_add a b c =
    eq_of_parts _ _
      (omega (arith, -ℤ_parts a b, +ℤ_parts (a -ℤ b) c, +ℤ_parts (a -ℤ b +ℤ c) b, +ℤ_parts a c))

pub add_inner : (a b c : ℤ) → a +ℤ (b +ℤ c) ≡ a +ℤ c +ℤ b
add_inner a b c =
    eq_of_parts _ _
      (omega (arith, +ℤ_parts b c, +ℤ_parts a (b +ℤ c), +ℤ_parts a c, +ℤ_parts (a +ℤ c) b))

pub add_moved : (a b c : ℤ) → a +ℤ c ≡ b +ℤ pos 0 → b ≡ c +ℤ a
add_moved a b c e =
    eq_of_parts _ _
      (omega (arith, ap pos_part e, ap neg_part e, +ℤ_parts a c, +ℤ_parts b (pos 0), +ℤ_parts c a))
