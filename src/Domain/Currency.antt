-- ===== src/Domain/Currency.antt =====
-- internal/domain/currency.go. A text is the list of its bytes. `strings.ToLower` takes a loop over
-- the bytes where all are ASCII; for any other text the Unicode tables are a parameter, `lower`.
use booking_monitor.Prelude.{
  ℕ, ◌+◌, ◌≡◌, refl, Bool, true, false, not, ◌&&◌, ◌||◌, List, [], ◌∷◌, map, ltb, ◌==◌,
  if◌then◌else◌, length, arith,
}

abbrev pub Text : Type 0
Text = List ℕ

unfoldable pub is_ascii : Text → Bool
is_ascii [] = true
is_ascii (c ∷ cs) = ltb c 128 && is_ascii cs

lower_byte : ℕ → ℕ
lower_byte c = if (ltb c b'A' || ltb b'Z' c) then c else c + 32

unfoldable pub normalize_currency : (Text → Text) → Text → Text
unfolding is_ascii lower_byte
normalize_currency lower s = if is_ascii s then map lower_byte s else lower s

-- The loop over the bytes: the first that is no letter makes the answer `false`.
all_letters : Text → Bool
all_letters [] = true
all_letters (c ∷ cs) =
    if ((ltb c b'a' || ltb b'z' c) && (ltb c b'A' || ltb b'Z' c)) then false else all_letters cs

unfoldable pub is_valid_currency_code : Text → Bool
unfolding all_letters
is_valid_currency_code s = if not (length s == 3) then false else all_letters s

-- Go's `==` on texts.
unfoldable pub same_text : Text → Text → Bool
same_text [] [] = true
same_text (x ∷ xs) (y ∷ ys) = x == y && same_text xs ys
same_text _ _ = false

pub same_text_refl : (t : Text) → same_text t t ≡ true
unfolding same_text
same_text_refl [] = refl
same_text_refl (x ∷ xs) = ground (arith, same_text_refl xs)
