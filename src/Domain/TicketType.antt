-- ===== src/Domain/TicketType.antt =====
-- internal/domain/ticket_type.go: the ticket type and its factory.
--
-- A name is a `Text`; `strings.TrimSpace` is written out for texts of ASCII bytes, and the Unicode
-- tables are the parameter `trim` for any other.
use booking_monitor.Prelude.{
  ℕ, Bool, true, false, not, ◌&&◌, ◌||◌, Option, none, some, [], ◌∷◌, ltb, leb, ◌==◌, if◌then◌else◌,
}
use booking_monitor.Prelude.Int.{ℤ, pos, nonpositive, ltb_ℤ}
use booking_monitor.Domain.Errors.{
  Result, ok, fail_if, ◌>>◌, invalid_ticket_type_id, invalid_ticket_type_event_id,
  invalid_ticket_type_name, invalid_ticket_type_price, invalid_ticket_type_currency,
  invalid_ticket_type_total, invalid_ticket_type_sale_window, invalid_ticket_type_per_user,
}
use booking_monitor.Domain.Currency.{Text, is_ascii, normalize_currency, is_valid_currency_code}

pub record TicketType : Type 0 where
  pub id : ℕ
  pub event_id : ℕ
  pub name : Text
  pub price_cents : ℤ
  pub currency : Text
  pub total_tickets : ℤ
  pub available_tickets : ℤ
  pub sale_starts_at : Option ℕ
  pub sale_ends_at : Option ℕ
  pub per_user_limit : Option ℤ
  pub area_label : Text
  pub version : ℤ

abbrev pub is_empty : Text → Bool
is_empty [] = true
is_empty (c ∷ cs) = false

all_spaces : Text → Bool
all_spaces [] = true
all_spaces (c ∷ cs) = ((leb 9 c && leb c 13) || c == 32) && all_spaces cs

-- `strings.TrimSpace(s) == ""`.
unfoldable pub is_blank : (Text → Text) → Text → Bool
unfolding all_spaces
is_blank trim s = if is_ascii s then all_spaces s else is_empty (trim s)

-- The two tests of the sale window: an end needs a start, and lies after it.
abbrev pub is_bad_window : Option ℕ → Option ℕ → Bool
is_bad_window none none = false
is_bad_window none (some e) = true
is_bad_window (some s) none = false
is_bad_window (some s) (some e) = not (ltb s e)

abbrev pub max_int32 : ℤ
max_int32 = pos 2147483647

abbrev pub is_bad_limit : Option ℤ → Bool
is_bad_limit none = false
is_bad_limit (some l) = nonpositive l || ltb_ℤ max_int32 l

unfoldable pub new_ticket_type :
    (Text → Text)
    → (Text → Text)
    → ℕ
    → ℕ
    → Text
    → ℤ
    → Text
    → ℤ
    → Option ℕ
    → Option ℕ
    → Option ℤ
    → Text
    → Result TicketType
new_ticket_type lower trim id event_id name price_cents currency total_tickets sale_starts_at
      sale_ends_at per_user_limit area_label =
    do
      fail_if (id == 0) invalid_ticket_type_id
      fail_if (event_id == 0) invalid_ticket_type_event_id
      fail_if (is_blank trim name) invalid_ticket_type_name
      fail_if (nonpositive price_cents) invalid_ticket_type_price
      fail_if (not (is_valid_currency_code (normalize_currency lower currency)))
          invalid_ticket_type_currency
      fail_if (nonpositive total_tickets) invalid_ticket_type_total
      fail_if (is_bad_window sale_starts_at sale_ends_at) invalid_ticket_type_sale_window
      fail_if (is_bad_limit per_user_limit) invalid_ticket_type_per_user
      ok (record {
        id = id;
        event_id = event_id;
        name = name;
        price_cents = price_cents;
        currency = normalize_currency lower currency;
        total_tickets = total_tickets;
        available_tickets = total_tickets;
        sale_starts_at = sale_starts_at;
        sale_ends_at = sale_ends_at;
        per_user_limit = per_user_limit;
        area_label = area_label;
        version = pos 0;
      })
