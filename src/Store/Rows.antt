-- ===== src/Store/Rows.antt =====
-- internal/infrastructure/persistence/postgres/order_row.go and ticket_type_row.go: the rows that the
-- repositories write and read. NULL is `none`; a status is a string on both sides.
use booking_monitor.Prelude.{
  ℕ, suc, ◌-◌, ◌%◌, ◌^◌, ◌<◌, ◌≡◌, refl, inl, inr, true, Bool-cases, ltb, Option, none, some, [],
  ◌∷◌, arith, ◌==◌, if◌then◌else◌,
}
use booking_monitor.Prelude.Int.{ℤ, pos, negsuc, ◌-ℤ◌, ◌≤ℤ◌, nonpositive, eq_of_parts}
use booking_monitor.Domain.Status.{OrderStatus}
use booking_monitor.Domain.Currency.{Text, normalize_currency}
use booking_monitor.Domain.Order.{Order}
use booking_monitor.Domain.TicketType.{TicketType, is_empty}

pub record OrderRow : Type 0 where
  pub id : ℕ
  pub event_id : ℕ
  pub user_id : ℤ
  pub quantity : ℤ
  pub status : OrderStatus
  pub created_at : ℕ
  pub reserved_until : Option ℕ
  pub payment_intent_id : Option ℕ
  pub ticket_type_id : Option ℕ
  pub amount_cents : Option ℤ
  pub currency : Option Text

-- A zero value is written as NULL, and NULL is read as the zero value.
abbrev null_if_zero : ℕ → Option ℕ
null_if_zero n = if n == 0 then none else some n

abbrev null_if_empty : Text → Option Text
null_if_empty t = if is_empty t then none else some t

abbrev value_or : {A : Type 0} → A → Option A → A
value_or a none = a
value_or a (some b) = b

-- An amount that is not positive is written as NULL.
unfoldable pub order_row_from_domain : Order → OrderRow
order_row_from_domain o = record {
  id = o.id;
  event_id = o.event_id;
  user_id = o.user_id;
  quantity = o.quantity;
  status = o.status;
  created_at = o.created_at;
  reserved_until = null_if_zero o.reserved_until;
  payment_intent_id = null_if_zero o.payment_intent_id;
  ticket_type_id = null_if_zero o.ticket_type_id;
  amount_cents = if nonpositive o.amount_cents then none else some o.amount_cents;
  currency = null_if_empty o.currency;
}

unfoldable pub order_to_domain : OrderRow → Order
order_to_domain r = record {
  id = r.id;
  event_id = r.event_id;
  user_id = r.user_id;
  quantity = r.quantity;
  status = r.status;
  created_at = r.created_at;
  reserved_until = value_or 0 r.reserved_until;
  payment_intent_id = value_or 0 r.payment_intent_id;
  ticket_type_id = value_or 0 r.ticket_type_id;
  amount_cents = value_or (pos 0) r.amount_cents;
  currency = value_or [] r.currency;
}

-- The columns that are not NULL are those of the ticket type.
pub record TicketTypeRow : Type 0 where
  pub id : ℕ
  pub event_id : ℕ
  pub name : Text
  pub price_cents : ℤ
  pub currency : Text
  pub total_tickets : ℤ
  pub available_tickets : ℤ
  pub sale_starts_at : Option ℕ
  pub sale_ends_at : Option ℕ
  pub per_user_limit : Option ℤ
  pub area_label : Option Text
  pub version : ℤ

-- `int32(v)`.
unfoldable pub int32 : ℤ → ℤ
int32 (pos n) =
    if ltb (n % 2 ^ 32) (2 ^ 31) then pos (n % 2 ^ 32) else (pos (n % 2 ^ 32) -ℤ pos (2 ^ 32))
int32 (negsuc n) =
    if ltb (n % 2 ^ 32) (2 ^ 31) then negsuc (n % 2 ^ 32) else pos (2 ^ 32 - suc (n % 2 ^ 32))

abbrev limit_column : Option ℤ → Option ℤ
limit_column none = none
limit_column (some n) = some (int32 n)

unfoldable pub ticket_type_row_from_domain : TicketType → TicketTypeRow
ticket_type_row_from_domain t = record {
  id = t.id;
  event_id = t.event_id;
  name = t.name;
  price_cents = t.price_cents;
  currency = t.currency;
  total_tickets = t.total_tickets;
  available_tickets = t.available_tickets;
  sale_starts_at = t.sale_starts_at;
  sale_ends_at = t.sale_ends_at;
  per_user_limit = limit_column t.per_user_limit;
  area_label = null_if_empty t.area_label;
  version = t.version;
}

-- `ReconstructTicketType` brings the currency to its normal form.
unfoldable pub ticket_type_to_domain : (Text → Text) → TicketTypeRow → TicketType
ticket_type_to_domain lower r = record {
  id = r.id;
  event_id = r.event_id;
  name = r.name;
  price_cents = r.price_cents;
  currency = normalize_currency lower r.currency;
  total_tickets = r.total_tickets;
  available_tickets = r.available_tickets;
  sale_starts_at = r.sale_starts_at;
  sale_ends_at = r.sale_ends_at;
  per_user_limit = r.per_user_limit;
  area_label = value_or [] r.area_label;
  version = r.version;
}

value_or-null_if_zero : (n : ℕ) → value_or 0 (null_if_zero n) ≡ n
value_or-null_if_zero n = elim (Bool-cases (n == 0)) [
  | inl none_there ↦ rw none_there (ground arith)
  | inr there ↦ rw there refl
]

value_or-null_if_empty : (t : Text) → value_or [] (null_if_empty t) ≡ t
value_or-null_if_empty [] = refl
value_or-null_if_empty (c ∷ cs) = refl

amount_kept : (n : ℤ) → pos 0 ≤ℤ n → value_or (pos 0) (if nonpositive n then none else some n) ≡ n
amount_kept n h = elim (Bool-cases (nonpositive n)) [
  | inl none_there ↦ rw none_there (eq_of_parts (pos 0) n (ground arith))
  | inr there ↦ rw there refl
]

-- What is written of an order is read back: an order whose amount is not negative is the order of its
-- row.
pub order_to_domain-order_row_from_domain :
    (o : Order) → pos 0 ≤ℤ o.amount_cents → order_to_domain (order_row_from_domain o) ≡ o
unfolding order_to_domain order_row_from_domain
order_to_domain-order_row_from_domain o h =
    rw
      (
        value_or-null_if_zero o.reserved_until,
        value_or-null_if_zero o.payment_intent_id,
        value_or-null_if_zero o.ticket_type_id,
        amount_kept o.amount_cents h,
        value_or-null_if_empty o.currency,
      )
      refl

-- The limit, if there is one, fits the column.
abbrev pub FitsColumn : Option ℤ → Type 0
FitsColumn none = Unit
FitsColumn (some (pos n)) = n < 2 ^ 31
FitsColumn (some (negsuc n)) = n < 2 ^ 31

limit_kept : (l : Option ℤ) → FitsColumn l → limit_column l ≡ l
unfolding int32
limit_kept none h = refl
limit_kept (some (pos n)) h =
    let same : n % 2 ^ 32 ≡ n = omega arith in
    let small : ltb n (2 ^ 31) ≡ true = ground arith in rw (same, small) refl
limit_kept (some (negsuc n)) h =
    let same : n % 2 ^ 32 ≡ n = omega arith in
    let small : ltb n (2 ^ 31) ≡ true = ground arith in rw (same, small) refl

-- What is written of a ticket type is read back, where its currency is in normal form and its limit
-- fits 32 bits.
pub ticket_type_to_domain-ticket_type_row_from_domain :
    (lower : Text → Text) (t : TicketType)
    → normalize_currency lower t.currency ≡ t.currency
    → FitsColumn t.per_user_limit
    → ticket_type_to_domain lower (ticket_type_row_from_domain t) ≡ t
unfolding ticket_type_to_domain ticket_type_row_from_domain
ticket_type_to_domain-ticket_type_row_from_domain lower t normal fits =
    rw (normal, limit_kept t.per_user_limit fits, value_or-null_if_empty t.area_label) refl
