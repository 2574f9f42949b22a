-- ===== src/Domain/Order.antt =====
-- The order aggregate of internal/domain/order.go: factories and the immutable transitions.
--
-- A `uuid.UUID` is a number, 0 the zero UUID. A `time.Time` is a number of nanoseconds since the
-- zero time, so 0 is `time.Time{}`, and `t.After(u)` is `u < t`. A payment intent id is compared
-- and tested for emptiness only: it is a number, 0 the empty string.
use booking_monitor.Prelude.{ℕ, Bool, true, false, not, ◌&&◌, ◌||◌, [], ◌∷◌, ltb, ◌==◌}
use booking_monitor.Prelude.Int.{ℤ, pos, nonpositive, ltb_ℤ}
use booking_monitor.Domain.Status.{
  OrderStatus, confirmed, pending, charging, failed, awaiting_payment, paid, expired,
  payment_failed, compensated, same,
}
use booking_monitor.Domain.Errors.{
  Result, ok, fail_if, ◌>>◌, invalid_order_id, invalid_user_id, invalid_event_id, invalid_quantity,
  invalid_reserved_until, invalid_amount_cents, invalid_currency, invalid_order_ticket_type_id,
  invalid_transition,
}
use booking_monitor.Domain.Currency.{Text, normalize_currency, is_valid_currency_code}

pub record Order : Type 0 where
  pub id : ℕ
  pub event_id : ℕ
  pub user_id : ℤ
  pub quantity : ℤ
  pub status : OrderStatus
  pub created_at : ℕ
  pub reserved_until : ℕ
  pub payment_intent_id : ℕ
  pub ticket_type_id : ℕ
  pub amount_cents : ℤ
  pub currency : Text

-- `now` is the reading of `time.Now()`.
unfoldable pub new_order : ℕ → ℕ → ℤ → ℕ → ℤ → Result Order
new_order now id user_id event_id quantity = do
  fail_if (id == 0) invalid_order_id
  fail_if (nonpositive user_id) invalid_user_id
  fail_if (event_id == 0) invalid_event_id
  fail_if (nonpositive quantity) invalid_quantity
  ok (record {
    id = id;
    event_id = event_id;
    user_id = user_id;
    quantity = quantity;
    status = pending;
    created_at = now;
    reserved_until = 0;
    payment_intent_id = 0;
    ticket_type_id = 0;
    amount_cents = pos 0;
    currency = [];
  })

unfoldable pub new_reservation : (Text → Text) → ℕ → ℕ → ℤ → ℕ → ℕ → ℤ → ℕ → ℤ → Text → Result Order
new_reservation lower now id user_id event_id ticket_type_id quantity reserved_until amount_cents
      currency =
    do
      fail_if (id == 0) invalid_order_id
      fail_if (nonpositive user_id) invalid_user_id
      fail_if (event_id == 0) invalid_event_id
      fail_if (ticket_type_id == 0) invalid_order_ticket_type_id
      fail_if (nonpositive quantity) invalid_quantity
      fail_if (reserved_until == 0 || not (ltb now reserved_until)) invalid_reserved_until
      fail_if (nonpositive amount_cents) invalid_amount_cents
      fail_if (not (is_valid_currency_code (normalize_currency lower currency))) invalid_currency
      ok (record {
        id = id;
        event_id = event_id;
        user_id = user_id;
        quantity = quantity;
        status = awaiting_payment;
        created_at = now;
        reserved_until = reserved_until;
        payment_intent_id = 0;
        ticket_type_id = ticket_type_id;
        amount_cents = amount_cents;
        currency = normalize_currency lower currency;
      })

unfoldable pub mark_charging : Order → Result Order
mark_charging o = do
  fail_if (not (same o.status pending)) invalid_transition
  ok (record o { status = charging })

unfoldable pub mark_confirmed : Order → Result Order
mark_confirmed o = do
  fail_if (not (same o.status pending) && not (same o.status charging)) invalid_transition
  ok (record o { status = confirmed })

unfoldable pub mark_failed : Order → Result Order
mark_failed o = do
  fail_if (not (same o.status pending) && not (same o.status charging)) invalid_transition
  ok (record o { status = failed })

unfoldable pub mark_compensated : Order → Result Order
mark_compensated o = do
  fail_if
      (not (same o.status failed)
        && not (same o.status expired)
        && not (same o.status payment_failed))
      invalid_transition
  ok (record o { status = compensated })

unfoldable pub mark_awaiting_payment : Order → Result Order
mark_awaiting_payment o = do
  fail_if (not (same o.status pending)) invalid_transition
  ok (record o { status = awaiting_payment })

unfoldable pub mark_paid : Order → Result Order
mark_paid o = do
  fail_if (not (same o.status awaiting_payment)) invalid_transition
  ok (record o { status = paid })

unfoldable pub mark_expired : Order → Result Order
mark_expired o = do
  fail_if (not (same o.status awaiting_payment)) invalid_transition
  ok (record o { status = expired })

unfoldable pub mark_payment_failed : Order → Result Order
mark_payment_failed o = do
  fail_if (not (same o.status awaiting_payment)) invalid_transition
  ok (record o { status = payment_failed })

-- The test `o.currency != ""` is for a text with no byte.
abbrev is_empty : Text → Bool
is_empty [] = true
is_empty (c ∷ cs) = false

unfoldable pub has_price_snapshot : Order → Bool
has_price_snapshot o = ltb_ℤ (pos 0) o.amount_cents && not (is_empty o.currency)
