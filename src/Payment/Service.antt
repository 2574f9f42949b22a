-- ===== src/Payment/Service.antt =====
-- internal/application/payment/service.go: `POST /orders/:id/pay`. The gateway's
-- `CreatePaymentIntent` is a parameter: what it answers for an order, an amount and a currency, at
-- each call anew (the last argument numbers the calls).
use booking_monitor.Prelude.{ℕ, not, ltb, ◌==◌, if◌then◌else◌}
use booking_monitor.Prelude.Int.{ℤ}
use booking_monitor.Domain.Status.{awaiting_payment, same}
use booking_monitor.Domain.Errors.{
  Result, invalid_order_id, order_not_awaiting_payment, reservation_expired,
  order_missing_price_snapshot,
}
use booking_monitor.Domain.Currency.{Text}
use booking_monitor.Domain.Order.{Order, has_price_snapshot}
use booking_monitor.Store.Exec.{M, pure, raise, ask, ◌>>=◌, ◌>>◌, pool, clock}
use booking_monitor.Store.Orders.{get_by_id, set_payment_intent_id}

-- `domain.PaymentIntent`: the id, and the secret that the client pays with.
pub record PaymentIntent : Type 0 where
  pub id : ℕ
  pub client_secret : ℕ
  pub amount_cents : ℤ
  pub currency : Text

abbrev pub Gateway : Type 0
Gateway = ℕ → ℤ → Text → ℕ → Result PaymentIntent

-- The gateway call and the write of its intent id.
unfoldable pub charge : Gateway → Order → M PaymentIntent
charge gateway order = do
  intent ← ask (gateway order.id order.amount_cents order.currency)
  set_payment_intent_id pool order.id intent.id
  pure intent

unfoldable pub create_payment_intent : Gateway → ℕ → M PaymentIntent
create_payment_intent gateway order_id = if order_id == 0 then raise invalid_order_id else do
  order ← get_by_id pool order_id
  if not (same order.status awaiting_payment) then raise order_not_awaiting_payment else do
    now ← clock
    if not (ltb now order.reserved_until)
        then raise reservation_expired
        else if not (has_price_snapshot order)
        then raise order_missing_price_snapshot
        else charge gateway order
