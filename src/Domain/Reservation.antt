-- ===== src/Domain/Reservation.antt =====
-- The order factories of internal/domain/order.go against a description of a valid reservation.
use booking_monitor.Prelude.{ℕ, ◌<◌, ◌≡◌, ◌↔◌, true, arith}
use booking_monitor.Prelude.Int.{ℤ, pos, ◌<ℤ◌}
use booking_monitor.Domain.Status.{awaiting_payment}
use booking_monitor.Domain.Errors.{Error, ok, err, is_malformed_order_input}
use booking_monitor.Domain.Currency.{Text, normalize_currency, is_valid_currency_code}
use booking_monitor.Domain.Order.{Order, new_reservation}

-- A reservation that is fit to be stored at time `now`.
pub record IsReservation (now : ℕ) (o : Order) : Type 0 where
  pub has_id : 0 < o.id
  pub has_user : pos 0 <ℤ o.user_id
  pub has_event : 0 < o.event_id
  pub has_ticket_type : 0 < o.ticket_type_id
  pub has_quantity : pos 0 <ℤ o.quantity
  pub awaits : o.status ≡ awaiting_payment
  pub created_now : o.created_at ≡ now
  pub in_future : now < o.reserved_until
  pub unpaid : o.payment_intent_id ≡ 0
  pub has_amount : pos 0 <ℤ o.amount_cents
  pub has_currency : is_valid_currency_code o.currency ≡ true

-- Every order that `NewReservation` returns is a valid reservation, with the fields that were given.
pub new_reservation-IsReservation :
    (lower : Text → Text) (now id : ℕ) (user : ℤ) (event ticket_type : ℕ) (quantity : ℤ)
    (reserved_until : ℕ) (amount : ℤ) (currency : Text) {o : Order}
    → new_reservation lower now id user event ticket_type quantity reserved_until amount currency
      ≡ ok o
    → IsReservation now o
      × (o.id ≡ id)
      × (o.user_id ≡ user)
      × (o.event_id ≡ event)
      × (o.ticket_type_id ≡ ticket_type)
      × (o.quantity ≡ quantity)
      × (o.reserved_until ≡ reserved_until)
      × (o.amount_cents ≡ amount)
      × (o.currency ≡ normalize_currency lower currency)
unfolding new_reservation
new_reservation-IsReservation lower now id user event ticket_type quantity reserved_until amount
      currency h =
    ground arith

-- What is refused is refused with an error that `IsMalformedOrderInput` knows.
pub new_reservation_malformed :
    (lower : Text → Text) (now id : ℕ) (user : ℤ) (event ticket_type : ℕ) (quantity : ℤ)
    (reserved_until : ℕ) (amount : ℤ) (currency : Text) (e : Error)
    → new_reservation lower now id user event ticket_type quantity reserved_until amount currency
      ≡ err e
    → is_malformed_order_input e ≡ true
unfolding new_reservation is_malformed_order_input
new_reservation_malformed lower now id user event ticket_type quantity reserved_until amount
      currency e h =
    ground arith

-- What `NewReservation` is given, where nothing is wrong with it.
pub record IsAcceptable (lower : Text → Text) (now id : ℕ) (user : ℤ) (event ticket_type : ℕ)
    (quantity : ℤ) (reserved_until : ℕ) (amount : ℤ) (currency : Text) : Type 0 where
  pub good_id : 0 < id
  pub good_user : pos 0 <ℤ user
  pub good_event : 0 < event
  pub good_ticket_type : 0 < ticket_type
  pub good_quantity : pos 0 <ℤ quantity
  pub good_deadline : now < reserved_until
  pub good_amount : pos 0 <ℤ amount
  pub good_currency : is_valid_currency_code (normalize_currency lower currency) ≡ true

-- `NewReservation` accepts its inputs exactly where the ids are not zero, the user id, the quantity
-- and the amount are positive, the deadline is later than now, and the normalized currency is valid.
pub new_reservation-IsAcceptable :
    (lower : Text → Text) (now id : ℕ) (user : ℤ) (event ticket_type : ℕ) (quantity : ℤ)
    (reserved_until : ℕ) (amount : ℤ) (currency : Text)
    → ((o : Order) × (new_reservation lower now id user event ticket_type quantity reserved_until
            amount currency
          ≡ ok o))
      ↔ IsAcceptable lower now id user event ticket_type quantity reserved_until amount currency
unfolding new_reservation
new_reservation-IsAcceptable lower now id user event ticket_type quantity reserved_until amount
      currency =
    (λ p. let (o, h) = p in ground arith, λ ok_input. (_, accepted ok_input))
  where
    accepted :
        IsAcceptable lower now id user event ticket_type quantity reserved_until amount currency
        → new_reservation lower now id user event ticket_type quantity reserved_until amount
            currency
          ≡ ok (record {
            id = id;
            event_id = event;
            user_id = user;
            quantity = quantity;
            status = awaiting_payment;
            created_at = now;
            reserved_until = reserved_until;
            payment_intent_id = 0;
            ticket_type_id = ticket_type;
            amount_cents = amount;
            currency = normalize_currency lower currency;
          })
    accepted h = ground arith
