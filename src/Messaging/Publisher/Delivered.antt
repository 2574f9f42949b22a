-- ===== src/Messaging/Publisher/Delivered.antt =====
-- What stands behind an order that `BookTicket` of service_kafka_intake.go answers, or refuses after it
-- has taken the tickets.
use booking_monitor.Prelude.{ℕ, suc, ◌≡◌, refl, sym, ap, inl, inr, true, false, Bool-cases, ◌==◌}
use booking_monitor.Prelude.Int.{ℤ, pos}
use booking_monitor.Domain.Errors.{Result, ok, err, infra}
use booking_monitor.Domain.Currency.{Text, normalize_currency}
use booking_monitor.Domain.Order.{Order, new_reservation}
use booking_monitor.Domain.Reservation.{new_reservation-IsReservation}
use booking_monitor.Store.Answers.{bind-ok}
use booking_monitor.Store.Exec.{Schedule, World, raise, attempt, of_result, emit, ◌>>=◌, clock, ask}
use booking_monitor.Cache.Deduct.{DeductInventoryResult}
use booking_monitor.Cache.Inventory.{to_unix}
use booking_monitor.Cache.Revert.{revert_inventory, intake_compensation}
use booking_monitor.Booking.Service.{Config, Request}
use booking_monitor.Booking.Intake.{
  IntakeMessage, intake_message, publish_result, publish_intake, revert_result, book_ticket,
}
use booking_monitor.Messaging.Publisher.{Writer, publish_message, sent, written}
use booking_monitor.Messaging.Intake
use booking_monitor.Messaging.Intake.{decode_intake_message}

-- The message tells what the order says: its deadline is cut to a whole second, and its currency is
-- the one before the normal form.
pub record Tells (lower : Text → Text) (m : IntakeMessage) (o : Order) : Type 0 where
  pub order_id : m.order_id ≡ o.id
  pub user_id : m.user_id ≡ o.user_id
  pub event_id : m.event_id ≡ o.event_id
  pub ticket_type_id : m.ticket_type_id ≡ o.ticket_type_id
  pub quantity : m.quantity ≡ o.quantity
  pub reserved_until : m.reserved_until ≡ pos (to_unix o.reserved_until)
  pub amount_cents : m.amount_cents ≡ o.amount_cents
  pub currency : o.currency ≡ normalize_currency lower m.currency

-- Kafka has acknowledged a payload that the consumer decodes to a message about the order.
pub record Delivered (q : Writer) (reader : Intake.Config) (lower : Text → Text) (o : Order)
    : Type 0 where
  pub payload : Text
  pub call : ℕ
  pub acknowledged : q.write payload call ≡ ok tt
  pub message : IntakeMessage
  pub decodes : decode_intake_message reader payload ≡ ok message
  pub tells : Tells lower message o

-- `json.Unmarshal` gives back what `json.Marshal` has written.
abbrev pub IsInverse : Writer → Intake.Config → Type 0
IsInverse q reader =
    (m : IntakeMessage) (payload : Text)
    → q.marshal m ≡ ok payload
    → reader.unmarshal payload ≡ ok m

module _ (q : Writer) (reader : Intake.Config) (inverse : IsInverse q reader) where
  sent-Delivered :
      (m : IntakeMessage) (n : ℕ) (r : Result Text)
      → q.marshal m ≡ r
      → (m.order_id == 0) ≡ false
      → sent q n r ≡ ok tt
      → (payload : Text) × (q.write payload n ≡ ok tt)
        × (decode_intake_message reader payload ≡ ok m)
  unfolding decode_intake_message
  sent-Delivered m n (err e) eq known h = absurd cc
  sent-Delivered m n (ok payload) eq known h =
      (payload, acknowledged (q.write payload n) refl h, rw (inverse m payload eq, known) refl)
    where
      acknowledged :
          (r : Result (Unit {0}))
          → q.write payload n ≡ r
          → written r ≡ ok tt
          → q.write payload n ≡ ok tt
      acknowledged (ok _) e h = e
      acknowledged (err x) e h = absurd cc

  publish-Delivered :
      (m : IntakeMessage) (n : ℕ)
      → publish_message q m n ≡ ok tt
      → (payload : Text) × (q.write payload n ≡ ok tt)
        × (decode_intake_message reader payload ≡ ok m)
  unfolding publish_message
  publish-Delivered m n h = elim (Bool-cases (m.order_id == 0)) [
    | inl nil ↦ absurd (refused nil)
    | inr known ↦ sent-Delivered m n (q.marshal m) refl known (rw known at h)
  ]
    where
      refused : (m.order_id == 0) ≡ true → ⊥
      refused e = let run : publish_message q m n ≡ err infra = rw (publish_message, e) refl in cc

  module _ (cfg : Config) (s : Schedule) where
    -- What is known of the order, from the request and the deduction.
    reserved-Tells :
        (now : ℕ) (r : Request) (result : DeductInventoryResult) (o : Order)
        → new_reservation cfg.lower now r.order_id r.user_id result.event_id r.ticket_type_id
            r.quantity r.reserved_until result.amount_cents result.currency
          ≡ ok o
        → Tells cfg.lower (intake_message r result) o
    unfolding intake_message
    reserved-Tells now r result o h =
        let f = new_reservation-IsReservation cfg.lower now _ _ _ _ _ _ _ _ h in
        record {
          order_id = sym f.1;
          user_id = sym f.2;
          event_id = sym f.3;
          ticket_type_id = sym f.4;
          quantity = sym f.5;
          reserved_until = ap (λ t. pos (to_unix t)) (sym f.6);
          amount_cents = sym f.7;
          currency = f.8;
        }

    publish_result-Delivered :
        (r : Request) (result : DeductInventoryResult) (n : ℕ) (answer : Result (Unit {0}))
        → publish_message q (intake_message r result) n ≡ answer
        → (w : World) (o : Order) → (publish_result cfg r result answer s w).0 ≡ ok o
        → Delivered q reader cfg.lower o
    unfolding publish_result clock of_result attempt ◌>>=◌
    publish_result-Delivered r result n (ok _) eq w o h =
        let (payload, taken, decodes) = publish-Delivered (intake_message r result) n eq in
        record {
          payload = payload;
          call = n;
          acknowledged = taken;
          message = intake_message r result;
          decodes = decodes;
          tells = reserved-Tells (s w.tick).app_now r result o h;
        }
    publish_result-Delivered r result n (err e) eq w o h = absurd (
        never (revert_inventory r.ticket_type_id r.quantity (intake_compensation r.order_id) s w).0
          (revert_inventory r.ticket_type_id r.quantity (intake_compensation r.order_id) s w).1 h)
      where
        never : (x : Result (Unit {0})) (v : World) → (revert_result x s v).0 ≡ ok o → ⊥
        never (ok _) v h = unfold revert_result in unfold emit in unfold raise in cc
        never (err y) v h = unfold revert_result in unfold emit in unfold raise in cc

    publish_intake-Delivered :
        (r : Request) (result : DeductInventoryResult) (w : World) (o : Order)
        → (publish_intake (publish_message q) cfg r result s w).0 ≡ ok o
        → Delivered q reader cfg.lower o
    unfolding publish_intake attempt ask ◌>>=◌ raise intake_message publish_result
    publish_intake-Delivered r result w o h = elim (Bool-cases result.is_accepted) [
      | inl yes_it_is ↦
          publish_result-Delivered r result w.tick _ refl (record w { tick = suc w.tick }) o
            (rw yes_it_is at h)
      | inr sold ↦ absurd (let h' = rw sold at h in cc)
    ]

-- An order that `BookTicket` answers is in Kafka: the broker has acknowledged a payload that the
-- consumer decodes to a message about the order, whatever fails on the way and whatever the other
-- processes do, where `json.Unmarshal` gives back what `json.Marshal` has written.
pub book_ticket-Delivered :
    (q : Writer) (reader : Intake.Config)
    → IsInverse q reader
    → (cfg : Config) (user_id : ℤ) (ticket_type_id : ℕ) (quantity : ℤ) (s : Schedule) (w : World)
      (o : Order)
    → (book_ticket (publish_message q) cfg user_id ticket_type_id quantity s w).0 ≡ ok o
    → Delivered q reader cfg.lower o
unfolding book_ticket
book_ticket-Delivered q reader inverse cfg user_id ticket_type_id quantity s w o h =
    let (r, checked, h1, same1) = bind-ok _ _ s w o h in
    let (result, taken, h2, same2) = bind-ok _ _ s _ o h1 in
    publish_intake-Delivered q reader inverse cfg s r result _ o h2
