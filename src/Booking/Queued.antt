-- ===== src/Booking/Queued.antt =====
-- `BookTicket` of internal/application/booking/service.go where it answers an order, and the entry of
-- the stream that the worker reads (internal/infrastructure/cache).
use booking_monitor.Prelude.{ℕ, ◌≡◌, subst, refl, inl, inr, some, arith, Bool-cases}
use booking_monitor.Prelude.Int.{ℤ, pos_part}
use booking_monitor.Domain.Errors.{Result, ok, err}
use booking_monitor.Domain.Order.{Order, new_reservation}
use booking_monitor.Store.Db.{Db}
use booking_monitor.Store.Redis.{Redis}
use booking_monitor.Store.Exec.{Schedule, World, ◌>>=◌, ◌>>◌}
use booking_monitor.Store.Triples.{
  Post, Triple, Triple-raise, Triple-try, Triple-bind, Triple-clock, Triple-any, Triple-of_result,
}
use booking_monitor.Cache.Deduct.{DeductInventoryResult}
use booking_monitor.Cache.Inventory.{deduct_args}
use booking_monitor.Booking.Service.{
  Config, Request, answer, deduct, repair_runtime_metadata, first_result, book_request, book_ticket,
  is_metadata_missing,
}
use booking_monitor.Booking.Carried.{
  Taken, ResultPost, Nothing, deduct_inventory-Triple, Fits, IsQueued, entry_carries,
}

ok_inj : {A : Type 0} {a b : A} → ok a ≡ ok b → a ≡ b
ok_inj h = ground arith

module _ (cfg : Config) where
  open cfg use {formats, lower}

  -- The answer of the service: an order is on the stream.
  abbrev BookPost : Post Order
  BookPost (ok o) c d = Fits o → IsQueued cfg o c
  BookPost (err x) c d = Unit

  module _ (uuids : (n : ℕ) → formats.parse_uuid (formats.uuid_text n) ≡ some n) where
    reserved-Post :
        (now : ℕ) (r : Request) (x : DeductInventoryResult) (q : Result Order) (c : Redis) (d : Db)
        → new_reservation lower now r.order_id r.user_id x.event_id r.ticket_type_id r.quantity
            r.reserved_until x.amount_cents x.currency
          ≡ q
        → Taken formats
            (deduct_args formats r.order_id r.ticket_type_id r.user_id
              (pos_part r.quantity)
              r.reserved_until)
            x
            c
        → BookPost q c d
    reserved-Post now r x (ok o) c d made t = entry_carries cfg uuids now r x o c made t
    reserved-Post now r x (err y) c d made t = tt

    module _ {s : Schedule} where
      answer-Triple :
          (r : Request) (x : DeductInventoryResult)
          → Triple s
              (ResultPost formats
                (deduct_args formats r.order_id r.ticket_type_id r.user_id
                  (pos_part r.quantity)
                  r.reserved_until)
                (ok x))
              (answer cfg r x)
              BookPost
      unfolding answer
      answer-Triple r x = elim (Bool-cases x.is_accepted) [
        | inl took ↦ rw took (
            Triple-bind Triple-clock
              (λ now. Triple-of_result _ (λ c d h. reserved-Post now r x _ c d refl (h refl)))
              (λ y c d h. tt))
        | inr left ↦ rw left (Triple-raise _ (λ c d h. tt))
      ]

      deduct-Triple :
          (r : Request)
          → Triple s Nothing (deduct cfg r) (
              ResultPost formats (
                deduct_args formats r.order_id r.ticket_type_id r.user_id
                  (pos_part r.quantity)
                  r.reserved_until))
      unfolding deduct
      deduct-Triple r =
          deduct_inventory-Triple formats r.order_id r.ticket_type_id r.user_id
            (pos_part r.quantity) r.reserved_until

      repaired-Triple :
          (r : Request)
          → Triple s Nothing
              (repair_runtime_metadata formats r.ticket_type_id >> (deduct cfg r >>= answer cfg r))
              BookPost
      repaired-Triple r =
          Triple-bind (Triple-any {Q = λ x c d. Unit {0}} _ (λ x c d. tt))
            (λ u. Triple-bind (deduct-Triple r) (answer-Triple r) (λ y c d h. tt)) (λ y c d h. tt)

      first_result-Triple :
          (r : Request) (x : Result DeductInventoryResult)
          → Triple s
              (ResultPost formats
                (deduct_args formats r.order_id r.ticket_type_id r.user_id
                  (pos_part r.quantity)
                  r.reserved_until)
                x)
              (first_result cfg r x)
              BookPost
      unfolding first_result
      first_result-Triple r (ok x) = answer-Triple r x
      first_result-Triple r (err e) = elim (Bool-cases (is_metadata_missing e)) [
        | inl missing ↦ rw missing (repaired-Triple r)
        | inr other ↦ rw other (Triple-raise _ (λ c d h. tt))
      ]

      book_request-Triple : (r : Request) → Triple s Nothing (book_request cfg r) BookPost
      unfolding book_request
      book_request-Triple r = Triple-try (deduct-Triple r) (first_result-Triple r)

      book_ticket-Triple :
          (user_id : ℤ) (ticket_type_id : ℕ) (quantity : ℤ)
          → Triple s Nothing (book_ticket cfg user_id ticket_type_id quantity) BookPost
      unfolding book_ticket
      book_ticket-Triple user_id ticket_type_id quantity =
          Triple-bind (Triple-any {Q = λ x c d. Unit {0}} _ (λ x c d. tt)) book_request-Triple
            (λ y c d h. tt)

    booked :
        (q : Result Order) (o : Order) (c : Redis) (d : Db)
        → q ≡ ok o
        → BookPost q c d
        → Fits o
        → IsQueued cfg o c
    booked (ok o') o c d e h = subst (λ x. Fits x → IsQueued cfg x c) (ok_inj e) h
    booked (err x) o c d e h = absurd cc

-- What the caller is told is what the worker will be told: whatever fails on the way and whatever the
-- other processes do, an order that `BookTicket` answers is on the stream as an entry that the worker
-- reads as a message with its id, user, event, ticket type, quantity and amount, its currency up to
-- the normal form, and its deadline cut to a whole second. The texts of UUIDs parse to those UUIDs,
-- and the order's user, quantity and deadline fit in 64 bits, the deadline at least a second after
-- 1970.
pub book_ticket-IsQueued :
    (cfg : Config)
    → ((n : ℕ) → cfg.formats.parse_uuid (cfg.formats.uuid_text n) ≡ some n)
    → (user_id : ℤ) (ticket_type_id : ℕ) (quantity : ℤ) (s : Schedule) (w : World) (o : Order)
    → (book_ticket cfg user_id ticket_type_id quantity s w).0 ≡ ok o
    → Fits o
    → IsQueued cfg o (book_ticket cfg user_id ticket_type_id quantity s w).1.cache
book_ticket-IsQueued cfg uuids user_id ticket_type_id quantity s w o e =
    booked cfg uuids _ o _ _ e
      ((book_ticket-Triple cfg uuids user_id ticket_type_id quantity).at w tt)
