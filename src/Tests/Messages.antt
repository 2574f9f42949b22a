-- ===== src/Tests/Messages.antt =====
-- Concrete inputs for the consumers and the publisher of Kafka messages.
use booking_monitor.Messaging.Intake
use booking_monitor.Messaging.Saga
use booking_monitor.Prelude.{
  ℕ, zero, suc, ◌≡◌, ◌⊎◌, inl, refl, true, none, some, [], ◌∷◌, arith, find, update,
}
use booking_monitor.Prelude.Int.{ℤ, pos, negsuc, ◌-ℤ◌, ◌+ℤ◌}
use booking_monitor.Domain.Errors.{Error, Result, ok, err, infra, is_malformed_order_input}
use booking_monitor.Domain.Currency.{Text, normalize_currency, is_valid_currency_code}
use booking_monitor.Domain.Order.{Order, new_reservation}
use booking_monitor.Store.Tally.{tally}
use booking_monitor.Store.Exec.{
  World, pure, raise, emit, attempt, ◌>>=◌, clock, new_v7, of_result, ask, run_script, do_uow,
  begin_tx, exec,
}
use booking_monitor.Cache.Deduct.{
  DeductInventoryResult, deduct_no_xadd, decr_by, set_quantity, price_reply, xadd,
}
use booking_monitor.Cache.Revert.{
  revert_script, order_compensation, intake_compensation, contains, add_quantity, revert_inventory,
}
use booking_monitor.Saga.Compensator.{handle_order_failed}
use booking_monitor.Booking.Service.{Request, check_request}
use booking_monitor.Booking.Intake.{
  IntakeMessage, book_ticket, publish_intake, deduct_with_metadata_repair, deduct_again,
  publish_result, intake_message,
}
use booking_monitor.Booking.Returned.{Returned, publish_intake-Returned}
use booking_monitor.Messaging.{KafkaMessage, Reader, is_commit, commit_or_log}
use booking_monitor.Messaging.Publisher.{Writer, publish_message}
use booking_monitor.Messaging.Publisher.Delivered.{IsInverse, Delivered, book_ticket-Delivered}
use booking_monitor.Messaging.Intake.{
  decode_intake_message, handle_message, decoded, intake_to_queued, processed,
  is_terminal_process_error, compensate_leaked_inventory, compensated,
}
use booking_monitor.Messaging.Intake.Settled.{Answered, handle_message-Answered}
use booking_monitor.Messaging.Saga.{saga_max_retries}
use booking_monitor.Messaging.Saga.Poison.{
  Healthy, IsPoison, seen_of, after_letter, deliveries, deliveries-seen,
}
use booking_monitor.Worker.Subscribe.{Group, read_error, create_error, stopped, subscribe_loop}
use booking_monitor.Worker.Surrender.{IsAway, subscribe_loop-IsStop}
use booking_monitor.Worker.Processor.{
  default_retry_policy, process, reservation_of, process_body, publish,
}
use booking_monitor.Worker.Delivery.{worker}
use booking_monitor.Wire.Decimal.{parse_digits, parse_int, print, print_int}
use booking_monitor.Wire.Multiply.{multiply_decimal_string_by_int}
use booking_monitor.Cache.Inventory.{
  metadata_of, deduct_args, to_unix, deduct_inventory_no_stream, read_reply,
}
use booking_monitor.Worker.Wire.{from_unix}
use booking_monitor.Store.TicketTypes.{decrement_ticket}
use booking_monitor.Store.Db.{decrement_stmt, find_ticket_type, insert_order, clashes, find_order}
use booking_monitor.Store.Orders
use booking_monitor.Tests.{start, calm, vip}
use booking_monitor.Tests.Queue.{plain, shop, desk, later, booked}

-- Redis is away.
abbrev away : Group
away = record {
  consumer = worker plain (λ t. t) default_retry_policy 3;
  pending_read = λ n. read_error;
  new_read = λ n. read_error;
  create = λ n. create_error;
  max_consecutive_read_errors = 5;
}

away-IsAway : IsAway away
away-IsAway n = inl refl

subscribe_loop-IsStop_example :
    (e : Error) × ((subscribe_loop away 5 0 calm start).0 ≡ ok (stopped e))
subscribe_loop-IsStop_example =
    subscribe_loop-IsStop away away-IsAway 5 (omega arith) (omega arith) calm start

-- A payload that is no event: the compensator fails on it each time.
abbrev broken : KafkaMessage
broken = record { partition = 2; offset = 40; value = b'?' ∷ []; time = 0 }

abbrev broker : Reader
broker = record { fetch = λ n. ok broken; commit = λ m n. ok tt }

abbrev saga : Saga.Consumer
saga = record {
  reader = broker;
  handler = λ value time. handle_order_failed none;
  write = λ letter n. ok tt;
}

saga-Healthy : Healthy saga broken (ok tt) calm
saga-Healthy = record {
  answered = λ n. refl;
  own = λ n c. refl;
  taken = λ l n same. refl;
  committed = λ n. refl;
}

broken-IsPoison : IsPoison saga broken calm
unfolding handle_order_failed emit raise ◌>>=◌ tally
broken-IsPoison w = (_, refl, refl)

deliveries-seen_example :
    (seen_of broken (deliveries saga broken saga_max_retries calm start).1
      ≡ record (seen_of broken start) { attempts = saga_max_retries })
    × (seen_of broken (deliveries saga broken (suc saga_max_retries) calm start).1
        ≡ after_letter (ok tt) (record (seen_of broken start) { attempts = suc saga_max_retries }))
deliveries-seen_example =
    deliveries-seen saga broken (ok tt) calm saga-Healthy broken-IsPoison start refl

-- One item for each number, and two for an integer: a stand-in for JSON.
sign_of : ℤ → ℕ
sign_of (pos n) = 0
sign_of (negsuc n) = 1

size_of : ℤ → ℕ
size_of (pos n) = n
size_of (negsuc n) = n

int_of : ℕ → ℕ → ℤ
int_of zero n = pos n
int_of (suc k) n = negsuc n

int_of-size_of : (z : ℤ) → int_of (sign_of z) (size_of z) ≡ z
unfolding int_of sign_of size_of
int_of-size_of (pos n) = refl
int_of-size_of (negsuc n) = refl

marshal : IntakeMessage → Text
marshal m =
    m.order_id
    ∷ sign_of m.user_id
    ∷ size_of m.user_id
    ∷ m.event_id
    ∷ m.ticket_type_id
    ∷ sign_of m.quantity
    ∷ size_of m.quantity
    ∷ sign_of m.reserved_until
    ∷ size_of m.reserved_until
    ∷ sign_of m.amount_cents
    ∷ size_of m.amount_cents
    ∷ m.currency

unmarshal : Text → Result IntakeMessage
unmarshal (o ∷ us ∷ u ∷ e ∷ t ∷ qs ∷ q ∷ rs ∷ r ∷ ps ∷ p ∷ c) = ok (record {
  order_id = o;
  user_id = int_of us u;
  event_id = e;
  ticket_type_id = t;
  quantity = int_of qs q;
  reserved_until = int_of rs r;
  amount_cents = int_of ps p;
  currency = c;
})
unmarshal _ = err infra

abbrev topic : Writer
topic = record { marshal = λ m. ok (marshal m); write = λ payload n. ok tt }

abbrev intake : Intake.Config
intake = record { reader = broker; unmarshal = unmarshal; message_id = λ p o. o; lower = λ t. t }

unmarshal-marshal : (m : IntakeMessage) → unmarshal (marshal m) ≡ ok m
unfolding unmarshal marshal
unmarshal-marshal m =
    rw
      (
        int_of-size_of m.user_id,
        int_of-size_of m.quantity,
        int_of-size_of m.reserved_until,
        int_of-size_of m.amount_cents,
      )
      refl

topic-IsInverse : IsInverse topic intake
topic-IsInverse m payload h = let same : payload ≡ marshal m = cc in rw same (unmarshal-marshal m)

queues : (book_ticket (publish_message topic) desk (pos 5) 7 (pos 2) later shop).0 ≡ ok booked
unfolding book_ticket check_request clock new_v7 of_result pure attempt ask run_script ◌>>=◌
    deduct_with_metadata_repair deduct_again deduct_inventory_no_stream read_reply deduct_args
    deduct_no_xadd decr_by set_quantity price_reply xadd ◌-ℤ◌ metadata_of
    multiply_decimal_string_by_int print_int print parse_int parse_digits to_unix publish_intake
    publish_result publish_message intake_message new_reservation normalize_currency
    is_valid_currency_code
queues = refl

book_ticket-Delivered_example : Delivered topic intake (λ t. t) booked
book_ticket-Delivered_example =
    book_ticket-Delivered topic intake topic-IsInverse desk (pos 5) 7 (pos 2) later shop booked
      queues

-- The publication fails.
abbrev request : Request
request = record {
  order_id = 9;
  user_id = pos 5;
  ticket_type_id = 7;
  quantity = pos 2;
  reserved_until = 14000000000;
}

abbrev deducted : DeductInventoryResult
deducted = record {
  is_accepted = true;
  event_id = 3;
  amount_cents = pos 3000;
  currency = vip.currency;
}

publish_intake-Returned_example :
    Returned later
      (λ m n. err infra)
      request
      deducted
      shop
      (publish_intake (λ m n. err infra) desk request deducted later shop).1
publish_intake-Returned_example =
    publish_intake-Returned (λ m n. err infra) desk request deducted refl later shop

abbrev taken : IntakeMessage
taken = intake_message request deducted

abbrev sent : KafkaMessage
sent = record { partition = 2; offset = 41; value = marshal taken; time = 0 }

handle_message-Answered_example :
    let w' = (handle_message intake sent calm shop).1 in
    (tally is_commit w'.metrics ≡ tally is_commit shop.metrics)
    ⊎ (((e : Error) × (decode_intake_message intake sent.value ≡ err e))
        ⊎ ((im : IntakeMessage) × (decode_intake_message intake sent.value ≡ ok im)
            × Answered calm intake sent im shop w'))
handle_message-Answered_example = handle_message-Answered intake sent calm shop

-- The two keys of one order do not exclude each other: its count comes back twice.
back_twice :
    (revert_script 7
        (pos 2)
        (order_compensation 9)
        (revert_script 7 (pos 2) (intake_compensation 9) shop.cache).1).1.quantity
      7
    ≡ some (pos 12)
unfolding revert_script contains add_quantity ◌+ℤ◌
back_twice = refl

-- The same message twice: its order is stored, and the second delivery gives the count back.
abbrev another : KafkaMessage
another = record sent { value = marshal (record taken { user_id = pos 6 }) }

abbrev twice : World
twice = (handle_message intake another calm (handle_message intake another calm shop).1).1

given_back_though_stored :
    (twice.cache.quantity 7 ≡ some (pos 10)) × ((o : Order) × (find_order 9 twice.db ≡ some o))
unfolding handle_message decoded decode_intake_message unmarshal marshal int_of sign_of size_of
    intake_message to_unix intake_to_queued from_unix process reservation_of new_reservation
    normalize_currency is_valid_currency_code process_body decrement_ticket decrement_stmt
    find_ticket_type find update Orders.create insert_order clashes do_uow begin_tx exec clock
    of_result publish new_v7 emit attempt ◌>>=◌ pure raise processed is_terminal_process_error
    is_malformed_order_input compensate_leaked_inventory compensated revert_inventory revert_script
    contains add_quantity ◌+ℤ◌ ◌-ℤ◌ run_script commit_or_log ask find_order
given_back_though_stored = (refl, (_, refl))
