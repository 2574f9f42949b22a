-- ===== src/Tests/Queue.antt =====
-- Concrete inputs for the way of a booking through Redis: the deduction, the stream and the worker.
use booking_monitor.Prelude.{◌/◌, ◌+◌, ◌*◌, ◌≡◌, ◌⊎◌, refl, true, some, [], ◌∷◌, arith}
use booking_monitor.Prelude.Int.{pos, ◌-ℤ◌}
use booking_monitor.Domain.Status.{awaiting_payment}
use booking_monitor.Domain.Errors.{ok}
use booking_monitor.Domain.Currency.{Text, normalize_currency, is_valid_currency_code}
use booking_monitor.Domain.Order.{Order, new_reservation}
use booking_monitor.Wire.Decimal.{parse_digits, parse_int, print, print_int}
use booking_monitor.Wire.Decimal.RoundTrip.{parse_digits-print}
use booking_monitor.Wire.Multiply.{
  Doubles, IsExact, multiply_decimal_string_by_int, multiply_decimal-exact,
}
use booking_monitor.Store.Redis.{Redis, Entry}
use booking_monitor.Store.Exec.{
  Schedule, World, ◌>>=◌, new_v7, of_result, clock, pure, attempt, run_script,
}
use booking_monitor.Store.Db.{StuckCharging}
use booking_monitor.Store.Tally.{tally}
use booking_monitor.Cache.Deduct.{
  Formats, Args, deduct_lua, entry_of, deduct_no_xadd, decr_by, set_quantity, price_reply, xadd,
}
use booking_monitor.Cache.Inventory.{
  metadata_of, deduct_args, to_unix, deduct_inventory, read_reply,
}
use booking_monitor.Cache.Revert.{contains}
use booking_monitor.Cache.Counts.{Took, Queued, deduct_lua-Took}
use booking_monitor.Worker.Processor.{Message, default_retry_policy}
use booking_monitor.Worker.Wire.{parse_message}
use booking_monitor.Worker.Reading.{IsRead, parse_message-IsRead}
use booking_monitor.Worker.Roundtrip.{newest, message_of, deduct_lua-parse_message}
use booking_monitor.Worker.Queue.{process_entry}
use booking_monitor.Worker.Compensation.{LeavesAlone, Held, Accounted}
use booking_monitor.Worker.Stored.{Stored}
use booking_monitor.Worker.Delivery.{worker, process_entry-Accounted}
use booking_monitor.Booking.Service
use booking_monitor.Booking.Carried.{Fits, IsQueued}
use booking_monitor.Booking.Queued.{book_ticket-IsQueued}
use booking_monitor.Recon.Reconciler
use booking_monitor.Recon.Outcomes.{is_verdict, resolve-one_verdict}
use booking_monitor.Tests.{vip, start, stocked, calm}

-- A UUID is written as its number.
abbrev exact_numbers : Doubles
exact_numbers = record { nearest = λ n. n; tenth = λ n. n / 10 }

exact_numbers-IsExact : IsExact exact_numbers
exact_numbers-IsExact = record { nearest = λ n h. refl; tenth = λ n h. refl }

abbrev pub plain : Formats
plain = record {
  uuid_text = print;
  parse_uuid = parse_digits;
  is_number = λ t. true;
  doubles = exact_numbers;
}

abbrev seeded : Redis
seeded = record stocked { metadata = λ k. metadata_of plain vip; pending = 1 ∷ [] }

abbrev pub shop : World
shop = record start { cache = seeded }

abbrev twelve : Text
twelve = b'1' ∷ b'2' ∷ []

multiply_decimal-exact_example :
    (out : Text) × (multiply_decimal_string_by_int exact_numbers twelve 25 ≡ some out)
    × (parse_digits out ≡ some (12 * 25))
unfolding parse_digits
multiply_decimal-exact_example =
    multiply_decimal-exact exact_numbers exact_numbers-IsExact twelve 12 25 (omega arith) refl

three_hundred :
    multiply_decimal_string_by_int exact_numbers twelve 25 ≡ some (b'3' ∷ b'0' ∷ b'0' ∷ [])
unfolding multiply_decimal_string_by_int
three_hundred = refl

abbrev two_for_five : Args
two_for_five = deduct_args plain 2 7 (pos 5) 2 9000000000

deduct_lua-Took_example :
    Took 7 2 seeded (deduct_lua plain 7 two_for_five seeded)
    × Queued two_for_five seeded (deduct_lua plain 7 two_for_five seeded)
unfolding deduct_args
deduct_lua-Took_example = deduct_lua-Took plain 7 two_for_five seeded

deduct_lua-parse_message_example :
    newest plain (deduct_lua plain 7 two_for_five seeded).1.stream
    ≡ ok (message_of 1 2 7 3 (pos 5) 2 9000000000 (pos 3000) vip.currency)
deduct_lua-parse_message_example =
    deduct_lua-parse_message plain parse_digits-print vip 1500 2 (pos 5) 2 9000000000 seeded refl
      refl refl (omega arith) (ground arith) (ground arith) refl (omega arith)
      (unfold to_unix in omega arith) (unfold to_unix in omega arith) (omega arith)
      exact_numbers-IsExact (omega arith) (omega arith)

abbrev queued : Entry
queued = entry_of two_for_five 1 (print 3) (print 3000) vip.currency

abbrev queued_message : Message
queued_message = message_of 1 2 7 3 (pos 5) 2 9000000000 (pos 3000) vip.currency

reads : parse_message plain queued ≡ ok queued_message
unfolding parse_message parse_digits deduct_args print parse_int print_int to_unix
reads = refl

parse_message-IsRead_example : IsRead plain queued queued_message
parse_message-IsRead_example = parse_message-IsRead plain queued queued_message reads

calm-LeavesAlone : (e : Entry) → LeavesAlone e calm
calm-LeavesAlone e = record { held = λ n c h. h; buried = λ n c h. h }

process_entry-Accounted_example :
    let w' = (process_entry (worker plain (λ t. t) default_retry_policy 3) queued calm shop).1 in
    Held queued w'.cache
    ⊎ (((m : Message) × (parse_message plain queued ≡ ok m) × Stored m w'.db)
        ⊎ Accounted calm plain queued shop.cache w'.cache)
process_entry-Accounted_example =
    process_entry-Accounted plain (λ t. t) default_retry_policy 2 queued calm shop
      (calm-LeavesAlone queued) (unfold contains in refl)

abbrev status_of : Reconciler.StatusReader
status_of i n = ok Reconciler.ChargeStatus.charged

abbrev patient : Reconciler.Config
patient = record { charging_threshold = 120; max_charging_age = 600; batch_size = 10 }

abbrev stuck_row : StuckCharging
stuck_row = record { id = 1; age = 300; payment_intent_id = 44 }

resolve-one_verdict_example :
    tally is_verdict (Reconciler.resolve status_of patient stuck_row calm start).1.metrics
    ≡ 1 + tally is_verdict []
resolve-one_verdict_example = resolve-one_verdict status_of patient stuck_row calm start

-- The clock stands at five seconds.
abbrev pub later : Schedule
later n = record (calm n) { app_now = 5000000000 }

abbrev pub desk : Service.Config
desk = record { formats = plain; lower = λ t. t; reservation_window = 9000000000 }

abbrev pub booked : Order
booked = record {
  id = 9;
  event_id = 3;
  user_id = pos 5;
  quantity = pos 2;
  status = awaiting_payment;
  created_at = 5000000000;
  reserved_until = 14000000000;
  payment_intent_id = 0;
  ticket_type_id = 7;
  amount_cents = pos 3000;
  currency = vip.currency;
}

books : (Service.book_ticket desk (pos 5) 7 (pos 2) later shop).0 ≡ ok booked
unfolding Service.book_ticket Service.check_request Service.book_request Service.first_result
    Service.deduct Service.answer ◌>>=◌ new_v7 of_result clock pure attempt run_script
    deduct_inventory read_reply deduct_lua deduct_args deduct_no_xadd decr_by set_quantity
    price_reply xadd ◌-ℤ◌ metadata_of multiply_decimal_string_by_int print_int print parse_int
    parse_digits to_unix new_reservation normalize_currency is_valid_currency_code
books = refl

booked-Fits : Fits booked
booked-Fits = record {
  user = omega arith;
  count = omega arith;
  after_epoch = unfold to_unix in omega arith;
  deadline = unfold to_unix in omega arith;
}

book_ticket-IsQueued_example :
    IsQueued desk booked (Service.book_ticket desk (pos 5) 7 (pos 2) later shop).1.cache
book_ticket-IsQueued_example =
    book_ticket-IsQueued desk parse_digits-print (pos 5) 7 (pos 2) later shop booked books
      booked-Fits
