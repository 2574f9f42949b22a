-- ===== src/Tests.antt =====
-- Concrete inputs: each theorem of the results at one of them, and runs of the services.
mod Queue
mod Relay
mod Drift
mod Launch
mod Messages
mod Http
mod Settings
mod Stock
use booking_monitor.Prelude.{
  ◌+◌, ◌≡◌, ◌≢◌, ◌⊎◌, refl, inl, find, true, none, some, List, [], ◌∷◌, arith,
}
use booking_monitor.Prelude.Int.{pos}
use booking_monitor.Domain.Status.{awaiting_payment, paid, expired}
use booking_monitor.Domain.Errors.{ok, err}
use booking_monitor.Domain.Currency.{Text, normalize_currency, is_valid_currency_code}
use booking_monitor.Domain.Order.{Order, new_reservation}
use booking_monitor.Domain.TicketType.{TicketType}
use booking_monitor.Domain.Graph.{
  ◌⟶◌, pay, paid_mark, expired_mark, compensated_mark, apply_mark, apply_mark-⟶, apply_mark-err,
  ⟶-apply_mark, apply_mark-terminal, apply_marks-no_return,
}
use booking_monitor.Domain.Order.{mark_paid, mark_expired}
use booking_monitor.Domain.Errors.{invalid_transition, invalid_quantity, is_malformed_order_input}
use booking_monitor.Application.Events.{OutboxEvent, new_order_failed_outbox}
use booking_monitor.Expiry.Transaction.{RunOut, expire_uow-RunOut}
use booking_monitor.Domain.Stock.{IsOnSale, new_ticket_type-IsOnSale, deduct-left}
use booking_monitor.Domain.Event.{Event, deduct}
use booking_monitor.Prelude.{◌↔◌}
use booking_monitor.Domain.Currency.{is_ascii}
use booking_monitor.Domain.TicketType.{new_ticket_type, is_blank}
use booking_monitor.Prelude.Int.{◌-ℤ◌}
use booking_monitor.Domain.Reservation.{
  IsAcceptable, new_reservation-IsAcceptable, IsReservation, new_reservation-IsReservation,
  new_reservation_malformed,
}
use booking_monitor.Domain.Graph.{apply_marks, Mark}
use booking_monitor.Application.Events.{OrderFailedEvent, gateway_declined}
use booking_monitor.Store.Db.{find_order, insert_order, clashes, ExpiredReservation}
use booking_monitor.Store.Orders
use booking_monitor.Store.Keeps.{Obeys}
use booking_monitor.Store.Evolves.{Evolves, Evolves-Preorder, Later}
use booking_monitor.Store.Atomicity.{opened, Applied, do_uow_atomic, do_uow-ok}
use booking_monitor.Store.Tally.{tally}
use booking_monitor.Store.Exec.{tx, do_uow, exec, pure, ◌>>=◌, begin_tx}
use booking_monitor.Cache.Revert.{contains, add_quantity, revert_script}
use booking_monitor.Cache.Once.{after_script, revert_all, revert_all-once, revert_script-others}
use booking_monitor.Expiry.Sweeper
use booking_monitor.Recon.Reconciler
use booking_monitor.Expiry.Outcomes.{is_resolution, resolve-counts_once}
use booking_monitor.Saga.Compensator
use booking_monitor.Saga.Outcomes.{is_processed, handle_order_failed-counts_once}
use booking_monitor.System.{Call, books, Env, pays, sweeps, order_failed, run}
use booking_monitor.System.Evolution.{run-Later}
use booking_monitor.System.Inventory.{AllGenuine, run-balance, run-not_oversold}
use booking_monitor.Saga.Delivery.{Honest, Honest-Preorder}
use booking_monitor.Saga.Conservation.{Recorded}
use booking_monitor.Store.Stock.{available, total, balance, held}
use booking_monitor.Worker.Processor.{Message}
use booking_monitor.Store.Db.{find_ticket_type}
use booking_monitor.Prelude.Int.{◌≤ℤ◌, ◌+ℤ◌}
use booking_monitor.Store.Redis.{Redis, Metadata}
use booking_monitor.Store.Exec.{done, Schedule, World}

abbrev pub usd : Text
usd = b'U' ∷ b'S' ∷ b'D' ∷ []

abbrev pub vip : TicketType
vip = record {
  id = 7;
  event_id = 3;
  name = b'V' ∷ [];
  price_cents = pos 1500;
  currency = b'u' ∷ b's' ∷ b'd' ∷ [];
  total_tickets = pos 10;
  available_tickets = pos 8;
  sale_starts_at = none;
  sale_ends_at = none;
  per_user_limit = none;
  area_label = [];
  version = pos 0;
}

abbrev pub reserved : Order
reserved = record {
  id = 1;
  event_id = 3;
  user_id = pos 5;
  quantity = pos 2;
  status = awaiting_payment;
  created_at = 100;
  reserved_until = 1000;
  payment_intent_id = 44;
  ticket_type_id = 7;
  amount_cents = pos 3000;
  currency = b'u' ∷ b's' ∷ b'd' ∷ [];
}

abbrev pub no_metadata : Metadata
no_metadata = record { event_id = none; price_cents = none; currency = none }

abbrev pub stocked : Redis
stocked = record {
  quantity = λ _. some (pos 8);
  metadata = λ _. no_metadata;
  reverted = [];
  stream = [];
  last_entry = 0;
  pending = [];
  dlq = [];
  retries = λ partition offset. 0;
  idempotency_entries = λ key. none;
}

abbrev pub start : World
start = record {
  db = record {
    orders = reserved ∷ [];
    updated_at = λ _. 100;
    history = [];
    outbox = [];
    ticket_types = vip ∷ [];
    events = [];
    compensations = [];
  };
  cache = stocked;
  tick = 0;
  metrics = [];
}

-- Nobody interferes, and every call succeeds; the clocks stand at 500.
abbrev pub calm : Schedule
calm _ = record {
  interferes = λ d. d;
  interferes_cache = λ c. c;
  outcome = done;
  db_now = 500;
  app_now = 500;
  fresh_id = 9;
}

calm-Evolves : Obeys Evolves calm
calm-Evolves n d = Evolves-Preorder.reflexive d

abbrev small_batches : Sweeper.Config
small_batches = record { expiry_grace_period = 5; batch_size = 10; max_age = 300 }

abbrev late_row : ExpiredReservation
late_row = record { id = 1; age = 400 }

abbrev failure : OrderFailedEvent
failure = record {
  event_id = 3;
  order_id = 1;
  user_id = pos 5;
  ticket_type_id = 7;
  quantity = pos 2;
  failed_at = 900;
  reason = gateway_declined;
  version = 3;
}

abbrev env : Env
env = record {
  gateway = λ id amount currency n.
      ok (record { id = 44; client_secret = n; amount_cents = amount; currency = currency });
  lower = λ t. t;
  parse_uuid = λ t. none;
  live_mode = true;
  expiry = small_batches;
  status_of = λ intent n. ok Reconciler.ChargeStatus.charged;
  recon = record { charging_threshold = 120; max_charging_age = 600; batch_size = 10 };
}

abbrev another : Order
another = record reserved { id = 2; user_id = pos 6 }

calm-Honest : Obeys Honest calm
calm-Honest n d = Honest-Preorder.reflexive d

-- The order has run out, and waits for its compensation.
abbrev run_out : World
run_out = record start {
  db = record start.db { orders = record reserved { status = expired } ∷ [] };
}

abbrev request : Message
request = record {
  message_id = 21;
  order_id = 2;
  user_id = pos 6;
  event_id = 3;
  ticket_type_id = 7;
  quantity = pos 1;
  reserved_until = 1000;
  amount_cents = pos 1500;
  currency = usd;
}

-- The failed order is compensated, another one is booked, and the sweeper comes by.
abbrev busy : List Call
busy = order_failed (some failure) ∷ books request ∷ sweeps ∷ []

failure-Recorded : Recorded failure run_out.db
failure-Recorded = record {
  order = record reserved { status = expired };
  stored = unfold find_order find in refl;
  holds_type = refl;
  holds_quantity = refl;
  names_type = ground arith;
}

busy-AllGenuine : AllGenuine env busy calm run_out
unfolding AllGenuine
busy-AllGenuine = (failure-Recorded, (tt, (tt, tt)))

run-balance_example : balance 7 (run env busy calm run_out).db ≡ balance 7 run_out.db
run-balance_example = run-balance env busy calm calm-Honest run_out busy-AllGenuine 7

left_at_start : pos 0 ≤ℤ available 7 run_out.db
unfolding available find_ticket_type find
left_at_start = ground arith

sound_at_start : balance 7 run_out.db ≤ℤ total 7 run_out.db
unfolding balance available total held find_ticket_type find ◌+ℤ◌
sound_at_start = ground arith

run-not_oversold_example :
    (pos 0 ≤ℤ available 7 (run env busy calm run_out).db)
    × (held 7 (run env busy calm run_out).db.orders ≤ℤ total 7 (run env busy calm run_out).db)
    × (total 7 (run env busy calm run_out).db ≡ total 7 run_out.db)
run-not_oversold_example =
    run-not_oversold env busy calm calm-Honest run_out busy-AllGenuine 7 left_at_start
      sound_at_start

apply_mark-⟶_example :
    (awaiting_payment ⟶ paid)
    × (record reserved { status = paid } ≡ record reserved { status = paid })
apply_mark-⟶_example = apply_mark-⟶ paid_mark reserved (unfold apply_mark mark_paid in refl)

apply_marks-no_return_example :
    (apply_marks (compensated_mark ∷ paid_mark ∷ []) (record reserved { status = expired })).status
    ≢ awaiting_payment
apply_marks-no_return_example =
    apply_marks-no_return expired_mark (compensated_mark ∷ paid_mark ∷ []) reserved
      (unfold apply_mark mark_expired in refl)

run-Later_example :
    Later reserved (run env (pays 1 ∷ sweeps ∷ order_failed (some failure) ∷ []) calm start).db
run-Later_example =
    run-Later env (pays 1 ∷ sweeps ∷ order_failed (some failure) ∷ []) calm calm-Evolves start 1
      reserved (unfold find_order find in refl)

handle_order_failed-counts_once_example :
    tally is_processed (Compensator.handle_order_failed (some failure) calm start).1.metrics
    ≡ 1 + tally is_processed []
handle_order_failed-counts_once_example = handle_order_failed-counts_once (some failure) calm start

resolve-counts_once_example :
    tally is_resolution (Sweeper.resolve small_batches late_row calm start).1.metrics
    ≡ 1 + tally is_resolution []
resolve-counts_once_example = resolve-counts_once small_batches late_row calm start

revert_all-once_example : revert_all 7 (pos 2) 2 3 start.cache ≡ record start.cache {
  quantity = add_quantity 7 (pos 2) start.cache.quantity;
  reverted = 2 ∷ [];
}
unfolding contains
revert_all-once_example = revert_all-once 7 (pos 2) 2 2 start.cache

abbrev booked : Order
booked = record reserved { currency = normalize_currency (λ t. t) usd; payment_intent_id = 0 }

new_reservation-IsReservation_example :
    IsReservation 100 booked
    × (booked.id ≡ 1)
    × (booked.user_id ≡ pos 5)
    × (booked.event_id ≡ 3)
    × (booked.ticket_type_id ≡ 7)
    × (booked.quantity ≡ pos 2)
    × (booked.reserved_until ≡ 1000)
    × (booked.amount_cents ≡ pos 3000)
    × (booked.currency ≡ normalize_currency (λ t. t) usd)
new_reservation-IsReservation_example =
    new_reservation-IsReservation (λ t. t) 100 1 (pos 5) 3 7 (pos 2) 1000 (pos 3000) usd
      (unfold new_reservation normalize_currency is_valid_currency_code in refl)

new_reservation-IsAcceptable_example :
    ((o : Order) × (new_reservation (λ t. t) 100 1 (pos 5) 3 7 (pos 2) 1000 (pos 3000) usd ≡ ok o))
    ↔ IsAcceptable (λ t. t) 100 1 (pos 5) 3 7 (pos 2) 1000 (pos 3000) usd
new_reservation-IsAcceptable_example =
    new_reservation-IsAcceptable (λ t. t) 100 1 (pos 5) 3 7 (pos 2) 1000 (pos 3000) usd

abbrev fresh_vip : TicketType
fresh_vip = record vip { available_tickets = pos 10; currency = normalize_currency (λ t. t) usd }

new_ticket_type-IsOnSale_example :
    IsOnSale (λ t. t) fresh_vip
    × (fresh_vip.id ≡ 7)
    × (fresh_vip.event_id ≡ 3)
    × (fresh_vip.name ≡ b'V' ∷ [])
    × (fresh_vip.price_cents ≡ pos 1500)
    × (fresh_vip.currency ≡ normalize_currency (λ t. t) usd)
    × (fresh_vip.total_tickets ≡ pos 10)
    × (fresh_vip.sale_starts_at ≡ none)
    × (fresh_vip.sale_ends_at ≡ none)
    × (fresh_vip.per_user_limit ≡ none)
    × (fresh_vip.area_label ≡ [])
new_ticket_type-IsOnSale_example =
    new_ticket_type-IsOnSale (λ t. t) (λ t. t) 7 3 (b'V' ∷ []) (pos 1500) usd (pos 10) none none
      none []
      (unfold new_ticket_type normalize_currency is_valid_currency_code is_blank is_ascii in refl)

abbrev pub concert : Event
concert = record {
  id = 3;
  name = b'C' ∷ [];
  total_tickets = pos 10;
  available_tickets = pos 6;
  version = pos 0;
}

abbrev pub notice : OutboxEvent
notice = new_order_failed_outbox 9 500 failure

expire_uow-RunOut_example :
    ((do_uow (Sweeper.expire_body reserved notice) calm start).1.db ≡ (opened calm start).db)
    ⊎ RunOut 1 notice
        (opened calm start).db
        (do_uow (Sweeper.expire_body reserved notice) calm start).1.db
expire_uow-RunOut_example = expire_uow-RunOut reserved notice calm start
