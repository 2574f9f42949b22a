-- ===== src/Store/Db.antt =====
-- The tables behind internal/infrastructure/persistence/postgres, and the SQL statements of
-- repositories.go as functions on them. A statement is given the database's `NOW()`.
--
-- A row of `orders` is kept as the `domain.Order` that `orderRow.toDomain` reads from it (order_row.go):
-- NULL reads as the zero value. Its column `updated_at`, which the aggregate lacks, is kept beside.
use booking_monitor.Prelude.{
  ℕ, ◌+◌, ◌-◌, Bool, true, false, not, ◌&&◌, ◌||◌, Option, none, some, List, [], ◌∷◌, ltb, leb,
  ◌==◌, if◌then◌else◌, find, update, take, select, order_by, map, length, order_by_desc,
}
use booking_monitor.Prelude.Int.{ℤ, pos, ◌+ℤ◌, ◌-ℤ◌, leb_ℤ, nonpositive}
use booking_monitor.Domain.Status.{
  OrderStatus, charging, failed, awaiting_payment, paid, expired, payment_failed, same, is_one_of,
}
use booking_monitor.Domain.Errors.{
  Result, ok, err, user_already_bought, ticket_type_name_taken, infra,
}
use booking_monitor.Domain.Currency.{same_text}
use booking_monitor.Domain.Order.{Order}
use booking_monitor.Domain.TicketType.{TicketType}
use booking_monitor.Domain.Event.{Event}
use booking_monitor.Application.Events.{OutboxEvent}

pub record StatusChange : Type 0 where
  pub order_id : ℕ
  pub from_status : OrderStatus
  pub to_status : OrderStatus

-- A row of `saga_compensations`.
pub record Compensation : Type 0 where
  pub compensation_id : ℕ
  pub order_id : ℕ
  pub redis_reverted_at : Option ℕ

pub record Db : Type 0 where
  pub orders : List Order
  pub updated_at : ℕ → ℕ
  pub history : List StatusChange
  pub outbox : List OutboxEvent
  pub ticket_types : List TicketType
  pub events : List Event
  pub compensations : List Compensation

abbrev pub order_key : Order → ℕ
order_key o = o.id

abbrev pub ticket_type_key : TicketType → ℕ
ticket_type_key t = t.id

abbrev pub compensation_key : Compensation → ℕ
compensation_key c = c.compensation_id

unfoldable pub find_order : ℕ → Db → Option Order
find_order id d = find order_key id d.orders

unfoldable pub find_ticket_type : ℕ → Db → Option TicketType
find_ticket_type id d = find ticket_type_key id d.ticket_types

abbrev pub Stmt : Type 0 → Type 0
Stmt A = ℕ → Db → Result A × Db

abbrev pub touch : ℕ → ℕ → (ℕ → ℕ) → ℕ → ℕ
touch id now f k = if k == id then now else f k

-- The row's new status, its time of change and the row of `order_status_history`, in one statement.
unfoldable pub move_order : Order → OrderStatus → ℕ → Db → Db
move_order o to now d = record d {
  orders = update order_key o.id (λ r. record r { status = to }) d.orders;
  updated_at = touch o.id now d.updated_at;
  history = record { order_id = o.id; from_status = o.status; to_status = to } ∷ d.history;
}

-- The statement of `transitionStatus`: whether it affected a row.
unfoldable pub transition_stmt : ℕ → OrderStatus → List OrderStatus → Stmt Bool
unfolding move_order find_order
transition_stmt id to from now d = elim (find_order id d) [
  | none ↦ (ok false, d)
  | some o ↦ if is_one_of o.status from then (ok true, move_order o to now d) else (ok false, d)
]

-- The statement of `MarkPaid`, with its guard `reserved_until > NOW()`.
unfoldable pub mark_paid_stmt : ℕ → Stmt Bool
unfolding move_order find_order
mark_paid_stmt id now d = elim (find_order id d) [
  | none ↦ (ok false, d)
  | some o ↦
      if (same o.status awaiting_payment && ltb now o.reserved_until)
      then (ok true, move_order o paid now d)
      else (ok false, d)
]

-- The unique index on `payment_intent_id`: another row has the intent.
unfoldable pub intent_taken : ℕ → ℕ → List Order → Bool
intent_taken id intent [] = false
intent_taken id intent (o ∷ os) =
    (not (o.id == id) && o.payment_intent_id == intent && not (intent == 0))
    || intent_taken id intent os

-- The statement of `SetPaymentIntentID`.
unfoldable pub set_payment_intent_stmt : ℕ → ℕ → Stmt Bool
unfolding intent_taken find_order
set_payment_intent_stmt id intent now d = elim (find_order id d) [
  | none ↦ (ok false, d)
  | some o ↦
      if (same o.status awaiting_payment
        && ltb now o.reserved_until
        && (o.payment_intent_id == 0 || o.payment_intent_id == intent))
      then if intent_taken id intent d.orders then (err infra, d) else (
        ok true,
        record d {
          orders = update order_key id (λ r. record r { payment_intent_id = intent }) d.orders;
        },
      )
      else (ok false, d)
]

unfoldable pub select_order : ℕ → Stmt (Option Order)
unfolding find_order
select_order id now d = (ok (find_order id d), d)

find_intent : ℕ → List Order → Option Order
find_intent intent [] = none
find_intent intent (o ∷ os) =
    if o.payment_intent_id == intent then some o else find_intent intent os

unfoldable pub select_order_by_intent : ℕ → Stmt (Option Order)
unfolding find_intent
select_order_by_intent intent now d = (ok (find_intent intent d.orders), d)

-- Go's `!=` on the user ids, which are integers.
abbrev same_user : ℤ → ℤ → Bool
same_user a b = leb_ℤ a b && leb_ℤ b a

-- What the primary key and the partial unique index on (user_id, event_id) forbid beside `o`.
unfoldable pub clashes : Order → List Order → Bool
clashes o [] = false
clashes o (r ∷ rs) =
    r.id == o.id
    || (same_user r.user_id o.user_id
        && r.event_id == o.event_id
        && not (same r.status failed)
        && not (same o.status failed))
    || clashes o rs

unfoldable pub insert_order : Order → Stmt (Unit {0})
unfolding clashes
insert_order o now d =
    if clashes o d.orders
    then (err user_already_bought, d)
    else (ok tt, record d { orders = o ∷ d.orders; updated_at = touch o.id now d.updated_at })

-- `event_ticket_types` may not hold a negative count: `CHECK (available_tickets >= 0)`.
abbrev set_available : ℕ → ℤ → Db → Db
set_available id n d = record d {
  ticket_types = update ticket_type_key id (λ t. record t { available_tickets = n }) d.ticket_types;
}

unfoldable pub decrement_stmt : ℕ → ℤ → Stmt Bool
unfolding find_ticket_type
decrement_stmt id quantity now d = elim (find_ticket_type id d) [
  | none ↦ (ok false, d)
  | some t ↦
      if leb_ℤ quantity t.available_tickets
      then (ok true, set_available id (t.available_tickets -ℤ quantity) d)
      else (ok false, d)
]

unfoldable pub increment_stmt : ℕ → ℤ → Stmt Bool
unfolding find_ticket_type
increment_stmt id quantity now d = elim (find_ticket_type id d) [
  | none ↦ (ok false, d)
  | some t ↦
      if leb_ℤ (t.available_tickets +ℤ quantity) t.total_tickets
      then if leb_ℤ (pos 0) (t.available_tickets +ℤ quantity)
        then (ok true, set_available id (t.available_tickets +ℤ quantity) d)
        else (err infra, d)
      else (ok false, d)
]

unfoldable pub select_ticket_types : ℕ → Stmt (List TicketType)
select_ticket_types event_id now d =
    (ok (order_by ticket_type_key (select (λ t. t.event_id == event_id) d.ticket_types)), d)

abbrev pub event_key : Event → ℕ
event_key e = e.id

unfoldable pub find_event : ℕ → Db → Option Event
find_event id d = find event_key id d.events

-- A second row with the primary key is refused.
unfoldable pub insert_event : Event → Stmt (Unit {0})
unfolding find_event
insert_event e now d = elim (find_event e.id d) [
  | none ↦ (ok tt, record d { events = e ∷ d.events })
  | some other ↦ (err infra, d)
]

unfoldable pub delete_event : ℕ → Stmt (Unit {0})
delete_event id now d =
    (ok tt, record d { events = select (λ (e : Event). not (e.id == id)) d.events })

-- The primary key, and `uq_ticket_type_name_per_event`: a violation of either is code 23505.
unfoldable pub is_taken : TicketType → TicketType → Bool
is_taken t u = u.id == t.id || (u.event_id == t.event_id && same_text u.name t.name)

unfoldable pub insert_ticket_type : TicketType → Stmt (Unit {0})
unfolding is_taken
insert_ticket_type t now d = elim (select (is_taken t) d.ticket_types) [
  | [] ↦ (ok tt, record d { ticket_types = t ∷ d.ticket_types })
  | u ∷ us ↦ (err ticket_type_name_taken, d)
]

unfoldable pub delete_ticket_type : ℕ → Stmt (Unit {0})
delete_ticket_type id now d = (
  ok tt,
  record d { ticket_types = select (λ (t : TicketType). not (t.id == id)) d.ticket_types },
)

-- `WHERE available_tickets > 0 ORDER BY id DESC`.
unfoldable pub select_available : Stmt (List Event)
select_available now d = (
  ok (
      order_by_desc (λ (e : Event). e.id)
        (select (λ (e : Event). not (nonpositive e.available_tickets)) d.events)),
  d,
)

abbrev pub outbox_key : OutboxEvent → ℕ
outbox_key e = e.id

unfoldable pub insert_outbox : OutboxEvent → Stmt (Unit {0})
insert_outbox e now d = elim (find outbox_key e.id d.outbox) [
  | some other ↦ (err infra, d)
  | none ↦ (ok tt, record d { outbox = e ∷ d.outbox })
]

-- `INSERT … ON CONFLICT DO NOTHING`: whether a row was written. The column `order_id` is a foreign key.
unfoldable pub insert_compensation : ℕ → ℕ → Stmt Bool
unfolding find_order
insert_compensation id order_id now d = elim (find compensation_key id d.compensations) [
  | some c ↦ (ok false, d)
  | none ↦ elim (find_order order_id d) [
    | none ↦ (err infra, d)
    | some o ↦ (
      ok true,
      record d {
        compensations =
            record { compensation_id = id; order_id = order_id; redis_reverted_at = none }
            ∷ d.compensations;
      },
    )
  ]
]

unfoldable pub select_reverted : ℕ → Stmt (Option Bool)
select_reverted id now d = (
  ok (elim (find compensation_key id d.compensations) [
    | none ↦ none
    | some c ↦ some (elim c.redis_reverted_at [ none ↦ false | some t ↦ true ])
  ]),
  d,
)

unfoldable pub mark_reverted_stmt : ℕ → Stmt Bool
mark_reverted_stmt id now d = elim (find compensation_key id d.compensations) [
  | none ↦ (ok false, d)
  | some c ↦ (
    ok true,
    record d {
      compensations =
          update compensation_key id (λ r. record r { redis_reverted_at = some now })
            d.compensations;
    },
  )
]

-- A row of `FindExpiredReservations`.
pub record ExpiredReservation : Type 0 where
  pub id : ℕ
  pub age : ℕ

abbrev is_overdue : ℕ → ℕ → Order → Bool
is_overdue grace now o =
    same o.status awaiting_payment
    && not (o.reserved_until == 0)
    && leb (o.reserved_until + grace) now

overdue : ℕ → ℕ → Db → List Order
overdue grace now d =
    order_by (λ (o : Order). o.reserved_until) (select (is_overdue grace now) d.orders)

unfoldable pub select_expired : ℕ → ℕ → Stmt (List ExpiredReservation)
unfolding overdue
select_expired grace limit now d = (
  ok (
      map (λ (o : Order). record { id = o.id; age = now - o.reserved_until })
        (take limit (overdue grace now d))),
  d,
)

-- The age of the oldest row, 0 where there is none: `COALESCE(NOW() - MIN(reserved_until), 0)`.
oldest_age : ℕ → List Order → ℕ
oldest_age now [] = 0
oldest_age now (o ∷ os) = now - o.reserved_until

unfoldable pub count_overdue : ℕ → Stmt (ℕ × ℕ)
unfolding overdue oldest_age
count_overdue grace now d =
    (ok (length (overdue grace now d), oldest_age now (overdue grace now d)), d)

-- `domain.StuckCharging` and `domain.StuckFailed`. No intent is 0, for the empty text.
pub record StuckCharging : Type 0 where
  pub id : ℕ
  pub age : ℕ
  pub payment_intent_id : ℕ

pub record StuckFailed : Type 0 where
  pub id : ℕ
  pub age : ℕ

-- The rows in one of the statuses that did not change for longer than `min_age`, the oldest first.
stuck : List OrderStatus → ℕ → ℕ → Db → List Order
stuck statuses min_age now d =
    order_by (λ (o : Order). d.updated_at o.id)
      (select (λ (o : Order). is_one_of o.status statuses && ltb (d.updated_at o.id + min_age) now)
        d.orders)

unfoldable pub select_stuck_charging : ℕ → ℕ → Stmt (List StuckCharging)
unfolding stuck
select_stuck_charging min_age limit now d = (
  ok (
      map
        (λ (o : Order). record {
          id = o.id;
          age = now - d.updated_at o.id;
          payment_intent_id = o.payment_intent_id;
        })
        (take limit (stuck (charging ∷ []) min_age now d))),
  d,
)

unfoldable pub select_stuck_failed : ℕ → ℕ → Stmt (List StuckFailed)
unfolding stuck
select_stuck_failed min_age limit now d = (
  ok (
      map (λ (o : Order). record { id = o.id; age = now - d.updated_at o.id })
        (take limit (stuck (failed ∷ expired ∷ payment_failed ∷ []) min_age now d))),
  d,
)

unfoldable pub select_ticket_type : ℕ → Stmt (Option TicketType)
unfolding find_ticket_type
select_ticket_type id now d = (ok (find_ticket_type id d), d)

is_unprocessed : OutboxEvent → Bool
is_unprocessed e = elim e.processed_at [ none ↦ true | some t ↦ false ]

unfoldable pub select_pending : ℕ → Stmt (List OutboxEvent)
unfolding is_unprocessed
select_pending limit now d =
    (ok (take limit (order_by outbox_key (select is_unprocessed d.outbox))), d)

unfoldable pub mark_processed_stmt : ℕ → Stmt (Unit {0})
mark_processed_stmt id now d = (
  ok tt,
  record d { outbox = update outbox_key id (λ e. record e { processed_at = some now }) d.outbox },
)
