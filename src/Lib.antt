-- ===== src/Lib.antt =====
-- A model of the booking core of booking_monitor: a flash-sale ticket service in Go, in which a
-- reservation is queued, written to PostgreSQL by a worker, paid through a payment gateway, and
-- given back by a saga if the payment fails or the reservation runs out.
--
-- The parts, and the code that each stands for (paths from the repository's root):
--   * Domain: internal/domain. The order with its factories and its eight `Mark*` transitions
--     (order.go), the ticket type (ticket_type.go), the event and the outbox row (event.go), the
--     currency helpers (currency.go) and the sentinel errors. Domain/Graph has the status graph
--     that the comment on `ErrInvalidTransition` draws, as a relation.
--   * Application: the wire event `OrderFailedEvent` (internal/application/order_events.go), and
--     the counters that the services set.
--   * Store: internal/infrastructure/persistence/postgres. Store/Db has the tables and each SQL
--     statement of repositories.go as a function, Store/Rows the rows (order_row.go,
--     ticket_type_row.go); Store/Exec has the calls of a process as a state
--     monad, and `PostgresUnitOfWork.Do` (uow.go); Store/Orders, Store/TicketTypes, Store/Events,
--     Store/Outbox and Store/Compensations have the repository methods.
--   * Payment: internal/application/payment. `CreatePaymentIntent` (service.go) and `HandleWebhook`
--     with its handlers (webhook_service.go).
--   * Expiry: internal/application/expiry/sweeper.go, `Sweep` and `resolve`. Expiry/Stage5 has the
--     sweep of stage5_sweeper.go and its compensator,
--     internal/infrastructure/persistence/postgres/stage5_compensator.go.
--   * Wire: decimal texts, as strconv and the scripts read and write them.
--   * Cache: the inventory repository of internal/infrastructure/cache/redis.go and the scripts
--     lua/deduct.lua, lua/deduct_no_xadd.lua and lua/revert.lua, on the keys of Store/Redis.
--     Cache/Rehydrate has the start of a process (internal/infrastructure/cache/rehydrate.go).
--   * Saga: internal/application/saga, `HandleOrderFailed` (compensator.go) and the watchdog's
--     `Sweep` (watchdog.go).
--   * Recon: internal/application/recon, `Sweep` and `resolve` of reconciler.go, and the drift
--     detector (inventory_drift.go) in Recon/Drift.
--   * Worker: internal/application/worker, `Process` and the retry policy, and the consumer of the
--     stream, internal/infrastructure/cache/redis_queue.go: Worker/Wire reads an entry,
--     Worker/Queue deals with one, and Worker/Subscribe has the loops.
--   * Booking: internal/application/booking, `BookTicket` with the Redis stream (service.go) and
--     with Kafka (service_kafka_intake.go). Booking/Sync and Booking/SyncLua have the synchronous
--     stages (sync/service.go and synclua/service.go).
--   * Messaging: internal/infrastructure/messaging. `PublishIntake` (kafka_intake_publisher.go), the
--     consumer of the intake topic (kafka_intake_consumer.go), which hands its messages to the
--     worker, and the consumer of order.failed (saga_consumer.go), which hands them to the
--     compensator and bounds its attempts.
--   * Http: the idempotency middleware (internal/infrastructure/api/middleware/idempotency.go) with
--     its store (internal/infrastructure/cache/idempotency.go).
--   * Settings: `Validate` of internal/infrastructure/config/config.go.
--   * EventService: internal/application/event/service.go, `CreateEvent` and its compensation.
--   * Relay: internal/application/outbox/relay.go, `processBatch` and the loop of the ticks.
--   * System: any sequence of calls of the payment service, the webhook, the sweeper, the worker,
--     the compensator and the reconciler. System/Evolution is about the orders and their status;
--     System/Inventory is about the tickets. Store/Stock says what a ticket type has left and what
--     the orders hold of it, Store/Conservation, Store/Shifts and Store/Holds how each statement
--     moves the two, and Store/Yields has the rules for the body of a transaction. Store/Triples
--     has the rules for what an action does to the Redis keys.
--
-- How they interact: a booking takes its tickets from the Redis key and leaves an entry on the
-- stream; the consumer hands the entry's message to the worker, which writes an order and takes its
-- tickets from the ticket type's row; a webhook or the sweeper moves the order on and writes an
-- outbox row in the same transaction; the relay publishes the outbox row, which reaches the
-- compensator, and that gives the tickets back in the database and in Redis.
--
-- How a call is run: an action takes a schedule and a world. The schedule gives one turn to each
-- call of the outside (a statement, a script, the clock, the id generator, the gateway): what the
-- other processes do to the tables and to Redis before it, whether the call is done, refused,
-- cancelled or done with its answer lost, and what the clocks say. A theorem over all schedules
-- covers every interleaving between calls and every failure. Inside a transaction no change of
-- another process is seen. That is what happens where its first statement locks the rows it works
-- on; the saga's compensator reads its order with a plain SELECT, and a change of the order
-- between that and the UPDATE is not seen here. The loops of the sweepers are over the rows of
-- their batches, and the retry loop is over the attempts. The two loops of the stream's consumer,
-- those of the Kafka consumers and that of the relay have no bound, and run for a number of
-- rounds; what a consumer answers after them says that it goes on. The digits of a number are
-- written on fuel that exceeds the number.
--
-- Not under the model: a UUID, a time and a payment intent id are numbers, 0 the zero value. Times
-- are whole nanoseconds and do not overflow; Go's `int` is unbounded here, but for what is read
-- from a text and for the product that the synchronous booking makes. The parser of UUIDs, the
-- Unicode tables, Lua's `tonumber` and what its doubles round to, the gateway, the answers of the
-- Kafka readers and writers and of XREADGROUP, JSON and the hash of a request's body are
-- parameters. The times to live of the Redis keys are left out: a key that goes is a step of
-- another process. Log lines, histograms and traces are left out. The HTTP handlers, the payment
-- gateways and the reading of the configuration are not modelled.
--
-- The helpers are in Prelude, and runs of the services at concrete inputs in Tests.
pub mod Prelude
pub mod Domain
pub mod Wire
pub mod Application
pub mod Store
pub mod Payment
pub mod Expiry
pub mod Cache
pub mod Saga
pub mod Recon
pub mod Worker
pub mod Relay
pub mod Booking
pub mod Messaging
pub mod Http
pub mod Settings
pub mod EventService
pub mod System
mod Tests
