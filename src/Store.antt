-- ===== src/Store.antt =====
-- The stores that the services share: the Postgres tables with the statements that the
-- repositories run on them, the Redis keys, and calls that can fail.
pub mod Db
pub mod Events
pub mod Stock
pub mod Redis
pub mod Exec
pub mod Triples
pub mod Answers
pub mod Spares
pub mod Keeps
pub mod Atomicity
pub mod Transaction
pub mod Tally
pub mod Silent
pub mod Evolves
pub mod Rows
pub mod Orders
pub mod TicketTypes
pub mod Outbox
pub mod Compensations
pub mod Calls
pub mod Conservation
pub mod Shifts
pub mod Holds
pub mod Yields
pub mod Moves
