-- ===== src/Domain.antt =====
-- The domain layer (internal/domain): entities, value types and the errors that the layers share.
pub mod Status
pub mod Errors
pub mod Currency
pub mod Order
pub mod Graph
pub mod Reservation
pub mod Stock
pub mod TicketType
pub mod Event
