-- ===== src/EventService.antt =====
-- internal/application/event/service.go: an event and its default ticket type come into being, in the
-- tables and then in Redis. `lower` and `trim` are those of the Unicode tables.
--
-- An id is drawn before the checks that the source makes first; the draw changes nothing.
pub mod Rows
pub mod Launch
use booking_monitor.Prelude.{ℕ, none, List, [], ◌∷◌}
use booking_monitor.Prelude.Int.{ℤ}
use booking_monitor.Domain.Errors.{Error, Result, ok, err, joined}
use booking_monitor.Domain.Currency.{Text}
use booking_monitor.Domain.Event.{Event, new_event}
use booking_monitor.Domain.TicketType.{TicketType, new_ticket_type}
use booking_monitor.Store.Exec.{M, pure, raise, attempt, of_result, ◌>>=◌, ◌>>◌, tx, do_uow, new_v7}
use booking_monitor.Store.TicketTypes.{create_ticket_type, remove_ticket_type}
use booking_monitor.Store.Events.{create_event_row, delete_event_row}
use booking_monitor.Cache.Deduct.{Formats}
use booking_monitor.Cache.Inventory.{set_ticket_type_runtime}

pub record Config : Type 0 where
  pub formats : Formats
  pub lower : Text → Text
  pub trim : Text → Text

-- `CreateEventResult`, whose list has the default ticket type alone.
pub record CreateEventResult : Type 0 where
  pub event : Event
  pub ticket_types : List TicketType

abbrev pub default_ticket_type_name : Text
default_ticket_type_name = b'D' ∷ b'e' ∷ b'f' ∷ b'a' ∷ b'u' ∷ b'l' ∷ b't' ∷ []

unfoldable pub create_body : Event → TicketType → M (Event × TicketType)
create_body e t = do
  event ← create_event_row tx e
  ticket_type ← create_ticket_type tx t
  pure (event, ticket_type)

unfoldable pub dangling_body : ℕ → ℕ → M (Unit {0})
dangling_body event_id ticket_type_id = do
  remove_ticket_type tx ticket_type_id
  delete_event_row tx event_id

unfoldable pub compensate_dangling_event : ℕ → ℕ → M (Unit {0})
compensate_dangling_event event_id ticket_type_id = do_uow (dangling_body event_id ticket_type_id)

unfoldable pub compensated : Error → Result (Unit {0}) → M CreateEventResult
compensated redis_error (err e) = raise (joined redis_error e)
compensated redis_error (ok _) = raise redis_error

unfoldable pub runtime_result : Event → TicketType → Result (Unit {0}) → M CreateEventResult
runtime_result e t (ok _) = pure (record { event = e; ticket_types = t ∷ [] })
runtime_result e t (err redis_error) =
    attempt (compensate_dangling_event e.id t.id) >>= compensated redis_error

unfoldable pub install : Config → Event × TicketType → M CreateEventResult
install cfg (e, t) = attempt (set_ticket_type_runtime cfg.formats t) >>= runtime_result e t

unfoldable pub create_event : Config → Text → ℤ → ℤ → Text → M CreateEventResult
create_event cfg name total_tickets price_cents currency = do
  new_id ← attempt new_v7
  ev ← of_result (new_event cfg.trim new_id name total_tickets)
  tt_id ← new_v7
  ticket_type ← of_result (
      new_ticket_type cfg.lower cfg.trim tt_id ev.id default_ticket_type_name price_cents currency
        total_tickets none none none [])
  created ← do_uow (create_body ev ticket_type)
  install cfg created
