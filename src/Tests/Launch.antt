-- ===== src/Tests/Launch.antt =====
-- Concrete inputs for the event service.
use booking_monitor.Prelude.{◌≡◌, ◌⊎◌, refl, [], ◌∷◌, find, select}
use booking_monitor.Prelude.Int.{pos}
use booking_monitor.Domain.Errors.{Error, ok, err}
use booking_monitor.Domain.Currency.{
  normalize_currency, is_valid_currency_code, is_ascii, same_text,
}
use booking_monitor.Domain.Event.{Event, new_event}
use booking_monitor.Domain.TicketType.{TicketType, new_ticket_type, is_blank}
use booking_monitor.Store.Exec.{
  attempt, of_result, pure, ◌>>=◌, new_v7, do_uow, begin_tx, exec, run_script,
}
use booking_monitor.Store.Atomicity.{opened}
use booking_monitor.Store.Db.{insert_event, find_event, insert_ticket_type, is_taken}
use booking_monitor.Store.TicketTypes.{create_ticket_type}
use booking_monitor.Store.Events.{create_event_row}
use booking_monitor.Cache.Inventory.{set_ticket_type_runtime}
use booking_monitor.EventService
use booking_monitor.EventService.{
  CreateEventResult, create_body, create_event, install, runtime_result, compensate_dangling_event,
  default_ticket_type_name,
}
use booking_monitor.EventService.Rows.{
  BothAdded, create_uow-BothAdded, NeitherThere, compensate_dangling_event-NeitherThere,
}
use booking_monitor.EventService.Launch.{Made, OnSale, create_event-OnSale}
use booking_monitor.Tests.{vip, concert, start, calm, usd}
use booking_monitor.Tests.Queue.{plain}

abbrev office : EventService.Config
office = record { formats = plain; lower = λ t. t; trim = λ t. t }

create_uow-BothAdded_example :
    ((do_uow (create_body concert vip) calm start).1.db ≡ (opened calm start).db)
    ⊎ BothAdded concert vip
        (opened calm start).db
        (do_uow (create_body concert vip) calm start).1.db
create_uow-BothAdded_example = create_uow-BothAdded concert vip calm start

compensate_dangling_event-NeitherThere_example :
    let (r, w') = compensate_dangling_event 3 7 calm start in
    (((x : Error) × (r ≡ err x)) × (w'.db ≡ (opened calm start).db)) ⊎ NeitherThere 3 7 w'.db
compensate_dangling_event-NeitherThere_example =
    compensate_dangling_event-NeitherThere 3 7 calm start

abbrev opening : Event
opening = record concert { id = 9; available_tickets = pos 10 }

abbrev default_type : TicketType
default_type = record vip {
  id = 9;
  event_id = 9;
  name = default_ticket_type_name;
  currency = normalize_currency (λ t. t) usd;
  available_tickets = pos 10;
}

abbrev launched : CreateEventResult
launched = record { event = opening; ticket_types = default_type ∷ [] }

launches : (create_event office concert.name (pos 10) (pos 1500) usd calm start).0 ≡ ok launched
unfolding create_event ◌>>=◌ attempt new_v7 of_result new_event new_ticket_type is_blank is_ascii
    normalize_currency is_valid_currency_code do_uow begin_tx create_body create_event_row
    create_ticket_type exec insert_event find_event insert_ticket_type is_taken same_text pure
    install set_ticket_type_runtime run_script runtime_result find select
launches = refl

create_event-OnSale_example :
    (e : Event) × (t : TicketType) × (launched ≡ record { event = e; ticket_types = t ∷ [] })
    × Made office concert.name (pos 10) (pos 1500) usd e t
    × OnSale office e t (create_event office concert.name (pos 10) (pos 1500) usd calm start).1
create_event-OnSale_example =
    create_event-OnSale office concert.name (pos 10) (pos 1500) usd calm start launched launches
