-- ===== src/Domain/Event.antt =====
-- internal/domain/event.go: the event aggregate and the outbox row.
use booking_monitor.Prelude.{ℕ}
use booking_monitor.Prelude.Int.{ℤ, pos, ◌-ℤ◌, nonpositive, ltb_ℤ}
use booking_monitor.Domain.Errors.{
  Result, ok, fail_if, ◌>>=◌, ◌>>◌, invalid_event_name, invalid_total_tickets, sold_out,
  invalid_event_quantity,
}
use booking_monitor.Domain.Currency.{Text}
use booking_monitor.Domain.TicketType.{is_blank}

pub record Event : Type 0 where
  pub id : ℕ
  pub name : Text
  pub total_tickets : ℤ
  pub available_tickets : ℤ
  pub version : ℤ

-- `new_id` is the answer of `uuid.NewV7()`.
unfoldable pub new_event : (Text → Text) → Result ℕ → Text → ℤ → Result Event
new_event trim new_id name total_tickets = do
  fail_if (is_blank trim name) invalid_event_name
  fail_if (nonpositive total_tickets) invalid_total_tickets
  id ← new_id
  ok (record {
    id = id;
    name = name;
    total_tickets = total_tickets;
    available_tickets = total_tickets;
    version = pos 0;
  })

unfoldable pub deduct : Event → ℤ → Result Event
deduct e quantity = do
  fail_if (ltb_ℤ quantity (pos 0)) invalid_event_quantity
  fail_if (ltb_ℤ e.available_tickets quantity) sold_out
  ok (record e { available_tickets = e.available_tickets -ℤ quantity })
