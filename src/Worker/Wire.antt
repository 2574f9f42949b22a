-- ===== src/Worker/Wire.antt =====
-- The readers of stream entries in internal/infrastructure/cache/redis_queue.go: `parseMessage` and
-- `parseRevertHints`. An error's text is not kept.
use booking_monitor.Prelude.{ℕ, ◌*◌, ◌==◌, Option, none, some}
use booking_monitor.Prelude.Int.{ℤ, pos_part, nonpositive}
use booking_monitor.Domain.Errors.{Result, ok, err, infra, fail_if, ◌>>=◌, ◌>>◌}
use booking_monitor.Domain.TicketType.{is_empty}
use booking_monitor.Wire.Decimal.{parse_int}
use booking_monitor.Store.Redis.{Entry}
use booking_monitor.Cache.Deduct.{Formats}
use booking_monitor.Cache.Inventory.{second}
use booking_monitor.Worker.Processor.{Message}

-- A field that is missing, or a text that does not parse.
abbrev pub needed {ℓ} : {A : Type ℓ} → Option A → Result A
needed none = err infra
needed (some a) = ok a

-- `time.Unix(s, 0)`, of a positive `s`.
unfoldable pub from_unix : ℤ → ℕ
from_unix s = pos_part s * second

unfoldable pub parse_message : Formats → Entry → Result Message
unfolding from_unix
parse_message fmt msg = do
  let v = msg.values
  order_id_text ← needed v.order_id
  user_id_text ← needed v.user_id
  event_id_text ← needed v.event_id
  quantity_text ← needed v.quantity
  reserved_until_text ← needed v.reserved_until
  ticket_type_id_text ← needed v.ticket_type_id
  amount_cents_text ← needed v.amount_cents
  currency ← needed v.currency
  order_id ← needed (fmt.parse_uuid order_id_text)
  fail_if (order_id == 0) infra
  user_id ← needed (parse_int user_id_text)
  event_id ← needed (fmt.parse_uuid event_id_text)
  quantity ← needed (parse_int quantity_text)
  reserved_unix ← needed (parse_int reserved_until_text)
  fail_if (nonpositive reserved_unix) infra
  ticket_type_id ← needed (fmt.parse_uuid ticket_type_id_text)
  fail_if (ticket_type_id == 0) infra
  amount_cents ← needed (parse_int amount_cents_text)
  fail_if (nonpositive amount_cents) infra
  fail_if (is_empty currency) infra
  ok record {
    message_id = msg.id;
    order_id = order_id;
    user_id = user_id;
    event_id = event_id;
    ticket_type_id = ticket_type_id;
    quantity = quantity;
    reserved_until = from_unix reserved_unix;
    amount_cents = amount_cents;
    currency = currency;
  }

-- The ticket type and the quantity to give back; an error where they cannot be read.
unfoldable pub parse_revert_hints : Formats → Entry → Result (ℕ × ℤ)
parse_revert_hints fmt msg = do
  ticket_type_id_text ← needed msg.values.ticket_type_id
  ticket_type_id ← needed (fmt.parse_uuid ticket_type_id_text)
  fail_if (ticket_type_id == 0) infra
  quantity_text ← needed msg.values.quantity
  quantity ← needed (parse_int quantity_text)
  fail_if (nonpositive quantity) infra
  ok (ticket_type_id, quantity)
