-- ===== src/Cache/Inventory.antt =====
-- The methods of `redisInventoryRepository` in internal/infrastructure/cache/redis.go: those that
-- run the deduct scripts, and those that seed, read and drop the keys of a ticket type.
--
-- An instant is a number of nanoseconds since 1970. An expiry of the keys is not kept.
use booking_monitor.Prelude.{ℕ, ◌/◌, Bool, true, false, Option, none, some, [], ◌==◌, if◌then◌else◌}
use booking_monitor.Prelude.Int.{ℤ, pos}
use booking_monitor.Domain.Errors.{Result, ok, err, infra, runtime_metadata_missing}
use booking_monitor.Domain.Currency.{Text}
use booking_monitor.Domain.TicketType.{TicketType}
use booking_monitor.Wire.Decimal.{parse_int, print_int, print}
use booking_monitor.Store.Redis.{Redis, Metadata}
use booking_monitor.Store.Exec.{M, of_result, run_script, ◌>>=◌}
use booking_monitor.Cache.Deduct.{
  Formats, Args, Reply, accepted, sold_out, metadata_missing, DeductInventoryResult, deduct_lua,
  deduct_no_xadd, set_quantity,
}

-- `reservedUntil.UTC().Unix()`.
abbrev pub second : ℕ
second = 1000000000

unfoldable pub to_unix : ℕ → ℕ
to_unix t = t / second

abbrev pub parsed_reply : Option ℕ → Option ℤ → Text → Result DeductInventoryResult
parsed_reply (some event_id) (some amount) currency =
    ok
      record { is_accepted = true; event_id = event_id; amount_cents = amount; currency = currency }
parsed_reply _ _ currency = err infra

-- The switch over the reply's status. The replies that no script gives have no case.
unfoldable pub read_reply : Formats → Reply → Result DeductInventoryResult
read_reply fmt (accepted event_id amount currency) =
    parsed_reply (fmt.parse_uuid event_id) (parse_int amount) currency
read_reply fmt sold_out =
    ok record { is_accepted = false; event_id = 0; amount_cents = pos 0; currency = [] }
read_reply fmt metadata_missing = err runtime_metadata_missing

unfoldable pub deduct_args : Formats → ℕ → ℕ → ℤ → ℕ → ℕ → Args
deduct_args fmt order_id ticket_type_id user_id count reserved_until = record {
  count = count;
  user_id = print_int user_id;
  order_id = fmt.uuid_text order_id;
  reserved_until = print (to_unix reserved_until);
  ticket_type_id = fmt.uuid_text ticket_type_id;
}

abbrev pub replies : {A : Type 0} → A × Redis → Result A × Redis
replies (r, c) = (ok r, c)

unfoldable pub deduct_inventory : Formats → ℕ → ℕ → ℤ → ℕ → ℕ → M DeductInventoryResult
unfolding deduct_args
deduct_inventory fmt order_id ticket_type_id user_id count reserved_until = do
  let args = deduct_args fmt order_id ticket_type_id user_id count reserved_until
  reply ← run_script (λ c. replies (deduct_lua fmt ticket_type_id args c))
  of_result (read_reply fmt reply)

unfoldable pub deduct_inventory_no_stream : Formats → ℕ → ℕ → M DeductInventoryResult
deduct_inventory_no_stream fmt ticket_type_id count = do
  reply ← run_script (λ c. replies (deduct_no_xadd fmt ticket_type_id count c))
  of_result (read_reply fmt reply)

-- `ticketTypeMetaValues`.
unfoldable pub metadata_of : Formats → TicketType → Metadata
metadata_of fmt t = record {
  event_id = some (fmt.uuid_text t.event_id);
  price_cents = some (print_int t.price_cents);
  currency = some t.currency;
}

unfoldable pub set_metadata : Formats → TicketType → Redis → Redis
unfolding metadata_of
set_metadata fmt t c = record c {
  metadata = λ k. if k == t.id then metadata_of fmt t else c.metadata k;
}

unfoldable pub set_runtime : Formats → TicketType → Redis → Redis
unfolding set_metadata
set_runtime fmt t c =
    let c' : Redis = set_metadata fmt t c in
    record c' { quantity = set_quantity t.id t.available_tickets c'.quantity }

unfoldable pub delete_runtime : ℕ → Redis → Redis
delete_runtime id c = record c {
  metadata = λ k.
      if k == id
      then record { event_id = none; price_cents = none; currency = none }
      else c.metadata k;
  quantity = λ k. if k == id then none else c.quantity k;
}

unfoldable pub set_ticket_type_runtime : Formats → TicketType → M (Unit {0})
set_ticket_type_runtime fmt t = run_script (λ c. (ok tt, set_runtime fmt t c))

unfoldable pub set_ticket_type_metadata : Formats → TicketType → M (Unit {0})
set_ticket_type_metadata fmt t = run_script (λ c. (ok tt, set_metadata fmt t c))

unfoldable pub delete_ticket_type_runtime : ℕ → M (Unit {0})
delete_ticket_type_runtime id = run_script (λ c. (ok tt, delete_runtime id c))

-- The number and whether the key exists.
abbrev found : Option ℤ → ℤ × Bool
found none = (pos 0, false)
found (some n) = (n, true)

unfoldable pub get_inventory : ℕ → M (ℤ × Bool)
get_inventory id = run_script (λ c. (ok (found (c.quantity id)), c))
