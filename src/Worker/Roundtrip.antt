-- ===== src/Worker/Roundtrip.antt =====
-- From `BookTicket` to the worker: an entry that deduct.lua writes, and the reader of the queue in
-- internal/infrastructure/cache/redis_queue.go.
use booking_monitor.Prelude.{
  ℕ, suc, ◌*◌, ◌<◌, ◌≤◌, ◌≡◌, ◌≢◌, refl, ◌==◌, List, some, [], ◌∷◌, true, false, arith,
}
use booking_monitor.Prelude.Int.{ℤ, pos, ◌≤ℤ◌, nonpositive}
use booking_monitor.Domain.Errors.{Result, ok, err, infra}
use booking_monitor.Domain.Currency.{Text}
use booking_monitor.Domain.TicketType.{TicketType, is_empty}
use booking_monitor.Wire.Decimal.{parse_int, print, max_int64}
use booking_monitor.Wire.Decimal.RoundTrip.{
  parse_int-print_int, parse_int_unsigned, IsInt64, parse_digits-print,
}
use booking_monitor.Store.Redis.{Redis, Entry}
use booking_monitor.Cache.Deduct.{Formats, entry_of, value_or_zero, deduct_lua}
use booking_monitor.Wire.Multiply.{IsExact, max_exact}
use booking_monitor.Cache.Accepts.{deduct_lua-accepts}
use booking_monitor.Cache.Inventory.{deduct_args, metadata_of, second, to_unix}
use booking_monitor.Worker.Processor.{Message}
use booking_monitor.Worker.Wire.{from_unix, parse_message}

-- The message that a reservation becomes: its deadline is cut to a whole second.
abbrev pub message_of : ℕ → ℕ → ℕ → ℕ → ℤ → ℕ → ℕ → ℤ → Text → Message
message_of id order_id ticket_type_id event_id user_id count reserved_until amount currency =
    record {
      message_id = id;
      order_id = order_id;
      user_id = user_id;
      event_id = event_id;
      ticket_type_id = ticket_type_id;
      quantity = pos count;
      reserved_until = to_unix reserved_until * second;
      amount_cents = amount;
      currency = currency;
    }

positive : (n : ℕ) → 0 < n → nonpositive (pos n) ≡ false
positive n h = ground arith

nonzero : (n : ℕ) → n ≢ 0 → (n == 0) ≡ false
nonzero n h = ground arith

module _ (fmt : Formats) (uuids : (n : ℕ) → fmt.parse_uuid (fmt.uuid_text n) ≡ some n)
    (id order_id ticket_type_id event_id : ℕ) (user_id : ℤ) (count reserved_until : ℕ) (amount : ℤ)
    (event_text amount_text currency : Text) where
  -- One entry read back, field by field.
  pub parse_message-entry :
      order_id ≢ 0
      → ticket_type_id ≢ 0
      → IsInt64 user_id
      → count ≤ max_int64
      → 0 < to_unix reserved_until
      → to_unix reserved_until ≤ max_int64
      → fmt.parse_uuid event_text ≡ some event_id
      → parse_int amount_text ≡ some amount
      → nonpositive amount ≡ false
      → is_empty currency ≡ false
      → parse_message fmt (
          entry_of
            (deduct_args fmt order_id ticket_type_id user_id count reserved_until)
            id
            event_text
            amount_text
            currency)
        ≡ ok (
            message_of id order_id ticket_type_id event_id user_id count reserved_until amount
              currency)
  unfolding parse_message deduct_args from_unix
  parse_message-entry o t u c r r' v a p e =
      rw
        (
          uuids order_id,
          nonzero order_id o,
          parse_int-print_int user_id u,
          v,
          parse_int_unsigned (print count) count (parse_digits-print count) c,
          parse_int_unsigned (print (to_unix reserved_until)) (to_unix reserved_until)
              (parse_digits-print _) r',
          positive (to_unix reserved_until) r,
          uuids ticket_type_id,
          nonzero ticket_type_id t,
          a,
          p,
          e,
        )
        refl

-- What the worker reads of the newest entry of the stream.
abbrev pub newest : Formats → List Entry → Result Message
newest fmt [] = err infra
newest fmt (x ∷ xs) = parse_message fmt x

-- A reservation crosses the queue unchanged: where the keys of the ticket type are seeded from its
-- row and hold the count, deduct.lua answers `ok` and the worker reads the new entry as a message
-- with the caller's ids, user and quantity, the row's event and currency, the amount price times
-- count, and the deadline cut to a whole second. The texts of UUIDs parse to those UUIDs, `tonumber`
-- takes the price's digits for a number, the ids of the order and of the ticket type are not zero,
-- the deadline is at least a second after 1970, price and count are positive, the currency is not
-- empty, the user, the deadline and the amount fit in 64 bits, ten times the count is at most 2 ^ 53,
-- and a Lua number holds every integer up to that.
pub deduct_lua-parse_message :
    (fmt : Formats)
    → ((n : ℕ) → fmt.parse_uuid (fmt.uuid_text n) ≡ some n)
    → (t : TicketType) (price order_id : ℕ) (user_id : ℤ) (count reserved_until : ℕ) (c : Redis)
    → fmt.is_number (print price) ≡ true
    → c.metadata t.id ≡ metadata_of fmt t
    → t.price_cents ≡ pos price
    → pos count ≤ℤ value_or_zero (c.quantity t.id)
    → order_id ≢ 0
    → t.id ≢ 0
    → is_empty t.currency ≡ false
    → IsInt64 user_id
    → 0 < to_unix reserved_until
    → to_unix reserved_until ≤ max_int64
    → 0 < price * count
    → IsExact fmt.doubles
    → 10 * count ≤ max_exact
    → price * count ≤ max_int64
    → newest fmt
        (deduct_lua fmt t.id
          (deduct_args fmt order_id t.id user_id count reserved_until)
          c).1.stream
      ≡ ok (
          message_of
            (suc c.last_entry)
            order_id
            t.id
            t.event_id
            user_id
            count
            reserved_until
            (pos (price * count))
            t.currency)
unfolding deduct_args
deduct_lua-parse_message fmt uuids t price order_id user_id count reserved_until c number seeded
      cents stock o i e u r r' p exact wide a =
    let args = deduct_args fmt order_id t.id user_id count reserved_until in
    let (amount, c', run, queued, v) =
      deduct_lua-accepts fmt t price args c seeded cents number stock exact wide in
    let n : count ≤ max_int64 = omega arith in
    rw (run, queued)
      (parse_message-entry fmt uuids (suc c.last_entry) order_id t.id t.event_id user_id count
        reserved_until (pos (price * count)) (fmt.uuid_text t.event_id) amount t.currency o i u n r
        r' (uuids t.event_id) (parse_int_unsigned amount (price * count) v a)
        (positive (price * count) p) e)
