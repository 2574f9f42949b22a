-- ===== src/Cache/Deduct.antt =====
-- The hot path of internal/infrastructure/cache/redis.go: the scripts lua/deduct.lua and
-- lua/deduct_no_xadd.lua, the methods that run them, and those that seed and read the keys.
--
-- Redis hands every argument to a script as a text. A count is a positive number at every caller,
-- and the 64-bit range of a key's value is not a limit here. `tonumber` of Lua and the texts of
-- UUIDs (github.com/google/uuid) are parameters; the zero UUID is 0.
use booking_monitor.Prelude.{ℕ, suc, Bool, Option, none, some, ◌∷◌, ◌==◌, if◌then◌else◌}
use booking_monitor.Prelude.Int.{ℤ, pos, ◌+ℤ◌, ◌-ℤ◌, ltb_ℤ}
use booking_monitor.Domain.Currency.{Text}
use booking_monitor.Wire.Decimal.{print}
use booking_monitor.Wire.Multiply.{Doubles, multiply_decimal_string_by_int}
use booking_monitor.Store.Redis.{Redis, Metadata, Entry}

-- `uuid.UUID.String` and `uuid.Parse`, whether `tonumber` answers a number, and Lua's numbers.
pub record Formats : Type 0 where
  pub uuid_text : ℕ → Text
  pub parse_uuid : Text → Option ℕ
  pub is_number : Text → Bool
  pub doubles : Doubles

-- The arguments of deduct.lua.
pub record Args : Type 0 where
  pub count : ℕ
  pub user_id : Text
  pub order_id : Text
  pub reserved_until : Text
  pub ticket_type_id : Text

-- The reply: `{"ok", event_id, amount_cents, currency}`, or one status.
pub data Reply : Type 0 where
  accepted : Text → Text → Text → Reply
  sold_out metadata_missing : Reply

-- `SET` of one key, by `DECRBY` and `INCRBY`: a missing key counts as 0.
unfoldable pub set_quantity : ℕ → ℤ → (ℕ → Option ℤ) → ℕ → Option ℤ
set_quantity id n f k = if k == id then some n else f k

abbrev pub value_or_zero : Option ℤ → ℤ
value_or_zero none = pos 0
value_or_zero (some n) = n

unfoldable pub decr_by : ℕ → ℕ → Redis → Redis
unfolding set_quantity
decr_by id n c = record c {
  quantity = set_quantity id (value_or_zero (c.quantity id) -ℤ pos n) c.quantity;
}

unfoldable pub incr_by : ℕ → ℕ → Redis → Redis
unfolding set_quantity
incr_by id n c = record c {
  quantity = set_quantity id (value_or_zero (c.quantity id) +ℤ pos n) c.quantity;
}

-- The reply that the metadata allow, and the text of the amount in it.
abbrev with_amount : Text → Text → Option Text → Reply
with_amount event_id currency none = metadata_missing
with_amount event_id currency (some amount) = accepted event_id amount currency

abbrev priced : Formats → ℕ → Option Text → Option Text → Option Text → Reply
priced fmt n (some event_id) (some price) (some currency) =
    if fmt.is_number price
    then with_amount event_id currency
        (multiply_decimal_string_by_int fmt.doubles price (fmt.doubles.nearest n))
    else metadata_missing
priced fmt n _ _ _ = metadata_missing

unfoldable pub price_reply : Formats → ℕ → Metadata → Reply
price_reply fmt n m = priced fmt n m.event_id m.price_cents m.currency

-- Give the count back, unless the reply is `ok`.
abbrev pub settle_reply : ℕ → ℕ → Redis → Reply → Reply × Redis
settle_reply id n c (accepted event_id amount currency) = (accepted event_id amount currency, c)
settle_reply id n c sold_out = (sold_out, incr_by id n c)
settle_reply id n c metadata_missing = (metadata_missing, incr_by id n c)

unfoldable pub deduct_no_xadd : Formats → ℕ → ℕ → Redis → Reply × Redis
unfolding price_reply incr_by decr_by
deduct_no_xadd fmt id n c =
    let c' : Redis = decr_by id n c in
    settle_reply id n c' (
      if ltb_ℤ (value_or_zero (c'.quantity id)) (pos 0)
      then sold_out
      else price_reply fmt n (c'.metadata id))

-- `XADD orders:stream *`.
abbrev pub entry_of : Args → ℕ → Text → Text → Text → Entry
entry_of args id event_id amount currency = record {
  id = id;
  values = record {
    order_id = some args.order_id;
    user_id = some args.user_id;
    event_id = some event_id;
    quantity = some (print args.count);
    reserved_until = some args.reserved_until;
    ticket_type_id = some args.ticket_type_id;
    amount_cents = some amount;
    currency = some currency;
  };
}

unfoldable pub xadd : Args → Text → Text → Text → Redis → Redis
xadd args event_id amount currency c = record c {
  stream = entry_of args (suc c.last_entry) event_id amount currency ∷ c.stream;
  last_entry = suc c.last_entry;
}

abbrev pub publish_reply : Args → Reply × Redis → Reply × Redis
publish_reply args (accepted event_id amount currency, c) =
    (accepted event_id amount currency, xadd args event_id amount currency c)
publish_reply args (sold_out, c) = (sold_out, c)
publish_reply args (metadata_missing, c) = (metadata_missing, c)

-- deduct.lua is the other script with an entry for the stream before the last line.
unfoldable pub deduct_lua : Formats → ℕ → Args → Redis → Reply × Redis
unfolding deduct_no_xadd xadd
deduct_lua fmt id args c = publish_reply args (deduct_no_xadd fmt id args.count c)

-- `domain.DeductInventoryResult`.
pub record DeductInventoryResult : Type 0 where
  pub is_accepted : Bool
  pub event_id : ℕ
  pub amount_cents : ℤ
  pub currency : Text
