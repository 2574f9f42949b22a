-- ===== src/Cache/Accepts.antt =====
-- When lua/deduct.lua answers `ok`: the keys of the ticket type are seeded and hold the count.
use booking_monitor.Prelude.{ℕ, suc, ◌*◌, ◌∷◌, ◌≡◌, ◌≤◌, refl, ap, ◌∙◌, true, false, some, arith}
use booking_monitor.Prelude.Int.{ℤ, pos, ◌-ℤ◌, ◌≤ℤ◌, ltb_ℤ, -ℤ_parts}
use booking_monitor.Domain.Currency.{Text}
use booking_monitor.Domain.TicketType.{TicketType}
use booking_monitor.Wire.Decimal.{parse_digits, print, print_int}
use booking_monitor.Wire.Decimal.RoundTrip.{parse_digits-print}
use booking_monitor.Wire.Multiply.{
  IsExact, max_exact, multiply_decimal_string_by_int, multiply_decimal-exact,
}
use booking_monitor.Store.Redis.{Redis}
use booking_monitor.Cache.Deduct.{
  Formats, Args, accepted, deduct_no_xadd, deduct_lua, value_or_zero, price_reply, entry_of, xadd,
  decr_by,
}
use booking_monitor.Cache.Inventory.{metadata_of}
use booking_monitor.Cache.Counts.{decr_by-value}

enough : (a : ℤ) (n : ℕ) → pos n ≤ℤ a → ltb_ℤ (a -ℤ pos n) (pos 0) ≡ false
enough a n h = ground (arith, -ℤ_parts a (pos n))

price_reply-seeded :
    (fmt : Formats) (t : TicketType) (p n : ℕ) (amount : Text)
    → t.price_cents ≡ pos p
    → fmt.is_number (print p) ≡ true
    → multiply_decimal_string_by_int fmt.doubles (print p) (fmt.doubles.nearest n) ≡ some amount
    → price_reply fmt n (metadata_of fmt t) ≡ accepted (fmt.uuid_text t.event_id) amount t.currency
unfolding price_reply metadata_of print_int
price_reply-seeded fmt t p n amount e d m = rw (e, d, m) refl

module _ (fmt : Formats) (t : TicketType) (p : ℕ) (args : Args) (c : Redis)
    (seeded : c.metadata t.id ≡ metadata_of fmt t) (price : t.price_cents ≡ pos p)
    (number : fmt.is_number (print p) ≡ true)
    (stock : pos args.count ≤ℤ value_or_zero (c.quantity t.id)) where
  deduct_no_xadd-accepts :
      (amount : Text)
      → multiply_decimal_string_by_int fmt.doubles (print p) (fmt.doubles.nearest args.count)
        ≡ some amount
      → deduct_no_xadd fmt t.id args.count c
        ≡ (accepted (fmt.uuid_text t.event_id) amount t.currency, decr_by t.id args.count c)
  unfolding deduct_no_xadd
  deduct_no_xadd-accepts amount m =
      let test : ltb_ℤ (value_or_zero ((decr_by t.id args.count c).quantity t.id)) (pos 0) ≡ false =
        ap (λ x. ltb_ℤ x (pos 0)) (decr_by-value t.id args.count c)
        ∙ enough (value_or_zero (c.quantity t.id)) args.count stock in
      let kept : (decr_by t.id args.count c).metadata t.id ≡ metadata_of fmt t =
        unfold decr_by in seeded in
      rw (test, kept, price_reply-seeded fmt t p args.count amount price number m) refl

  -- The reply's amount is the digits of price times count, and the entry is on the stream.
  pub deduct_lua-accepts :
      IsExact fmt.doubles
      → 10 * args.count ≤ max_exact
      → (amount : Text) × (c' : Redis) × (deduct_lua fmt t.id args c
          ≡ (accepted (fmt.uuid_text t.event_id) amount t.currency, c'))
        × (c'.stream
            ≡ entry_of args (suc c.last_entry) (fmt.uuid_text t.event_id) amount t.currency
              ∷ c.stream)
        × (parse_digits amount ≡ some (p * args.count))
  unfolding deduct_lua
  deduct_lua-accepts exact wide =
      let near = exact.nearest args.count (omega arith) in
      let (amount, m, v) =
        multiply_decimal-exact fmt.doubles exact (print p) p args.count wide
          (parse_digits-print p) in
      (
        amount,
        xadd args (fmt.uuid_text t.event_id) amount t.currency (decr_by t.id args.count c),
        rw (deduct_no_xadd-accepts amount (rw near m)) refl,
        unfold xadd decr_by in refl,
        v,
      )
