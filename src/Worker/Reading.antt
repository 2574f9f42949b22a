-- ===== src/Worker/Reading.antt =====
-- What `parseMessage` and `parseRevertHints` of internal/infrastructure/cache/redis_queue.go accept.
use booking_monitor.Prelude.{
  ℕ, ◌<◌, ◌≡◌, ◌≢◌, refl, subst, Bool, true, false, Option, none, some, arith, ◌==◌,
}
use booking_monitor.Prelude.Int.{ℤ, pos, ◌<ℤ◌, nonpositive}
use booking_monitor.Domain.Errors.{Error, Result, ok, infra, fail_if, ◌>>=◌, ◌>>◌}
use booking_monitor.Domain.Currency.{Text}
use booking_monitor.Domain.TicketType.{is_empty}
use booking_monitor.Wire.Decimal.{parse_int}
use booking_monitor.Wire.Decimal.RoundTrip.{IsInt64, parse_int-IsInt64}
use booking_monitor.Store.Redis.{Entry}
use booking_monitor.Cache.Deduct.{Formats}
use booking_monitor.Worker.Processor.{Message}
use booking_monitor.Worker.Wire.{needed, from_unix, parse_message, parse_revert_hints}

-- `P` holds of the answer, where it is no error.
record OfAnswer {B : Type 0} (P : B → Type 0) (r : Result B) : Type 0 where
  at : (b : B) → r ≡ ok b → P b

ok_inj : {B : Type 0} {a b : B} → ok a ≡ ok b → a ≡ b
ok_inj q = ground arith

module _ {B : Type 0} {P : B → Type 0} where
  ok-OfAnswer : (b : B) → P b → OfAnswer P (ok b)
  ok-OfAnswer b h = record { at = λ c e. subst P (ok_inj e) h }

  needed-OfAnswer :
      {A : Type 0} (o : Option A) (f : A → Result B)
      → ((a : A) → o ≡ some a → OfAnswer P (f a))
      → OfAnswer P (needed o >>= f)
  needed-OfAnswer none f h = record { at = λ b e. absurd cc }
  needed-OfAnswer (some a) f h = h a refl

  fail_if-OfAnswer :
      (b : Bool) (e : Error) (n : Result B)
      → (b ≡ false → OfAnswer P n)
      → OfAnswer P (fail_if b e >> n)
  fail_if-OfAnswer true e n h = record { at = λ b q. absurd cc }
  fail_if-OfAnswer false e n h = h refl

-- Where the fields of an entry come from, for every message that is read.
pub record IsRead (fmt : Formats) (e : Entry) (m : Message) : Type 0 where
  pub same_id : m.message_id ≡ e.id
  pub has_order : m.order_id ≢ 0
  pub has_ticket_type : m.ticket_type_id ≢ 0
  pub user_fits : IsInt64 m.user_id
  pub quantity_fits : IsInt64 m.quantity
  pub amount_fits : IsInt64 m.amount_cents
  pub amount_positive : pos 0 <ℤ m.amount_cents
  pub deadline_positive : 0 < m.reserved_until
  pub has_currency : is_empty m.currency ≡ false
  pub ticket_type_text : Text
  pub ticket_type_field : e.values.ticket_type_id ≡ some ticket_type_text
  pub ticket_type_parsed : fmt.parse_uuid ticket_type_text ≡ some m.ticket_type_id
  pub quantity_text : Text
  pub quantity_field : e.values.quantity ≡ some quantity_text
  pub quantity_parsed : parse_int quantity_text ≡ some m.quantity

above_zero : (x : ℤ) → nonpositive x ≡ false → pos 0 <ℤ x
above_zero x h = ground arith

unix_positive : (x : ℤ) → nonpositive x ≡ false → 0 < from_unix x
unfolding from_unix
unix_positive x h = ground arith

nonzero : (n : ℕ) → (n == 0) ≡ false → n ≢ 0
nonzero n h = ground arith

read : (fmt : Formats) (e : Entry) → OfAnswer (IsRead fmt e) (parse_message fmt e)
unfolding parse_message
read fmt e = needed-OfAnswer e.values.order_id _ (λ t1 f1.
    needed-OfAnswer e.values.user_id _ (λ t2 f2. needed-OfAnswer e.values.event_id _ (λ t3 f3.
      needed-OfAnswer e.values.quantity _ (λ t4 f4.
        needed-OfAnswer e.values.reserved_until _ (λ t5 f5.
          needed-OfAnswer e.values.ticket_type_id _ (λ t6 f6.
            needed-OfAnswer e.values.amount_cents _ (λ t7 f7.
              needed-OfAnswer e.values.currency _ (λ t8 f8.
                needed-OfAnswer (fmt.parse_uuid t1) _ (λ order p1.
                  fail_if-OfAnswer (order == 0) infra _ (λ z1.
                    needed-OfAnswer (parse_int t2) _ (λ user p2.
                      needed-OfAnswer (fmt.parse_uuid t3) _ (λ event p3.
                        needed-OfAnswer (parse_int t4) _ (λ qty p4.
                          needed-OfAnswer (parse_int t5) _ (λ unix p5.
                            fail_if-OfAnswer (nonpositive unix) infra _ (λ z2.
                              needed-OfAnswer (fmt.parse_uuid t6) _ (λ type p6.
                                fail_if-OfAnswer (type == 0) infra _ (λ z3.
                                  needed-OfAnswer (parse_int t7) _ (λ amount p7.
                                    fail_if-OfAnswer (nonpositive amount) infra _ (λ z4.
                                      fail_if-OfAnswer (is_empty t8) infra _ (λ z5.
                                        ok-OfAnswer _ record {
                                          same_id = refl;
                                          has_order = nonzero order z1;
                                          has_ticket_type = nonzero type z3;
                                          user_fits = parse_int-IsInt64 t2 user p2;
                                          quantity_fits = parse_int-IsInt64 t4 qty p4;
                                          amount_fits = parse_int-IsInt64 t7 amount p7;
                                          amount_positive = above_zero amount z4;
                                          deadline_positive = unix_positive unix z2;
                                          has_currency = z5;
                                          ticket_type_text = t6;
                                          ticket_type_field = f6;
                                          ticket_type_parsed = p6;
                                          quantity_text = t4;
                                          quantity_field = f4;
                                          quantity_parsed = p4;
                                        }))))))))))))))))))))

-- Every message that the queue reads has the entry's id, a user, a quantity and an amount of 64 bits,
-- an order and a ticket type that are not zero, a positive amount and deadline, and a currency; the
-- ticket type and the quantity are those of the entry's fields.
pub parse_message-IsRead :
    (fmt : Formats) (e : Entry) (m : Message) → parse_message fmt e ≡ ok m → IsRead fmt e m
parse_message-IsRead fmt e m h = (read fmt e).at m h

zero_test : (n : ℕ) → n ≢ 0 → (n == 0) ≡ false
zero_test n h = ground arith

positive_test : (x : ℤ) → pos 0 <ℤ x → nonpositive x ≡ false
positive_test x h = ground arith

-- The reader of the compensation agrees with the reader of messages: where an entry reads as a message
-- with a positive quantity, its hints are that message's ticket type and quantity.
pub parse_revert_hints-agrees :
    (fmt : Formats) (e : Entry) (m : Message)
    → parse_message fmt e ≡ ok m
    → pos 0 <ℤ m.quantity
    → parse_revert_hints fmt e ≡ ok (m.ticket_type_id, m.quantity)
unfolding parse_revert_hints
parse_revert_hints-agrees fmt e m h q =
    let r = parse_message-IsRead fmt e m h in
    rw
      (
        r.ticket_type_field,
        r.ticket_type_parsed,
        zero_test m.ticket_type_id r.has_ticket_type,
        r.quantity_field,
        r.quantity_parsed,
        positive_test m.quantity q,
      )
      refl
