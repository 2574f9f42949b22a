-- ===== src/Booking/Carried.antt =====
-- The entry that `BookTicket` (internal/application/booking/service.go) leaves on the stream, and the
-- message that the worker reads of it (internal/infrastructure/cache).
use booking_monitor.Prelude.{
  ℕ, suc, ◌*◌, ◌<◌, ◌≤◌, ◌≡◌, ◌≢◌, subst, refl, sym, ap, ◌∙◌, inl, true, false, Option, none, some,
  [], ◌∷◌, arith,
}
use booking_monitor.Prelude.Int.{ℤ, pos, pos_part, ◌<ℤ◌, nonpositive}
use booking_monitor.Domain.Errors.{ok, err}
use booking_monitor.Domain.Currency.{Text, normalize_currency, is_valid_currency_code}
use booking_monitor.Domain.TicketType.{is_empty}
use booking_monitor.Domain.Order.{Order, new_reservation}
use booking_monitor.Domain.Reservation.{new_reservation-IsReservation}
use booking_monitor.Wire.Decimal.{parse_int, max_int64}
use booking_monitor.Wire.Decimal.RoundTrip.{IsInt64}
use booking_monitor.Store.Db.{Db}
use booking_monitor.Store.Redis.{Redis, Entry}
use booking_monitor.Store.Exec.{Schedule}
use booking_monitor.Store.Triples.{
  Pre, Post, Triple, Triple-run_script, Triple-bind, Triple-of_result,
}
use booking_monitor.Cache.Deduct.{
  Formats, Args, Reply, accepted, sold_out, metadata_missing, DeductInventoryResult, entry_of,
}
use booking_monitor.Cache.Inventory.{
  deduct_args, deduct_inventory, read_reply, parsed_reply, to_unix, second,
}
use booking_monitor.Cache.Counts.{deduct_lua-Took, Queued}
use booking_monitor.Worker.Compensation.{Among}
use booking_monitor.Worker.Processor.{Message}
use booking_monitor.Worker.Wire.{parse_message}
use booking_monitor.Worker.Roundtrip.{message_of, parse_message-entry}
use booking_monitor.Booking.Service.{Config, Request}

-- The stream has an entry with the arguments and the texts of the reply.
abbrev pub OnStream : Args → Text → Text → Text → Redis → Type 0
OnStream args event_id amount currency c =
    (id : ℕ) × Among (entry_of args id event_id amount currency) c.stream

abbrev ReplyPost : Args → Post Reply
ReplyPost args (ok (accepted e a u)) c d = OnStream args e a u c
ReplyPost args (ok sold_out) c d = Unit
ReplyPost args (ok metadata_missing) c d = Unit
ReplyPost args (err x) c d = Unit

published :
    (args : Args) (c : Redis) (d : Db) (p : Reply × Redis)
    → Queued args c p
    → ReplyPost args (ok p.0) p.1 d
published args c d (accepted e a u, c') q = (suc c.last_entry, rw q.0 (inl refl))
published args c d (sold_out, c') q = tt
published args c d (metadata_missing, c') q = tt

-- What is known of an accepted deduction.
abbrev pub Taken : Formats → Args → DeductInventoryResult → Redis → Type 0
Taken fmt args r c =
    (e : Text) × (a : Text) × OnStream args e a r.currency c
    × (fmt.parse_uuid e ≡ some r.event_id)
    × (parse_int a ≡ some r.amount_cents)

abbrev pub ResultPost : Formats → Args → Post DeductInventoryResult
ResultPost fmt args (ok r) c d = r.is_accepted ≡ true → Taken fmt args r c
ResultPost fmt args (err x) c d = Unit

parsed :
    (fmt : Formats) (args : Args) (e a u : Text) (i : Option ℕ) (n : Option ℤ) (c : Redis) (d : Db)
    → fmt.parse_uuid e ≡ i
    → parse_int a ≡ n
    → OnStream args e a u c
    → ResultPost fmt args (parsed_reply i n u) c d
parsed fmt args e a u (some i) (some n) c d p q h = λ _. (e, a, h, p, q)
parsed fmt args e a u none n c d p q h = tt
parsed fmt args e a u (some i) none c d p q h = tt

read :
    (fmt : Formats) (args : Args) (r : Reply) (c : Redis) (d : Db)
    → ReplyPost args (ok r) c d
    → ResultPost fmt args (read_reply fmt r) c d
unfolding read_reply
read fmt args (accepted e a u) c d h = parsed fmt args e a u _ _ c d refl refl h
read fmt args sold_out c d h = λ bad. absurd cc
read fmt args metadata_missing c d h = tt

abbrev pub Nothing : Pre
Nothing c d = Unit {0}

module _ {s : Schedule} where
  pub deduct_inventory-Triple :
      (fmt : Formats) (order_id ticket_type_id : ℕ) (user_id : ℤ) (count reserved_until : ℕ)
      → Triple s Nothing
          (deduct_inventory fmt order_id ticket_type_id user_id count reserved_until)
          (ResultPost fmt (deduct_args fmt order_id ticket_type_id user_id count reserved_until))
  unfolding deduct_inventory
  deduct_inventory-Triple fmt order_id ticket_type_id user_id count reserved_until =
      let args = deduct_args fmt order_id ticket_type_id user_id count reserved_until in
      Triple-bind
        (Triple-run_script {Q = ReplyPost args} _ (λ n c d h. tt)
          (λ c d h. published args c d _ (deduct_lua-Took fmt ticket_type_id args c).1)
          (λ x c d h. tt) (λ x c d h. tt))
        (λ r. Triple-of_result _ (λ c d h. read fmt args r c d h)) (λ x c d h. tt)

-- The message says what the order says. The worker, like `BookTicket`, brings the currency to its
-- normal form.
pub record Carries (lower : Text → Text) (m : Message) (o : Order) : Type 0 where
  pub same_order : m.order_id ≡ o.id
  pub same_user : m.user_id ≡ o.user_id
  pub same_event : m.event_id ≡ o.event_id
  pub same_ticket_type : m.ticket_type_id ≡ o.ticket_type_id
  pub same_quantity : m.quantity ≡ o.quantity
  pub same_deadline : m.reserved_until ≡ to_unix o.reserved_until * second
  pub same_amount : m.amount_cents ≡ o.amount_cents
  pub same_currency : normalize_currency lower m.currency ≡ o.currency

whole : (q : ℤ) → pos 0 <ℤ q → pos (pos_part q) ≡ q
whole q h = ground arith

is_positive : (q : ℤ) → pos 0 <ℤ q → nonpositive q ≡ false
is_positive q h = ground arith

not_empty :
    (lower : Text → Text) (u : Text)
    → is_valid_currency_code (normalize_currency lower u) ≡ true
    → is_empty u ≡ false
unfolding normalize_currency is_valid_currency_code
not_empty lower [] h = cc
not_empty lower (c ∷ u) h = refl

-- The numbers of a booking that fit in 64 bits; its deadline is at least a second after 1970.
pub record Fits (o : Order) : Type 0 where
  pub user : IsInt64 o.user_id
  pub count : pos_part o.quantity ≤ max_int64
  pub after_epoch : 0 < to_unix o.reserved_until
  pub deadline : to_unix o.reserved_until ≤ max_int64

module _ (cfg : Config) where
  open cfg use {formats, lower}

  -- The stream has an entry that reads as a message of the order.
  abbrev pub IsQueued : Order → Redis → Type 0
  IsQueued o c =
      (e : Entry) × Among e c.stream
      × (m : Message) × (parse_message formats e ≡ ok m)
      × Carries lower m o

  pub entry_carries :
      ((n : ℕ) → formats.parse_uuid (formats.uuid_text n) ≡ some n)
      → (now : ℕ) (r : Request) (x : DeductInventoryResult) (o : Order) (c : Redis)
      → new_reservation lower now r.order_id r.user_id x.event_id r.ticket_type_id r.quantity
          r.reserved_until x.amount_cents x.currency
        ≡ ok o
      → Taken formats
          (deduct_args formats r.order_id r.ticket_type_id r.user_id
            (pos_part r.quantity)
            r.reserved_until)
          x
          c
      → Fits o
      → IsQueued o c
  entry_carries uuids now r x o c made (e, a, on, v, p) fits =
      let valid = new_reservation-IsReservation lower now _ _ _ _ _ _ _ _ made in
      let good = valid.0 in
      let count = pos_part r.quantity in
      let some_order : r.order_id ≢ 0 = λ z. absurd (omega (arith, good.has_id, valid.1)) in
      let some_type : r.ticket_type_id ≢ 0 =
        λ z. absurd (omega (arith, good.has_ticket_type, valid.4)) in
      let currency : is_empty x.currency ≡ false =
        not_empty lower x.currency (ap is_valid_currency_code (sym valid.8) ∙ good.has_currency) in
      (
        entry_of (deduct_args formats r.order_id r.ticket_type_id r.user_id count r.reserved_until)
            on.0 e a x.currency,
        on.1,
        message_of on.0 r.order_id r.ticket_type_id x.event_id r.user_id count r.reserved_until
            x.amount_cents x.currency,
        parse_message-entry formats uuids on.0 r.order_id r.ticket_type_id x.event_id r.user_id
            count r.reserved_until x.amount_cents e a x.currency some_order some_type
            (subst IsInt64 valid.2 fits.user)
            (subst (λ q. pos_part q ≤ max_int64) valid.5 fits.count)
            (subst (λ t. 0 < to_unix t) valid.6 fits.after_epoch)
            (subst (λ t. to_unix t ≤ max_int64) valid.6 fits.deadline) v p
            (is_positive x.amount_cents (subst (λ n. pos 0 <ℤ n) valid.7 good.has_amount)) currency,
        record {
          same_order = sym valid.1;
          same_user = sym valid.2;
          same_event = sym valid.3;
          same_ticket_type = sym valid.4;
          same_quantity =
              whole r.quantity (subst (λ n. pos 0 <ℤ n) valid.5 good.has_quantity) ∙ sym valid.5;
          same_deadline = ap (λ t. to_unix t * second) (sym valid.6);
          same_amount = sym valid.7;
          same_currency = sym valid.8;
        },
      )
