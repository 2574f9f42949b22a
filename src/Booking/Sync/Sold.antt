-- ===== src/Booking/Sync/Sold.antt =====
-- What `BookTicket` of internal/application/booking/sync/service.go leaves in the database.
use booking_monitor.Prelude.{
  ℕ, suc, ◌+◌, ◌-◌, ◌*◌, ◌/◌, ◌%◌, ◌^◌, ◌<◌, ◌≡◌, refl, sym, ap, subst, ◌∙◌, ◌⊎◌, inl, inr, true,
  false, Bool-cases, Option, none, some, ◌∷◌, ◌==◌, ==_iff, arith, find, update,
}
use booking_monitor.Prelude.Int.{
  ℤ, pos, negsuc, ◌<ℤ◌, ◌+ℤ◌, ◌-ℤ◌, ◌≤ℤ◌, leb_ℤ, leb→le_ℤ, ltb_ℤ, pos_part,
}
use booking_monitor.Domain.Status.{compensated, same}
use booking_monitor.Domain.Errors.{Error, Result, ok, err, infra, user_already_bought}
use booking_monitor.Domain.Order.{Order, new_reservation}
use booking_monitor.Domain.TicketType.{TicketType}
use booking_monitor.Domain.Reservation.{new_reservation-IsReservation}
use booking_monitor.Store.Db.{
  Db, find_ticket_type, ticket_type_key, select_ticket_type, insert_order, clashes, touch,
}
use booking_monitor.Store.Exec.{Schedule, World, of_result, ◌>>=◌, clock}
use booking_monitor.Store.Atomicity.{opened}
use booking_monitor.Store.Transaction.{AllOrNone, transaction, transaction-AllOrNone}
use booking_monitor.Store.Stock.{available, available_of, Conserves}
use booking_monitor.Store.Shifts.{
  Shifts, Stays, Conserves-down_up, available-update, available_there, restock-Stays, restock_down,
}
use booking_monitor.Store.Holds.{insert_order-Shifts}
use booking_monitor.Store.Yields.{
  Yields, Yields-assume, Yields-weaken, Yields-pure, Yields-raise, Yields-exec, Yields-bind,
}
use booking_monitor.Booking.Sync.{
  Config, Request, from_bits, times, take_stmt, reserve, store_order, sell, booking_body,
}

-- The amount is the price times the quantity, modulo 2 ^ 64.
abbrev pub IsProduct : ℤ → ℕ → ℕ → Type 0
IsProduct (pos price) n amount = (j : ℕ) × (price * n ≡ amount + j * 2 ^ 64)
IsProduct (negsuc price) n amount = (j : ℕ) × (suc price * n + amount ≡ j * 2 ^ 64)

-- An amount that is positive has no more than 63 bits.
abbrev pub IsPriced : ℤ → ℕ → ℤ → Type 0
IsPriced price n amount = (m : ℕ) × (amount ≡ pos m) × (m < 2 ^ 63) × IsProduct price n m

from_bits-pos : (x : ℕ) → pos 0 <ℤ from_bits x → (from_bits x ≡ pos x) × (x < 2 ^ 63)
unfolding from_bits
from_bits-pos x h = (ground arith, ground arith)

times-IsPriced : (price : ℤ) (n : ℕ) → pos 0 <ℤ times price n → IsPriced price n (times price n)
unfolding times
times-IsPriced (pos p) n h =
    let (same, small) = from_bits-pos (p * n % 2 ^ 64) h in
    (p * n % 2 ^ 64, same, small, (p * n / 2 ^ 64, omega arith))
times-IsPriced (negsuc p) n h =
    let (same, small) = from_bits-pos ((2 ^ 64 - suc p * n % 2 ^ 64) % 2 ^ 64) h in
    (
      (2 ^ 64 - suc p * n % 2 ^ 64) % 2 ^ 64,
      same,
      small,
      ((suc p * n + (2 ^ 64 - suc p * n % 2 ^ 64) % 2 ^ 64) / 2 ^ 64, omega arith),
    )

-- The tickets are taken from a row that had them, and the order that holds them is stored, with what was
-- asked for and the price of the row.
pub record Sold (r : Request) (d : Db) (o : Order) (d' : Db) : Type 0 where
  pub row : TicketType
  pub there : find_ticket_type r.ticket_type_id d ≡ some row
  pub enough : r.quantity ≤ℤ row.available_tickets
  pub taken : available r.ticket_type_id d' ≡ available r.ticket_type_id d -ℤ r.quantity
  pub stored : d'.orders ≡ o ∷ d.orders
  pub order_id : o.id ≡ r.order_id
  pub user_id : o.user_id ≡ r.user_id
  pub event_id : o.event_id ≡ row.event_id
  pub ticket_type_id : o.ticket_type_id ≡ r.ticket_type_id
  pub quantity : o.quantity ≡ r.quantity
  pub amount : IsPriced row.price_cents (pos_part r.quantity) o.amount_cents
  pub conserves : Conserves d d'

-- The count of the row goes down.
record Taken (id : ℕ) (q : ℤ) (d d' : Db) : Type 0 where
  down : Shifts id q d' d
  stays : Stays d d'
  orders : d'.orders ≡ d.orders
  count : available id d' ≡ available id d -ℤ q

reduced : TicketType → ℤ → TicketType → TicketType
reduced x q r = record r {
  available_tickets = x.available_tickets -ℤ q;
  version = r.version +ℤ pos 1;
}

take_stmt-Taken :
    (id : ℕ) (q : ℤ) (now : ℕ) (x : TicketType) (d d' : Db)
    → find_ticket_type id d ≡ some x
    → take_stmt id q now d ≡ (ok tt, d')
    → Taken id q d d'
unfolding take_stmt reduced
take_stmt-Taken id q now x d d' e h = elim (Bool-cases (leb_ℤ (pos 0) (x.available_tickets -ℤ q))) [
  | inr negative ↦
      let run : take_stmt id q now d ≡ (err infra, d) = rw (take_stmt, e, negative) refl in
      absurd cc
  | inl fits ↦
      let run : (ok tt, d') ≡ (
        ok tt,
        record d { ticket_types = update ticket_type_key id (reduced x q) d.ticket_types },
      ) =
        sym h ∙ rw (take_stmt, e, fits) refl in
      let types = ap (λ (p : Result Unit × Db). p.1.ticket_types) run in
      let orders = ap (λ (p : Result Unit × Db). p.1.orders) run in
      let itself : (id == id) ≡ true = (==_iff id id).1 refl in
      let after = available-update id (reduced x q) (λ r. refl) (λ r. refl) d d' x e types id in
      let before =
        available_there id (reduced x q) (λ r. refl) (λ r. refl) d d' x e types id itself in
      record {
        down = restock_down id (reduced x q) (λ r. refl) (λ r. refl) d d' x e types q orders refl;
        stays =
            restock-Stays id (reduced x q) (λ r. refl) (λ r. refl) d d' x e types
              (leb→le_ℤ (pos 0) _ fits);
        orders = orders;
        count = after ∙ rw itself (ap (λ n. n -ℤ q) (sym before));
      }
]

-- The order is the newest row, and holds its tickets.
record Stored (o : Order) (d d' : Db) : Type 0 where
  up : Shifts o.ticket_type_id o.quantity d d'
  stays : Stays d d'
  orders : d'.orders ≡ o ∷ d.orders
  types : d'.ticket_types ≡ d.ticket_types

insert_order-Stored :
    (o : Order) (now : ℕ) (d d' : Db)
    → same o.status compensated ≡ false
    → insert_order o now d ≡ (ok tt, d')
    → Stored o d d'
unfolding insert_order
insert_order-Stored o now d d' holder h = elim (Bool-cases (clashes o d.orders)) [
  | inl clash ↦
      let run : insert_order o now d ≡ (err user_already_bought, d) =
        rw (insert_order, clash) refl in
      absurd cc
  | inr fresh ↦
      let run : (ok tt, d')
          ≡ (ok tt, record d { orders = o ∷ d.orders; updated_at = touch o.id now d.updated_at }) =
        sym h ∙ rw (insert_order, fresh) refl in
      let (up, stays) = insert_order-Shifts o now d d' h holder in
      record {
        up = up;
        stays = stays;
        orders = ap (λ (p : Result Unit × Db). p.1.orders) run;
        types = ap (λ (p : Result Unit × Db). p.1.ticket_types) run;
      }
]

store_order-Yields :
    (o : Order)
    → same o.status compensated ≡ false
    → Yields (store_order o) (λ a d d'. (a ≡ o) × Stored o d d')
unfolding store_order
store_order-Yields o holder =
    Yields-weaken (Yields-bind (Yields-exec (insert_order o)) (λ u. Yields-pure o)) (λ a d d' r.
      let (u, d1, ran, last) = r in
      (last.0, insert_order-Stored o ran.0 d d' holder (ran.1 ∙ ap (λ e. (ok tt, e)) (sym last.1))))

module _ (cfg : Config) (r : Request) where
  -- The order is made of the request and the row.
  Made : TicketType → Order → Type 0
  Made t o =
      (start now : ℕ) × (new_reservation cfg.lower now r.order_id r.user_id t.event_id
          r.ticket_type_id r.quantity (start + cfg.reservation_window)
          (times t.price_cents (pos_part r.quantity)) t.currency
        ≡ ok o)

  reserve-Yields : (t : TicketType) → Yields (reserve cfg r t) (λ o d d'. Made t o × (d' ≡ d))
  unfolding reserve Made clock of_result ◌>>=◌
  reserve-Yields t = record { at = λ s w o h. ((_, _, h), refl) }

  summed_up :
      (t : TicketType) (o : Order) (d d1 d' : Db)
      → find_ticket_type r.ticket_type_id d ≡ some t
      → r.quantity ≤ℤ t.available_tickets
      → Taken r.ticket_type_id r.quantity d d1
      → Made t o
      → Stored o d1 d'
      → Sold r d o d'
  unfolding Made available find_ticket_type
  summed_up t o d d1 d' there enough less (_, now, made) more =
      let f = new_reservation-IsReservation cfg.lower now _ _ _ _ _ _ _ _ made in
      let up : Shifts r.ticket_type_id r.quantity d1 d' =
        subst (λ k. Shifts k r.quantity d1 d') f.4
          (subst (λ q. Shifts o.ticket_type_id q d1 d') f.5 more.up) in
      record {
        row = t;
        there = there;
        enough = enough;
        taken =
            ap (λ ts. available_of (find ticket_type_key r.ticket_type_id ts)) more.types
            ∙ less.count;
        stored = more.orders ∙ ap (λ os. o ∷ os) less.orders;
        order_id = f.1;
        user_id = f.2;
        event_id = f.3;
        ticket_type_id = f.4;
        quantity = f.5;
        amount = subst (IsPriced t.price_cents (pos_part r.quantity)) (sym f.7) (
            times-IsPriced t.price_cents (pos_part r.quantity)
              (subst (λ x. pos 0 <ℤ x) f.7 f.0.has_amount));
        conserves = Conserves-down_up less.down less.stays up more.stays;
      }

  holder_of : (t : TicketType) (o : Order) → Made t o → same o.status compensated ≡ false
  unfolding Made
  holder_of t o (_, now, made) =
      ap (λ x. same x compensated)
        (new_reservation-IsReservation cfg.lower now _ _ _ _ _ _ _ _ made).0.awaits

  sell-Yields :
      (found : Option TicketType)
      → Yields
          (sell cfg r found)
          (λ o d d'. find_ticket_type r.ticket_type_id d ≡ found → Sold r d o d')
  sell-Yields none = Yields-raise _ _
  sell-Yields (some t) = elim (Bool-cases (ltb_ℤ t.available_tickets r.quantity)) [
    | inl short ↦ rw short (Yields-raise _ _)
    | inr enough ↦ rw enough (
        Yields-weaken
          (Yields-bind (Yields-exec (take_stmt r.ticket_type_id r.quantity))
            (λ u. Yields-bind (reserve-Yields t) (λ o. Yields-assume (store_order-Yields o))))
          (λ o d d' y there.
            let (u, d1, ran, rest) = y in
            let (o', d2, made, last) = rest in
            let (same_order, more) = last (holder_of t o' made.0) in
            rw same_order (
              summed_up t o' d d1 d' there (ground arith)
                (take_stmt-Taken r.ticket_type_id r.quantity ran.0 t d d1 there ran.1) made.0
                (subst (λ e. Stored o' e d') made.1 more))))
  ]

  booking_body-Yields : Yields (booking_body cfg r) (λ o d d'. Sold r d o d')
  unfolding booking_body select_ticket_type
  booking_body-Yields =
      Yields-weaken (Yields-bind (Yields-exec (select_ticket_type r.ticket_type_id)) sell-Yields)
        (λ o d d' y.
          let (found, d1, ran, sold) = y in
          let same_db : d1 ≡ d = sym (ap (λ (p : Result (Option TicketType) × Db). p.1) ran.1) in
          let row : find_ticket_type r.ticket_type_id d ≡ found = ground arith in
          subst (λ e. Sold r e o d') same_db
            (sold (ap (find_ticket_type r.ticket_type_id) same_db ∙ row)))

-- A synchronous booking is all or nothing: whatever fails on the way and whatever the other processes
-- do, the booking of a checked request in one transaction reports an error and leaves the tables as
-- the transaction found them, or its order is the newest row of the orders, with what was asked for,
-- the event of the ticket type and a positive amount that is its price times the quantity modulo
-- 2 ^ 64, as int64 counts, its tickets were left and are taken from the row, and what is left and what is held of each ticket type make the same sum as before;
-- any order that it answers is that one.
pub booking_body-Sold :
    (cfg : Config) (r : Request) (s : Schedule) (w : World)
    → let d = (opened s w).db in
      let (answer, w') = transaction (booking_body cfg r) s w in
      ((e : Error) × (answer ≡ err e) × (w'.db ≡ d))
      ⊎ ((o : Order) × ((b : Order) → answer ≡ ok b → b ≡ o) × Sold r d o w'.db)
unfolding AllOrNone
booking_body-Sold cfg r s w =
    transaction-AllOrNone (booking_body cfg r) (λ o d c. Sold r (opened s w).db o d) s w
      (λ o h. (booking_body-Yields cfg r).at s (opened s w) o h)
