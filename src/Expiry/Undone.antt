-- ===== src/Expiry/Undone.antt =====
-- The steps of `Compensate` in internal/infrastructure/persistence/postgres/stage5_compensator.go that
-- undo an order, and what they add up to.
use booking_monitor.Prelude.{
  ℕ, ◌≡◌, refl, sym, ap, subst, ◌∙◌, inl, inr, Bool, true, false, Bool-cases, some, Option-cases,
  ◌==◌, ==_iff, ◌&&◌, arith, find, update, find-update_self,
}
use booking_monitor.Prelude.Int.{ℤ, pos, ◌+ℤ◌, leb_ℤ, leb→le_ℤ, add_moved}
use booking_monitor.Domain.Status.{awaiting_payment, compensated, same}
use booking_monitor.Domain.Errors.{Result, ok, err, infra}
use booking_monitor.Domain.Order.{Order}
use booking_monitor.Domain.TicketType.{TicketType, max_int32}
use booking_monitor.Store.Db.{Db, find_order, find_ticket_type, order_key, ticket_type_key}
use booking_monitor.Store.Exec.{Schedule, World}
use booking_monitor.Store.Evolves.{find_order-id}
use booking_monitor.Store.Stock.{held, available, available_of, Conserves, held-update}
use booking_monitor.Store.Shifts.{
  share, Shifts, Stays, Conserves-up_down, available-update, available_there, restock-Stays,
  restock_up,
}
use booking_monitor.Store.Holds.{same_stock, held_by, weightless, weight_of_holder}
use booking_monitor.Cache.Revert.{order_compensation}
use booking_monitor.Cache.Given.{GaveBack}
use booking_monitor.Store.Redis.{Redis}
use booking_monitor.Expiry.Stage5.{restock_stmt, release_stmt}

-- The order was waiting for its payment and is compensated: its count is back in the row of its ticket
-- type, which conserves the sum of what is left and what is held, and in Redis.
pub record Undone (s : Schedule) (c0 : Redis) (id : ℕ) (d d' : Db) (c : Redis) : Type 0 where
  pub order : Order
  pub there : find_order id d ≡ some order
  pub was_waiting : order.status ≡ awaiting_payment
  pub is_released : find_order id d' ≡ some (record order { status = compensated })
  pub restocked :
      available order.ticket_type_id d' ≡ available order.ticket_type_id d +ℤ order.quantity
  pub conserves : Conserves d d'
  pub given_back : GaveBack s order.ticket_type_id order.quantity (order_compensation id) c0 c

abbrev pub Abandoned : Schedule → Redis → ℕ → Db → World → Type 0
Abandoned s c0 id d w = Undone s c0 id d w.db w.cache

restock : TicketType → ℤ → TicketType → TicketType
restock x q r = record r {
  available_tickets = x.available_tickets +ℤ q;
  version = r.version +ℤ pos 1;
}

-- The count of the row goes up.
pub record Restocked (id : ℕ) (q : ℤ) (d d' : Db) : Type 0 where
  up : Shifts id q d d'
  stays : Stays d d'
  orders : d'.orders ≡ d.orders
  count : available id d' ≡ available id d +ℤ q

abbrev fits_column : ℤ → Bool
fits_column n = leb_ℤ (pos 0) n && leb_ℤ n max_int32

pub restock_stmt-Restocked :
    (id : ℕ) (q : ℤ) (now : ℕ) (d d' : Db)
    → restock_stmt id q now d ≡ (ok true, d')
    → Restocked id q d d'
unfolding restock_stmt restock
restock_stmt-Restocked id q now d d' h = elim (Option-cases (find_ticket_type id d)) [
  | inl missing ↦
      let run : restock_stmt id q now d ≡ (ok false, d) = rw (restock_stmt, missing) refl in
      absurd cc
  | inr (x, e) ↦ elim (Bool-cases (fits_column (x.available_tickets +ℤ q))) [
    | inr negative ↦
        let run : restock_stmt id q now d ≡ (err infra, d) = rw (restock_stmt, e, negative) refl in
        absurd cc
    | inl fits ↦
        let run : (ok true, d') ≡ (
          ok true,
          record d { ticket_types = update ticket_type_key id (restock x q) d.ticket_types },
        ) =
          sym h ∙ rw (restock_stmt, e, fits) refl in
        let types = ap (λ (p : Result Bool × Db). p.1.ticket_types) run in
        let orders = ap (λ (p : Result Bool × Db). p.1.orders) run in
        let positive : leb_ℤ (pos 0) (x.available_tickets +ℤ q) ≡ true = ground arith in
        let itself : (id == id) ≡ true = (==_iff id id).1 refl in
        let after = available-update id (restock x q) (λ r. refl) (λ r. refl) d d' x e types id in
        let before =
          available_there id (restock x q) (λ r. refl) (λ r. refl) d d' x e types id itself in
        record {
          up = restock_up id (restock x q) (λ r. refl) (λ r. refl) d d' x e types q orders refl;
          stays =
              restock-Stays id (restock x q) (λ r. refl) (λ r. refl) d d' x e types
                (leb→le_ℤ (pos 0) _ positive);
          orders = orders;
          count = after ∙ rw itself (ap (λ n. n +ℤ q) (sym before));
        }
  ]
]

-- The row that was waiting lets go of its tickets.
pub record Released (id : ℕ) (o : Order) (d d' : Db) : Type 0 where
  down : Shifts o.ticket_type_id o.quantity d' d
  stays : Stays d d'
  types : d'.ticket_types ≡ d.ticket_types
  found : find_order id d' ≡ some (record o { status = compensated })

let_go : Order → Order
let_go r = record r { status = compensated }

pub release_stmt-Released :
    (id now : ℕ) (o : Order) (d d' : Db)
    → find_order id d ≡ some o
    → o.status ≡ awaiting_payment
    → release_stmt id now d ≡ (ok true, d')
    → Released id o d d'
unfolding release_stmt find_order let_go
release_stmt-Released id now o d d' e waiting h =
    let open_still : same o.status awaiting_payment ≡ true = rw waiting refl in
    let run : (ok true, d') ≡ (ok true, record d { orders = update order_key id let_go d.orders }) =
      sym h ∙ rw (release_stmt, e, open_still) refl in
    let types = ap (λ (p : Result Bool × Db). p.1.ticket_types) run in
    let orders = ap (λ (p : Result Bool × Db). p.1.orders) run in
    let holder : same o.status compensated ≡ false = rw waiting refl in
    record {
      down = held_by d' d o.ticket_type_id o.quantity (sym types) (λ t. add_moved _ _ _ (
          ap (λ os. held t os +ℤ share o.ticket_type_id o.quantity t) orders
          ∙ ap (λ n. held t (update order_key id let_go d.orders) +ℤ n)
              (sym (weight_of_holder t o holder))
          ∙ held-update t id let_go d.orders o e
          ∙ ap (λ n. held t d.orders +ℤ n) (weightless t o)));
      stays = same_stock d d' types;
      types = types;
      found =
          ap (λ os. find order_key id os) orders
          ∙ find-update_self order_key id let_go d.orders o (find_order-id id d o e) e;
    }

-- The order is not touched by the update of its ticket type.
pub kept_order :
    (id k : ℕ) (q : ℤ) (o : Order) (d d1 d2 : Db)
    → d1 ≡ d
    → Restocked k q d1 d2
    → find_order id d ≡ some o
    → find_order id d2 ≡ some o
unfolding find_order
kept_order id k q o d d1 d2 same more e =
    ap (λ os. find order_key id os) (more.orders ∙ ap (λ (x : Db). x.orders) same) ∙ e

pub gathered :
    (s : Schedule) (c0 : Redis) (id : ℕ) (o : Order) (w w1 w2 w3 : World)
    → find_order id w.db ≡ some o
    → o.status ≡ awaiting_payment
    → w1.db ≡ w.db
    → Restocked o.ticket_type_id o.quantity w1.db w2.db
    → Released id o w2.db w3.db
    → GaveBack s o.ticket_type_id o.quantity (order_compensation id) c0 w1.cache
    → w3.cache ≡ w1.cache
    → Abandoned s c0 id w.db w3
unfolding available find_ticket_type
gathered s c0 id o w w1 w2 w3 e waiting same more less given same_cache = record {
  order = o;
  there = e;
  was_waiting = waiting;
  is_released = less.found;
  restocked =
      ap (λ ts. available_of (find ticket_type_key o.ticket_type_id ts)) less.types
      ∙ more.count
      ∙ ap (λ d. available o.ticket_type_id d +ℤ o.quantity) same;
  conserves =
      subst (λ d. Conserves d w3.db) same
        (Conserves-up_down more.up more.stays less.down less.stays);
  given_back =
      subst (GaveBack s o.ticket_type_id o.quantity (order_compensation id) c0) (sym same_cache)
        given;
}
