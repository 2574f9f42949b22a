-- ===== src/Store/Holds.antt =====
-- The statements of repositories.go that change what the orders hold, as one half of a move of tickets.
use booking_monitor.Prelude.{
  ℕ, ◌≡◌, refl, ap, sym, ◌∙◌, inl, inr, Bool, true, false, some, List, [], ◌∷◌, arith, find, update,
  Bool-cases,
}
use booking_monitor.Prelude.Int.{ℤ, pos, ◌+ℤ◌, add_inner, add_moved}
use booking_monitor.Domain.Status.{
  OrderStatus, failed, expired, payment_failed, compensated, same, is_one_of,
}
use booking_monitor.Domain.Errors.{Result, ok, err, user_already_bought}
use booking_monitor.Domain.Order.{Order}
use booking_monitor.Store.Db.{
  Db, order_key, ticket_type_key, find_order, find_ticket_type, move_order, transition_stmt,
  clashes, insert_order, touch,
}
use booking_monitor.Store.Evolves.{find_order-id}
use booking_monitor.Store.Stock.{weight, held, available_of, available, total, balance, held-update}
use booking_monitor.Store.Shifts.{share, Shifts, Stays}

pub same_stock : (d d' : Db) → d'.ticket_types ≡ d.ticket_types → Stays d d'
unfolding available total find_ticket_type
same_stock d d' types = record { same_total = λ t. rw types refl; nonnegative = λ t h. rw types h }

pub held_by :
    (d d' : Db) (id : ℕ) (q : ℤ)
    → d'.ticket_types ≡ d.ticket_types
    → ((t : ℕ) → held t d'.orders ≡ share id q t +ℤ held t d.orders)
    → Shifts id q d d'
unfolding balance available find_ticket_type
held_by d d' id q types h = record {
  shifted = λ t.
      rw (types, h t)
        (add_inner (available_of (find ticket_type_key t d.ticket_types)) (share id q t)
          (held t d.orders));
}

pub weight_of_holder :
    (t : ℕ) (o : Order)
    → same o.status compensated ≡ false
    → weight t o ≡ share o.ticket_type_id o.quantity t
weight_of_holder t o h = ground arith

held-insert :
    (t : ℕ) (o : Order) (os : List Order)
    → same o.status compensated ≡ false
    → held t (o ∷ os) ≡ share o.ticket_type_id o.quantity t +ℤ held t os
unfolding held
held-insert t o os h = ap (λ n. n +ℤ held t os) (weight_of_holder t o h)

-- A new order takes its tickets into its hold.
pub insert_order-Shifts :
    (o : Order) (now : ℕ) (d d' : Db)
    → insert_order o now d ≡ (ok tt, d')
    → same o.status compensated ≡ false
    → Shifts o.ticket_type_id o.quantity d d' × Stays d d'
unfolding insert_order
insert_order-Shifts o now d d' h holder = elim (Bool-cases (clashes o d.orders)) [
  | inl clash ↦
      let run : insert_order o now d ≡ (err user_already_bought, d) =
        rw (insert_order, clash) refl in
      absurd cc
  | inr fresh ↦
      let run : (ok tt, d')
          ≡ (ok tt, record d { orders = o ∷ d.orders; updated_at = touch o.id now d.updated_at }) =
        sym h ∙ rw (insert_order, fresh) refl in
      let types = ap (λ (p : Result Unit × Db). p.1.ticket_types) run in
      let orders = ap (λ (p : Result Unit × Db). p.1.orders) run in
      (
        held_by d d' _ _ types (λ t. ap (held t) orders ∙ held-insert t o d.orders holder),
        same_stock d d' types,
      )
]

abbrev pub uncompensated : List OrderStatus
uncompensated = failed ∷ expired ∷ payment_failed ∷ []

holder_of_legal : (s : OrderStatus) → is_one_of s uncompensated ≡ true → same s compensated ≡ false
holder_of_legal s h = ground arith

pub weightless : (t : ℕ) (o : Order) → weight t (record o { status = compensated }) ≡ pos 0
weightless t o = ground arith

held-compensate :
    (t id : ℕ) (d : Db) (o : Order)
    → find_order id d ≡ some o
    → is_one_of o.status uncompensated ≡ true
    → held t (update order_key o.id (λ r. record r { status = compensated }) d.orders)
        +ℤ share o.ticket_type_id o.quantity t
      ≡ held t d.orders +ℤ pos 0
unfolding find_order
held-compensate t id d o e legal =
    let rest : ℤ =
      held t (update order_key o.id (λ r. record r { status = compensated }) d.orders) in
    let moved =
      held-update t o.id (λ r. record r { status = compensated }) d.orders o
        (ap (λ k. find order_key k d.orders) (find_order-id id d o e) ∙ e) in
    ap (λ w. rest +ℤ w) (sym (weight_of_holder t o (holder_of_legal o.status legal)))
    ∙ moved
    ∙ ap (λ w. held t d.orders +ℤ w) (weightless t o)

-- A compensated order lets go of its tickets.
pub compensate-Shifts :
    (id now : ℕ) (d d' : Db) (o : Order)
    → find_order id d ≡ some o
    → transition_stmt id compensated uncompensated now d ≡ (ok true, d')
    → Shifts o.ticket_type_id o.quantity d' d × Stays d d'
unfolding transition_stmt move_order
compensate-Shifts id now d d' o e h = elim (Bool-cases (is_one_of o.status uncompensated)) [
  | inr illegal ↦
      let run : transition_stmt id compensated uncompensated now d ≡ (ok false, d) =
        rw (transition_stmt, e, illegal) refl in
      absurd cc
  | inl legal ↦
      let run : (ok true, d') ≡ (ok true, move_order o compensated now d) =
        sym h ∙ rw (transition_stmt, e, legal) refl in
      let types = ap (λ (p : Result Bool × Db). p.1.ticket_types) run in
      let orders = ap (λ (p : Result Bool × Db). p.1.orders) run in
      (
        held_by d' d _ _ (sym types) (λ t. add_moved _ _ _ (
            ap (λ (os : List Order). held t os +ℤ share o.ticket_type_id o.quantity t) orders
            ∙ held-compensate t id d o e legal)),
        same_stock d d' types,
      )
]
