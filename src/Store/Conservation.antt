-- ===== src/Store/Conservation.antt =====
-- How each statement of repositories.go moves the balance of the ticket types.
use booking_monitor.Prelude.{
  ℕ, ◌≡◌, refl, ap, ◌∙◌, ◌&&◌, ◌||◌, ltb, inl, inr, true, false, some, List, arith, ◌==◌, update,
  Option-cases, Bool-cases,
}
use booking_monitor.Prelude.Int.{◌+ℤ◌, add_cancel}
use booking_monitor.Domain.Status.{
  OrderStatus, confirmed, failed, awaiting_payment, paid, expired, payment_failed, compensated,
  same, is_one_of,
}
use booking_monitor.Domain.Order.{Order}
use booking_monitor.Store.Db.{
  Db, order_key, find_order, find_ticket_type, move_order, transition_stmt, mark_paid_stmt,
  set_payment_intent_stmt, intent_taken,
}
use booking_monitor.Store.Keeps.{Preorder}
use booking_monitor.Store.Calls.{Laws}
use booking_monitor.Store.Evolves.{find_order-id}
use booking_monitor.Store.Stock.{weight, held, available, total, balance, Conserves, held-update}

pub Conserves-Preorder : Preorder Conserves
Conserves-Preorder = record {
  reflexive =
      λ d. record { same_balance = λ t. refl; same_total = λ t. refl; nonnegative = λ t h. h };
  transitive = λ a b c h k. record {
    same_balance = λ t. k.same_balance t ∙ h.same_balance t;
    same_total = λ t. k.same_total t ∙ h.same_total t;
    nonnegative = λ t n. k.nonnegative t (h.nonnegative t n);
  };
}

-- The ticket types are as they were, and the orders hold as much as before.
pub Conserves-held :
    (d d' : Db)
    → d'.ticket_types ≡ d.ticket_types
    → ((t : ℕ) → held t d'.orders ≡ held t d.orders)
    → Conserves d d'
unfolding balance available total find_ticket_type
Conserves-held d d' types h = record {
  same_balance = λ t. rw (types, h t) refl;
  same_total = λ t. rw types refl;
  nonnegative = λ t n. rw types n;
}

pub Conserves-same :
    (d d' : Db) → d'.orders ≡ d.orders → d'.ticket_types ≡ d.ticket_types → Conserves d d'
Conserves-same d d' h types = Conserves-held d d' types (λ t. ap (held t) h)

-- One order is replaced by one that holds the same.
Conserves-update :
    (id : ℕ) (f : Order → Order) (d d' : Db) (o : Order)
    → find_order id d ≡ some o
    → d'.orders ≡ update order_key id f d.orders
    → d'.ticket_types ≡ d.ticket_types
    → ((t : ℕ) → weight t (f o) ≡ weight t o)
    → Conserves d d'
unfolding find_order
Conserves-update id f d d' o e changed types same_weight = Conserves-held d d' types (λ t.
    add_cancel _ _ (weight t o) (
      rw changed
        (held-update t id f d.orders o e ∙ ap (λ w. held t d.orders +ℤ w) (same_weight t))))

holds_before :
    (s : OrderStatus) (from : List OrderStatus)
    → is_one_of compensated from ≡ false
    → is_one_of s from ≡ true
    → same s compensated ≡ false
holds_before compensated from h legal = absurd cc
holds_before _ from h legal = refl

-- A transition from statuses that hold the tickets to one that holds them still.
transition-Conserves :
    (id now : ℕ) (to : OrderStatus) (from : List OrderStatus) (d : Db)
    → same to compensated ≡ false
    → is_one_of compensated from ≡ false
    → Conserves d (transition_stmt id to from now d).1
unfolding transition_stmt move_order
transition-Conserves id now to from d holds held_before = elim (Option-cases (find_order id d)) [
  | inl missing ↦ rw (missing, transition_stmt) (Conserves-same d d refl refl)
  | inr (o, e) ↦ elim (Bool-cases (is_one_of o.status from)) [
    | inr illegal ↦ rw (e, transition_stmt, illegal) (Conserves-same d d refl refl)
    | inl legal ↦
        rw (e, transition_stmt, legal)
          (Conserves-update id (λ r. record r { status = to }) d _ o e
            (rw (find_order-id id d o e) refl) refl
            (λ t. rw (holds, holds_before o.status from held_before legal) refl))
  ]
]

mark_paid-Conserves : (id now : ℕ) (d : Db) → Conserves d (mark_paid_stmt id now d).1
unfolding mark_paid_stmt move_order
mark_paid-Conserves id now d = elim (Option-cases (find_order id d)) [
  | inl missing ↦ rw (missing, mark_paid_stmt) (Conserves-same d d refl refl)
  | inr (o, e) ↦ elim (Bool-cases (same o.status awaiting_payment && ltb now o.reserved_until)) [
    | inr illegal ↦ rw (e, mark_paid_stmt, illegal) (Conserves-same d d refl refl)
    | inl legal ↦
        rw (e, mark_paid_stmt, legal)
          (Conserves-update id (λ r. record r { status = paid }) d _ o e
            (rw (find_order-id id d o e) refl) refl (λ t. ground arith))
  ]
]

set_payment_intent-Conserves :
    (id intent now : ℕ) (d : Db) → Conserves d (set_payment_intent_stmt id intent now d).1
unfolding set_payment_intent_stmt
set_payment_intent-Conserves id intent now d = elim (Option-cases (find_order id d)) [
  | inl missing ↦ rw (missing, set_payment_intent_stmt) (Conserves-same d d refl refl)
  | inr (o, e) ↦
      elim (Bool-cases (
        same o.status awaiting_payment
        && ltb now o.reserved_until
        && (o.payment_intent_id == 0 || o.payment_intent_id == intent))) [
          | inr illegal ↦ rw (e, set_payment_intent_stmt, illegal) (Conserves-same d d refl refl)
          | inl legal ↦ elim (Bool-cases (intent_taken id intent d.orders)) [
            | inl taken ↦
                rw (e, set_payment_intent_stmt, legal, taken) (Conserves-same d d refl refl)
            | inr free ↦
                rw (e, set_payment_intent_stmt, legal, free)
                  (Conserves-update id (λ r. record r { payment_intent_id = intent }) d _ o e refl
                    refl (λ t. refl))
          ]
        ]
]

-- The payment services and the sweeper keep the balance.
pub Conserves-Laws : Laws Conserves
Conserves-Laws = record {
  order = Conserves-Preorder;
  untouched = Conserves-same;
  expires = λ id now d. transition-Conserves id now expired _ d refl refl;
  declines = λ id now d. transition-Conserves id now payment_failed _ d refl refl;
  fails = λ id now d. transition-Conserves id now failed _ d refl refl;
  confirms = λ id now d. transition-Conserves id now confirmed _ d refl refl;
  pays = mark_paid-Conserves;
  intends = set_payment_intent-Conserves;
}
