-- ===== src/Store/Evolves.antt =====
-- How the rows of `orders` may change: what one row may become, and the statements of
-- internal/infrastructure/persistence/postgres/repositories.go that change rows.
use booking_monitor.Prelude.{
  ℕ, ◌≡◌, refl, ◌&&◌, ◌||◌, ltb, inl, inr, true, false, some, List, [], ◌∷◌, arith, ◌==◌, ==_iff,
  find, update, key_of_find, find-update_self, find-update_ne, Option-cases, Bool-cases,
}
use booking_monitor.Domain.Status.{OrderStatus, awaiting_payment, paid, same, is_one_of}
use booking_monitor.Domain.Graph.{◌⟶◌, pay, ◌⟶*◌, here, next, ⟶*_trans}
use booking_monitor.Domain.Order.{Order}
use booking_monitor.Store.Db.{
  Db, order_key, find_order, move_order, transition_stmt, mark_paid_stmt, set_payment_intent_stmt,
  intent_taken, clashes, insert_order,
}
use booking_monitor.Store.Keeps.{Preorder}

-- What was booked stays.
pub record SameBooking (o p : Order) : Type 0 where
  pub same_id : p.id ≡ o.id
  pub same_event : p.event_id ≡ o.event_id
  pub same_user : p.user_id ≡ o.user_id
  pub same_quantity : p.quantity ≡ o.quantity
  pub same_created : p.created_at ≡ o.created_at
  pub same_deadline : p.reserved_until ≡ o.reserved_until
  pub same_ticket_type : p.ticket_type_id ≡ o.ticket_type_id
  pub same_amount : p.amount_cents ≡ o.amount_cents
  pub same_currency : p.currency ≡ o.currency

pub record Later (o : Order) (d : Db) : Type 0 where
  pub row : Order
  pub found : find_order o.id d ≡ some row
  pub path : o.status ⟶* row.status
  pub booking : SameBooking o row

-- Every order of `d` is an order of `d'`, further along.
abbrev pub Evolves : Db → Db → Type 0
Evolves d d' = (id : ℕ) (o : Order) → find_order id d ≡ some o → Later o d'

SameBooking-trans : {o p q : Order} → SameBooking o p → SameBooking p q → SameBooking o q
SameBooking-trans h k = ground arith

pub find_order-id : (id : ℕ) (d : Db) (o : Order) → find_order id d ≡ some o → o.id ≡ id
unfolding find_order
find_order-id id d o e = key_of_find order_key id d.orders o e

Later-refl : (id : ℕ) (d : Db) (o : Order) → find_order id d ≡ some o → Later o d
Later-refl id d o e = record {
  row = o;
  found = ground (arith, find_order-id id d o e);
  path = here;
  booking = ground arith;
}

Later-trans : {d d' : Db} {o : Order} → Later o d → Evolves d d' → Later o d'
Later-trans {o = o} l f =
    let k = f o.id l.row l.found in
    record {
      row = k.row;
      found = ground arith;
      path = ⟶*_trans l.path k.path;
      booking = SameBooking-trans l.booking k.booking;
    }

pub Evolves-Preorder : Preorder Evolves
Evolves-Preorder = record {
  reflexive = λ d id o e. Later-refl id d o e;
  transitive = λ a b c f g id o e. Later-trans (f id o e) g;
}

-- A change of one row that keeps what was booked and follows the graph.
pub Evolves-update :
    (id : ℕ) (d d' : Db) (f : Order → Order) (o : Order)
    → find_order id d ≡ some o
    → d'.orders ≡ update order_key id f d.orders
    → ((r : Order) → (f r).id ≡ r.id)
    → (o.status ⟶* (f o).status)
    → SameBooking o (f o)
    → Evolves d d'
unfolding find_order
Evolves-update id d d' f o e changed ids path booking k p found = elim (Bool-cases (k == id)) [
  | inl hit ↦
      let same_row : p ≡ o = ground arith in
      rw same_row (record {
        row = f o;
        found =
            ground
              (arith, ids o, find_order-id id d o e, find-update_self order_key id f d.orders o);
        path = path;
        booking = booking;
      })
  | inr miss ↦ record {
    row = p;
    found = ground (arith, find_order-id k d p found, find-update_ne order_key k id f d.orders ids);
    path = here;
    booking = ground arith;
  }
]

pub Evolves-same : (d d' : Db) → d'.orders ≡ d.orders → Evolves d d'
unfolding find_order
Evolves-same d d' e k p found = Later-refl k d' p (ground arith)

move_order-Evolves :
    (id : ℕ) (d : Db) (o : Order) (to : OrderStatus) (now : ℕ)
    → find_order id d ≡ some o
    → o.status ⟶ to
    → Evolves d (move_order o to now d)
unfolding move_order
move_order-Evolves id d o to now e edge =
    Evolves-update o.id d _ (λ r. record r { status = to }) o (cc (find_order-id id d o e)) refl
      (λ r. refl) (next here edge) (ground arith)

-- Every source that the statement accepts has an edge to the target.
abbrev pub AllEdges : OrderStatus → List OrderStatus → Type 0
AllEdges to [] = Unit {0}
AllEdges to (s ∷ from) = (s ⟶ to) × AllEdges to from

same_eq : (s t : OrderStatus) → same s t ≡ true → s ≡ t
same_eq s t h = ground arith

edge_of :
    (s to : OrderStatus) (from : List OrderStatus)
    → AllEdges to from
    → is_one_of s from ≡ true
    → s ⟶ to
edge_of s to [] a h = cc
edge_of s to (t ∷ from) a h = elim (Bool-cases (same s t)) [
  | inl yes' ↦ rw (same_eq s t yes') a.0
  | inr no' ↦ edge_of s to from a.1 (ground arith)
]

pub transition-Evolves :
    (id : ℕ) (to : OrderStatus) (from : List OrderStatus)
    → AllEdges to from
    → (now : ℕ) (d : Db) → Evolves d (transition_stmt id to from now d).1
unfolding transition_stmt
transition-Evolves id to from edges now d = elim (Option-cases (find_order id d)) [
  | inl missing ↦ rw (missing, transition_stmt) (Evolves-same d d refl)
  | inr (o, e) ↦ elim (Bool-cases (is_one_of o.status from)) [
    | inl legal ↦
        rw (e, transition_stmt, legal)
          (move_order-Evolves id d o to now e (edge_of o.status to from edges legal))
    | inr illegal ↦ rw (e, transition_stmt, illegal) (Evolves-same d d refl)
  ]
]

pub mark_paid-Evolves : (id now : ℕ) (d : Db) → Evolves d (mark_paid_stmt id now d).1
unfolding mark_paid_stmt
mark_paid-Evolves id now d = elim (Option-cases (find_order id d)) [
  | inl missing ↦ rw (missing, mark_paid_stmt) (Evolves-same d d refl)
  | inr (o, e) ↦ elim (Bool-cases (same o.status awaiting_payment && ltb now o.reserved_until)) [
    | inl legal ↦
        rw (e, mark_paid_stmt, legal)
          (move_order-Evolves id d o paid now e
            (rw (same_eq o.status awaiting_payment (ground arith)) pay))
    | inr illegal ↦ rw (e, mark_paid_stmt, illegal) (Evolves-same d d refl)
  ]
]

set_intent-Evolves :
    (id intent : ℕ) (d : Db) (o : Order)
    → find_order id d ≡ some o
    → Evolves d (record d {
      orders = update order_key id (λ r. record r { payment_intent_id = intent }) d.orders;
    })
set_intent-Evolves id intent d o e =
    Evolves-update id d _ (λ r. record r { payment_intent_id = intent }) o e refl (λ r. refl) here
      (ground arith)

pub set_payment_intent-Evolves :
    (id intent now : ℕ) (d : Db) → Evolves d (set_payment_intent_stmt id intent now d).1
unfolding set_payment_intent_stmt
set_payment_intent-Evolves id intent now d = elim (Option-cases (find_order id d)) [
  | inl missing ↦ rw (missing, set_payment_intent_stmt) (Evolves-same d d refl)
  | inr (o, e) ↦
      elim (Bool-cases (
        same o.status awaiting_payment
        && ltb now o.reserved_until
        && (o.payment_intent_id == 0 || o.payment_intent_id == intent))) [
          | inr illegal ↦ rw (e, set_payment_intent_stmt, illegal) (Evolves-same d d refl)
          | inl legal ↦ elim (Bool-cases (intent_taken id intent d.orders)) [
            | inl taken ↦ rw (e, set_payment_intent_stmt, legal, taken) (Evolves-same d d refl)
            | inr free ↦
                rw (e, set_payment_intent_stmt, legal, free) (set_intent-Evolves id intent d o e)
          ]
        ]
]

-- A row that is there clashes with a new one of the same id.
pub clashes-found :
    (o p : Order) (rs : List Order) → clashes o rs ≡ false → find order_key o.id rs ≡ some p → ⊥
unfolding clashes find
clashes-found o p [] c e = cc
clashes-found o p (r ∷ rs) c e = ground (arith, clashes-found o p rs)

insert_fresh-Evolves :
    (o : Order) (d d' : Db) → clashes o d.orders ≡ false → d'.orders ≡ o ∷ d.orders → Evolves d d'
unfolding find_order find
insert_fresh-Evolves o d d' fresh changed k p found = elim (Bool-cases (o.id == k)) [
  | inl hit ↦ absurd (clashes-found o p d.orders fresh (cc ((==_iff o.id k).0 hit)))
  | inr miss ↦ Later-refl k d' p (ground arith)
]

pub insert_order-Evolves : (o : Order) (now : ℕ) (d : Db) → Evolves d (insert_order o now d).1
unfolding insert_order
insert_order-Evolves o now d = elim (Bool-cases (clashes o d.orders)) [
  | inl clash ↦ rw clash (Evolves-same d d refl)
  | inr fresh ↦ rw fresh (insert_fresh-Evolves o d _ fresh refl)
]
