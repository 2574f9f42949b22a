-- ===== src/Store/Shifts.antt =====
-- The statements of repositories.go that change the stock of a ticket type, as one half of a move of
-- tickets.
use booking_monitor.Prelude.{
  ℕ, ◌≡◌, refl, ap, sym, ◌∙◌, inl, inr, Bool, true, false, some, arith, ◌==◌, ==_iff, if◌then◌else◌,
  update, key_of_find, find-update_self, find-update_ne, Option-cases, Bool-cases,
}
use booking_monitor.Prelude.Int.{
  ℤ, pos, ◌+ℤ◌, ◌-ℤ◌, ◌≤ℤ◌, leb_ℤ, -ℤ_parts, add_cancel, add_zero, add_last, sub_add,
}
use booking_monitor.Domain.Errors.{Result, ok, err, infra}
use booking_monitor.Domain.TicketType.{TicketType}
use booking_monitor.Store.Db.{Db, ticket_type_key, find_ticket_type, decrement_stmt, increment_stmt}
use booking_monitor.Store.Stock.{held, available, total, balance, Conserves}

-- `q`, where the ticket type is `id`.
abbrev pub share : ℕ → ℤ → ℕ → ℤ
share id q t = if id == t then q else pos 0

-- The balance of `id` is higher by `q`, and no other one differs.
pub record Shifts (id : ℕ) (q : ℤ) (low high : Db) : Type 0 where
  pub shifted : (t : ℕ) → balance t high ≡ balance t low +ℤ share id q t

-- The totals are the same, and no count becomes negative.
pub record Stays (d d' : Db) : Type 0 where
  pub same_total : (t : ℕ) → total t d' ≡ total t d
  pub nonnegative : (t : ℕ) → pos 0 ≤ℤ available t d → pos 0 ≤ℤ available t d'

-- Up and down again, or down and up again.
pub Conserves-up_down :
    {id : ℕ} {q : ℤ} {a b c : Db}
    → Shifts id q a b
    → Stays a b
    → Shifts id q c b
    → Stays b c
    → Conserves a c
Conserves-up_down {id} {q} u m v n = record {
  same_balance = λ t. add_cancel _ _ (share id q t) (sym (v.shifted t) ∙ u.shifted t);
  same_total = λ t. n.same_total t ∙ m.same_total t;
  nonnegative = λ t h. n.nonnegative t (m.nonnegative t h);
}

pub Conserves-down_up :
    {id : ℕ} {q : ℤ} {a b c : Db}
    → Shifts id q b a
    → Stays a b
    → Shifts id q b c
    → Stays b c
    → Conserves a c
Conserves-down_up u m v n = record {
  same_balance = λ t. v.shifted t ∙ sym (u.shifted t);
  same_total = λ t. n.same_total t ∙ m.same_total t;
  nonnegative = λ t h. n.nonnegative t (m.nonnegative t h);
}

-- The row of the ticket type is replaced by one with its id and its total.
module _ (id : ℕ) (f : TicketType → TicketType) (same_id : (r : TicketType) → (f r).id ≡ r.id)
    (total_same : (r : TicketType) → (f r).total_tickets ≡ r.total_tickets) (d d' : Db)
    (x : TicketType) (there : find_ticket_type id d ≡ some x)
    (changed : d'.ticket_types ≡ update ticket_type_key id f d.ticket_types) where
  find_ticket_type-update :
      (t : ℕ) → find_ticket_type t d' ≡ (if id == t then some (f x) else find_ticket_type t d)
  unfolding find_ticket_type
  find_ticket_type-update t = elim (Bool-cases (id == t)) [
    | inl hit ↦
        let equal : id ≡ t = (==_iff id t).0 hit in
        let itself = key_of_find ticket_type_key id d.ticket_types x there in
        rw (hit, changed, sym equal)
          (find-update_self ticket_type_key id f d.ticket_types x (same_id x ∙ itself) there)
    | inr miss ↦
        rw (miss, changed)
          (find-update_ne ticket_type_key t id f d.ticket_types same_id (ground arith))
  ]

  pub available-update :
      (t : ℕ) → available t d' ≡ (if id == t then (f x).available_tickets else available t d)
  unfolding available
  available-update t = elim (Bool-cases (id == t)) [
    | inl hit ↦ rw (find_ticket_type-update t, hit) refl
    | inr miss ↦ rw (find_ticket_type-update t, miss) refl
  ]

  total-update : (t : ℕ) → total t d' ≡ total t d
  unfolding total
  total-update t = elim (Bool-cases (id == t)) [
    | inl hit ↦ rw (find_ticket_type-update t, hit, sym ((==_iff id t).0 hit), there) (total_same x)
    | inr miss ↦ rw (find_ticket_type-update t, miss) refl
  ]

  pub restock-Stays : pos 0 ≤ℤ (f x).available_tickets → Stays d d'
  restock-Stays h = record {
    same_total = total-update;
    nonnegative = λ t was. elim (Bool-cases (id == t)) [
      | inl hit ↦ rw (available-update t, hit) h
      | inr miss ↦ rw (available-update t, miss) was
    ];
  }

  pub available_there : (t : ℕ) → id == t ≡ true → available t d ≡ x.available_tickets
  unfolding available
  available_there t hit = rw (sym ((==_iff id t).0 hit), there) refl

  module _ (q : ℤ) (orders : d'.orders ≡ d.orders) where
    pub restock_up : (f x).available_tickets ≡ x.available_tickets +ℤ q → Shifts id q d d'
    unfolding balance
    restock_up e = record {
      shifted = λ t. elim (Bool-cases (id == t)) [
        | inl hit ↦
            rw (available-update t, hit, orders, available_there t hit, e)
              (add_last x.available_tickets q (held t d.orders))
        | inr miss ↦ rw (available-update t, miss, orders) (sym (add_zero _))
      ];
    }

    pub restock_down : (f x).available_tickets ≡ x.available_tickets -ℤ q → Shifts id q d' d
    unfolding balance
    restock_down e = record {
      shifted = λ t. elim (Bool-cases (id == t)) [
        | inl hit ↦
            rw (available-update t, hit, orders, available_there t hit, e)
              (sub_add x.available_tickets q (held t d.orders))
        | inr miss ↦ rw (available-update t, miss, orders) (sym (add_zero _))
      ];
    }

pub nonnegative_sub : (a b : ℤ) → leb_ℤ b a ≡ true → pos 0 ≤ℤ a -ℤ b
nonnegative_sub a b h = ground (arith, -ℤ_parts a b)

-- A ticket type that is decremented had as many left.
pub decrement_stmt-Shifts :
    (id : ℕ) (q : ℤ) (now : ℕ) (d d' : Db)
    → decrement_stmt id q now d ≡ (ok true, d')
    → Shifts id q d' d × Stays d d'
unfolding decrement_stmt
decrement_stmt-Shifts id q now d d' h = elim (Option-cases (find_ticket_type id d)) [
  | inl missing ↦
      let run : decrement_stmt id q now d ≡ (ok false, d) = rw (decrement_stmt, missing) refl in
      absurd cc
  | inr (x, e) ↦ elim (Bool-cases (leb_ℤ q x.available_tickets)) [
    | inr short ↦
        let run : decrement_stmt id q now d ≡ (ok false, d) = rw (decrement_stmt, e, short) refl in
        absurd cc
    | inl enough ↦
        let run : (ok true, d') ≡ (
          ok true,
          record d {
            ticket_types =
                update ticket_type_key id
                  (λ r. record r { available_tickets = x.available_tickets -ℤ q }) d.ticket_types;
          },
        ) =
          sym h ∙ rw (decrement_stmt, e, enough) refl in
        let types = ap (λ (p : Result Bool × Db). p.1.ticket_types) run in
        let orders = ap (λ (p : Result Bool × Db). p.1.orders) run in
        (
          restock_down id _ (λ r. refl) (λ r. refl) d d' x e types q orders refl,
          restock-Stays id _ (λ r. refl) (λ r. refl) d d' x e types
              (nonnegative_sub x.available_tickets q enough),
        )
  ]
]

pub increment_stmt-Shifts :
    (id : ℕ) (q : ℤ) (now : ℕ) (d d' : Db)
    → increment_stmt id q now d ≡ (ok true, d')
    → Shifts id q d d' × Stays d d'
unfolding increment_stmt
increment_stmt-Shifts id q now d d' h = elim (Option-cases (find_ticket_type id d)) [
  | inl missing ↦
      let run : increment_stmt id q now d ≡ (ok false, d) = rw (increment_stmt, missing) refl in
      absurd cc
  | inr (x, e) ↦ elim (Bool-cases (leb_ℤ (x.available_tickets +ℤ q) x.total_tickets)) [
    | inr full ↦
        let run : increment_stmt id q now d ≡ (ok false, d) = rw (increment_stmt, e, full) refl in
        absurd cc
    | inl room ↦ elim (Bool-cases (leb_ℤ (pos 0) (x.available_tickets +ℤ q))) [
      | inr negative ↦
          let run : increment_stmt id q now d ≡ (err infra, d) =
            rw (increment_stmt, e, room, negative) refl in
          absurd cc
      | inl fits ↦
          let run : (ok true, d') ≡ (
            ok true,
            record d {
              ticket_types =
                  update ticket_type_key id
                    (λ r. record r { available_tickets = x.available_tickets +ℤ q }) d.ticket_types;
            },
          ) =
            sym h ∙ rw (increment_stmt, e, room, fits) refl in
          let types = ap (λ (p : Result Bool × Db). p.1.ticket_types) run in
          let orders = ap (λ (p : Result Bool × Db). p.1.orders) run in
          (
            restock_up id _ (λ r. refl) (λ r. refl) d d' x e types q orders refl,
            restock-Stays id _ (λ r. refl) (λ r. refl) d d' x e types (ground arith),
          )
    ]
  ]
]
