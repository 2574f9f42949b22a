-- ===== src/Store/Stock.antt =====
-- What a ticket type has left and what the orders hold of it, and how a change of a row moves the
-- two. An order holds its tickets until it is compensated.
use booking_monitor.Prelude.{
  ℕ, ◌≡◌, ◌&&◌, not, inl, inr, Option, none, some, List, [], ◌∷◌, arith, ◌==◌, if◌then◌else◌, find,
  update, Bool-cases,
}
use booking_monitor.Prelude.Int.{ℤ, pos, ◌+ℤ◌, ◌≤ℤ◌, add_swap, add_under}
use booking_monitor.Domain.Status.{compensated, same}
use booking_monitor.Domain.Order.{Order}
use booking_monitor.Domain.TicketType.{TicketType}
use booking_monitor.Store.Db.{Db, order_key, find_ticket_type}

abbrev pub weight : ℕ → Order → ℤ
weight t o =
    if (o.ticket_type_id == t && not (same o.status compensated)) then o.quantity else pos 0

unfoldable pub held : ℕ → List Order → ℤ
held t [] = pos 0
held t (o ∷ os) = weight t o +ℤ held t os

abbrev pub available_of : Option TicketType → ℤ
available_of none = pos 0
available_of (some x) = x.available_tickets

abbrev pub total_of : Option TicketType → ℤ
total_of none = pos 0
total_of (some x) = x.total_tickets

-- What is left of a ticket type, and how many there are; 0 for one that is not there.
unfoldable pub available : ℕ → Db → ℤ
available t d = available_of (find_ticket_type t d)

unfoldable pub total : ℕ → Db → ℤ
total t d = total_of (find_ticket_type t d)

-- What is left and what is held, together.
unfoldable pub balance : ℕ → Db → ℤ
balance t d = available t d +ℤ held t d.orders

-- No ticket type's balance or total is moved, and none is left with a negative count.
pub record Conserves (d d' : Db) : Type 0 where
  pub same_balance : (t : ℕ) → balance t d' ≡ balance t d
  pub same_total : (t : ℕ) → total t d' ≡ total t d
  pub nonnegative : (t : ℕ) → pos 0 ≤ℤ available t d → pos 0 ≤ℤ available t d'

-- The first row with the key is replaced: the sum moves by the difference of the weights.
pub held-update :
    (t k : ℕ) (f : Order → Order) (xs : List Order) (o : Order)
    → find order_key k xs ≡ some o
    → held t (update order_key k f xs) +ℤ weight t o ≡ held t xs +ℤ weight t (f o)
unfolding held find update
held-update t k f [] o e = cc
held-update t k f (x ∷ xs) o e = elim (Bool-cases (x.id == k)) [
  | inl hit ↦
      let same_row : x ≡ o = ground arith in
      rw (hit, same_row) (add_swap (weight t (f o)) (held t xs) (weight t o))
  | inr miss ↦ rw miss (add_under (weight t x) _ _ _ _ (held-update t k f xs o (ground arith)))
]
