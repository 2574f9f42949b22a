-- ===== src/Domain/Graph.antt =====
-- The status graph that the comment on `ErrInvalidTransition` in internal/domain/order.go draws,
-- and what the `Mark*` methods have to do with it.
use booking_monitor.Prelude.{ℕ, ◌≤◌, ◌<◌, ◌≡◌, refl, ap, subst, ◌≢◌, ◌⊎◌, arith, List, [], ◌∷◌}
use booking_monitor.Domain.Status.{
  OrderStatus, confirmed, pending, charging, failed, awaiting_payment, paid, expired,
  payment_failed, compensated,
}
use booking_monitor.Domain.Errors.{Error, Result, ok, err, invalid_transition}
use booking_monitor.Domain.Order.{
  Order, mark_charging, mark_confirmed, mark_failed, mark_compensated, mark_awaiting_payment,
  mark_paid, mark_expired, mark_payment_failed,
}

infix 40 ◌⟶◌ ◌⟶*◌
pub data ◌⟶◌ : OrderStatus → OrderStatus → Type 0 where
  reserve : pending ⟶ awaiting_payment
  pay : awaiting_payment ⟶ paid
  expire : awaiting_payment ⟶ expired
  decline : awaiting_payment ⟶ payment_failed
  compensate_expired : expired ⟶ compensated
  compensate_payment : payment_failed ⟶ compensated
  start_charge : pending ⟶ charging
  confirm_pending : pending ⟶ confirmed
  fail_pending : pending ⟶ failed
  confirm : charging ⟶ confirmed
  fail : charging ⟶ failed
  compensate_failed : failed ⟶ compensated

pub data ◌⟶*◌ (s : OrderStatus) : OrderStatus → Type 0 where
  here : s ⟶* s
  next : {t u : OrderStatus} → s ⟶* t → t ⟶ u → s ⟶* u

pub ⟶*_trans : {s t u : OrderStatus} → s ⟶* t → t ⟶* u → s ⟶* u
⟶*_trans p here = p
⟶*_trans p (next q e) = next (⟶*_trans p q) e

pub ruleset edges = (
  reserve, pay, expire, decline, compensate_expired, compensate_payment, start_charge,
  confirm_pending, fail_pending, confirm, fail, compensate_failed,
)

-- The eight transition methods, as one family.
pub data Mark : Type 0 where
  charging_mark confirmed_mark failed_mark compensated_mark : Mark
  awaiting_payment_mark paid_mark expired_mark payment_failed_mark : Mark

unfoldable pub apply_mark : Mark → Order → Result Order
apply_mark charging_mark o = mark_charging o
apply_mark confirmed_mark o = mark_confirmed o
apply_mark failed_mark o = mark_failed o
apply_mark compensated_mark o = mark_compensated o
apply_mark awaiting_payment_mark o = mark_awaiting_payment o
apply_mark paid_mark o = mark_paid o
apply_mark expired_mark o = mark_expired o
apply_mark payment_failed_mark o = mark_payment_failed o

-- A transition method that succeeds moves the order along an edge of the graph, and changes nothing
-- but its status.
pub apply_mark-⟶ :
    (m : Mark) (o : Order) {o' : Order}
    → apply_mark m o ≡ ok o'
    → (o.status ⟶ o'.status) × (o' ≡ record o { status = o'.status })
unfolding apply_mark mark_charging mark_confirmed mark_failed mark_compensated mark_awaiting_payment
    mark_paid mark_expired mark_payment_failed
apply_mark-⟶ charging_mark o h = (grind (arith, edges), ground arith)
apply_mark-⟶ _ o h = (grind (arith, edges), ground arith)

-- The only error of a transition method is `ErrInvalidTransition`.
pub apply_mark-err :
    (m : Mark) (o : Order) (e : Error) → apply_mark m o ≡ err e → e ≡ invalid_transition
unfolding apply_mark mark_charging mark_confirmed mark_failed mark_compensated mark_awaiting_payment
    mark_paid mark_expired mark_payment_failed
apply_mark-err charging_mark o e h = ground arith
apply_mark-err _ o e h = ground arith

-- Every edge of the graph is taken by one of the methods, from every order at its source.
pub ⟶-apply_mark :
    (o : Order) {s t : OrderStatus}
    → s ⟶ t
    → o.status ≡ s
    → (m : Mark) × (apply_mark m o ≡ ok (record o { status = t }))
unfolding apply_mark mark_charging mark_confirmed mark_failed mark_compensated mark_awaiting_payment
    mark_paid mark_expired mark_payment_failed
⟶-apply_mark o reserve e = (awaiting_payment_mark, ground arith)
⟶-apply_mark o pay e = (paid_mark, ground arith)
⟶-apply_mark o expire e = (expired_mark, ground arith)
⟶-apply_mark o decline e = (payment_failed_mark, ground arith)
⟶-apply_mark o compensate_expired e = (compensated_mark, ground arith)
⟶-apply_mark o compensate_payment e = (compensated_mark, ground arith)
⟶-apply_mark o start_charge e = (charging_mark, ground arith)
⟶-apply_mark o confirm_pending e = (confirmed_mark, ground arith)
⟶-apply_mark o fail_pending e = (failed_mark, ground arith)
⟶-apply_mark o confirm e = (confirmed_mark, ground arith)
⟶-apply_mark o fail e = (failed_mark, ground arith)
⟶-apply_mark o compensate_failed e = (compensated_mark, ground arith)

-- A number that grows along every edge.
abbrev rank : OrderStatus → ℕ
rank pending = 0
rank charging = 1
rank awaiting_payment = 1
rank failed = 2
rank expired = 2
rank payment_failed = 2
rank confirmed = 3
rank paid = 3
rank compensated = 3

⟶-rank : {s t : OrderStatus} → s ⟶ t → rank s < rank t
⟶-rank reserve = omega arith
⟶-rank pay = omega arith
⟶-rank expire = omega arith
⟶-rank decline = omega arith
⟶-rank compensate_expired = omega arith
⟶-rank compensate_payment = omega arith
⟶-rank start_charge = omega arith
⟶-rank confirm_pending = omega arith
⟶-rank fail_pending = omega arith
⟶-rank confirm = omega arith
⟶-rank fail = omega arith
⟶-rank compensate_failed = omega arith

⟶*-rank : {s t : OrderStatus} → s ⟶* t → rank s ≤ rank t
⟶*-rank here = omega arith
⟶*-rank (next p e) = omega (arith, ⟶*-rank p, ⟶-rank e)

-- The graph has no cycle: nothing leads back over an edge.
pub ⟶-acyclic : {s t : OrderStatus} → s ⟶ t → ¬ (t ⟶* s)
⟶-acyclic e p = omega (arith, ⟶-rank e, ⟶*-rank p)

-- The statuses that no edge leaves.
abbrev pub IsTerminal : OrderStatus → Type 0
IsTerminal s = (s ≡ paid) ⊎ (s ≡ confirmed) ⊎ (s ≡ compensated)

rank_bound : (s : OrderStatus) → rank s ≤ 3
rank_bound confirmed = omega arith
rank_bound _ = omega arith

terminal_rank : (s : OrderStatus) → IsTerminal s → rank s ≡ 3
terminal_rank s h = ground arith

-- No history leads out of a terminal status.
pub ⟶*_of_IsTerminal : {s t : OrderStatus} → IsTerminal s → s ⟶* t → t ≡ s
⟶*_of_IsTerminal h here = refl
⟶*_of_IsTerminal {s} h (next {t = m} {u = u} p e) =
    let stay : m ≡ s = ⟶*_of_IsTerminal h p in
    absurd (omega (arith, terminal_rank s h, ⟶-rank e, rank_bound u, ap rank stay))

-- Every method refuses an order in a terminal status.
pub apply_mark-terminal :
    (m : Mark) (o : Order) → IsTerminal o.status → apply_mark m o ≡ err invalid_transition
unfolding apply_mark mark_charging mark_confirmed mark_failed mark_compensated mark_awaiting_payment
    mark_paid mark_expired mark_payment_failed
apply_mark-terminal charging_mark o h = ground arith
apply_mark-terminal _ o h = ground arith

-- What the methods make of an order, one after another; a refused one leaves it as it is.
abbrev pub kept_or : Order → Result Order → Order
kept_or o (ok o') = o'
kept_or o (err e) = o

unfoldable pub apply_marks : List Mark → Order → Order
apply_marks [] o = o
apply_marks (m ∷ ms) o = apply_marks ms (kept_or o (apply_mark m o))

kept-⟶* :
    (m : Mark) (o : Order) (r : Result Order)
    → apply_mark m o ≡ r
    → o.status ⟶* (kept_or o r).status
kept-⟶* m o (ok o') e = next here (apply_mark-⟶ m o e).0
kept-⟶* m o (err x) e = here

apply_marks-⟶* : (ms : List Mark) (o : Order) → o.status ⟶* (apply_marks ms o).status
unfolding apply_marks
apply_marks-⟶* [] o = here
apply_marks-⟶* (m ∷ ms) o =
    ⟶*_trans (kept-⟶* m o (apply_mark m o) refl) (apply_marks-⟶* ms (kept_or o (apply_mark m o)))

-- No sequence of transitions brings an order back to a status that it has left.
pub apply_marks-no_return :
    (m : Mark) (ms : List Mark) (o : Order) {o' : Order}
    → apply_mark m o ≡ ok o'
    → (apply_marks ms o').status ≢ o.status
apply_marks-no_return m ms o {o'} h back =
    ⟶-acyclic (apply_mark-⟶ m o h).0 (subst (λ t. o'.status ⟶* t) back (apply_marks-⟶* ms o'))
