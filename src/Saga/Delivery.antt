-- ===== src/Saga/Delivery.antt =====
-- A delivery to `HandleOrderFailed` of internal/application/saga/compensator.go and the books of the
-- tickets, among other processes.
use booking_monitor.Prelude.{◌≡◌, sym, ap, subst, ◌∙◌, Option, none, some, arith}
use booking_monitor.Application.Events.{OrderFailedEvent}
use booking_monitor.Store.Db.{Db, find_order}
use booking_monitor.Store.Exec.{Schedule, World}
use booking_monitor.Store.Keeps.{Preorder, Obeys, Keeps, Achieves}
use booking_monitor.Store.Evolves.{Evolves, Evolves-Preorder, find_order-id}
use booking_monitor.Store.Calls.{Laws}
use booking_monitor.Store.Calls.Bookings.{Evolves-Laws}
use booking_monitor.Store.Stock.{Conserves}
use booking_monitor.Store.Conservation.{Conserves-Preorder, Conserves-Laws}
use booking_monitor.Saga.Compensator
use booking_monitor.Saga.Evolution.{compensation_body-Keeps, handle_order_failed-Keeps}
use booking_monitor.Saga.Conservation.{Recorded, compensation_body-Yields}

-- An event that is recorded stays so while the orders evolve.
Recorded-Evolves :
    (ev : OrderFailedEvent) (d d' : Db) → Evolves d d' → Recorded ev d → Recorded ev d'
Recorded-Evolves ev d d' f rec =
    let later = f ev.order_id rec.order rec.stored in
    record {
      order = later.row;
      stored =
          ap (λ k. find_order k d') (sym (find_order-id ev.order_id d rec.order rec.stored))
          ∙ later.found;
      holds_type = later.booking.same_ticket_type ∙ rec.holds_type;
      holds_quantity = later.booking.same_quantity ∙ rec.holds_quantity;
      names_type = rec.names_type;
    }

-- The orders evolve, and the balance is kept.
abbrev pub Honest : Db → Db → Type 0
Honest d d' = Evolves d d' × Conserves d d'

pub Honest-Preorder : Preorder Honest
Honest-Preorder = record {
  reflexive = λ d. (Evolves-Preorder.reflexive d, Conserves-Preorder.reflexive d);
  transitive = λ a b c h k.
      (Evolves-Preorder.transitive a b c h.0 k.0, Conserves-Preorder.transitive a b c h.1 k.1);
}

pub Honest-Laws : Laws Honest
Honest-Laws = record {
  order = Honest-Preorder;
  untouched = λ d d' h k. (Evolves-Laws.untouched d d' h k, Conserves-Laws.untouched d d' h k);
  expires = λ id n d. (Evolves-Laws.expires id n d, Conserves-Laws.expires id n d);
  declines = λ id n d. (Evolves-Laws.declines id n d, Conserves-Laws.declines id n d);
  fails = λ id n d. (Evolves-Laws.fails id n d, Conserves-Laws.fails id n d);
  confirms = λ id n d. (Evolves-Laws.confirms id n d, Conserves-Laws.confirms id n d);
  pays = λ id n d. (Evolves-Laws.pays id n d, Conserves-Laws.pays id n d);
  intends = λ id i n d. (Evolves-Laws.intends id i n d, Conserves-Laws.intends id i n d);
}

-- The same, as far as the balance goes only where the event is recorded.
abbrev Keeping : OrderFailedEvent → Db → Db → Type 0
Keeping ev d d' = Evolves d d' × (Recorded ev d → Conserves d d')

Keeping-Honest : (ev : OrderFailedEvent) (d d' : Db) → Honest d d' → Keeping ev d d'
Keeping-Honest ev d d' h = (h.0, λ rec. h.1)

Keeping-Laws : (ev : OrderFailedEvent) → Laws (Keeping ev)
Keeping-Laws ev = record {
  order = record {
    reflexive = λ d. Keeping-Honest ev d d (Honest-Preorder.reflexive d);
    transitive = λ a b c f g. (
      Evolves-Preorder.transitive a b c f.0 g.0,
      λ rec. Conserves-Preorder.transitive a b c (f.1 rec) (g.1 (Recorded-Evolves ev a b f.0 rec)),
    );
  };
  untouched = λ d d' h k. Keeping-Honest ev d d' (Honest-Laws.untouched d d' h k);
  expires = λ id n d. Keeping-Honest ev d _ (Honest-Laws.expires id n d);
  declines = λ id n d. Keeping-Honest ev d _ (Honest-Laws.declines id n d);
  fails = λ id n d. Keeping-Honest ev d _ (Honest-Laws.fails id n d);
  confirms = λ id n d. Keeping-Honest ev d _ (Honest-Laws.confirms id n d);
  pays = λ id n d. Keeping-Honest ev d _ (Honest-Laws.pays id n d);
  intends = λ id i n d. Keeping-Honest ev d _ (Honest-Laws.intends id i n d);
}

body-Achieves : (ev : OrderFailedEvent) → Achieves (Keeping ev) (Compensator.compensation_body ev)
body-Achieves ev = record {
  at = λ s o w a e. (
    (compensation_body-Keeps ev).at s (λ n d. (o n d).0) w,
    λ rec. (compensation_body-Yields ev rec.names_type).at s w a e rec,
  );
}

delivery-Keeps :
    (ev : OrderFailedEvent) → Keeps (Keeping ev) (Compensator.handle_order_failed (some ev))
delivery-Keeps ev = handle_order_failed-Keeps (Keeping-Laws ev) (some ev) (λ ev' e.
    subst (λ x. Achieves (Keeping ev) (Compensator.compensation_body x)) (some_inj e)
      (body-Achieves ev))
  where
    some_inj : {a b : OrderFailedEvent} → some a ≡ some b → a ≡ b
    some_inj h = ground arith

-- The message is malformed, or its event is recorded.
abbrev pub Genuine : Option OrderFailedEvent → Db → Type 0
Genuine none d = Unit {0}
Genuine (some ev) d = Recorded ev d

pub delivery-Honest :
    (p : Option OrderFailedEvent) (s : Schedule)
    → Obeys Honest s
    → (w : World) → Genuine p w.db
    → Honest w.db (Compensator.handle_order_failed p s w).1.db
delivery-Honest none s o w g =
    (handle_order_failed-Keeps Honest-Laws none (λ ev e. absurd cc)).at s o w
delivery-Honest (some ev) s o w g =
    let kept = (delivery-Keeps ev).at s (λ n d. Keeping-Honest ev d _ (o n d)) w in
    (kept.0, kept.1 g)
