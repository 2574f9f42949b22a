-- ===== src/EventService/Rows.antt =====
-- What the two units of work of internal/application/event/service.go do to the tables.
use booking_monitor.Prelude.{
  ℕ, Option, ◌≡◌, refl, sym, ap, subst, Option-cases, ◌∙◌, ◌⊎◌, inl, inr, none, List, [], ◌∷◌, find,
  select, not, ◌==◌, arith,
}
use booking_monitor.Domain.Errors.{Error, Result, ok, err, infra, ticket_type_name_taken}
use booking_monitor.Domain.Event.{Event}
use booking_monitor.Domain.TicketType.{TicketType}
use booking_monitor.Store.Db.{
  Db, event_key, ticket_type_key, find_event, find_ticket_type, is_taken, insert_event,
  insert_ticket_type, delete_event, delete_ticket_type,
}
use booking_monitor.Store.Exec.{Schedule, World, M, tx, do_uow}
use booking_monitor.Store.Atomicity.{opened, do_uow_atomic, do_uow-ok}
use booking_monitor.Store.Yields.{Yields, Yields-weaken, Yields-pure, Yields-exec, Yields-bind}
use booking_monitor.Store.TicketTypes.{create_ticket_type, remove_ticket_type}
use booking_monitor.Store.Events.{create_event_row, delete_event_row}
use booking_monitor.EventService.{create_body, dangling_body, compensate_dangling_event}

-- Both rows are the newest of their tables.
abbrev pub BothAdded : Event → TicketType → Db → Db → Type 0
BothAdded e t d d' = d' ≡ record d { events = e ∷ d.events; ticket_types = t ∷ d.ticket_types }

insert_event-row :
    (e : Event) (now : ℕ) (d d' : Db)
    → insert_event e now d ≡ (ok tt, d')
    → d' ≡ record d { events = e ∷ d.events }
unfolding insert_event
insert_event-row e now d d' h = elim (Option-cases (find_event e.id d)) [
  | inl free ↦
      let run : insert_event e now d ≡ (ok tt, record d { events = e ∷ d.events }) =
        rw (insert_event, free) refl in
      sym (ap (λ (p : Result (Unit {0}) × Db). p.1) h)
      ∙ ap (λ (p : Result (Unit {0}) × Db). p.1) run
  | inr (other, found) ↦
      let run : insert_event e now d ≡ (err infra, d) = rw (insert_event, found) refl in absurd cc
]

insert_ticket_type-row :
    (t : TicketType) (now : ℕ) (d d' : Db)
    → insert_ticket_type t now d ≡ (ok tt, d')
    → d' ≡ record d { ticket_types = t ∷ d.ticket_types }
unfolding insert_ticket_type
insert_ticket_type-row t now d d' h = elim (List-cases (select (is_taken t) d.ticket_types)) [
  | inl free ↦
      let run : insert_ticket_type t now d
          ≡ (ok tt, record d { ticket_types = t ∷ d.ticket_types }) =
        rw (insert_ticket_type, free) refl in
      sym (ap (λ (p : Result (Unit {0}) × Db). p.1) h)
      ∙ ap (λ (p : Result (Unit {0}) × Db). p.1) run
  | inr (u, us, taken) ↦
      let run : insert_ticket_type t now d ≡ (err ticket_type_name_taken, d) =
        rw (insert_ticket_type, taken) refl in
      absurd cc
]
  where
    List-cases :
        (xs : List TicketType)
        → (xs ≡ []) ⊎ ((x : TicketType) × (rest : List TicketType) × (xs ≡ x ∷ rest))
    List-cases [] = inl refl
    List-cases (x ∷ rest) = inr (x, rest, refl)

create_event_row-Yields :
    (e : Event)
    → Yields (create_event_row tx e) (λ a d d'. (a ≡ e) × (d' ≡ record d { events = e ∷ d.events }))
unfolding create_event_row
create_event_row-Yields e =
    Yields-weaken (Yields-bind (Yields-exec (insert_event e)) (λ u. Yields-pure e)) (λ a d d' h.
      let (u, e', row, last) = h in (last.0, last.1 ∙ insert_event-row e row.0 d e' row.1))

create_ticket_type-Yields :
    (t : TicketType)
    → Yields
        (create_ticket_type tx t)
        (λ a d d'. (a ≡ t) × (d' ≡ record d { ticket_types = t ∷ d.ticket_types }))
unfolding create_ticket_type
create_ticket_type-Yields t =
    Yields-weaken (Yields-bind (Yields-exec (insert_ticket_type t)) (λ u. Yields-pure t))
      (λ a d d' h.
        let (u, e', row, last) = h in (last.0, last.1 ∙ insert_ticket_type-row t row.0 d e' row.1))

with_type : TicketType → Db → Db
with_type t d = record d { ticket_types = t ∷ d.ticket_types }

pub create_body-Yields :
    (e : Event) (t : TicketType)
    → Yields (create_body e t) (λ p d d'. (p ≡ (e, t)) × BothAdded e t d d')
unfolding create_body with_type
create_body-Yields e t =
    Yields-weaken
      (Yields-bind (create_event_row-Yields e)
        (λ a. Yields-bind (create_ticket_type-Yields t) (λ b. Yields-pure (a, b))))
      (λ p d d' h.
        let (a, d1, added, rest) = h in
        let (b, d2, also, last) = rest in
        (
          last.0 ∙ ap (λ x. (x, b)) added.0 ∙ ap (λ y. (e, y)) also.0,
          last.1 ∙ also.1 ∙ ap (with_type t) added.1,
        ))

-- No event is left without its ticket type: whatever fails, the unit of work of the creation adds
-- both rows, or leaves the tables as it found them.
pub create_uow-BothAdded :
    (e : Event) (t : TicketType) (s : Schedule) (w : World)
    → let d = (do_uow (create_body e t) s w).1.db in
      (d ≡ (opened s w).db) ⊎ BothAdded e t (opened s w).db d
create_uow-BothAdded e t s w = elim (do_uow_atomic (create_body e t) s w) [
  | inl undone ↦ inl undone
  | inr (a, succeeded, same_db) ↦
      inr (same_db ∙ ((create_body-Yields e t).at s (opened s w) a succeeded).1)
]

find-select-none :
    {A : Type 0} (key : A → ℕ) (id : ℕ) (xs : List A)
    → find key id (select (λ x. not (key x == id)) xs) ≡ none
unfolding find select
find-select-none key id [] = refl
find-select-none key id (x ∷ xs) = ground (arith, find-select-none key id xs)

-- Neither row is there.
abbrev pub NeitherThere : ℕ → ℕ → Db → Type 0
NeitherThere event_id ticket_type_id d =
    (find_event event_id d ≡ none) × (find_ticket_type ticket_type_id d ≡ none)

dangling_body-Yields : (k j : ℕ) → Yields (dangling_body k j) (λ _ d d'. NeitherThere k j d')
unfolding dangling_body remove_ticket_type delete_event_row delete_event delete_ticket_type
    find_event find_ticket_type
dangling_body-Yields k j =
    Yields-weaken
      (Yields-bind (Yields-exec (delete_ticket_type j)) (λ u. Yields-exec (delete_event k)))
      (λ _ d d' h.
        let (u, d1, types, events) = h in
        let without : (p : Result (Unit {0}) × Db) → Option TicketType =
          λ p. find_ticket_type j p.1 in
        let event_of : (p : Result (Unit {0}) × Db) → Option Event = λ p. find_event k p.1 in
        (
          sym (ap event_of events.1) ∙ find-select-none event_key k d1.events,
          sym (ap without events.1)
              ∙ sym (ap without types.1)
              ∙ find-select-none ticket_type_key j d.ticket_types,
        ))

-- A creation is undone as a whole: whatever fails, the compensation reports an error and leaves the
-- tables as it found them, or neither the event nor its ticket type is there.
pub compensate_dangling_event-NeitherThere :
    (event_id ticket_type_id : ℕ) (s : Schedule) (w : World)
    → let (r, w') = compensate_dangling_event event_id ticket_type_id s w in
      (((x : Error) × (r ≡ err x)) × (w'.db ≡ (opened s w).db))
      ⊎ NeitherThere event_id ticket_type_id w'.db
unfolding compensate_dangling_event
compensate_dangling_event-NeitherThere k j s w = reported (do_uow body s w).0 refl
  where
    body : M (Unit {0})
    body = dangling_body k j

    gone :
        (d : Db) (a : Unit {0})
        → (body s (opened s w)).0 ≡ ok a
        → d ≡ (body s (opened s w)).1.db
        → NeitherThere k j d
    gone d a h same =
        subst (λ x. NeitherThere k j x) (sym same)
          ((dangling_body-Yields k j).at s (opened s w) a h)

    reported :
        (r : Result (Unit {0}))
        → (do_uow body s w).0 ≡ r
        → (((x : Error) × ((do_uow body s w).0 ≡ err x))
            × ((do_uow body s w).1.db ≡ (opened s w).db))
          ⊎ NeitherThere k j (do_uow body s w).1.db
    reported (ok _) h = let (h', same) = do_uow-ok body s w tt h in inr (gone _ tt h' same)
    reported (err x) h = elim (do_uow_atomic body s w) [
      | inl undone ↦ inl ((x, h), undone)
      | inr (a, h', same) ↦ inr (gone _ a h' same)
    ]
