-- ===== src/Cache/Seeded.antt =====
-- The counts of the ticket types on sale after internal/infrastructure/cache/rehydrate.go.
use booking_monitor.Prelude.{
  ℕ, suc, ◌≡◌, ◌≢◌, ◌⊎◌, inl, inr, refl, ap, ◌∙◌, sym, subst, true, Option, some, List, [], ◌∷◌,
  Memᴰ, not, order_by_desc, order_by, select, arith, ◌==◌,
}
use booking_monitor.Prelude.Int.{ℤ, nonpositive}
use booking_monitor.Domain.Errors.{Error, Result, ok, err}
use booking_monitor.Domain.Event.{Event}
use booking_monitor.Domain.TicketType.{TicketType}
use booking_monitor.Store.Db.{Db, Stmt, ticket_type_key, select_ticket_types, select_available}
use booking_monitor.Store.Redis.{Redis, Metadata}
use booking_monitor.Store.Exec.{
  Outcome, done, refused, cancelled, lost, settle, Schedule, World, attempt, of_result, ◌>>=◌, pool,
  exec, ask,
}
use booking_monitor.Store.Triples.{
  Pre, Post, Triple, Triple-run_script, Triple-bind, Triple-weaken, Triple-pure,
}
use booking_monitor.Store.TicketTypes.{list_by_event_id}
use booking_monitor.Store.Events.{list_available}
use booking_monitor.Cache.Deduct.{Formats}
use booking_monitor.Cache.Inventory.{metadata_of, set_metadata, set_ticket_type_metadata}
use booking_monitor.Relay.{Lock}
use booking_monitor.Cache.Rehydrate.{
  set_if_missing, set_nx, seed_one, seed_types, seed_events, rehydrate_body, rehydrate_inventory,
}
use booking_monitor.Cache.Keeps.{
  IsStable, expire-Holds, already_there-Holds, seed_one-Holds, seed_types-Holds,
}
use booking_monitor.Cache.Seeds.{
  first, Known, set_if_missing-other, set_if_missing-first, set_if_missing-metadata,
  set_metadata-same, set_metadata-Known,
}
use booking_monitor.Cache.Unwritten.{IsCounted, set_if_missing-IsCounted}

-- The rows that the two lists of the rehydration have.
abbrev pub events_on_sale : Db → List Event
events_on_sale d =
    order_by_desc (λ (e : Event). e.id)
      (select (λ (e : Event). not (nonpositive e.available_tickets)) d.events)

abbrev pub types_of : ℕ → Db → List TicketType
types_of event_id d = order_by ticket_type_key (select (λ t. t.event_id == event_id) d.ticket_types)

-- The keys of a ticket type after the rehydration.
pub record IsSeeded (fmt : Formats) (t : TicketType) (before after : Redis) : Type 0 where
  pub count : after.quantity t.id ≡ some (first t.available_tickets (before.quantity t.id))
  pub metadata : after.metadata t.id ≡ metadata_of fmt t

module _ (s : Schedule) (fmt : Formats) (d0 : Db) (still : (n : ℕ) → (s n).interferes d0 ≡ d0)
    (t : TicketType) (known : (y : TicketType) (k : ℕ) → Memᴰ y (types_of k d0) → Known t y)
    (q0 : Option ℤ)
    (counts : (n : ℕ) (c : Redis) → ((s n).interferes_cache c).quantity t.id ≡ c.quantity t.id)
    (metas : (n : ℕ) (c : Redis) → ((s n).interferes_cache c).metadata t.id ≡ c.metadata t.id) where
  Final : Redis → Type 0
  Final c = IsCounted t.id (first t.available_tickets q0) c

  Begun : Redis → Type 0
  Begun c = (c.quantity t.id ≡ q0) ⊎ Final c

  Begun-others : (n : ℕ) (c : Redis) → Begun c → Begun ((s n).interferes_cache c)
  unfolding Begun Final
  Begun-others n c (inl h) = inl (counts n c ∙ h)
  Begun-others n c (inr h) = inr (counts n c ∙ h)

  seeding-Final :
      (c : Redis) → Begun c → Final (set_if_missing t.id t.available_tickets (c.quantity t.id) c).1
  unfolding Begun Final
  seeding-Final c (inl h) = set_if_missing-first t.id t.available_tickets c q0 h
  seeding-Final c (inr h) = set_if_missing-IsCounted t.id t.id _ t.available_tickets c h

  seeding-Begun :
      (y : TicketType)
      → Known t y
      → (c : Redis) → Begun c
      → Begun (set_if_missing y.id y.available_tickets (c.quantity y.id) c).1
  unfolding Begun Final
  seeding-Begun y (inr same) c h =
      subst
        (λ (x : TicketType). Begun (set_if_missing x.id x.available_tickets (c.quantity x.id) c).1)
        (sym same) (inr (seeding-Final c h))
  seeding-Begun y (inl ne) c (inl h) =
      inl (set_if_missing-other t.id y.id y.available_tickets c (λ e. ne (sym e)) ∙ h)
  seeding-Begun y (inl ne) c (inr h) =
      inr (set_if_missing-IsCounted t.id y.id _ y.available_tickets c h)

  abbrev IsTold : Redis → Type 0
  IsTold c = c.metadata t.id ≡ metadata_of fmt t

  seeding-IsTold :
      (y : TicketType) (c : Redis)
      → IsTold c
      → IsTold (set_if_missing y.id y.available_tickets (c.quantity y.id) c).1
  seeding-IsTold y c h =
      ap (λ (m : ℕ → Metadata). m t.id) (set_if_missing-metadata y.id _ (c.quantity y.id) c) ∙ h

  abbrev Start : Pre
  Start c d = (d ≡ d0) × Begun c

  abbrev Told : Pre
  Told c d = (d ≡ d0) × (Begun c × IsTold c)

  abbrev Stands : Pre
  Stands c d = (d ≡ d0) × (Final c × IsTold c)

  set_metadata-Begun : (y : TicketType) (c : Redis) → Begun c → Begun (set_metadata fmt y c)
  unfolding set_metadata Begun Final
  set_metadata-Begun y c h = h

  Start-IsStable : IsStable s fmt (Known t) Start
  Start-IsStable = record {
    cache = λ n c d p. (p.0, Begun-others n c p.1);
    tables = λ n c d p. (rw p.0 (still n), p.1);
    metadata = λ y row c d p. (p.0, set_metadata-Begun y c p.1);
    seeding = λ y row c d p. (p.0, seeding-Begun y row c p.1);
  }

  Told-IsStable : IsStable s fmt (Known t) Told
  Told-IsStable = record {
    cache = λ n c d p. (p.0, (Begun-others n c p.1.0, metas n c ∙ p.1.1));
    tables = λ n c d p. (rw p.0 (still n), p.1);
    metadata = λ y row c d p.
        (p.0, (set_metadata-Begun y c p.1.0, set_metadata-Known fmt t y row c p.1.1));
    seeding = λ y row c d p. (p.0, (seeding-Begun y row c p.1.0, seeding-IsTold y c p.1.1));
  }

  set_metadata-Final : (y : TicketType) (c : Redis) → Final c → Final (set_metadata fmt y c)
  unfolding set_metadata Final
  set_metadata-Final y c h = h

  seeding_kept :
      (y : TicketType) (c : Redis)
      → Final c
      → Final (set_if_missing y.id y.available_tickets (c.quantity y.id) c).1
  unfolding Final
  seeding_kept y c h = set_if_missing-IsCounted t.id y.id _ y.available_tickets c h

  Final-others : (n : ℕ) (c : Redis) → Final c → Final ((s n).interferes_cache c)
  unfolding Final
  Final-others n c h = counts n c ∙ h

  Stands-IsStable : IsStable s fmt (Known t) Stands
  Stands-IsStable = record {
    cache = λ n c d p. (p.0, (Final-others n c p.1.0, metas n c ∙ p.1.1));
    tables = λ n c d p. (rw p.0 (still n), p.1);
    metadata = λ y row c d p.
        (p.0, (set_metadata-Final y c p.1.0, set_metadata-Known fmt t y row c p.1.1));
    seeding = λ y row c d p. (p.0, (seeding_kept y c p.1.0, seeding-IsTold y c p.1.1));
  }

  -- Where the step has succeeded, `P` holds.
  abbrev Ends : {A : Type 0} → Pre → Post A
  Ends {A} P r c d = (d ≡ d0) × ((a : A) → r ≡ ok a → P c d)

  failed :
      {A : Type 0} (P : Pre) (e : Error) (c : Redis) (d : Db) → d ≡ d0 → Ends {A = A} P (err e) c d
  failed P e c d p = (p, λ a h. absurd cc)

  stood : {A : Type 0} (r : Result A) (c : Redis) (d : Db) → Stands c d → Ends Stands r c d
  stood r c d p = (p.0, λ a h. p)

  metadata-Ends : Triple s Start (set_ticket_type_metadata fmt t) (Ends Told)
  unfolding set_ticket_type_metadata
  metadata-Ends =
      Triple-run_script _ Start-IsStable.cache
        (λ c d p. (p.0, λ a h. (p.0, (set_metadata-Begun t c p.1, set_metadata-same fmt t c))))
        (λ e c d p. (p.0, λ a h. absurd cc)) (λ e c d p. (p.0, λ a h. absurd cc))

  set_nx-Ends : Triple s Told (set_nx t.id t.available_tickets) (Ends Stands)
  unfolding set_nx
  set_nx-Ends =
      Triple-run_script _ Told-IsStable.cache
        (λ c d p. (p.0, λ a h. (p.0, (seeding-Final c p.1.0, seeding-IsTold t c p.1.1))))
        (λ e c d p. (p.0, λ a h. absurd cc)) (λ e c d p. (p.0, λ a h. absurd cc))

  seed_one-Ends : Triple s Start (seed_one fmt t) (Ends Stands)
  unfolding seed_one
  seed_one-Ends =
      Triple-bind metadata-Ends
        (λ u.
          Triple-weaken (λ c d p. p.1 u refl) (λ r c d p. p)
            (Triple-bind (expire-Holds s fmt (Known t) Told Told-IsStable)
              (λ v.
                Triple-bind set_nx-Ends
                  (λ b.
                    Triple-weaken (λ c d p. p.1 b refl) stood
                      (already_there-Holds s fmt (Known t) Stands Stands-IsStable t b))
                  (λ e c d p. failed Stands e c d p.0))
              (λ e c d p. failed Stands e c d p.0)))
        (λ e c d p. failed Stands e c d p.0)

  seed_types-Ends :
      (ts : List TicketType)
      → ((y : TicketType) → Memᴰ y ts → Known t y)
      → Memᴰ t ts
      → Triple s Start (seed_types fmt ts) (Ends Stands)
  unfolding seed_types
  seed_types-Ends [] rows m = elim m [ ]
  seed_types-Ends (x ∷ ts) rows (Memᴰ.head same) =
      subst (λ (y : TicketType). Triple s Start (seed_types fmt (y ∷ ts)) (Ends Stands)) same
        (Triple-bind seed_one-Ends
          (λ u.
            Triple-weaken (λ c d p. p.1 u refl) stood
              (seed_types-Holds s fmt (Known t) Stands Stands-IsStable ts
                (λ y k. rows y (Memᴰ.tail k))))
          (λ e c d p. failed Stands e c d p.0))
  seed_types-Ends (x ∷ ts) rows (Memᴰ.tail m) =
      Triple-bind (seed_one-Holds s fmt (Known t) Start Start-IsStable x (rows x (Memᴰ.head refl)))
        (λ u. seed_types-Ends ts (λ y k. rows y (Memᴰ.tail k)) m)
        (λ e c d p. failed Stands e c d p.0)

  -- A list is read from the tables as they are.
  Reads : {A : Type 0} → Stmt A → A → Type 0
  Reads q a = (now : ℕ) → q now d0 ≡ (ok a, d0)

  exec-Reads :
      {A : Type 0} (X : Redis → Type 0) (q : Stmt A) (a : A)
      → Reads q a
      → Triple s
          (λ c d. (d ≡ d0) × X c)
          (exec pool q)
          (λ r c d. ((d ≡ d0) × X c) × ((b : A) → r ≡ ok b → b ≡ a))
  unfolding exec Reads
  exec-Reads {A = A} X q a reads = record {
    at = λ w p.
        rw (p.0, still w.tick, reads (s w.tick).db_now)
          (let (same, answer) = answered (s w.tick).outcome in ((same, p.1), answer));
  }
    where
      answered :
          (o : Outcome)
          → let p = settle o d0 (ok a, d0) in (p.1 ≡ d0) × ((b : A) → p.0 ≡ ok b → b ≡ a)
      answered done = (refl, λ b h. ground arith)
      answered refused = (refl, λ b h. absurd cc)
      answered cancelled = (refl, λ b h. absurd cc)
      answered lost = (refl, λ b h. absurd cc)

  all_known :
      (k : ℕ) (ts : List TicketType) → ts ≡ types_of k d0 → (y : TicketType) → Memᴰ y ts → Known t y
  all_known k ts same y m = known y k (subst (Memᴰ y) same m)

  -- An event before or after that of the ticket type.
  other_event :
      (X : Redis → Type 0)
      → IsStable s fmt (Known t) (λ c d. (d ≡ d0) × X c)
      → (e : Event)
      → Triple s
          (λ c d. (d ≡ d0) × X c)
          (list_by_event_id pool e.id >>= seed_types fmt)
          (λ r c d. (d ≡ d0) × X c)
  unfolding list_by_event_id select_ticket_types Reads
  other_event X stable e =
      Triple-bind (exec-Reads X (select_ticket_types e.id) (types_of e.id d0) (λ now. refl))
        (λ ts. record {
          at = λ w p.
              (seed_types-Holds s fmt (Known t) (λ c d. (d ≡ d0) × X c) stable ts
                  (all_known e.id ts (p.1 ts refl))).at
                w p.0;
        })
        (λ x c d p. p.0)

  other_events :
      (X : Redis → Type 0)
      → IsStable s fmt (Known t) (λ c d. (d ≡ d0) × X c)
      → (es : List Event)
      → Triple s (λ c d. (d ≡ d0) × X c) (seed_events fmt es) (λ r c d. (d ≡ d0) × X c)
  unfolding seed_events
  other_events X stable [] = Triple-pure tt (λ c d p. p)
  other_events X stable (e ∷ es) =
      Triple-bind (other_event X stable e) (λ u. other_events X stable es) (λ x c d p. p)

  own_event :
      (e : Event)
      → Memᴰ t (types_of e.id d0)
      → Triple s Start (list_by_event_id pool e.id >>= seed_types fmt) (Ends Stands)
  unfolding list_by_event_id select_ticket_types Reads
  own_event e m =
      Triple-bind (exec-Reads Begun (select_ticket_types e.id) (types_of e.id d0) (λ now. refl))
        (λ ts. record {
          at = λ w p.
              (seed_types-Ends ts (all_known e.id ts (p.1 ts refl))
                  (subst (Memᴰ t) (sym (p.1 ts refl)) m)).at
                w p.0;
        })
        (λ x c d p. failed Stands x c d p.0.0)

  seed_events-Ends :
      (e : Event) (es : List Event)
      → Memᴰ e es
      → Memᴰ t (types_of e.id d0)
      → Triple s Start (seed_events fmt es) (Ends Stands)
  unfolding seed_events
  seed_events-Ends e [] m k = elim m [ ]
  seed_events-Ends e (x ∷ es) (Memᴰ.head same) k =
      Triple-bind (own_event x (subst (λ (y : Event). Memᴰ t (types_of y.id d0)) same k))
        (λ u.
          Triple-weaken (λ c d p. p.1 u refl) stood
            (other_events (λ c. Final c × IsTold c) Stands-IsStable es))
        (λ y c d p. failed Stands y c d p.0)
  seed_events-Ends e (x ∷ es) (Memᴰ.tail m) k =
      Triple-bind (other_event Begun Start-IsStable x) (λ u. seed_events-Ends e es m k)
        (λ y c d p. failed Stands y c d p.0)

  rehydrate_body-Ends :
      (e : Event)
      → Memᴰ e (events_on_sale d0)
      → Memᴰ t (types_of e.id d0)
      → Triple s Start (rehydrate_body fmt) (Ends Stands)
  unfolding rehydrate_body list_available select_available Reads
  rehydrate_body-Ends e m k =
      Triple-bind (exec-Reads Begun select_available (events_on_sale d0) (λ now. refl))
        (λ es. record {
          at = λ w p. (seed_events-Ends e es (subst (Memᴰ e) (sym (p.1 es refl)) m) k).at w p.0;
        })
        (λ x c d p. failed Stands x c d p.0.0)

-- After a start every ticket type on sale can be booked: where the rehydration has the lock and reports
-- success, a ticket type of an event with tickets left has its metadata in Redis and a count, the one
-- that was there or else the tickets that its row has left. The other processes leave the tables and
-- the keys of the ticket type as they are, and no other row has its id.
pub rehydrate_inventory-IsSeeded :
    (lock : Lock) (fmt : Formats) (s : Schedule) (w : World) (t : TicketType)
    → ((n : ℕ) → (s n).interferes w.db ≡ w.db)
    → ((n : ℕ) (c : Redis) → ((s n).interferes_cache c).quantity t.id ≡ c.quantity t.id)
    → ((n : ℕ) (c : Redis) → ((s n).interferes_cache c).metadata t.id ≡ c.metadata t.id)
    → ((y : TicketType) (k : ℕ) → Memᴰ y (types_of k w.db) → (y.id ≢ t.id) ⊎ (y ≡ t))
    → lock.try_lock w.tick ≡ ok true
    → (rehydrate_inventory lock fmt s w).0 ≡ ok tt
    → (e : Event) → Memᴰ e (events_on_sale w.db)
    → Memᴰ t (types_of e.id w.db)
    → IsSeeded fmt t w.cache (rehydrate_inventory lock fmt s w).1.cache
unfolding rehydrate_inventory ask attempt of_result ◌>>=◌ Final Begun
rehydrate_inventory-IsSeeded lock fmt s w t still counts metas known leads h e m k =
    let w1 : World = record w { tick = suc w.tick } in
    let ends =
      (rehydrate_body-Ends s fmt w.db still t known (w.cache.quantity t.id) counts metas e m k).at
        w1 (refl, inl refl) in
    let (same, (count, told)) = ends.1 tt (rw leads at h) in
    rw leads (record { count = count; metadata = told })
