-- ===== src/Relay/Publication.antt =====
-- What internal/application/outbox/relay.go marks as processed.
use booking_monitor.Prelude.{
  ℕ, zero, suc, ◌≡◌, refl, ◌≢◌, inl, inr, Bool, true, false, none, some, List, [], ◌∷◌, find,
  find-update_ne, arith, ◌==◌, ==_iff, Bool-cases, ◌∙◌, if◌then◌else◌,
}
use booking_monitor.Domain.Errors.{Result, ok, err, context_done}
use booking_monitor.Application.Events.{OutboxEvent}
use booking_monitor.Store.Db.{Db, outbox_key, select_pending, mark_processed_stmt}
use booking_monitor.Store.Exec.{
  Schedule, World, M, ◌>>=◌, ◌>>◌, attempt, raise, ask, pool, is_cancelled,
}
use booking_monitor.Store.Keeps.{
  Preorder, Keeps, Obeys, Keeps-exec, Keeps-bind, Keeps-pure, Keeps-is_cancelled,
}
use booking_monitor.Store.Calls.{keeps_rules}
use booking_monitor.Store.Outbox.{list_pending, mark_processed}
use booking_monitor.Relay.{
  Publisher, Lock, published, relay_one, relay_all, process_batch, release, tick_result, run_ticks,
}

-- The outbox has a row with the id, and the first one waits for its publication.
abbrev pub IsWaiting : ℕ → Db → Type 0
IsWaiting k d = (e : OutboxEvent) × (find outbox_key k d.outbox ≡ some e) × (e.processed_at ≡ none)

abbrev pub Waits : ℕ → Db → Db → Type 0
Waits k d d' = IsWaiting k d → IsWaiting k d'

pub Waits-Preorder : (k : ℕ) → Preorder (Waits k)
Waits-Preorder k = record { reflexive = λ d h. h; transitive = λ a b c f g h. g (f h) }

-- The broker never takes an event with the id.
abbrev pub Refuses : Publisher → ℕ → Type 0
Refuses publisher k = (e : OutboxEvent) (n : ℕ) → e.id ≡ k → publisher e n ≢ ok tt

mark_processed-Waits :
    (k j : ℕ) → k ≢ j → (now : ℕ) (d : Db) → Waits k d (mark_processed_stmt j now d).1
unfolding mark_processed_stmt
mark_processed-Waits k j ne now d (e, found, unmarked) =
    (e, find-update_ne outbox_key k j _ d.outbox (λ a. refl) ne ∙ found, unmarked)

module _ (publisher : Publisher) (k : ℕ) (refuses : Refuses publisher k) where
  marked : (j : ℕ) → k ≢ j → Keeps (Waits k) (mark_processed pool j)
  unfolding mark_processed
  marked j ne = Keeps-exec (Waits-Preorder k) pool _ (mark_processed-Waits k j ne)

  published-Keeps :
      (e : OutboxEvent) (n : ℕ) (r : Result (Unit {0}))
      → publisher e n ≡ r
      → Keeps (Waits k) (published e r)
  unfolding published
  published-Keeps e n (err x) h = Keeps-pure (Waits-Preorder k) tt
  published-Keeps e n (ok _) h = elim (Bool-cases (e.id == k)) [
    | inl same ↦ absurd (refuses e n ((==_iff e.id k).0 same) h)
    | inr other ↦ search (keeps_rules, Waits-Preorder, marked, apart e.id other)
  ]
    where
      apart : (j : ℕ) → (j == k) ≡ false → k ≢ j
      apart j h = ground arith

  relay_one-Keeps : (e : OutboxEvent) → Keeps (Waits k) (relay_one publisher e)
  unfolding relay_one attempt ask ◌>>=◌
  relay_one-Keeps e = record {
    at = λ s o w.
        (published-Keeps e w.tick (publisher e w.tick) refl).at s o
          (record w { tick = suc w.tick });
  }

  stop_or :
      (stop : Bool) (m : M (Unit {0}))
      → Keeps (Waits k) m
      → Keeps (Waits k) (if stop then raise context_done else m)
  stop_or true m h = search (keeps_rules, Waits-Preorder)
  stop_or false m h = h

  relay_all-Keeps : (es : List OutboxEvent) → Keeps (Waits k) (relay_all publisher es)
  unfolding relay_all
  relay_all-Keeps [] = Keeps-pure (Waits-Preorder k) tt
  relay_all-Keeps (e ∷ es) =
      let rest : Keeps (Waits k) (relay_one publisher e >> relay_all publisher es) =
        Keeps-bind (Waits-Preorder k) _ _ (relay_one-Keeps e) (λ u. relay_all-Keeps es) in
      Keeps-bind (Waits-Preorder k) is_cancelled _ (Keeps-is_cancelled (Waits-Preorder k))
        (λ stop. stop_or stop _ rest)

  process_batch-Keeps : (size : ℕ) → Keeps (Waits k) (process_batch publisher size)
  unfolding process_batch list_pending select_pending
  process_batch-Keeps size =
      Keeps-bind (Waits-Preorder k) _ _ (Keeps-exec (Waits-Preorder k) pool _ (λ now d h. h))
        relay_all-Keeps

  module _ (lock : Lock) (size : ℕ) where
    release-Keeps : (b : Bool) → Keeps (Waits k) (release lock b)
    unfolding release
    release-Keeps true = search (keeps_rules, Waits-Preorder)
    release-Keeps false = search (keeps_rules, Waits-Preorder)

    tick_result-Keeps :
        (b : Bool) (r : Result Bool)
        → Keeps (Waits k) (tick_result (process_batch publisher size) b r)
    unfolding tick_result
    tick_result-Keeps b (ok true) = search (keeps_rules, Waits-Preorder, process_batch-Keeps)
    tick_result-Keeps b (ok false) = search (keeps_rules, Waits-Preorder)
    tick_result-Keeps b (err x) = search (keeps_rules, Waits-Preorder)

    if_Keeps :
        (b : Bool) (m n : M (Unit {0}))
        → Keeps (Waits k) m
        → Keeps (Waits k) n
        → Keeps (Waits k) (if b then m else n)
    if_Keeps true m n f g = f
    if_Keeps false m n f g = g

    run_ticks-Keeps :
        (ticks : ℕ) (b : Bool)
        → Keeps (Waits k) (run_ticks lock (process_batch publisher size) ticks b)
    unfolding run_ticks
    run_ticks-Keeps zero b = Keeps-pure (Waits-Preorder k) tt
    run_ticks-Keeps (suc n) b =
        let tick : Keeps (Waits k) (
            attempt (ask lock.try_lock) >>= λ r.
            tick_result (process_batch publisher size) b r
            >>= run_ticks lock (process_batch publisher size) n) =
          Keeps-bind (Waits-Preorder k) _ _ (search (keeps_rules, Waits-Preorder))
            (λ r. Keeps-bind (Waits-Preorder k) _ _ (tick_result-Keeps b r) (run_ticks-Keeps n)) in
        Keeps-bind (Waits-Preorder k) is_cancelled _ (Keeps-is_cancelled (Waits-Preorder k))
          (λ stop. if_Keeps stop _ _ (release-Keeps b) tick)

-- No event is lost between the outbox and the broker: over any number of ticks of the relay, with any
-- failures, a row of the outbox whose event the broker never takes is still there and not marked as
-- processed, where the other processes neither mark nor delete it.
pub run_ticks-IsWaiting :
    (publisher : Publisher) (k : ℕ)
    → Refuses publisher k
    → (lock : Lock) (size ticks : ℕ) (s : Schedule) → Obeys (Waits k) s
    → (w : World) → IsWaiting k w.db
    → IsWaiting k (run_ticks lock (process_batch publisher size) ticks false s w).1.db
run_ticks-IsWaiting publisher k refuses lock size ticks s o w h =
    (run_ticks-Keeps publisher k refuses lock size ticks false).at s o w h
