-- ===== src/Store/Transaction.antt =====
-- A transaction that a service opens itself on the pool of `database/sql`: `BeginTx`, a deferred
-- `Rollback` whose answer is dropped, the body, and `Commit`. So do internal/application/booking/sync
-- and internal/infrastructure/persistence/postgres/stage5_compensator.go.
use booking_monitor.Prelude.{suc, ◌≡◌, refl, ◌⊎◌, inl, inr, arith}
use booking_monitor.Domain.Errors.{Error, Result, ok, err}
use booking_monitor.Store.Db.{Db}
use booking_monitor.Store.Redis.{Redis}
use booking_monitor.Store.Exec.{
  Outcome, done, refused, cancelled, lost, Turn, Schedule, World, M, ◌>>=◌, begin_tx, answers,
  continue, commit,
}
use booking_monitor.Store.Atomicity.{opened}

module _ {A : Type 0} where
  abbrev pub closed : Db → Turn → Result A × World → Result A × World
  closed before t (ok a, w) = commit t.outcome a before (record w { tick = suc w.tick })
  closed before t (err e, w) = (err e, record w { db = before; tick = suc w.tick })

  abbrev pub in_transaction : M A → M A
  in_transaction body s w = let p = body s w in closed w.db (s p.1.tick) p

  unfoldable pub transaction : M A → M A
  transaction body = begin_tx >>= λ _. in_transaction body

  -- It reports an error and leaves the tables as it found them, or its body is done, and what it answers
  -- is what the body has answered.
  unfoldable pub AllOrNone : Db → (A → Db → Redis → Type 0) → Result A × World → Type 0
  AllOrNone before P p =
      ((e : Error) × (p.0 ≡ err e) × (p.1.db ≡ before))
      ⊎ ((a : A) × ((b : A) → p.0 ≡ ok b → b ≡ a) × P a p.1.db p.1.cache)

  module _ (before : Db) (P : A → Db → Redis → Type 0) where
    committed-AllOrNone :
        (o : Outcome) (a : A) (w : World)
        → P a w.db w.cache
        → AllOrNone before P (commit o a before w)
    unfolding AllOrNone
    committed-AllOrNone done a w h = inr (a, λ b e. ground arith, h)
    committed-AllOrNone refused a w h = inl (_, refl, refl)
    committed-AllOrNone cancelled a w h = inl (_, refl, refl)
    committed-AllOrNone lost a w h = inr (a, λ b e. absurd cc, h)

    closed-AllOrNone :
        (t : Turn) (r : Result A) (w : World)
        → ((a : A) → r ≡ ok a → P a w.db w.cache)
        → AllOrNone before P (closed before t (r, w))
    closed-AllOrNone t (ok a) w h = committed-AllOrNone t.outcome a _ (h a refl)
    closed-AllOrNone t (err e) w h = unfold AllOrNone in inl (e, refl, refl)

  begun-AllOrNone :
      (m : M A) (P : A → Db → Redis → Type 0) (s : Schedule) (o : Outcome) (w : World)
      → ((a : A) → (m s w).0 ≡ ok a → P a (m s w).1.db (m s w).1.cache)
      → AllOrNone w.db P (continue (answers o) (λ _. in_transaction m) s w)
  unfolding AllOrNone
  begun-AllOrNone m P s done w h = let (r, w') = m s w in closed-AllOrNone w.db P (s w'.tick) r w' h
  begun-AllOrNone m P s refused w h = inl (_, refl, refl)
  begun-AllOrNone m P s cancelled w h = inl (_, refl, refl)
  begun-AllOrNone m P s lost w h = inl (_, refl, refl)

  pub transaction-AllOrNone :
      (m : M A) (P : A → Db → Redis → Type 0) (s : Schedule) (w : World)
      → ((a : A)
          → (m s (opened s w)).0 ≡ ok a
          → P a (m s (opened s w)).1.db (m s (opened s w)).1.cache)
      → AllOrNone (opened s w).db P (transaction m s w)
  unfolding transaction begin_tx ◌>>=◌
  transaction-AllOrNone m P s w h = begun-AllOrNone m P s (s w.tick).outcome (opened s w) h
