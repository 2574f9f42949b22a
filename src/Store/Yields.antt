-- ===== src/Store/Yields.antt =====
-- What the successful runs of a transaction's body do: `Q` relates the answer, the database before
-- and the database after. Inside a transaction no other process is seen.
use booking_monitor.Prelude.{ℕ, ◌≡◌, refl, sym, ◌∙◌, ap, Bool, true, false, arith, if◌then◌else◌}
use booking_monitor.Domain.Errors.{Error, Result, ok, err}
use booking_monitor.Store.Db.{Db, Stmt}
use booking_monitor.Store.Exec.{
  Outcome, done, refused, cancelled, lost, Schedule, World, M, pure, raise, attempt, continue,
  ◌>>=◌, tx, settle, exec,
}
use booking_monitor.Store.Keeps.{Achieves}

pub record Yields {A : Type 0} (m : M A) (Q : A → Db → Db → Type 0) : Type 0 where
  pub at : (s : Schedule) (w : World) (a : A) → (m s w).0 ≡ ok a → Q a w.db (m s w).1.db

module _ {A : Type 0} where
  ok_inj : {a b : A} → ok a ≡ ok b → a ≡ b
  ok_inj h = ground arith

  pub Yields-weaken :
      {m : M A} {Q P : A → Db → Db → Type 0}
      → Yields m Q
      → ((a : A) (d d' : Db) → Q a d d' → P a d d')
      → Yields m P
  Yields-weaken y f = record { at = λ s w a e. f a _ _ (y.at s w a e) }

  -- What an assumption gives is given under the assumption.
  pub Yields-assume :
      {H : Type 0} {m : M A} {Q : A → Db → Db → Type 0}
      → (H → Yields m Q)
      → Yields m (λ a d d'. H → Q a d d')
  Yields-assume f = record { at = λ s w a e h. (f h).at s w a e }

  pub Yields-pure : (a : A) → Yields (pure a) (λ b d d'. (b ≡ a) × (d' ≡ d))
  unfolding pure
  Yields-pure a = record { at = λ s w b e. (sym (ok_inj e), refl) }

  pub Yields-raise : (e : Error) (Q : A → Db → Db → Type 0) → Yields (raise e) Q
  unfolding raise
  Yields-raise e Q = record { at = λ s w a h. absurd cc }

  -- What is attempted succeeds as a value.
  pub attempt-Yields :
      {m : M A} {Q : A → Db → Db → Type 0}
      → Yields m Q
      → Yields (attempt m) (λ r d d'. (a : A) → r ≡ ok a → Q a d d')
  unfolding attempt
  attempt-Yields {m} y = record { at = λ s w r e a got. y.at s w a (ground (arith, e, got)) }

  settled :
      (o : Outcome) (d : Db) (p : Result A × Db) (a : A)
      → (settle o d p).0 ≡ ok a
      → p ≡ (ok a, (settle o d p).1)
  settled done d p a h = ap (λ r. (r, p.1)) h
  settled refused d p a h = absurd cc
  settled cancelled d p a h = absurd cc
  settled lost d p a h = absurd cc

  -- A statement that succeeds has had its effect.
  pub Yields-exec : (q : Stmt A) → Yields (exec tx q) (λ a d d'. (now : ℕ) × (q now d ≡ (ok a, d')))
  unfolding exec
  Yields-exec q = record {
    at = λ s w a e.
        ((s w.tick).db_now, settled (s w.tick).outcome w.db (q (s w.tick).db_now w.db) a e);
  }

  pub Yields-Achieves :
      {R : Db → Db → Type 0} {m : M A} {Q : A → Db → Db → Type 0}
      → Yields m Q
      → ((a : A) (d d' : Db) → Q a d d' → R d d')
      → Achieves R m
  Yields-Achieves y f = record { at = λ s o w a e. f a _ _ (y.at s w a e) }

module _ {A B : Type 0} where
  continued :
      (r : Result A) (f : A → M B) (s : Schedule) (w : World) (b : B)
      → (continue r f s w).0 ≡ ok b
      → (a : A) × (r ≡ ok a) × ((f a s w).0 ≡ ok b) × ((continue r f s w).1.db ≡ (f a s w).1.db)
  continued (ok a) f s w b h = (a, refl, h, refl)
  continued (err e) f s w b h = absurd cc

  -- One after the other.
  pub Yields-bind :
      {m : M A} {f : A → M B} {Q : A → Db → Db → Type 0} {P : A → B → Db → Db → Type 0}
      → Yields m Q
      → ((a : A) → Yields (f a) (P a))
      → Yields (m >>= f) (λ b d d'. (a : A) × (e : Db) × Q a d e × P a b e d')
  unfolding ◌>>=◌
  Yields-bind {m} {f} {Q} {P} y z = record {
    at = λ s w b h.
        let (a, answered, then_ok, same_db) = continued (m s w).0 f s (m s w).1 b h in
        (a, (m s w).1.db, y.at s w a answered, rw same_db ((z a).at s (m s w).1 b then_ok));
  }

-- A test of the answer: a success means that it holds, or that the other way succeeds.
pub Yields-test :
    (b : Bool) (m : M (Unit {0}))
    → Yields m (λ _ d d'. ⊥)
    → Yields (if b then pure tt else m) (λ _ d d'. (b ≡ true) × (d' ≡ d))
Yields-test true m y = Yields-weaken (Yields-pure tt) (λ a d d' q. (refl, q.1))
Yields-test false m y = Yields-weaken y (λ a d d' q. absurd q)

-- A statement that answers whether it affected a row, with its error where it did not.
pub Yields-affected :
    {m : M (Unit {0})} (q : Stmt Bool)
    → Yields m (λ _ d d'. ⊥)
    → Yields
        (exec tx q >>= λ b. if b then pure tt else m)
        (λ _ d d'. (now : ℕ) × (q now d ≡ (ok true, d')))
Yields-affected {m} q y =
    Yields-weaken (Yields-bind (Yields-exec q) (λ b. Yields-test b m y)) (λ _ d d' r.
      (r.2.0, r.2.1 ∙ ap (λ b. (ok b, r.1)) r.3.0 ∙ ap (λ e. (ok true, e)) (sym r.3.1)))
