-- ===== src/Store/Tally.antt =====
-- How many counts of a kind an action makes, whatever the schedule.
use booking_monitor.Prelude.{
  ℕ, suc, ◌+◌, ◌≡◌, refl, Bool, true, false, List, [], ◌∷◌, arith, if◌then◌else◌,
}
use booking_monitor.Domain.Errors.{Error, Result, ok, err}
use booking_monitor.Application.Metrics.{Metric, rollback_failure}
use booking_monitor.Store.Db.{Db, Stmt}
use booking_monitor.Store.Exec.{
  Outcome, done, refused, cancelled, lost, Turn, Schedule, World, M, pure, raise, attempt,
  of_result, emit, answers, continue, ◌>>=◌, Executor, exec, begin_tx, count_rollback, commit,
  finish, in_tx, do_uow, clock, new_v7, run_script, ask,
}
use booking_monitor.Store.Redis.{Redis}

unfoldable pub tally : (Metric → Bool) → List Metric → ℕ
tally p [] = 0
tally p (x ∷ xs) = if p x then suc (tally p xs) else tally p xs

-- `m` makes exactly `k` counts of the kind `p`, whether it succeeds or fails.
pub record Counts {A : Type 0} (p : Metric → Bool) (k : ℕ) (m : M A) : Type 0 where
  pub at : (s : Schedule) (w : World) → tally p (m s w).1.metrics ≡ k + tally p w.metrics

module _ {p : Metric → Bool} where
  module _ {A : Type 0} where
    pub Counts-pure : (a : A) → Counts p 0 (pure a)
    unfolding pure
    Counts-pure a = record { at = λ s w. omega arith }

    pub Counts-raise : (e : Error) → Counts p 0 (raise {A = A} e)
    unfolding raise
    Counts-raise e = record { at = λ s w. omega arith }

    pub Counts-of_result : (r : Result A) → Counts p 0 (of_result r)
    unfolding of_result
    Counts-of_result r = record { at = λ s w. omega arith }

    pub Counts-exec : (e : Executor) (q : Stmt A) → Counts p 0 (exec e q)
    unfolding exec
    Counts-exec e q = record { at = λ s w. omega arith }

    pub Counts-run_script : (q : Redis → Result A × Redis) → Counts p 0 (run_script q)
    unfolding run_script
    Counts-run_script q = record { at = λ s w. omega arith }

    pub Counts-ask : (f : ℕ → Result A) → Counts p 0 (ask f)
    unfolding ask
    Counts-ask f = record { at = λ s w. omega arith }

    pub Counts-if :
        (b : Bool) (k : ℕ) (m n : M A)
        → Counts p k m
        → Counts p k n
        → Counts p k (if b then m else n)
    Counts-if true k m n km kn = km
    Counts-if false k m n km kn = kn

  pub Counts-clock : Counts p 0 clock
  unfolding clock
  Counts-clock = record { at = λ s w. omega arith }

  pub Counts-new_v7 : Counts p 0 new_v7
  unfolding new_v7
  Counts-new_v7 = record { at = λ s w. omega arith }

  pub Counts-emit_other : (x : Metric) → p x ≡ false → Counts p 0 (emit x)
  unfolding emit tally
  Counts-emit_other x h = record { at = λ s w. rw h (omega arith) }

  pub Counts-emit : (x : Metric) → p x ≡ true → Counts p 1 (emit x)
  unfolding emit tally
  Counts-emit x h = record { at = λ s w. rw h (omega arith) }

  module _ {A B : Type 0} where
    -- What follows a call that counts nothing and may fail must count nothing.
    pub Counts-bind :
        (m : M A) (f : A → M B) → Counts p 0 m → ((a : A) → Counts p 0 (f a)) → Counts p 0 (m >>= f)
    unfolding ◌>>=◌
    Counts-bind m f km kf = record { at = λ s w. go s (m s w) (tally p w.metrics) (km.at s w) }
      where
        go :
            (s : Schedule) (r : Result A × World) (n : ℕ)
            → tally p r.1.metrics ≡ 0 + n
            → tally p (continue r.0 f s r.1).1.metrics ≡ 0 + n
        go s (ok a, w) n e = omega (arith, (kf a).at s w)
        go s (err x, w) n e = e

    -- After `attempt` the rest is always run.
    pub Counts-attempt :
        (k : ℕ) (m : M A) (f : Result A → M B)
        → Counts p 0 m
        → ((r : Result A) → Counts p k (f r))
        → Counts p k (attempt m >>= f)
    unfolding ◌>>=◌ attempt
    Counts-attempt k m f km kf = record {
      at = λ s w. omega (arith, km.at s w, (kf (m s w).0).at s (m s w).1);
    }

  module _ {B : Type 0} where
    pub Counts-after_clock :
        (k : ℕ) (f : ℕ → M B) → ((n : ℕ) → Counts p k (f n)) → Counts p k (clock >>= f)
    unfolding ◌>>=◌ clock
    Counts-after_clock k f kf = record {
      at = λ s w. omega (arith, (kf (s w.tick).app_now).at s (record w { tick = suc w.tick }));
    }

    pub Counts-emit_bind :
        (x : Metric) (f : Unit {0} → M B) (k : ℕ)
        → p x ≡ false
        → Counts p k (f tt)
        → Counts p k (emit x >>= f)
    unfolding ◌>>=◌ emit tally
    Counts-emit_bind x f k h kf = record {
      at = λ s w.
          let e : (if p x then suc (tally p w.metrics) else tally p w.metrics) ≡ tally p w.metrics =
            rw h in
          omega (arith, kf.at s (record w { metrics = x ∷ w.metrics }), e);
    }

    pub Counts-count_bind :
        (x : Metric) (f : Unit {0} → M B) (k : ℕ)
        → p x ≡ true
        → Counts p k (f tt)
        → Counts p (suc k) (emit x >>= f)
    unfolding ◌>>=◌ emit tally
    Counts-count_bind x f k h kf = record {
      at = λ s w.
          let e : (if p x then suc (tally p w.metrics) else tally p w.metrics)
              ≡ suc (tally p w.metrics) =
            rw h in
          omega (arith, kf.at s (record w { metrics = x ∷ w.metrics }), e);
    }

module _ (p : Metric → Bool) (other : p rollback_failure ≡ false) (A : Type 0) where
  count_rollback-tally :
      (o : Outcome) (ms : List Metric) → tally p (count_rollback o ms) ≡ tally p ms
  unfolding tally
  count_rollback-tally done ms = refl
  count_rollback-tally refused ms = rw other refl
  count_rollback-tally cancelled ms = rw other refl
  count_rollback-tally lost ms = rw other refl

  commit-tally :
      (o : Outcome) (a : A) (d : Db) (w : World)
      → tally p (commit o a d w).1.metrics ≡ tally p w.metrics
  commit-tally done a d w = refl
  commit-tally refused a d w = refl
  commit-tally cancelled a d w = refl
  commit-tally lost a d w = refl

  finish-tally :
      (d : Db) (t : Turn) (r : Result A × World)
      → tally p (finish d t r).1.metrics ≡ tally p r.1.metrics
  finish-tally d t (ok a, w) = commit-tally t.outcome a d (record w { tick = suc w.tick })
  finish-tally d t (err e, w) = count_rollback-tally t.outcome w.metrics

  begun-tally :
      (o : Outcome) (m : M A) (s : Schedule) (w : World)
      → Counts p 0 m
      → tally p (continue (answers o) (λ _. in_tx m) s w).1.metrics ≡ tally p w.metrics
  begun-tally done m s w k = omega (arith, finish-tally w.db (s (m s w).1.tick) (m s w), k.at s w)
  begun-tally refused m s w k = refl
  begun-tally cancelled m s w k = refl
  begun-tally lost m s w k = refl

  do_uow-Counts : (m : M A) → Counts p 0 m → Counts p 0 (do_uow m)
  unfolding do_uow begin_tx ◌>>=◌
  do_uow-Counts m k = record {
    at = λ s w. omega (
      arith,
      begun-tally (s w.tick).outcome m s
          (record w { db = (s w.tick).interferes w.db; tick = suc w.tick }) k,
    );
  }

pub Counts-do_uow :
    {p : Metric → Bool} {A : Type 0} (m : M A)
    → p rollback_failure ≡ false
    → Counts p 0 m
    → Counts p 0 (do_uow m)
Counts-do_uow {p} {A} m other k = do_uow-Counts p other A m k

pub ruleset counting = (
  Counts-pure, Counts-raise, Counts-of_result, Counts-exec, Counts-run_script, Counts-ask,
  Counts-if, Counts-clock, Counts-new_v7, Counts-emit_other, Counts-emit, Counts-bind,
  Counts-attempt, Counts-after_clock, Counts-emit_bind, Counts-count_bind, Counts-do_uow,
)
