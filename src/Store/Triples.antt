-- ===== src/Store/Triples.antt =====
-- What an action does to the Redis keys and the database, from a precondition to a statement about
-- its answer, the keys and the database, while the other processes keep some statements `I` about
-- the keys.
use booking_monitor.Prelude.{ℕ}
use booking_monitor.Domain.Errors.{Error, Result, ok, err, infra, context_done}
use booking_monitor.Application.Metrics.{Metric}
use booking_monitor.Store.Db.{Db}
use booking_monitor.Store.Redis.{Redis}
use booking_monitor.Store.Exec.{
  Outcome, done, refused, cancelled, lost, Schedule, World, M, pure, raise, attempt, of_result,
  emit, continue, ◌>>=◌, run_script, settle_cache, clock, is_cancelled,
}

abbrev pub Pre : Type 1
Pre = Redis → Db → Type 0

abbrev pub Post : Type 0 → Type 1
Post A = Result A → Redis → Db → Type 0

-- The other processes keep `P`.
abbrev pub Kept : Schedule → Pre → Type 0
Kept s P = (n : ℕ) (c : Redis) (d : Db) → P c d → P ((s n).interferes_cache c) d

pub record Triple {A : Type 0} (s : Schedule) (P : Pre) (m : M A) (Q : Post A) : Type 0 where
  pub at : (w : World) → P w.cache w.db → Q (m s w).0 (m s w).1.cache (m s w).1.db

module _ {A : Type 0} where
  settled :
      (o : Outcome) (c : Redis) (d : Db) (p : Result A × Redis) (Q : Post A)
      → Q p.0 p.1 d
      → ((e : Error) → Q (err e) p.1 d)
      → ((e : Error) → Q (err e) c d)
      → Q (settle_cache o c p).0 (settle_cache o c p).1 d
  settled done c d p Q h l n = h
  settled refused c d p Q h l n = n infra
  settled cancelled c d p Q h l n = n context_done
  settled lost c d p Q h l n = l infra

module _ {s : Schedule} {A : Type 0} where
  pub Triple-pure :
      {P : Pre} {Q : Post A} (a : A)
      → ((c : Redis) (d : Db) → P c d → Q (ok a) c d)
      → Triple s P (pure a) Q
  unfolding pure
  Triple-pure a h = record { at = λ w p. h w.cache w.db p }

  pub Triple-raise :
      {P : Pre} {Q : Post A} (e : Error)
      → ((c : Redis) (d : Db) → P c d → Q (err e) c d)
      → Triple s P (raise e) Q
  unfolding raise
  Triple-raise e h = record { at = λ w p. h w.cache w.db p }

  pub Triple-of_result :
      {P : Pre} {Q : Post A} (r : Result A)
      → ((c : Redis) (d : Db) → P c d → Q r c d)
      → Triple s P (of_result r) Q
  unfolding of_result
  Triple-of_result r h = record { at = λ w p. h w.cache w.db p }

  -- What holds of every answer and every state.
  pub Triple-any :
      {P : Pre} {Q : Post A} (m : M A)
      → ((r : Result A) (c : Redis) (d : Db) → Q r c d)
      → Triple s P m Q
  Triple-any m h = record { at = λ w p. h _ _ _ }

  pub Triple-weaken :
      {P P' : Pre} {Q Q' : Post A} {m : M A}
      → ((c : Redis) (d : Db) → P' c d → P c d)
      → ((r : Result A) (c : Redis) (d : Db) → Q r c d → Q' r c d)
      → Triple s P m Q
      → Triple s P' m Q'
  Triple-weaken {m} f g t = record { at = λ w p. g _ _ _ (t.at w (f _ _ p)) }

  -- A script that ran, ran with its answer lost, or did not run.
  pub Triple-run_script :
      {P : Pre} {Q : Post A} (q : Redis → Result A × Redis)
      → Kept s P
      → ((c : Redis) (d : Db) → P c d → Q (q c).0 (q c).1 d)
      → ((e : Error) (c : Redis) (d : Db) → P c d → Q (err e) (q c).1 d)
      → ((e : Error) (c : Redis) (d : Db) → P c d → Q (err e) c d)
      → Triple s P (run_script q) Q
  unfolding run_script
  Triple-run_script {P} {Q} q k h l n = record {
    at = λ w p.
        let c : Redis = (s w.tick).interferes_cache w.cache in
        let p' : P c w.db = k w.tick w.cache w.db p in
        settled (s w.tick).outcome c w.db (q c) Q (h c w.db p') (λ e. l e c w.db p')
          (λ e. n e c w.db p');
  }

module _ {s : Schedule} {A B : Type 0} where
  continued :
      (r : Result A) (f : A → M B) (w : World) (P : Post A) (Q : Post B)
      → ((a : A) → Triple s (P (ok a)) (f a) Q)
      → ((e : Error) (c : Redis) (d : Db) → P (err e) c d → Q (err e) c d)
      → P r w.cache w.db
      → Q (continue r f s w).0 (continue r f s w).1.cache (continue r f s w).1.db
  continued (ok a) f w P Q t h p = (t a).at w p
  continued (err e) f w P Q t h p = h e w.cache w.db p

  pub Triple-bind :
      {P : Pre} {R : Post A} {Q : Post B} {m : M A} {f : A → M B}
      → Triple s P m R
      → ((a : A) → Triple s (R (ok a)) (f a) Q)
      → ((e : Error) (c : Redis) (d : Db) → R (err e) c d → Q (err e) c d)
      → Triple s P (m >>= f) Q
  unfolding ◌>>=◌
  Triple-bind {R} {Q} {m} {f} t k h = record {
    at = λ w p. continued (m s w).0 f (m s w).1 R Q k h (t.at w p);
  }

  -- What an attempt does is known whatever its result, and the attempt does not fail.
  pub Triple-try :
      {P : Pre} {R : Post A} {Q : Post B} {m : M A} {f : Result A → M B}
      → Triple s P m R
      → ((r : Result A) → Triple s (R r) (f r) Q)
      → Triple s P (attempt m >>= f) Q
  unfolding attempt ◌>>=◌
  Triple-try {m} t k = record { at = λ w p. (k (m s w).0).at (m s w).1 (t.at w p) }

module _ {s : Schedule} {P : Pre} where
  pub Triple-emit : (x : Metric) → Triple s P (emit x) (λ r c d. P c d)
  unfolding emit
  Triple-emit x = record { at = λ w p. p }

  pub Triple-clock : Triple s P clock (λ r c d. P c d)
  unfolding clock
  Triple-clock = record { at = λ w p. p }

  pub Triple-is_cancelled : Triple s P is_cancelled (λ r c d. P c d)
  unfolding is_cancelled
  Triple-is_cancelled = record { at = λ w p. p }
