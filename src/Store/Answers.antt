-- ===== src/Store/Answers.antt =====
-- What an action answers without fail, whatever the schedule, and what a success says of its parts.
use booking_monitor.Prelude.{◌≡◌, refl, ap, ◌∙◌, Bool, true, false, if◌then◌else◌}
use booking_monitor.Domain.Errors.{Result, ok, err}
use booking_monitor.Application.Metrics.{Metric}
use booking_monitor.Store.Exec.{
  Schedule, World, M, pure, continue, attempt, emit, ◌>>=◌, is_cancelled,
}

-- The action answers a value of which `P` holds.
pub record Answers {A : Type 0} (P : A → Type 0) (m : M A) : Type 0 where
  pub at : (s : Schedule) (w : World) → (a : A) × ((m s w).0 ≡ ok a) × P a

abbrev pub Any : {A : Type 0} → A → Type 0
Any a = Unit {0}

module _ {A : Type 0} where
  pub Answers-pure : {P : A → Type 0} (a : A) → P a → Answers P (pure a)
  unfolding pure
  Answers-pure a p = record { at = λ s w. (a, refl, p) }

  pub Answers-attempt : (m : M A) → Answers Any (attempt m)
  unfolding attempt
  Answers-attempt m = record { at = λ s w. ((m s w).0, refl, tt) }

  pub Answers-if :
      {P : A → Type 0} (b : Bool) (m n : M A)
      → ((b ≡ true) → Answers P m)
      → ((b ≡ false) → Answers P n)
      → Answers P (if b then m else n)
  Answers-if true m n f g = f refl
  Answers-if false m n f g = g refl

module _ {A B : Type 0} where
  pub Answers-bind :
      {P : A → Type 0} {Q : B → Type 0} {m : M A} {f : A → M B}
      → Answers P m
      → ((a : A) → P a → Answers Q (f a))
      → Answers Q (m >>= f)
  unfolding ◌>>=◌
  Answers-bind {m} {f} h k = record {
    at = λ s w.
        let (a, e, p) = h.at s w in
        let (b, e', q) = (k a p).at s (m s w).1 in
        (b, ap (λ r. (continue r f s (m s w).1).0) e ∙ e', q);
  }

pub Answers-emit : (x : Metric) → Answers Any (emit x)
unfolding emit
Answers-emit x = record { at = λ s w. (tt, refl, tt) }

pub Answers-is_cancelled : Answers Any is_cancelled
unfolding is_cancelled
Answers-is_cancelled = record { at = λ s w. (_, refl, tt) }

module _ {A B : Type 0} where
  -- An action that succeeds has succeeded in its first part, and ends as the rest does.
  pub continue-ok :
      (r : Result A) (f : A → M B) (s : Schedule) (w : World) (b : B)
      → (continue r f s w).0 ≡ ok b
      → (a : A) × (r ≡ ok a) × ((f a s w).0 ≡ ok b) × ((continue r f s w).1 ≡ (f a s w).1)
  continue-ok (ok a) f s w b h = (a, refl, h, refl)
  continue-ok (err e) f s w b h = absurd cc

  pub bind-ok :
      (m : M A) (f : A → M B) (s : Schedule) (w : World) (b : B)
      → ((m >>= f) s w).0 ≡ ok b
      → (a : A) × ((m s w).0 ≡ ok a)
        × ((f a s (m s w).1).0 ≡ ok b)
        × (((m >>= f) s w).1 ≡ (f a s (m s w).1).1)
  unfolding ◌>>=◌
  bind-ok m f s w b h = continue-ok (m s w).0 f s (m s w).1 b h
