-- ===== src/Cache/Given.antt =====
-- What internal/infrastructure/cache/lua/revert.lua gives back.
use booking_monitor.Prelude.{
  ℕ, ◌≡◌, refl, ◌⊎◌, inl, inr, Bool, true, false, Bool-cases, Option, none, some, arith, ◌==◌,
  ==_iff, ◌∷◌, if◌then◌else◌,
}
use booking_monitor.Prelude.Int.{ℤ, ◌+ℤ◌}
use booking_monitor.Domain.Errors.{Result, ok}
use booking_monitor.Store.Redis.{Redis}
use booking_monitor.Store.Exec.{Schedule, Outcome, done, refused, cancelled, lost, settle_cache}
use booking_monitor.Cache.Revert.{revert_script, add_quantity, contains}

-- The key goes up by the count; a key that is not there stays away.
abbrev pub IsRaised : ℤ → Option ℤ → Option ℤ → Type 0
IsRaised n none after = after ≡ none
IsRaised n (some m) after = after ≡ some (m +ℤ n)

-- The compensation was made before and nothing changes, or the count of the ticket type goes up by `n`,
-- that of the others stays, and the compensation is marked as made.
abbrev pub IsRepaid : ℕ → ℤ → ℕ → Redis → Redis → Type 0
IsRepaid id n k c c' =
    ((contains k c.reverted ≡ true) × (c' ≡ c))
    ⊎ (IsRaised n (c.quantity id) (c'.quantity id)
        × ((j : ℕ) → (j ≡ id) ⊎ (c'.quantity j ≡ c.quantity j))
        × (contains k c'.reverted ≡ true))

add_quantity-IsRaised :
    (id : ℕ) (n : ℤ) (f : ℕ → Option ℤ) → IsRaised n (f id) (add_quantity id n f id)
unfolding add_quantity
add_quantity-IsRaised id n f = at (f id) refl
  where
    here : (id == id) ≡ true
    here = (==_iff id id).1 refl

    at : (x : Option ℤ) → f id ≡ x → IsRaised n x (add_quantity id n f id)
    at none e = rw (here, e) refl
    at (some m) e = rw (here, e) refl

add_quantity-other :
    (id : ℕ) (n : ℤ) (f : ℕ → Option ℤ) (j : ℕ) → (j ≡ id) ⊎ (add_quantity id n f j ≡ f j)
unfolding add_quantity
add_quantity-other id n f j = elim (Bool-cases (j == id)) [
  | inl same ↦ inl ((==_iff j id).0 same)
  | inr other ↦ inr (rw other refl)
]

pub revert_script-IsRepaid :
    (id : ℕ) (n : ℤ) (k : ℕ) (c : Redis) → IsRepaid id n k c (revert_script id n k c).1
unfolding revert_script
revert_script-IsRepaid id n k c = by_mark (contains k c.reverted) refl
  where
    by_mark :
        (b : Bool)
        → contains k c.reverted ≡ b
        → let p : Result (Unit {0}) × Redis = if b then (ok tt, c) else (
          ok tt,
          record c { quantity = add_quantity id n c.quantity; reverted = k ∷ c.reverted },
        ) in
          IsRepaid id n k c p.1
    by_mark true e = inl (e, refl)
    by_mark false e = inr (
      add_quantity-IsRaised id n c.quantity,
      add_quantity-other id n c.quantity,
      unfold contains in ground arith,
    )

-- What Redis can become by steps of the other processes, and by steps of the program that touch neither
-- a count nor a mark.
pub data Later (s : Schedule) (c : Redis) : Redis → Type 0 where
  now : Later s c c
  others : (n : ℕ) {c' : Redis} → Later s c c' → Later s c ((s n).interferes_cache c')
  own :
      {c' c'' : Redis}
      → Later s c c'
      → c''.quantity ≡ c'.quantity
      → c''.reverted ≡ c'.reverted
      → Later s c c''

-- On the way from one state of Redis to another the count was given back.
pub record GaveBack (s : Schedule) (id : ℕ) (n : ℤ) (k : ℕ) (c c' : Redis) : Type 0 where
  pub before : Redis
  pub after : Redis
  pub came : Later s c before
  pub repaid : IsRepaid id n k before after
  pub left : Later s after c'

pub GaveBack-others :
    (s : Schedule) (t : ℕ) {id : ℕ} {n : ℤ} {k : ℕ} {c c' : Redis}
    → GaveBack s id n k c c'
    → GaveBack s id n k c ((s t).interferes_cache c')
GaveBack-others s t g = record {
  before = g.before;
  after = g.after;
  came = g.came;
  repaid = g.repaid;
  left = others t g.left;
}

-- A step that touches neither a count nor a mark does not undo it.
pub GaveBack-later :
    (s : Schedule) {id : ℕ} {n : ℤ} {k : ℕ} {c c' c'' : Redis}
    → GaveBack s id n k c c'
    → c''.quantity ≡ c'.quantity
    → c''.reverted ≡ c'.reverted
    → GaveBack s id n k c c''
GaveBack-later s g counts marks = record {
  before = g.before;
  after = g.after;
  came = g.came;
  repaid = g.repaid;
  left = own g.left counts marks;
}

-- Where the call reports success, the count is given back.
pub settle-GaveBack :
    (s : Schedule) (t : ℕ) (id : ℕ) (n : ℤ) (k : ℕ) (c : Redis)
    → let p =
        settle_cache
          (s t).outcome
          ((s t).interferes_cache c)
          (revert_script id n k ((s t).interferes_cache c)) in
      p.0 ≡ ok tt → GaveBack s id n k c p.1
settle-GaveBack s t id n k c = by_outcome (s t).outcome
  where
    by_outcome :
        (o : Outcome)
        → let d = (s t).interferes_cache c in
          (settle_cache o d (revert_script id n k d)).0 ≡ ok tt
          → GaveBack s id n k c (settle_cache o d (revert_script id n k d)).1
    by_outcome done h = record {
      before = (s t).interferes_cache c;
      after = (revert_script id n k ((s t).interferes_cache c)).1;
      came = others t now;
      repaid = revert_script-IsRepaid id n k ((s t).interferes_cache c);
      left = now;
    }
    by_outcome refused h = absurd cc
    by_outcome cancelled h = absurd cc
    by_outcome lost h = absurd cc
