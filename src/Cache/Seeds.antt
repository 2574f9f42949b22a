-- ===== src/Cache/Seeds.antt =====
-- What the commands of internal/infrastructure/cache/rehydrate.go do to the keys of a ticket type.
use booking_monitor.Prelude.{
  ℕ, ◌≡◌, ◌≢◌, ◌⊎◌, inl, inr, refl, ==_iff, sym, subst, true, false, Option, none, some, arith,
  ◌==◌,
}
use booking_monitor.Prelude.Int.{ℤ}
use booking_monitor.Domain.TicketType.{TicketType}
use booking_monitor.Store.Redis.{Redis}
use booking_monitor.Cache.Deduct.{Formats, set_quantity}
use booking_monitor.Cache.Inventory.{metadata_of, set_metadata}
use booking_monitor.Cache.Rehydrate.{set_if_missing}
use booking_monitor.Cache.Unwritten.{IsCounted}

-- A count that was there, or else the tickets that the row has left.
abbrev pub first : ℤ → Option ℤ → ℤ
first n none = n
first n (some x) = x

pub set_if_missing-other :
    (id k : ℕ) (n : ℤ) (c : Redis)
    → id ≢ k
    → (set_if_missing k n (c.quantity k) c).1.quantity id ≡ c.quantity id
unfolding set_quantity
set_if_missing-other id k n c ne = by_key (c.quantity k)
  where
    apart : (id == k) ≡ false
    apart = ground arith

    by_key : (r : Option ℤ) → (set_if_missing k n r c).1.quantity id ≡ c.quantity id
    by_key (some x) = refl
    by_key none = rw apart refl

pub set_if_missing-first :
    (id : ℕ) (n : ℤ) (c : Redis) (r : Option ℤ)
    → c.quantity id ≡ r
    → IsCounted id (first n r) (set_if_missing id n (c.quantity id) c).1
unfolding set_quantity
set_if_missing-first id n c (some x) e = rw e e
set_if_missing-first id n c none e =
    let here : (id == id) ≡ true = (==_iff id id).1 refl in rw (e, here) refl

pub set_if_missing-metadata :
    (k : ℕ) (n : ℤ) (r : Option ℤ) (c : Redis) → (set_if_missing k n r c).1.metadata ≡ c.metadata
set_if_missing-metadata k n none c = refl
set_if_missing-metadata k n (some x) c = refl

-- Of the ticket type `t`: each row with its id is `t`.
abbrev pub Known : TicketType → TicketType → Type 0
Known t y = (y.id ≢ t.id) ⊎ (y ≡ t)

pub set_metadata-same :
    (fmt : Formats) (t : TicketType) (c : Redis)
    → (set_metadata fmt t c).metadata t.id ≡ metadata_of fmt t
unfolding set_metadata
set_metadata-same fmt t c =
    let here : (t.id == t.id) ≡ true = (==_iff t.id t.id).1 refl in rw here refl

pub set_metadata-Known :
    (fmt : Formats) (t y : TicketType)
    → Known t y
    → (c : Redis) → c.metadata t.id ≡ metadata_of fmt t
    → (set_metadata fmt y c).metadata t.id ≡ metadata_of fmt t
set_metadata-Known fmt t y (inr same) c h =
    subst (λ x. (set_metadata fmt x c).metadata t.id ≡ metadata_of fmt t) (sym same)
      (set_metadata-same fmt t c)
set_metadata-Known fmt t y (inl ne) c h =
    let apart : (t.id == y.id) ≡ false = ground arith in unfold set_metadata in rw apart h
