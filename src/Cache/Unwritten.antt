-- ===== src/Cache/Unwritten.antt =====
-- The counts that internal/infrastructure/cache/rehydrate.go finds in Redis.
use booking_monitor.Prelude.{
  ℕ, ◌≡◌, refl, ap, ◌∙◌, inl, inr, Bool-cases, Option, none, some, ◌==◌, ==_iff,
}
use booking_monitor.Prelude.Int.{ℤ}
use booking_monitor.Store.Redis.{Redis}
use booking_monitor.Store.Exec.{Schedule, World}
use booking_monitor.Store.Triples.{Kept}
use booking_monitor.Cache.Deduct.{Formats, set_quantity}
use booking_monitor.Cache.Inventory.{set_metadata}
use booking_monitor.Relay.{Lock}
use booking_monitor.Cache.Rehydrate.{set_if_missing, rehydrate_inventory}
use booking_monitor.Cache.Keeps.{IsStable, rehydrate_inventory-Holds}

-- The key of a ticket type that has a count.
abbrev pub IsCounted : ℕ → ℤ → Redis → Type 0
IsCounted id n c = c.quantity id ≡ some n

pub set_if_missing-IsCounted :
    (id k : ℕ) (n m : ℤ) (c : Redis)
    → IsCounted id n c
    → IsCounted id n (set_if_missing k m (c.quantity k) c).1
unfolding set_quantity
set_if_missing-IsCounted id k n m c h = by_key (c.quantity k) refl
  where
    by_key : (r : Option ℤ) → c.quantity k ≡ r → IsCounted id n (set_if_missing k m r c).1
    by_key (some x) e = h
    by_key none e = elim (Bool-cases (id == k)) [
      | inl hit ↦
          absurd (let gone : c.quantity id ≡ none = ap c.quantity ((==_iff id k).0 hit) ∙ e in cc)
      | inr miss ↦ rw miss h
    ]

IsCounted-IsStable :
    (s : Schedule) (fmt : Formats) (id : ℕ) (n : ℤ)
    → Kept s (λ c d. IsCounted id n c)
    → IsStable s fmt (λ t. Unit {0}) (λ c d. IsCounted id n c)
unfolding set_metadata
IsCounted-IsStable s fmt id n kept = record {
  cache = kept;
  tables = λ k c d h. h;
  metadata = λ t u c d h. h;
  seeding = λ t u c d h. set_if_missing-IsCounted id t.id n t.available_tickets c h;
}

-- The rehydration never overwrites a count: whatever fails, and whatever the other processes do but
-- change this count, a count that is in Redis stays as it is.
pub rehydrate_inventory-IsCounted :
    (lock : Lock) (fmt : Formats) (id : ℕ) (n : ℤ) (s : Schedule)
    → Kept s (λ c d. IsCounted id n c)
    → (w : World) → IsCounted id n w.cache
    → IsCounted id n (rehydrate_inventory lock fmt s w).1.cache
rehydrate_inventory-IsCounted lock fmt id n s kept w h =
    (rehydrate_inventory-Holds s fmt (λ t. Unit {0}) (λ c d. IsCounted id n c)
        (IsCounted-IsStable s fmt id n kept) (λ t. tt) lock).at
      w h
