-- ===== src/Cache/Once.antt =====
-- The revert script of internal/infrastructure/cache/lua/revert.lua under repeated deliveries.
use booking_monitor.Prelude.{
  ℕ, zero, suc, ◌≡◌, refl, ◌≢◌, ◌⊎◌, true, false, none, ◌∷◌, arith, if◌then◌else◌, Bool-cases, inl,
  inr,
}
use booking_monitor.Prelude.Int.{ℤ}
use booking_monitor.Domain.Errors.{Result}
use booking_monitor.Store.Redis.{Redis}
use booking_monitor.Cache.Revert.{contains, add_quantity, revert_script}

abbrev pub after_script : {A : Type 0} → Result A × Redis → Redis
after_script p = p.1

-- One run of the script for each of the deliveries, in turn.
unfoldable pub revert_all : ℕ → ℤ → ℕ → ℕ → Redis → Redis
revert_all id count c zero r = r
revert_all id count c (suc n) r =
    revert_all id count c n (after_script (revert_script id count c r))

revert_seen :
    (id : ℕ) (count : ℤ) (c : ℕ) (r : Redis)
    → contains c r.reverted ≡ true
    → after_script (revert_script id count c r) ≡ r
unfolding revert_script
revert_seen id count c r h = rw h refl

revert_all-seen :
    (id : ℕ) (count : ℤ) (c n : ℕ) (r : Redis)
    → contains c r.reverted ≡ true
    → revert_all id count c n r ≡ r
unfolding revert_all
revert_all-seen id count c zero r h = refl
revert_all-seen id count c (suc n) r h =
    rw (revert_seen id count c r h) (revert_all-seen id count c n r h)

revert_first :
    (id : ℕ) (count : ℤ) (c : ℕ) (r : Redis)
    → contains c r.reverted ≡ false
    → after_script (revert_script id count c r)
      ≡ record r { quantity = add_quantity id count r.quantity; reverted = c ∷ r.reverted }
unfolding revert_script
revert_first id count c r h = rw h refl

-- However often a compensation is delivered, the inventory key gets its count back once: the keys
-- after n + 1 runs are those after the first, which adds to the one existing key of the ticket type
-- and remembers the id, and changes nothing if the id was there before.
pub revert_all-once :
    (id : ℕ) (count : ℤ) (c n : ℕ) (r : Redis)
    → revert_all id count c (suc n) r ≡ (
        if contains c r.reverted
        then r
        else record r { quantity = add_quantity id count r.quantity; reverted = c ∷ r.reverted })
unfolding revert_all
revert_all-once id count c n r = elim (Bool-cases (contains c r.reverted)) [
  | inl seen ↦ rw (revert_seen id count c r seen, seen) (revert_all-seen id count c n r seen)
  | inr fresh ↦
      rw (revert_first id count c r fresh, fresh)
        (revert_all-seen id count c n _ (unfold contains in ground arith))
]

-- The script leaves the keys of every other ticket type alone, and a key that does not exist.
pub revert_script-others :
    (id j : ℕ) (count : ℤ) (c : ℕ) (r : Redis)
    → (j ≢ id) ⊎ (r.quantity j ≡ none)
    → (after_script (revert_script id count c r)).quantity j ≡ r.quantity j
unfolding revert_script add_quantity
revert_script-others id j count c r h = ground arith
