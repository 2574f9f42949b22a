-- ===== src/Cache/Counts.antt =====
-- What the deduct scripts of internal/infrastructure/cache/lua do to the inventory keys.
use booking_monitor.Prelude.{
  ℕ, suc, ◌∷◌, sym, ◌≡◌, refl, Bool, if◌then◌else◌, some, arith, ◌∙◌, ap, true, false,
}
use booking_monitor.Prelude.Int.{ℤ, pos, ◌+ℤ◌, ◌-ℤ◌, ◌≤ℤ◌, ltb_ℤ, -ℤ_parts, +ℤ_parts, eq_of_parts}
use booking_monitor.Store.Redis.{Redis}
use booking_monitor.Cache.Deduct.{
  Formats, Args, Reply, accepted, sold_out, metadata_missing, deduct_no_xadd, deduct_lua,
  value_or_zero, set_quantity, price_reply, entry_of, xadd, settle_reply, publish_reply, decr_by,
  incr_by,
}

abbrev pub IsOk : Reply → Type 0
IsOk (accepted e a c) = Unit
IsOk sold_out = ⊥
IsOk metadata_missing = ⊥

-- What one run did to the keys: an accepted one took the count from a key that had that much, and
-- any other left every key with the value it had, a missing one of the ticket type counting as 0.
abbrev pub Took : ℕ → ℕ → Redis → Reply × Redis → Type 0
Took id n c (accepted e a u, c') =
    (c'.quantity id ≡ some (value_or_zero (c.quantity id) -ℤ pos n))
    × (pos n ≤ℤ value_or_zero (c.quantity id))
Took id n c (sold_out, c') = c'.quantity id ≡ some (value_or_zero (c.quantity id))
Took id n c (metadata_missing, c') = c'.quantity id ≡ some (value_or_zero (c.quantity id))

put_back : (a : ℤ) (n : ℕ) → (a -ℤ pos n) +ℤ pos n ≡ a
put_back a n = eq_of_parts _ _ (omega (arith, -ℤ_parts a (pos n), +ℤ_parts (a -ℤ pos n) (pos n)))

covered : (a : ℤ) (n : ℕ) → ltb_ℤ (a -ℤ pos n) (pos 0) ≡ false → pos n ≤ℤ a
covered a n h = ground (arith, -ℤ_parts a (pos n))

settle_reply-Took :
    (id n : ℕ) (c : Redis) (r : Reply)
    → (IsOk r → pos n ≤ℤ value_or_zero (c.quantity id))
    → Took id n c (settle_reply id n (decr_by id n c) r)
unfolding decr_by incr_by set_quantity
settle_reply-Took id n c (accepted e a u) h = (ground arith, h tt)
settle_reply-Took id n c sold_out h = ground (arith, put_back (value_or_zero (c.quantity id)) n)
settle_reply-Took id n c metadata_missing h =
    ground (arith, put_back (value_or_zero (c.quantity id)) n)

-- The reply that the script goes on with once the count is taken.
guarded-Took :
    (id n : ℕ) (c : Redis) (b : Bool) (r : Reply)
    → (b ≡ false → pos n ≤ℤ value_or_zero (c.quantity id))
    → Took id n c (settle_reply id n (decr_by id n c) (if b then sold_out else r))
guarded-Took id n c true r h = settle_reply-Took id n c sold_out (λ e. absurd e)
guarded-Took id n c false r h = settle_reply-Took id n c r (λ _. h refl)

pub decr_by-value :
    (id n : ℕ) (c : Redis)
    → value_or_zero ((decr_by id n c).quantity id) ≡ value_or_zero (c.quantity id) -ℤ pos n
unfolding decr_by set_quantity
decr_by-value id n c = ground arith

-- A run of the script for Kafka takes the count exactly where it answers `ok`, and only from a key
-- that has it; any other run leaves the key of the ticket type with its value (0 where it had none).
pub deduct_no_xadd-Took :
    (fmt : Formats) (id n : ℕ) (c : Redis) → Took id n c (deduct_no_xadd fmt id n c)
unfolding deduct_no_xadd
deduct_no_xadd-Took fmt id n c =
    let c' : Redis = decr_by id n c in
    guarded-Took id n c (ltb_ℤ (value_or_zero (c'.quantity id)) (pos 0))
      (price_reply fmt n (c'.metadata id))
      (λ b.
        covered (value_or_zero (c.quantity id)) n
          (sym (ap (λ x. ltb_ℤ x (pos 0)) (decr_by-value id n c)) ∙ b))

-- What a run left on the stream: an accepted one a new entry with the caller's arguments and the
-- reply's texts, and any other nothing.
abbrev pub Queued : Args → Redis → Reply × Redis → Type 0
Queued args c (accepted e a u, c') =
    (c'.stream ≡ entry_of args (suc c.last_entry) e a u ∷ c.stream)
    × (c'.last_entry ≡ suc c.last_entry)
Queued args c (sold_out, c') = c'.stream ≡ c.stream
Queued args c (metadata_missing, c') = c'.stream ≡ c.stream

abbrev SameStream : Redis → Redis → Type 0
SameStream c c' = (c'.stream ≡ c.stream) × (c'.last_entry ≡ c.last_entry)

settle_reply-SameStream :
    (id n : ℕ) (c : Redis) (r : Reply) → SameStream c (settle_reply id n (decr_by id n c) r).1
unfolding decr_by incr_by
settle_reply-SameStream id n c (accepted e a u) = (refl, refl)
settle_reply-SameStream id n c sold_out = (refl, refl)
settle_reply-SameStream id n c metadata_missing = (refl, refl)

publish_reply-Queued :
    (args : Args) (c : Redis) (p : Reply × Redis)
    → SameStream c p.1
    → Queued args c (publish_reply args p)
unfolding xadd
publish_reply-Queued args c (accepted e a u, c') h = (cc, cc)
publish_reply-Queued args c (sold_out, c') h = h.0
publish_reply-Queued args c (metadata_missing, c') h = h.0

publish_reply-Took :
    (args : Args) (id n : ℕ) (c : Redis) (p : Reply × Redis)
    → Took id n c p
    → Took id n c (publish_reply args p)
unfolding xadd
publish_reply-Took args id n c (accepted e a u, c') h = h
publish_reply-Took args id n c (sold_out, c') h = h
publish_reply-Took args id n c (metadata_missing, c') h = h

-- A run of deduct.lua takes the count and queues one entry with the caller's arguments exactly where
-- it answers `ok`, and only from a key that has the count; any other run queues nothing and leaves
-- the key of the ticket type with its value (0 where it had none).
pub deduct_lua-Took :
    (fmt : Formats) (id : ℕ) (args : Args) (c : Redis)
    → Took id args.count c (deduct_lua fmt id args c) × Queued args c (deduct_lua fmt id args c)
unfolding deduct_lua
deduct_lua-Took fmt id args c = (
  publish_reply-Took args id args.count c (deduct_no_xadd fmt id args.count c)
      (deduct_no_xadd-Took fmt id args.count c),
  publish_reply-Queued args c (deduct_no_xadd fmt id args.count c)
      (unfold deduct_no_xadd in settle_reply-SameStream id args.count c _),
)
