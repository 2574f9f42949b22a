-- ===== src/Prelude/Lists.antt =====
-- Lists measured by native numbers, predicates over lists, and tables with a primary key: a table
-- is a list of rows, and a lookup or an update concerns the first row that has the key.
use Prim.Native.Nat.{ℕ, zero, suc}
use mathlib.Core.Path.{◌≡◌, refl}
use mathlib.Core.Logic.{◌≢◌}
use mathlib.Core.Bool.{Bool}
use mathlib.Core.List.{List, [], ◌∷◌}
use mathlib.Core.Option.{Option, none, some}
use native.Mathlib.Omega.{arith}
use booking_monitor.Prelude.Tests.{leb, ◌==◌, if◌then◌else◌}

module _ {ℓ} {A : Type ℓ} where
  abbrev pub length : List A → ℕ
  length [] = 0
  length (x ∷ xs) = suc (length xs)

  abbrev pub take : ℕ → List A → List A
  take zero xs = []
  take (suc n) [] = []
  take (suc n) (x ∷ xs) = x ∷ take n xs

abbrev pub All {ℓ κ} : {A : Type ℓ} → (A → Type κ) → List A → Type κ
All P [] = Unit
All P (x ∷ xs) = P x × All P xs

pub All-map {ℓ κ} :
    {A : Type ℓ} {P Q : A → Type κ} → ((a : A) → P a → Q a) → (xs : List A) → All P xs → All Q xs
All-map f [] h = tt
All-map f (x ∷ xs) h = (f x h.0, All-map f xs h.1)

-- The elements that a test accepts.
unfoldable pub select {ℓ} : {A : Type ℓ} → (A → Bool) → List A → List A
select p [] = []
select p (x ∷ xs) = if p x then x ∷ select p xs else select p xs

module _ {ℓ} {A : Type ℓ} (key : A → ℕ) where
  unfoldable pub find : ℕ → List A → Option A
  find k [] = none
  find k (x ∷ xs) = if key x == k then some x else find k xs

  unfoldable pub update : ℕ → (A → A) → List A → List A
  update k f [] = []
  update k f (x ∷ xs) = if key x == k then f x ∷ xs else x ∷ update k f xs

  pub key_of_find : (k : ℕ) (xs : List A) (a : A) → find k xs ≡ some a → key a ≡ k
  unfolding find
  key_of_find k [] a e = cc
  key_of_find k (x ∷ xs) a e = ground (arith, key_of_find k xs a)

  -- An update that keeps the key is seen by the lookup of that key, and by no other.
  pub find-update_self :
      (k : ℕ) (f : A → A) (xs : List A) (a : A)
      → key (f a) ≡ k
      → find k xs ≡ some a
      → find k (update k f xs) ≡ some (f a)
  unfolding find update
  find-update_self k f [] a h e = cc
  find-update_self k f (x ∷ xs) a h e = ground (arith, find-update_self k f xs a h)

  pub find-update-none : (k : ℕ) (f : A → A) (xs : List A) → find k xs ≡ none → update k f xs ≡ xs
  unfolding find update
  find-update-none k f [] e = refl
  find-update-none k f (x ∷ xs) e = ground (arith, find-update-none k f xs)

  pub find-update_ne :
      (j k : ℕ) (f : A → A) (xs : List A)
      → ((a : A) → key (f a) ≡ key a)
      → j ≢ k
      → find j (update k f xs) ≡ find j xs
  unfolding find update
  find-update_ne j k f [] h ne = refl
  find-update_ne j k f (x ∷ xs) h ne = ground (arith, h x, find-update_ne j k f xs h ne)

  -- SQL's `ORDER BY key ASC`.
  insert_sorted : A → List A → List A
  insert_sorted a [] = a ∷ []
  insert_sorted a (x ∷ xs) = if leb (key a) (key x) then a ∷ x ∷ xs else x ∷ insert_sorted a xs

  unfoldable pub order_by : List A → List A
  unfolding insert_sorted
  order_by [] = []
  order_by (x ∷ xs) = insert_sorted x (order_by xs)

  -- SQL's `ORDER BY key DESC`.
  insert_sorted_desc : A → List A → List A
  insert_sorted_desc a [] = a ∷ []
  insert_sorted_desc a (x ∷ xs) =
      if leb (key x) (key a) then a ∷ x ∷ xs else x ∷ insert_sorted_desc a xs

  unfoldable pub order_by_desc : List A → List A
  unfolding insert_sorted_desc
  order_by_desc [] = []
  order_by_desc (x ∷ xs) = insert_sorted_desc x (order_by_desc xs)
