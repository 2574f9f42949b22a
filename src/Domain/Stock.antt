-- ===== src/Domain/Stock.antt =====
-- The factory of internal/domain/ticket_type.go and `Deduct` of internal/domain/event.go against a
-- description of their results.
use booking_monitor.Prelude.{ℕ, ◌<◌, ◌≡◌, ap, sym, ◌∙◌, true, false, Option, none, some, arith}
use booking_monitor.Prelude.Int.{ℤ, pos, ◌+ℤ◌, ◌-ℤ◌, ◌<ℤ◌, ◌≤ℤ◌, -ℤ_parts, +ℤ_parts, eq_of_parts}
use booking_monitor.Domain.Errors.{ok}
use booking_monitor.Domain.Currency.{Text, is_valid_currency_code, normalize_currency}
use booking_monitor.Domain.TicketType.{
  TicketType, is_blank, is_bad_window, is_bad_limit, new_ticket_type,
}
use booking_monitor.Domain.Event.{Event, deduct}

-- A sale that ends has begun before.
abbrev pub IsWindow : Option ℕ → Option ℕ → Type 0
IsWindow starts none = Unit
IsWindow none (some e) = ⊥
IsWindow (some b) (some e) = b < e

-- A limit fits the column of the table.
abbrev pub IsLimit : Option ℤ → Type 0
IsLimit none = Unit
IsLimit (some l) = (pos 0 <ℤ l) × (l ≤ℤ pos 2147483647)

-- A ticket type that is fit to be sold, with all its tickets left.
pub record IsOnSale (trim : Text → Text) (t : TicketType) : Type 0 where
  pub has_id : 0 < t.id
  pub has_event : 0 < t.event_id
  pub has_name : is_blank trim t.name ≡ false
  pub has_price : pos 0 <ℤ t.price_cents
  pub has_currency : is_valid_currency_code t.currency ≡ true
  pub has_tickets : pos 0 <ℤ t.total_tickets
  pub all_left : t.available_tickets ≡ t.total_tickets
  pub has_window : IsWindow t.sale_starts_at t.sale_ends_at
  pub has_limit : IsLimit t.per_user_limit
  pub is_new : t.version ≡ pos 0

is_bad_window-IsWindow :
    (starts ends : Option ℕ) → is_bad_window starts ends ≡ false → IsWindow starts ends
is_bad_window-IsWindow none none h = tt
is_bad_window-IsWindow none (some e) h = absurd cc
is_bad_window-IsWindow (some b) none h = tt
is_bad_window-IsWindow (some b) (some e) h = ground arith

is_bad_limit-IsLimit : (limit : Option ℤ) → is_bad_limit limit ≡ false → IsLimit limit
is_bad_limit-IsLimit none h = tt
is_bad_limit-IsLimit (some l) h = (ground arith, ground arith)

-- `NewTicketType` returns what was asked for, its currency normalised, and only what is fit to be
-- sold: the ids are not zero, the name is not blank, price and total are positive, the currency is a
-- code, a sale that ends has begun before, a limit for each user is positive and fits in 32 bits, and
-- all the tickets are left.
pub new_ticket_type-IsOnSale :
    (lower trim : Text → Text) (id event : ℕ) (name : Text) (price : ℤ) (currency : Text)
    (total : ℤ) (starts ends : Option ℕ) (limit : Option ℤ) (area : Text) {t : TicketType}
    → new_ticket_type lower trim id event name price currency total starts ends limit area ≡ ok t
    → IsOnSale trim t
      × (t.id ≡ id)
      × (t.event_id ≡ event)
      × (t.name ≡ name)
      × (t.price_cents ≡ price)
      × (t.currency ≡ normalize_currency lower currency)
      × (t.total_tickets ≡ total)
      × (t.sale_starts_at ≡ starts)
      × (t.sale_ends_at ≡ ends)
      × (t.per_user_limit ≡ limit)
      × (t.area_label ≡ area)
unfolding new_ticket_type
new_ticket_type-IsOnSale lower trim id event name price currency total starts ends limit area {t}
      h =
    let window : is_bad_window t.sale_starts_at t.sale_ends_at ≡ false = ground arith in
    let small : is_bad_limit t.per_user_limit ≡ false = ground arith in
    (
      record {
        has_id = ground arith;
        has_event = ground arith;
        has_name = ground arith;
        has_price = ground arith;
        has_currency = ground arith;
        has_tickets = ground arith;
        all_left = ground arith;
        has_window = is_bad_window-IsWindow _ _ window;
        has_limit = is_bad_limit-IsLimit _ small;
        is_new = ground arith;
      },
      ground arith,
      ground arith,
      ground arith,
      ground arith,
      ground arith,
      ground arith,
      ground arith,
      ground arith,
      ground arith,
      ground arith,
    )

sub_back : (a q : ℤ) → a -ℤ q +ℤ q ≡ a
sub_back a q = eq_of_parts _ _ (omega (arith, -ℤ_parts a q, +ℤ_parts (a -ℤ q) q))

deduct-ok :
    (e : Event) (q : ℤ) {e' : Event}
    → deduct e q ≡ ok e'
    → (e' ≡ record e { available_tickets = e.available_tickets -ℤ q })
      × (pos 0 ≤ℤ q)
      × (q ≤ℤ e.available_tickets)
unfolding deduct
deduct-ok e q h = (ground arith, ground arith, ground arith)

nonnegative_left : (a q : ℤ) → q ≤ℤ a → pos 0 ≤ℤ a -ℤ q
nonnegative_left a q h = omega (arith, -ℤ_parts a q)

-- A deduction that succeeds takes what was asked, which is not negative, leaves a count that is not
-- negative, and changes nothing else.
pub deduct-left :
    (e : Event) (q : ℤ) {e' : Event}
    → deduct e q ≡ ok e'
    → (e'.available_tickets +ℤ q ≡ e.available_tickets)
      × (pos 0 ≤ℤ e'.available_tickets)
      × (pos 0 ≤ℤ q)
      × (e' ≡ record e { available_tickets = e'.available_tickets })
deduct-left e q {e'} h =
    let (result, asked, enough) = deduct-ok e q h in
    let count : e'.available_tickets ≡ e.available_tickets -ℤ q =
      ap (λ (x : Event). x.available_tickets) result in
    (
      rw count (sub_back e.available_tickets q),
      rw count (nonnegative_left e.available_tickets q enough),
      asked,
      result ∙ ap (λ n. record e { available_tickets = n }) (sym count),
    )
