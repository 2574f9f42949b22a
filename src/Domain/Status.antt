-- ===== src/Domain/Status.antt =====
-- The order statuses of internal/domain/order.go. `OrderStatus` is a Go string type; the model has
-- one constructor for each constant, `text` gives its string, and `is_valid` tests any string.
use Prim.Native.String.{String}
use package.text.Mathlib.Text.{◌==◌ as str_eq}
use booking_monitor.Prelude.{Bool, true, false, ◌||◌, List, [], ◌∷◌}

pub data OrderStatus : Type 0 where
  confirmed pending charging failed : OrderStatus
  awaiting_payment paid expired payment_failed : OrderStatus
  compensated : OrderStatus

pub OrderStatus-discrete : Discrete OrderStatus
OrderStatus-discrete = hlevel

abbrev pub text : OrderStatus → String
text confirmed = "confirmed"
text pending = "pending"
text charging = "charging"
text failed = "failed"
text awaiting_payment = "awaiting_payment"
text paid = "paid"
text expired = "expired"
text payment_failed = "payment_failed"
text compensated = "compensated"

-- `switch s { case …: return true }`, the cases in the order of the source.
unfoldable pub is_valid : String → Bool
is_valid s =
    (str_eq s "confirmed" || str_eq s "pending" || str_eq s "charging" || str_eq s "failed")
    || (str_eq s "awaiting_payment"
        || str_eq s "paid"
        || str_eq s "expired"
        || str_eq s "payment_failed")
    || str_eq s "compensated"

-- Go's `==` on two statuses. The catch-all takes every pair of different statuses.
abbrev pub same : OrderStatus → OrderStatus → Bool
same confirmed confirmed = true
same pending pending = true
same charging charging = true
same failed failed = true
same awaiting_payment awaiting_payment = true
same paid paid = true
same expired expired = true
same payment_failed payment_failed = true
same compensated compensated = true
same _ _ = false

-- SQL's `status = ANY(…)`.
abbrev pub is_one_of : OrderStatus → List OrderStatus → Bool
is_one_of s [] = false
is_one_of s (t ∷ ts) = same s t || is_one_of s ts
