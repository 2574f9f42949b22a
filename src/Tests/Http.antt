-- ===== src/Tests/Http.antt =====
-- Concrete inputs for the idempotency middleware.
use booking_monitor.Prelude.{ℕ, zero, suc, false, [], ◌∷◌, ◌++◌, length}
use booking_monitor.Domain.Errors.{Result, ok, err, infra}
use booking_monitor.Domain.Currency.{Text}
use booking_monitor.Store.Exec.{pure}
use booking_monitor.Http.Idempotency.{Response, IdempotencyRecord, Codec, Handler}

-- A format: the status, the length of the body, the body and the fingerprint.
cut : ℕ → Text → Text × Text
cut zero text = ([], text)
cut (suc n) [] = ([], [])
cut (suc n) (c ∷ text) = let (a, b) = cut n text in (c ∷ a, b)

abbrev opened : Text → Result IdempotencyRecord
opened (status ∷ n ∷ rest) =
    let (body, fp) = cut n rest in
    ok (record { status_code = status; body = body; fingerprint = fp })
opened _ = err infra

-- The hash puts a mark before the body.
abbrev plain_codec : Codec
plain_codec = record {
  marshal = λ e. ok (e.status_code ∷ length e.body ∷ e.body ++ e.fingerprint);
  unmarshal = opened;
  sha256_hex = λ body. b'#' ∷ body;
}

abbrev order_key : Text
order_key = b'k' ∷ b'1' ∷ []

abbrev one_order : Text
one_order = b'{' ∷ b'}' ∷ []

abbrev accept : Handler
accept body = pure (record { status = 202; body = b'o' ∷ b'k' ∷ []; replayed = false })

abbrev reject : Handler
reject body = pure (record { status = 500; body = []; replayed = false })

abbrev accepted : Response
accepted = record { status = 202; body = b'o' ∷ b'k' ∷ []; replayed = false }
