-- ===== src/Webhook.antt =====
-- webhook.rs: delivery of a payment event with up to three attempts.
pub mod Laws
use crypto_payment_detector.Base.{
  ℕ, zero, suc, ◌+◌, ◌≡◌, Bool, not, ◌&&◌, List, [], ◌∷◌, if◌then◌else◌, ltb, leb, ◌==◌,
}
use crypto_payment_detector.Base.Text.{Text}
use crypto_payment_detector.Error.Defs.{DetectorError, Result, ok, err}

-- The answer to one HTTP request: a status code, or no response at all.
pub data Response : Type 0 where
  status : ℕ → Response
  failed : Text → Response

unfoldable pub is_success : ℕ → Bool
is_success n = leb 200 n && ltb n 300

unfoldable pub is_client_error : ℕ → Bool
is_client_error n = leb 400 n && ltb n 500

-- A client error other than 408 and 429 is final.
unfoldable pub is_final : ℕ → Bool
unfolding is_client_error
is_final n = is_client_error n && not (n == 408) && not (n == 429)

pub record Delivery : Type 0 where
  pub result : Result (Unit {0})
  pub requests : ℕ

-- What one answer does: success and a final client error end the loop, anything else goes on.
unfoldable pub judge : DetectorError → ℕ → Delivery → Response → Delivery
judge error done rest (status n) =
    if is_success n
    then record { result = ok tt; requests = suc done }
    else if is_final n
    then record { result = err error; requests = suc done }
    else rest
judge error done rest (failed e) = rest

-- The loop over the attempts that are left, after `done` requests. `answer` is the endpoint, by the
-- number of the request, and `error_of` the text of the error that an answer makes.
unfoldable pub attempts :
    (ℕ → Response) → (Response → DetectorError) → ℕ → ℕ → DetectorError → Delivery
unfolding judge
attempts answer error_of zero done last = record { result = err last; requests = done }
attempts answer error_of (suc left) done last =
    let error = error_of (answer done) in
    let rest = attempts answer error_of left (suc done) error in judge error done rest (answer done)

-- `ATTEMPTS` is 3; the last error is returned as soon as no attempt is left.
unfoldable pub send_webhook : (ℕ → Response) → (Response → DetectorError) → Delivery
unfolding attempts
send_webhook answer error_of = attempts answer error_of 3 0 (error_of (answer 0))
