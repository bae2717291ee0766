-- ===== src/Error/Defs.antt =====
-- The error type of error.rs and results.
use crypto_payment_detector.Base.{ℕ, Option, Bool, ◌≡◌, refl, ◌⊎◌, inl, inr}
use crypto_payment_detector.Base.Text.{Text}

-- What the source asks of a `reqwest::Error`: its status as displayed, and its kind.
pub record RequestError : Type 0 where
  pub status : Option Text
  pub is_timeout : Bool
  pub is_connect : Bool
  pub is_decode : Bool
  pub is_builder : Bool

-- A `serde_json::Error` is the text that it displays.
pub data DetectorError : Type 0 where
  invalid_xpub : Text → DetectorError
  derivation_failed : ℕ → Text → DetectorError
  api_error : Text → DetectorError
  webhook_error : Text → DetectorError
  authentication_failed : DetectorError
  invalid_config : Text → DetectorError
  http_error : RequestError → DetectorError
  serialization_error : Text → DetectorError
  redis_error : Text → DetectorError
  bitcoin_error : Text → DetectorError

pub data Result {ℓ} (A : Type ℓ) : Type ℓ where
  ok : A → Result A
  err : DetectorError → Result A

pub Result-cases {ℓ} :
    {A : Type ℓ} (r : Result A) → ((a : A) × (r ≡ ok a)) ⊎ ((e : DetectorError) × (r ≡ err e))
Result-cases (ok a) = inl (a, refl)
Result-cases (err e) = inr (e, refl)
