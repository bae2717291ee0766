-- ===== src/Error/Display.antt =====
-- error.rs: what an error displays, without the URLs that its message carries.
use crypto_payment_detector.Base.{Option, none, some, ◌++◌, if◌then◌else◌}
use crypto_payment_detector.Base.Text.{Text, text, decimal}
use crypto_payment_detector.Error.Defs.{
  RequestError, DetectorError, invalid_xpub, derivation_failed, api_error, webhook_error,
  authentication_failed, invalid_config, http_error, serialization_error, redis_error,
  bitcoin_error,
}
use crypto_payment_detector.Error.Redact.{redact_urls}

kind_without_status : RequestError → Text
kind_without_status e =
    if e.is_timeout
    then text "request timed out"
    else if e.is_connect
    then text "connection failed"
    else if e.is_decode
    then text "response decoding failed"
    else if e.is_builder
    then text "request construction failed"
    else text "request failed"

kind_of_status : Option Text → Text → Text
kind_of_status none kind = kind
kind_of_status (some status) kind = text "upstream returned " ++ status

unfoldable pub request_error_kind : RequestError → Text
unfolding kind_of_status kind_without_status
request_error_kind e = kind_of_status e.status (kind_without_status e)

-- `Display for DetectorError`.
unfoldable pub fmt : DetectorError → Text
unfolding redact_urls request_error_kind decimal
fmt (invalid_xpub message) = text "Invalid xpub key: " ++ redact_urls message
fmt (derivation_failed index reason) =
    text "Address derivation failed for index " ++ decimal index ++ text ": " ++ redact_urls reason
fmt (api_error message) = text "API request failed: " ++ redact_urls message
fmt (webhook_error message) = text "Webhook delivery failed: " ++ redact_urls message
fmt authentication_failed = text "Authentication failed"
fmt (invalid_config message) = text "Invalid configuration: " ++ redact_urls message
fmt (http_error error) = text "HTTP error: " ++ request_error_kind error
fmt (serialization_error error) = text "Serialization error: " ++ error
fmt (redis_error message) = text "Redis error: " ++ redact_urls message
fmt (bitcoin_error message) = text "Bitcoin key error: " ++ redact_urls message
