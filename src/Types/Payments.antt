-- ===== src/Types/Payments.antt =====
-- The payment and configuration structs of types.rs, and the persisted state of persistence.rs.
-- `F` is the type of the `f64` fields.
use crypto_payment_detector.Base.{ℕ, Option, none, List, [], Bool, false}
use crypto_payment_detector.Base.Text.{Text, text}
use crypto_payment_detector.Types.Chains.{Chain, bitcoin}

pub record DetectedPayment (F : Type 0) : Type 0 where
  pub chain : Chain
  pub ticker : Text
  pub txid : Text
  pub address : Text
  pub user_id : Option Text
  pub amount_sat : ℕ
  pub amount_coin : F
  pub confirmations : ℕ
  pub block_height : Option ℕ
  pub derivation_index : ℕ
  pub memo : Option Text
  pub swept_to_address : Option Text
  pub swept_amount_sat : Option ℕ
  pub swept_amount_coin : Option F
  pub sweep_txid : Option Text
  pub fiat_amount : Option F
  pub fiat_currency : Option Text
  pub coin_price : Option F
  pub event_id : Option Text
  pub log_index : Option ℕ
  pub asset : Option Text
  pub asset_decimals : Option ℕ
  pub amount_base_units : Option Text
  pub swept_amount_base_units : Option Text
  pub token_contract : Option Text

pub data WebhookEvent (F : Type 0) : Type 0 where
  payment_detected : DetectedPayment F → WebhookEvent F
  payment_credited : DetectedPayment F → WebhookEvent F

pub record PendingPayment (F : Type 0) : Type 0 where
  pub payment : DetectedPayment F
  pub block_height : ℕ
  pub detected_notified : Bool

pub record PersistedState (F : Type 0) : Type 0 where
  pub last_scanned_height : Option ℕ
  pub known_block_hashes : List (ℕ × Text)
  pub pending : List (PendingPayment F)
  pub notified_confirmed : List Text

pub record BasicAuth : Type 0 where
  pub username : Text
  pub password : Text

pub record RetryConfig : Type 0 where
  pub max_retries : ℕ
  pub base_delay_ms : ℕ

pub record DetectorConfig (F : Type 0) : Type 0 where
  pub chain : Chain
  pub xpub : Text
  pub webhook_url : Text
  pub webhook_hmac_secret : Text
  pub basic_auth : BasicAuth
  pub poll_interval_secs : ℕ
  pub proxy_url : Option Text
  pub state_file : Text
  pub fiat_currency : Text
  pub retry : RetryConfig
  pub explorer_api_url : Option Text
  pub min_confirmations : ℕ
  pub skip_initial_block_sync : Bool
  pub sweep_xpriv : Option Text
  pub sweep_destination : Option Text
  pub sweep_fee_rate_sats_per_vb : ℕ
  pub sweep_min_sat : ℕ
  pub sweep_max_fee_ratio : F

abbrev pub default_retry : RetryConfig
default_retry = record { max_retries = 5; base_delay_ms = 1000 }

-- `Default for DetectorConfig`; the argument is the double 0.10.
unfoldable pub default_config : {F : Type 0} → F → DetectorConfig F
default_config tenth = record {
  chain = bitcoin;
  xpub = [];
  webhook_url = [];
  webhook_hmac_secret = [];
  basic_auth = record { username = []; password = [] };
  poll_interval_secs = 30;
  proxy_url = none;
  state_file = text "detector_state.json";
  fiat_currency = text "EUR";
  retry = default_retry;
  explorer_api_url = none;
  min_confirmations = 1;
  skip_initial_block_sync = false;
  sweep_xpriv = none;
  sweep_destination = none;
  sweep_fee_rate_sats_per_vb = 5;
  sweep_min_sat = 5000;
  sweep_max_fee_ratio = tenth;
}
