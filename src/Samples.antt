-- ===== src/Samples.antt =====
-- Concrete data for the tests: doubles read as whole numbers, a detector with two explorers, a
-- payment, and worlds that answer everything or nothing.
use crypto_payment_detector.Base.{
  ◌++◌, ℕ, zero, suc, ◌*◌, ◌/◌, true, false, none, some, List, [], ◌∷◌, ltb, leb,
}
use crypto_payment_detector.Base.Text.{Text, text}
use crypto_payment_detector.Base.Float.{Float}
use crypto_payment_detector.Types.Chains.{bitcoin}
use crypto_payment_detector.Types.Payments.{DetectedPayment, PendingPayment, DetectorConfig}
use crypto_payment_detector.Error.Defs.{api_error, webhook_error, Result, ok, err}
use crypto_payment_detector.Webhook.{Response, status}
use crypto_payment_detector.EvmPool.{ManagedEthereumWallet, EthereumReservation, Pool, PoolEnv}
use crypto_payment_detector.BitcoinSweep.{BitcoinSweepConfig, EsploraUtxo, SweepEnv}
use crypto_payment_detector.Utxo.State.{
  SharedState, ExplorerApi, esplora, blockchair, Detector, World, Machine,
}

-- The doubles as whole numbers; division by zero is zero here.
abbrev pub whole : Float ℕ
whole = record {
  of_u64 = λ n. n;
  mul = λ a b. a * b;
  div = λ a b. a / b;
  lt = ltb;
  le = leb;
  is_finite = λ a. true;
}

abbrev pub config : DetectorConfig ℕ
config = record {
  chain = bitcoin;
  xpub = text "xpub";
  webhook_url = text "https://shop/hook";
  webhook_hmac_secret = text "key";
  basic_auth = record { username = text "u"; password = text "p" };
  poll_interval_secs = 60;
  proxy_url = none;
  state_file = text "state.json";
  fiat_currency = text "usd";
  retry = record { max_retries = 3; base_delay_ms = 500 };
  explorer_api_url = none;
  min_confirmations = 2;
  skip_initial_block_sync = false;
  sweep_xpriv = none;
  sweep_destination = none;
  sweep_fee_rate_sats_per_vb = 5;
  sweep_min_sat = 1000;
  sweep_max_fee_ratio = 0;
}

abbrev pub detector : Detector ℕ
detector = record {
  config = config;
  explorer_apis = blockchair (text "b") ∷ esplora (text "e") ∷ [];
  sweep_config = none;
  currency = text "usd";
}

abbrev pub payment : Text → Text → ℕ → DetectedPayment ℕ
payment txid address amount = record {
  chain = bitcoin;
  ticker = text "BTC";
  txid = txid;
  address = address;
  user_id = none;
  amount_sat = amount;
  amount_coin = 0;
  confirmations = 1;
  block_height = some 100;
  derivation_index = 7;
  memo = none;
  swept_to_address = none;
  swept_amount_sat = none;
  swept_amount_coin = none;
  sweep_txid = none;
  fiat_amount = none;
  fiat_currency = none;
  coin_price = none;
  event_id = none;
  log_index = none;
  asset = none;
  asset_decimals = none;
  amount_base_units = none;
  swept_amount_base_units = none;
  token_contract = none;
}

abbrev pub outbox_entry : PendingPayment ℕ
outbox_entry = record {
  payment = record (payment (text "t") (text "a") 5000) { event_id = some (text "t:a") };
  block_height = 100;
  detected_notified = false;
}

abbrev pub shared : SharedState ℕ
shared = record {
  notified_confirmed = [];
  last_scanned_height = some 100;
  pending = outbox_entry ∷ [];
  known_block_hashes = (100, text "hash-100") ∷ (99, text "hash-099") ∷ [];
}

abbrev pub machine : Machine ℕ
machine = record {
  shared = shared;
  disk = record {
    last_scanned_height = none;
    known_block_hashes = [];
    pending = [];
    notified_confirmed = [];
  };
  active_explorer_index = 0;
  acknowledged = [];
  clock = 0;
}

abbrev pub spent : List EsploraUtxo
spent =
    record { txid = text "t"; vout = 0; value = 60000 }
    ∷ record { txid = text "u"; vout = 1; value = 40000 }
    ∷ []

abbrev pub sweep_config : BitcoinSweepConfig ℕ
sweep_config = record {
  chain = bitcoin;
  xpriv = text "xpriv";
  destination = text "cold";
  fee_rate_sats_per_vb = 5;
  min_sweep_sat = 1000;
  max_fee_ratio = 0;
}

abbrev pub sweep_env : SweepEnv
sweep_env = record {
  fetch_raw_utxos = λ url address. ok spent;
  sign_and_encode = λ tx. ok (text "signed");
  broadcast_tx = λ url hex. ok (text "sweep");
}

-- A world in which the endpoint accepts, the disk writes, and the chain has one empty block.
abbrev pub up : World ℕ
up = record {
  webhook_answer = λ n. status 200;
  webhook_failure = λ r. webhook_error (text "refused");
  save_answer = λ n. ok tt;
  price_answer = λ n. ok 3;
  sweep_answer = λ n. sweep_env;
  tip_answer = λ n e. ok 105;
  block_hash_answer = λ n e h. ok (text "new-hash");
  block_answer = λ n e hash. ok [];
  derive_address = λ n. ok (text "a");
  to_ltc = λ a. some a;
  arrivals = λ n. none;
}

-- The first explorer of the list fails, the second works.
abbrev pub tip_of : ExplorerApi → Result ℕ
tip_of (esplora url) = ok 105
tip_of (blockchair url) = err (api_error (text "down"))

-- The endpoint is overloaded at first, then accepts.
abbrev pub slow_endpoint : ℕ → Response
slow_endpoint zero = status 503
slow_endpoint (suc n) = status 200

-- A world with an address of its own for each index.
abbrev pub indexed : World ℕ
indexed = record up { derive_address = λ n. ok (n ∷ []) }

abbrev pub eth : Text
eth = text "ethereum:assignment:"

abbrev pub reservation : EthereumReservation
reservation = record {
  user_id = text "ann";
  address = text "0xa";
  wallet_index = 0;
  reserved_at_unix = 9;
  expires_at_unix = 0;
}

-- A pool of one wallet, which Ann has.
abbrev pub pool : Pool
pool = record {
  wallets = record { index = 0; address = text "0xa" } ∷ [];
  store = (eth ++ text "0xa", reservation) ∷ (text "base:assignment:0xa", reservation) ∷ [];
}

abbrev pub pool_env : PoolEnv
pool_env = record {
  unix_timestamp = 10;
  max_pool_size = 10000;
  random_address = λ i. some (text "0xb");
  append_to_pool_file = λ w. ok tt;
}

abbrev pub new_wallet : ManagedEthereumWallet
new_wallet = record { index = 1; address = text "0xb" }

-- A request that fails once.
abbrev pub flaky : ℕ → Result ℕ
flaky zero = err (api_error (text "down"))
flaky (suc n) = ok 105
