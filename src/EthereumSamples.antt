-- ===== src/EthereumSamples.antt =====
-- Concrete data for the tests of the EVM detector: one managed wallet, one reservation, a chain whose
-- block 5 pays it, and nodes that show that chain.
use crypto_payment_detector.Base.{ℕ, ◌++◌, true, false, none, some, [], ◌∷◌, if◌then◌else◌, ◌==◌}
use crypto_payment_detector.Base.Text.{text, same}
use crypto_payment_detector.Types.Chains.{ethereum}
use crypto_payment_detector.Error.Defs.{api_error, webhook_error, ok, err}
use crypto_payment_detector.Webhook.{status}
use crypto_payment_detector.EvmPool.{ManagedEthereumWallet, EthereumReservation}
use crypto_payment_detector.Evm.Chain.{Ethers, EthTransaction, EthBlock, Receipt}
use crypto_payment_detector.Evm.State.{
  EthereumConfig, EthereumDetector, EthereumPendingPayment, EthereumState, World, Machine,
}
use crypto_payment_detector.Evm.View.{View}

abbrev pub ethers : Ethers ℕ
ethers = record {
  format_address = λ a. text "0x" ++ (a ∷ []);
  parse_address = λ t. if same t (text "0xa") then some 10 else none;
  parse_error = λ t. text "bad";
  format_hash = λ h. text "0x" ++ (h ∷ []);
  parse_hash = λ t. if same t (text "0x") then none else some 7;
  format_u256 = λ n. n ∷ [];
  parse_u256 = λ t. some 1000;
  transfer_topic = 3;
  f64_of_u256 = λ n. n;
  powi_10 = λ n. 1;
  ceil_u64 = λ n. n;
  ceil_u128 = λ n. n;
  u128_max = 340282366920938463463374607431768211455;
  format_2 = λ n. n ∷ [];
}

abbrev pub wallet : ManagedEthereumWallet
wallet = record { index = 0; address = text "0xa" }

abbrev pub alices : EthereumReservation
alices = record {
  user_id = text "alice";
  address = text "0xa";
  wallet_index = 0;
  reserved_at_unix = 1;
  expires_at_unix = 0;
}

abbrev pub eth_config : EthereumConfig ℕ
eth_config = record {
  chain = ethereum;
  min_confirmations = 2;
  max_blocks_per_cycle = 10;
  start_block = some 5;
  gas_tank_target_usd = 10;
  gas_tank_check_interval_secs = 60;
  token_transfer_gas_limit = 60000;
  gas_top_up_multiplier = 1;
  max_fee_ratio = 0;
  has_etherscan = false;
}

abbrev pub eth_detector : EthereumDetector ℕ
eth_detector = record {
  config = eth_config;
  wallets = wallet ∷ [];
  tokens = [];
  gas_tank_address = 90;
  ledger_address = 91;
  currency = text "USD";
}

abbrev pub deposit : EthTransaction
deposit = record { hash = 7; from = 50; to = some 10; value = 1000; block_number = some 5 }

abbrev pub view : View
view = record { transactions = λ b. if b == 5 then deposit ∷ [] else []; succeeded = λ h. true }

abbrev pub eth_block : ℕ → EthBlock EthTransaction
eth_block b = record { number = some b; hash = some 8; transactions = view.transactions b }

abbrev pub receipt_of : ℕ → Receipt
receipt_of h = record {
  transaction_hash = h;
  block_number = some 5;
  block_hash = some 8;
  status = some 1;
  logs = [];
}

abbrev pub eth_world : World ℕ
eth_world = record {
  block_number_answer = λ n. ok 6;
  block_answer = λ n b. ok (some (eth_block b));
  block_hashes_answer = λ n b. ok none;
  receipt_answer = λ n h. ok (some (receipt_of h));
  block_receipts_answer = λ n b. ok none;
  logs_answer = λ n a b. ok [];
  transaction_answer = λ n h. ok (some deposit);
  internals_answer = λ n a b c. ok [];
  reservations_answer = λ n. ok (alices ∷ []);
  balance_answer = λ n a. ok 1000000;
  token_balance_answer = λ n c a. ok 0;
  gas_price_answer = λ n. ok 2;
  estimate_answer = λ n t. err (api_error (text "busy"));
  send_answer = λ n t. ok (text "0xs");
  price_answer = λ n. ok 3000;
  eth_usd_answer = λ n. ok 3000;
  eth_eur_answer = λ n. ok 2700;
  webhook_answer = λ n. status 200;
  webhook_failure = λ r. webhook_error (text "no");
  save_answer = λ n. ok tt;
  unix_timestamp = λ n. n;
  others = λ n. [];
}

abbrev pub eth_state : EthereumState
eth_state = record {
  last_scanned_block = none;
  scan_cursors = none;
  pending = [];
  credited_events = [];
  ignored_events = [];
  gas_tank_last_maintenance_unix = none;
}

abbrev pub eth_machine : Machine ℕ
eth_machine = record {
  shared = eth_state;
  disk = eth_state;
  acknowledged = [];
  sent = [];
  clock = 0;
}

-- The same with the payment of block 5 in the outbox, still to be announced and credited.
abbrev pub queued : EthereumPendingPayment
queued = record {
  event_id = text "native:0x7:0xa";
  txid = text "0x7";
  block_number = 5;
  amount_base_units = text "1000";
  asset = text "ETH";
  asset_decimals = 18;
  token_contract = none;
  address = text "0xa";
  user_id = text "alice";
  wallet_index = 0;
  detected_notified = false;
}

abbrev pub queued_machine : Machine ℕ
queued_machine = record eth_machine { shared = record eth_state { pending = queued ∷ [] } }
