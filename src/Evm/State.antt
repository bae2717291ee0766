-- ===== src/Evm/State.antt =====
-- The state of `EthereumDetector` in ethereum.rs, and the world that answers its requests.
use crypto_payment_detector.Base.{ℕ, suc, Bool, Option, List}
use crypto_payment_detector.Base.Text.{Text}
use crypto_payment_detector.Types.Chains.{Chain}
use crypto_payment_detector.Types.Payments.{WebhookEvent}
use crypto_payment_detector.Error.Defs.{DetectorError, Result}
use crypto_payment_detector.Error.Exec.{Exec, modify}
use crypto_payment_detector.Webhook.{Response}
use crypto_payment_detector.EvmPool.{EthereumReservation, ManagedEthereumWallet}
use crypto_payment_detector.Evm.Chain.{
  Receipt, Log, EthTransaction, EthBlock, InternalTx, Erc20TokenConfig, Transfer,
}

-- The fields that the modelled code reads.
pub record EthereumConfig (F : Type 0) : Type 0 where
  pub chain : Chain
  pub min_confirmations : ℕ
  pub max_blocks_per_cycle : ℕ
  pub start_block : Option ℕ
  pub gas_tank_target_usd : F
  pub gas_tank_check_interval_secs : ℕ
  pub token_transfer_gas_limit : ℕ
  pub gas_top_up_multiplier : F
  pub max_fee_ratio : F
  pub has_etherscan : Bool

pub record EthereumDetector (F : Type 0) : Type 0 where
  pub config : EthereumConfig F
  pub wallets : List ManagedEthereumWallet
  pub tokens : List Erc20TokenConfig
  pub gas_tank_address : ℕ
  pub ledger_address : ℕ
  pub currency : Text

pub record EthereumPendingPayment : Type 0 where
  pub event_id : Text
  pub txid : Text
  pub block_number : ℕ
  pub amount_base_units : Text
  pub asset : Text
  pub asset_decimals : ℕ
  pub token_contract : Option Text
  pub address : Text
  pub user_id : Text
  pub wallet_index : ℕ
  pub detected_notified : Bool

pub record EthereumScanCursors : Type 0 where
  pub native_cursor : Option ℕ
  pub erc20_cursor : Option ℕ
  pub internal_cursor : Option ℕ

pub data ScanKind : Type 0 where
  native erc20 internal : ScanKind

pub record EthereumState : Type 0 where
  pub last_scanned_block : Option ℕ
  pub scan_cursors : Option EthereumScanCursors
  pub pending : List EthereumPendingPayment
  pub credited_events : List Text
  pub ignored_events : List Text
  pub gas_tank_last_maintenance_unix : Option ℕ

pub record DetectedEthereumPayment : Type 0 where
  pub event_id : Text
  pub txid : Text
  pub block_number : ℕ
  pub amount : ℕ
  pub asset : Text
  pub asset_decimals : ℕ
  pub token_contract : Option ℕ
  pub reservation : EthereumReservation

pub record SweepResult : Type 0 where
  pub amount : ℕ
  pub txid : Option Text
  pub deferred : Bool

-- What another task does to the shared state while this one awaits: it enqueues a detected
-- payment, moves a cursor, or, in a credit cycle, marks or removes an event.
pub data Other : Type 0 where
  enqueues : DetectedEthereumPayment → Other
  advances : ScanKind → ℕ → Other
  credits : Text → Other
  ignores : Text → Other
  finishes : Text → Other

-- Everything that the detector does not decide, by the number of questions asked so far. Each answer
-- of the node is the one after the retries and the fail-over of `read_rpc` and `with_rpc_retry`.
pub record World (F : Type 0) : Type 0 where
  pub block_number_answer : ℕ → Result ℕ
  pub block_answer : ℕ → ℕ → Result (Option (EthBlock EthTransaction))
  pub block_hashes_answer : ℕ → ℕ → Result (Option (EthBlock ℕ))
  pub receipt_answer : ℕ → ℕ → Result (Option Receipt)
  pub block_receipts_answer : ℕ → ℕ → Result (Option (List Receipt))
  pub logs_answer : ℕ → ℕ → ℕ → Result (List Log)
  pub transaction_answer : ℕ → ℕ → Result (Option EthTransaction)
  pub internals_answer : ℕ → ℕ → ℕ → ℕ → Result (List InternalTx)
  pub reservations_answer : ℕ → Result (List EthereumReservation)
  pub balance_answer : ℕ → ℕ → Result ℕ
  pub token_balance_answer : ℕ → ℕ → ℕ → Result ℕ
  pub gas_price_answer : ℕ → Result ℕ
  pub estimate_answer : ℕ → Transfer → Result ℕ
  pub send_answer : ℕ → Transfer → Result Text
  pub price_answer : ℕ → Result F
  pub eth_usd_answer : ℕ → Result F
  pub eth_eur_answer : ℕ → Result F
  pub webhook_answer : ℕ → Response
  pub webhook_failure : Response → DetectorError
  pub save_answer : ℕ → Result (Unit {0})
  pub unix_timestamp : ℕ → ℕ
  pub others : ℕ → List Other

-- The shared state, the state file, the events that the endpoint acknowledged and the transactions
-- handed to the node, both newest first, and the number of questions asked.
pub record Machine (F : Type 0) : Type 0 where
  pub shared : EthereumState
  pub disk : EthereumState
  pub acknowledged : List (WebhookEvent F)
  pub sent : List Transfer
  pub clock : ℕ

abbrev pub Action : Type 0 → Type 0 → Type 0
Action F A = Exec (Machine F) A

module _ {F : Type 0} where
  abbrev pub modify_shared : (EthereumState → EthereumState) → Action F (Unit {0})
  modify_shared f = modify (λ m. record m { shared = f m.shared })

  abbrev pub tick : Machine F → Machine F
  tick m = record m { clock = suc m.clock }
