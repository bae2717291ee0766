-- ===== src/Utxo/State.antt =====
-- The state of `ChainDetector` in blockstream.rs, and the world that answers its requests.
use crypto_payment_detector.Base.{ℕ, suc, Option, List}
use crypto_payment_detector.Base.Text.{Text}
use crypto_payment_detector.Types.Payments.{
  DetectedPayment, WebhookEvent, PendingPayment, PersistedState, DetectorConfig,
}
use crypto_payment_detector.Error.Defs.{DetectorError, Result}
use crypto_payment_detector.Error.Exec.{Exec, modify}
use crypto_payment_detector.Webhook.{Response}
use crypto_payment_detector.BitcoinSweep.{BitcoinSweepConfig, SweepEnv}

pub record SharedState (F : Type 0) : Type 0 where
  pub notified_confirmed : List Text
  pub last_scanned_height : Option ℕ
  pub pending : List (PendingPayment F)
  pub known_block_hashes : List (ℕ × Text)

pub data ExplorerApi : Type 0 where
  esplora blockchair : Text → ExplorerApi

-- The fields of `ChainDetector` that never change.
pub record Detector (F : Type 0) : Type 0 where
  pub config : DetectorConfig F
  pub explorer_apis : List ExplorerApi
  pub sweep_config : Option (BitcoinSweepConfig F)
  pub currency : Text

-- A block as far as the scan reads it. `address` is what `bitcoin::Address::from_script` makes of
-- the output's script on the Bitcoin network.
pub record TxOut : Type 0 where
  pub address : Option Text
  pub value : ℕ

pub record Transaction : Type 0 where
  pub txid : Text
  pub output : List TxOut

abbrev pub Block : Type 0
Block = List Transaction

-- Everything that the detector does not decide, by the number of questions asked so far: what the
-- webhook endpoint, the disk, the price service and the explorer answer, and the payments that
-- another task enqueues while this one waits (`none` if no other task runs).
pub record World (F : Type 0) : Type 0 where
  pub webhook_answer : ℕ → Response
  pub webhook_failure : Response → DetectorError
  pub save_answer : ℕ → Result (Unit {0})
  pub price_answer : ℕ → Result F
  pub sweep_answer : ℕ → SweepEnv
  pub tip_answer : ℕ → ExplorerApi → Result ℕ
  pub block_hash_answer : ℕ → ExplorerApi → ℕ → Result Text
  pub block_answer : ℕ → ExplorerApi → Text → Result Block
  -- the key derivation for the detector's xpub and chain, and the change of a Bitcoin segwit address
  -- to the Litecoin prefix, both of the `bitcoin` and `bech32` crates
  pub derive_address : ℕ → Result Text
  pub to_ltc : Text → Option Text
  pub arrivals : ℕ → Option (List (DetectedPayment F))

-- The shared state, the state file, the explorer in use, the events that the endpoint acknowledged
-- (newest first), and the number of questions asked.
pub record Machine (F : Type 0) : Type 0 where
  pub shared : SharedState F
  pub disk : PersistedState F
  pub active_explorer_index : ℕ
  pub acknowledged : List (WebhookEvent F)
  pub clock : ℕ

abbrev pub Action : Type 0 → Type 0 → Type 0
Action F A = Exec (Machine F) A

module _ {F : Type 0} where
  abbrev pub modify_shared : (SharedState F → SharedState F) → Action F (Unit {0})
  modify_shared f = modify (λ m. record m { shared = f m.shared })

  abbrev pub tick : Machine F → Machine F
  tick m = record m { clock = suc m.clock }
