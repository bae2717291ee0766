-- ===== src/Utxo/Block.antt =====
-- The scan of one block in blockstream.rs: the addresses that the detector watches, and the
-- payments to them.
use crypto_payment_detector.Base.{
  ℕ, zero, suc, ◌+◌, Option, none, some, List, [], ◌∷◌, ◌++◌, if◌then◌else◌, add_u64,
  saturating_sub,
}
use crypto_payment_detector.Base.Text.{Text, text, same, starts_with}
use crypto_payment_detector.Base.Float.{Float}
use crypto_payment_detector.Types.Chains.{
  Chain, bitcoin, litecoin, solana, ethereum, base, ticker, sats_per_unit,
}
use crypto_payment_detector.Types.Payments.{DetectedPayment}
use crypto_payment_detector.Error.Defs.{Result, ok, err}
use crypto_payment_detector.Utxo.State.{TxOut, Block, World, Detector}
use crypto_payment_detector.Utxo.Outbox.{aggregate_utxo_payments}

abbrev pub Lookup : Type 0
Lookup = List (Text × ℕ)

unfoldable pub find_index : Text → Lookup → Option ℕ
find_index a [] = none
find_index a ((b, i) ∷ m) = if same a b then some i else find_index a m

module _ {F : Type 0} (w : World F) where
  unfoldable pub add_address : Result Text → ℕ → Result Lookup → Result Lookup
  add_address (ok a) i (ok m) = ok ((a, i) ∷ m)
  add_address (ok a) i (err e) = err e
  add_address (err e) i r = err e

  unfoldable pub lookup_from : ℕ → ℕ → Result Lookup → Result Lookup
  unfolding add_address
  lookup_from i zero acc = acc
  lookup_from i (suc n) (ok m) = lookup_from (i + 1) n (add_address (w.derive_address i) i (ok m))
  lookup_from i (suc n) (err e) = err e

  -- A later index replaces an earlier one with the same address: `find_index` sees it first.
  unfoldable pub build_address_lookup : ℕ → Result Lookup
  unfolding lookup_from
  build_address_lookup max_index = lookup_from 0 (suc max_index) (ok [])

  unfoldable pub next_index : Text → ℕ → Result (Option ℕ) → Result Text → Result (Option ℕ)
  next_index address i rest (ok derived) = if same derived address then ok (some i) else rest
  next_index address i rest (err e) = err e

  unfoldable pub reverse_from : Text → ℕ → ℕ → Result (Option ℕ)
  unfolding next_index
  reverse_from address i zero = ok none
  reverse_from address i (suc n) =
      let rest = reverse_from address (i + 1) n in next_index address i rest (w.derive_address i)

  unfoldable pub reverse_derive_address : Text → ℕ → Result (Option ℕ)
  unfolding reverse_from
  reverse_derive_address address max_index = reverse_from address 0 (suc max_index)

module _ {F : Type 0} (fl : Float F) (w : World F) (d : Detector F) where
  -- The address of an output as the detector's chain writes it.
  unfoldable pub chain_address : Chain → Option Text → Option Text
  chain_address c none = none
  chain_address bitcoin (some a) = some a
  chain_address litecoin (some a) = if starts_with (text "bc1") a then w.to_ltc a else some a
  chain_address solana (some a) = none
  chain_address ethereum (some a) = none
  chain_address base (some a) = none

  unfoldable pub payment_of : Text → TxOut → ℕ → ℕ → Text → ℕ → DetectedPayment F
  payment_of txid output block_height confirmations address index = record {
    chain = d.config.chain;
    ticker = ticker d.config.chain;
    txid = txid;
    address = address;
    user_id = none;
    amount_sat = output.value;
    amount_coin = fl.div (fl.of_u64 output.value) (fl.of_u64 (sats_per_unit d.config.chain));
    confirmations = confirmations;
    block_height = some block_height;
    derivation_index = index;
    memo = none;
    swept_to_address = none;
    swept_amount_sat = none;
    swept_amount_coin = none;
    sweep_txid = none;
    fiat_amount = none;
    fiat_currency = none;
    coin_price = none;
    event_id = none;
    log_index = none;
    asset = none;
    asset_decimals = none;
    amount_base_units = none;
    swept_amount_base_units = none;
    token_contract = none;
  }

  module _ (lookup : Lookup) (block_height confirmations : ℕ) where
    found_output : Text → TxOut → Text → Option ℕ → List (DetectedPayment F)
    found_output txid output address none = []
    found_output txid output address (some index) =
        payment_of txid output block_height confirmations address index ∷ []

    at_address : Text → TxOut → Option Text → List (DetectedPayment F)
    unfolding found_output
    at_address txid output none = []
    at_address txid output (some address) =
        found_output txid output address (find_index address lookup)

    unfoldable pub scan_outputs : Text → List TxOut → List (DetectedPayment F)
    unfolding at_address
    scan_outputs txid [] = []
    scan_outputs txid (o ∷ os) =
        at_address txid o (chain_address d.config.chain o.address) ++ scan_outputs txid os

    unfoldable pub scan_transactions : Block → List (DetectedPayment F)
    scan_transactions [] = []
    scan_transactions (t ∷ ts) = scan_outputs t.txid t.output ++ scan_transactions ts

  -- The source scans in parallel and collects in order.
  unfoldable pub scan_raw_block_parallel : Block → Lookup → ℕ → ℕ → List (DetectedPayment F)
  unfolding scan_transactions
  scan_raw_block_parallel block lookup block_height tip_height = aggregate_utxo_payments fl (
      scan_transactions lookup block_height (add_u64 (saturating_sub tip_height block_height) 1)
        block)
