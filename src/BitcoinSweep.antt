-- ===== src/BitcoinSweep.antt =====
-- bitcoin_sweep.rs: the decision to sweep an address, its fee, and the transaction that it builds.
pub mod Outcome
use crypto_payment_detector.Base.{
  ℕ, ◌+◌, ◌≡◌, Bool, true, false, not, ◌&&◌, ◌||◌, Option, none, some, List, [], ◌∷◌, if◌then◌else◌,
  ltb, leb, ◌==◌, length, max, add_u64, sub_u64, mul_u64, saturating_mul,
}
use crypto_payment_detector.Base.Text.{Text, text, trim, is_empty}
use crypto_payment_detector.Base.Float.{Float}
use crypto_payment_detector.Types.Chains.{Chain, bitcoin, litecoin, name}
use crypto_payment_detector.Error.Defs.{DetectorError, Result, ok, err, invalid_config}

abbrev pub p2wpkh_input_vbytes : ℕ
p2wpkh_input_vbytes = 68

abbrev pub tx_overhead_vbytes : ℕ
tx_overhead_vbytes = 11

abbrev pub p2wpkh_output_vbytes : ℕ
p2wpkh_output_vbytes = 31

pub record BitcoinSweepConfig (F : Type 0) : Type 0 where
  pub chain : Chain
  pub xpriv : Text
  pub destination : Text
  pub fee_rate_sats_per_vb : ℕ
  pub min_sweep_sat : ℕ
  pub max_fee_ratio : F

pub record BitcoinSweepResult : Type 0 where
  pub txid : Option Text
  pub amount_sat : ℕ
  pub fee_sat : ℕ
  pub deferred : Bool

pub record EsploraUtxo : Type 0 where
  pub txid : Text
  pub vout : ℕ
  pub value : ℕ

-- The transaction that `sweep_address` fills in: all outputs found are spent, by the key of
-- `derivation_index`, into one output.
pub record SweepTx : Type 0 where
  pub input : List EsploraUtxo
  pub derivation_index : ℕ
  pub value : ℕ
  pub destination : Text

-- What the network and the `bitcoin` crate answer during one sweep: the address's outputs, the
-- signed and serialized transaction (or why a key, txid or script is refused), and the broadcast.
pub record SweepEnv : Type 0 where
  pub fetch_raw_utxos : Text → Text → Result (List EsploraUtxo)
  pub sign_and_encode : SweepTx → Result Text
  pub broadcast_tx : Text → Text → Result Text

unfoldable pub total_input : List EsploraUtxo → ℕ
total_input [] = 0
total_input (u ∷ us) = add_u64 u.value (total_input us)

unfoldable pub vsize : List EsploraUtxo → ℕ
vsize us =
    add_u64 (add_u64 tx_overhead_vbytes (mul_u64 (length us) p2wpkh_input_vbytes))
      p2wpkh_output_vbytes

module _ {F : Type 0} (fl : Float F) where
  unfoldable pub fee_ratio_too_high : ℕ → ℕ → F → Bool
  fee_ratio_too_high fee total max_ratio =
      if (total == 0)
        || not (fl.is_finite max_ratio)
        || fl.le max_ratio (fl.of_u64 0)
        || fl.le (fl.of_u64 1) max_ratio
      then false
      else fl.lt max_ratio (fl.div (fl.of_u64 fee) (fl.of_u64 total))

  unfoldable pub sweep_fee : BitcoinSweepConfig F → List EsploraUtxo → ℕ
  sweep_fee config us = saturating_mul (vsize us) (max config.fee_rate_sats_per_vb 1)

  abbrev pub nothing_swept : Bool → BitcoinSweepResult
  nothing_swept d = record { txid = none; amount_sat = 0; fee_sat = 0; deferred = d }

  swept : ℕ → ℕ → Result Text → Result BitcoinSweepResult
  swept amount fee (ok t) =
      ok (record { txid = some t; amount_sat = amount; fee_sat = fee; deferred = false })
  swept amount fee (err e) = err e

  sign_and_broadcast : SweepEnv → Text → ℕ → ℕ → Result Text → Result BitcoinSweepResult
  sign_and_broadcast env esplora_url amount fee (ok tx_hex) =
      swept amount fee (env.broadcast_tx esplora_url tx_hex)
  sign_and_broadcast env esplora_url amount fee (err e) = err e

  unfoldable pub sweep_utxos :
      SweepEnv → Text → BitcoinSweepConfig F → ℕ → List EsploraUtxo → Result BitcoinSweepResult
  unfolding swept sign_and_broadcast
  sweep_utxos env esplora_url config index [] = ok (nothing_swept false)
  sweep_utxos env esplora_url config index (u ∷ us) =
      let utxos = u ∷ us in
      let total = total_input utxos in
      let fee = sweep_fee config utxos in
      let amount_out = sub_u64 total fee in
      let tx : SweepTx = record {
        input = utxos;
        derivation_index = index;
        value = amount_out;
        destination = config.destination;
      } in
      if leb total fee
      then ok (nothing_swept true)
      else if ltb amount_out config.min_sweep_sat
      then ok (nothing_swept true)
      else if fee_ratio_too_high fee total config.max_fee_ratio
      then ok (nothing_swept true)
      else sign_and_broadcast env esplora_url amount_out fee (env.sign_and_encode tx)

  fetched :
      SweepEnv
      → Text
      → BitcoinSweepConfig F
      → ℕ
      → Result (List EsploraUtxo)
      → Result BitcoinSweepResult
  fetched env esplora_url config index (ok us) = sweep_utxos env esplora_url config index us
  fetched env esplora_url config index (err e) = err e

  unfoldable pub sweep_address :
      SweepEnv → Text → BitcoinSweepConfig F → ℕ → Text → Result BitcoinSweepResult
  unfolding sweep_utxos fetched
  sweep_address env esplora_url config index address =
      fetched env esplora_url config index (env.fetch_raw_utxos esplora_url address)
