-- ===== src/BitcoinSweep/Outcome.antt =====
-- What a sweep of bitcoin_sweep.rs returns, on every branch of `sweep_address`.
use crypto_payment_detector.Base.{
  ℕ, ◌+◌, ◌≤◌, ◌<◌, ◌≡◌, refl, false, none, some, List, [], ◌∷◌, arith, ltb, leb, IsU64, add_u64,
  sub_u64, sub_u64_lem, Bool-cases, inl, inr, ◌⊎◌, subst, leb→lt, ltb→le,
}
use crypto_payment_detector.Base.Text.{Text}
use crypto_payment_detector.Base.Float.{Float}
use crypto_payment_detector.Error.Defs.{ok, Result-cases}
use crypto_payment_detector.BitcoinSweep.{
  BitcoinSweepConfig, BitcoinSweepResult, EsploraUtxo, SweepTx, SweepEnv, total_input,
  fee_ratio_too_high, sweep_fee, swept, sign_and_broadcast, sweep_utxos, fetched, sweep_address,
}

pub total_input-IsU64 : (us : List EsploraUtxo) → IsU64 (total_input us)
unfolding total_input add_u64
total_input-IsU64 [] = omega arith
total_input-IsU64 (u ∷ us) = omega arith

net_amount :
    (total fee : ℕ)
    → IsU64 total
    → leb total fee ≡ false
    → (sub_u64 total fee + fee ≡ total) × (0 < sub_u64 total fee)
net_amount total fee w h =
    let more = leb→lt total fee h in
    let e = sub_u64_lem total fee (omega arith) w in (omega (arith, e), omega (arith, e))

module _ {F : Type 0} (fl : Float F) (env : SweepEnv) (url : Text) where
  abbrev pub tx_of : BitcoinSweepConfig F → ℕ → List EsploraUtxo → ℕ → SweepTx
  tx_of config index us amount = record {
    input = us;
    derivation_index = index;
    value = amount;
    destination = config.destination;
  }

  -- The transaction `t` that a sweep of the outputs `us` reports as `r`.
  pub record Sent (config : BitcoinSweepConfig F) (index : ℕ) (us : List EsploraUtxo)
      (r : BitcoinSweepResult) (t : Text) : Type 0 where
    pub conserved : r.amount_sat + r.fee_sat ≡ total_input us
    pub priced : r.fee_sat ≡ sweep_fee fl config us
    pub worthwhile : config.min_sweep_sat ≤ r.amount_sat
    pub positive : 0 < r.amount_sat
    pub moderate : fee_ratio_too_high fl r.fee_sat (total_input us) config.max_fee_ratio ≡ false
    pub hex : Text
    pub signed : env.sign_and_encode (tx_of config index us r.amount_sat) ≡ ok hex
    pub accepted : env.broadcast_tx url hex ≡ ok t

  abbrev pub Explained : BitcoinSweepConfig F → ℕ → List EsploraUtxo → BitcoinSweepResult → Type 0
  Explained config index us r =
      ((r.txid ≡ none) × (r.amount_sat ≡ 0) × (r.fee_sat ≡ 0))
      ⊎ ((t : Text) × (r.txid ≡ some t) × Sent config index us r t)

  broadcast-Explained :
      (config : BitcoinSweepConfig F) (index : ℕ) (us : List EsploraUtxo) (amount : ℕ)
      (r : BitcoinSweepResult)
      → amount + sweep_fee fl config us ≡ total_input us
      → config.min_sweep_sat ≤ amount
      → 0 < amount
      → fee_ratio_too_high fl (sweep_fee fl config us) (total_input us) config.max_fee_ratio ≡ false
      → sign_and_broadcast fl env url amount
          (sweep_fee fl config us)
          (env.sign_and_encode (tx_of config index us amount))
        ≡ ok r
      → Explained config index us r
  unfolding sign_and_broadcast swept
  broadcast-Explained config index us amount r total least more ratio e =
      elim (Result-cases (env.sign_and_encode (tx_of config index us amount))) [
        | inl (hex, s) ↦ elim (Result-cases (env.broadcast_tx url hex)) [
          | inl (t, b) ↦
              let q : result_of t ≡ r = ground arith in
              subst (Explained config index us) q (
                inr (
                  t,
                  refl,
                  record {
                    conserved = total;
                    priced = refl;
                    worthwhile = least;
                    positive = more;
                    moderate = ratio;
                    hex = hex;
                    signed = s;
                    accepted = b;
                  },
                ))
          | inr (x, b) ↦ absurd (ground arith)
        ]
        | inr (x, s) ↦ absurd (ground arith)
      ]
    where
      result_of : Text → BitcoinSweepResult
      result_of t = record {
        txid = some t;
        amount_sat = amount;
        fee_sat = sweep_fee fl config us;
        deferred = false;
      }

  sweep-Explained :
      (config : BitcoinSweepConfig F) (index : ℕ) (us : List EsploraUtxo) (r : BitcoinSweepResult)
      → sweep_utxos fl env url config index us ≡ ok r
      → Explained config index us r
  unfolding sweep_utxos
  sweep-Explained config index [] r e = inl (ground arith)
  sweep-Explained config index (u ∷ us) r e =
      let utxos = u ∷ us in
      let total = total_input utxos in
      let fee = sweep_fee fl config utxos in
      let amount = sub_u64 total fee in
      elim (Bool-cases (leb total fee)) [
        | inl poor ↦ inl (ground arith)
        | inr rich ↦ elim (Bool-cases (ltb amount config.min_sweep_sat)) [
          | inl small ↦ inl (ground arith)
          | inr large ↦ elim (Bool-cases (fee_ratio_too_high fl fee total config.max_fee_ratio)) [
            | inl dear ↦ inl (ground arith)
            | inr cheap ↦
                let net = net_amount total fee (total_input-IsU64 utxos) rich in
                broadcast-Explained config index utxos amount r net.0 (ltb→le amount _ large) net.1
                  cheap (ground arith)
          ]
        ]
      ]

  -- A sweep that succeeds either reports that nothing was sent, with no amount and no fee, or it
  -- spent all outputs that the explorer listed: what arrives and the fee add up to their sum, the
  -- fee is the priced size, the amount is positive and at least the configured minimum, and the
  -- broadcast transaction carries that amount to the configured destination.
  pub sweep_address-Explained :
      (config : BitcoinSweepConfig F) (index : ℕ) (address : Text) (r : BitcoinSweepResult)
      → sweep_address fl env url config index address ≡ ok r
      → (us : List EsploraUtxo) × (env.fetch_raw_utxos url address ≡ ok us)
        × Explained config index us r
  unfolding sweep_address fetched
  sweep_address-Explained config index address r e =
      elim (Result-cases (env.fetch_raw_utxos url address)) [
        | inl (us, f) ↦ (us, f, sweep-Explained config index us r (ground arith))
        | inr (x, f) ↦ absurd (ground arith)
      ]
