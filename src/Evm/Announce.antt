-- ===== src/Evm/Announce.antt =====
-- The payments that ethereum.rs announces: their fields, the fiat amounts and the webhook calls.
use crypto_payment_detector.Base.{
  add_u64, ℕ, ◌+◌, ◌-◌, Option, none, some, ◌∷◌, if◌then◌else◌, ◌==◌, bind, is_some,
}
use crypto_payment_detector.Base.Text.{
  Text, text, same, starts_with, split, last_piece, parse_u64, to_ascii_uppercase,
}
use crypto_payment_detector.Base.Float.{Float}
use crypto_payment_detector.Types.Payments.{DetectedPayment, WebhookEvent}
use crypto_payment_detector.Error.Defs.{Result, ok, err}
use crypto_payment_detector.Error.Exec.{pure, lift, attempt, ◌>>=◌, ◌>>◌}
use crypto_payment_detector.Webhook.{send_webhook as deliver}
use crypto_payment_detector.Evm.Chain.{Ethers}
use crypto_payment_detector.Evm.State.{
  EthereumDetector, EthereumPendingPayment, SweepResult, World, Action,
}
use crypto_payment_detector.Evm.Events.{while_crediting, await_point, request}
use crypto_payment_detector.Evm.Amounts.{
  u256_to_u64_saturating, u256_to_units_f64, token_peg_currency, usd_to_fiat_rate_from_eth_prices,
}
use crypto_payment_detector.Evm.Sweep.{eth_peg_price}

unfoldable pub event_log_index : Text → Option ℕ
event_log_index event_id =
    if starts_with (text "erc20:") event_id
    then bind (last_piece (split (λ c. c == 58) event_id)) parse_u64
    else none

module _ {F : Type 0} (fl : Float F) (eth : Ethers F) (w : World F) (d : EthereumDetector F) where
  abbrev option_map : {A B : Type 0} → (A → B) → Option A → Option B
  option_map f o = bind o (λ a. some (f a))

  unfoldable pub pending_to_webhook :
      EthereumPendingPayment → ℕ → Option SweepResult → ℕ → DetectedPayment F
  unfolding event_log_index u256_to_u64_saturating u256_to_units_f64
  pending_to_webhook entry current_block sweep amount =
      let swept = option_map (λ r. r.amount) sweep in
      record {
        chain = d.config.chain;
        ticker = entry.asset;
        txid = entry.txid;
        address = entry.address;
        user_id = some entry.user_id;
        amount_sat = u256_to_u64_saturating amount;
        amount_coin = u256_to_units_f64 fl eth amount entry.asset_decimals;
        confirmations = add_u64 (current_block - entry.block_number) 1;
        block_height = some entry.block_number;
        derivation_index = entry.wallet_index;
        memo = none;
        swept_to_address =
            option_map
              (λ r.
                if is_some entry.token_contract
                then eth.format_address d.ledger_address
                else eth.format_address d.gas_tank_address)
              sweep;
        swept_amount_sat = option_map u256_to_u64_saturating swept;
        swept_amount_coin =
            option_map (λ value. u256_to_units_f64 fl eth value entry.asset_decimals) swept;
        sweep_txid = bind sweep (λ r. r.txid);
        fiat_amount = none;
        fiat_currency = none;
        coin_price = none;
        event_id = some entry.event_id;
        log_index = event_log_index entry.event_id;
        asset = some entry.asset;
        asset_decimals = some entry.asset_decimals;
        amount_base_units = some entry.amount_base_units;
        swept_amount_base_units = option_map eth.format_u256 swept;
        token_contract = entry.token_contract;
      }

  unfoldable pub with_price : DetectedPayment F → Result F → DetectedPayment F
  with_price p (err e) = p
  with_price p (ok price) = record p {
    coin_price = some price;
    fiat_currency = some d.currency;
    fiat_amount = some (fl.mul p.amount_coin price);
  }

  unfoldable pub get_price : Action F F
  unfolding request
  get_price = request eth w while_crediting (λ n. w.price_answer n)

  unfoldable pub peg_to_configured_fiat_rate : Text → Action F F
  unfolding get_price eth_peg_price usd_to_fiat_rate_from_eth_prices
  peg_to_configured_fiat_rate peg =
      let upper = to_ascii_uppercase peg in
      if same d.currency upper then pure (fl.of_u64 1) else (do
        eth_fiat ← get_price
        eth_peg ← eth_peg_price fl eth w d while_crediting upper
        lift (usd_to_fiat_rate_from_eth_prices fl eth eth_fiat eth_peg))

  unfoldable pub enrich_pegged : DetectedPayment F → Option Text → Action F (DetectedPayment F)
  unfolding peg_to_configured_fiat_rate with_price
  enrich_pegged p none = pure p
  enrich_pegged p (some peg) = do
    rate ← attempt (peg_to_configured_fiat_rate peg)
    pure (with_price p rate)

  unfoldable pub enrich_ether : DetectedPayment F → Action F (DetectedPayment F)
  unfolding get_price with_price
  enrich_ether p = do price ← attempt get_price; pure (with_price p price)

  unfoldable pub enrich_fiat : DetectedPayment F → Action F (DetectedPayment F)
  unfolding enrich_ether enrich_pegged token_peg_currency
  enrich_fiat p =
      if same p.ticker (text "ETH")
      then enrich_ether p
      else enrich_pegged p (token_peg_currency p.ticker)

  unfoldable pub delivered : WebhookEvent F → ℕ → Result (Unit {0}) → Action F (Unit {0})
  delivered event requests (ok u) m =
      (ok tt, record m { acknowledged = event ∷ m.acknowledged; clock = m.clock + requests })
  delivered event requests (err e) m = (err e, record m { clock = m.clock + requests })

  unfoldable pub post : WebhookEvent F → Action F (Unit {0})
  unfolding delivered
  post event m =
      let answer = deliver (λ n. w.webhook_answer (m.clock + n)) w.webhook_failure in
      delivered event answer.requests answer.result m

  -- `send_webhook(..).await`.
  unfoldable pub send_webhook : WebhookEvent F → Action F (Unit {0})
  unfolding await_point post
  send_webhook event = do await_point eth w while_crediting; post event
