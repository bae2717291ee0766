-- ===== src/Evm/Steps.antt =====
-- The steps of `process_credit_entry` of ethereum.rs up to the credit, and its price.
use crypto_payment_detector.Base.{ℕ, ◌≡◌, refl, true, false, Option, none, some, ◌==◌, is_some}
use crypto_payment_detector.Base.Text.{Text, same, text, to_ascii_uppercase}
use crypto_payment_detector.Base.Float.{Float}
use crypto_payment_detector.Types.Payments.{DetectedPayment, payment_detected}
use crypto_payment_detector.Error.Defs.{Result, ok, err}
use crypto_payment_detector.Error.Exec.{pure, Follows, Follows-if}
use crypto_payment_detector.Utxo.Quiet.{credited_payments}
use crypto_payment_detector.Evm.Chain.{Ethers}
use crypto_payment_detector.Evm.State.{
  EthereumDetector, EthereumPendingPayment, World, Machine, Action,
}
use crypto_payment_detector.Evm.Events.{while_crediting, await_point}
use crypto_payment_detector.Evm.Amounts.{token_peg_currency, usd_to_fiat_rate_from_eth_prices}
use crypto_payment_detector.Evm.Sweep.{managed_address}
use crypto_payment_detector.Evm.Announce.{
  with_price, get_price, peg_to_configured_fiat_rate, enrich_pegged, enrich_ether, enrich_fiat,
  delivered, post, send_webhook,
}
use crypto_payment_detector.Evm.Credit.{
  is_top_up, top_up_with, is_pending_gas_tank_top_up, queued_top_up, set_block_number, set_detected,
  correct_block, notify_detected, sweep_for,
}
use crypto_payment_detector.Evm.Walk.{
  Walk, result, chain, tried, given, request-Walk, sweep_native-Walk,
}
use crypto_payment_detector.Evm.TokenWalk.{eth_peg_price-Walk, sweep_erc20-Walk}
use crypto_payment_detector.Evm.Transfers.{is_own, text-Permits}
use crypto_payment_detector.Evm.Quiet.{update-Leaves, Quiet, Quiet-refl, saved-Quiet, quiet_walk}

module _ {F : Type 0} (fl : Float F) (eth : Ethers F) (w : World F) (d : EthereumDetector F) where
  abbrev Holds : {A : Type 0} → Action F A → Type 0
  Holds a = Follows (Quiet fl eth w d) a

  abbrev walk :
      Walk eth w while_crediting
        (λ t. is_own fl eth w d while_crediting t ≡ true)
        (Quiet fl eth w d)
  walk = quiet_walk fl eth w d

  get_price-Quiet : Holds (get_price fl eth w d)
  unfolding get_price
  get_price-Quiet = request-Walk walk (λ n. w.price_answer n)

  peg_rate-Quiet : (peg : Text) → Holds (peg_to_configured_fiat_rate fl eth w d peg)
  unfolding peg_to_configured_fiat_rate
  peg_rate-Quiet peg =
      Follows-if (same d.currency (to_ascii_uppercase peg)) _ _ (result walk (ok (fl.of_u64 1))) (
        chain walk _ _ get_price-Quiet λ eth_fiat.
          chain walk _ _
            (eth_peg_price-Walk fl eth w d while_crediting _ _ walk (to_ascii_uppercase peg))
            λ eth_peg. result walk (usd_to_fiat_rate_from_eth_prices fl eth eth_fiat eth_peg))

  enrich_pegged-Quiet :
      (p : DetectedPayment F) (o : Option Text) → Holds (enrich_pegged fl eth w d p o)
  unfolding enrich_pegged
  enrich_pegged-Quiet p none = result walk (ok p)
  enrich_pegged-Quiet p (some peg) =
      chain walk _ _ (tried walk _ (peg_rate-Quiet peg))
        λ rate. result walk (ok (with_price fl eth w d p rate))

  pub enrich_fiat-Quiet : (p : DetectedPayment F) → Holds (enrich_fiat fl eth w d p)
  unfolding enrich_fiat enrich_ether
  enrich_fiat-Quiet p =
      Follows-if (same p.ticker (text "ETH")) _ _
        (chain walk _ _ (tried walk _ get_price-Quiet)
          λ price. result walk (ok (with_price fl eth w d p price)))
        (enrich_pegged-Quiet p (token_peg_currency p.ticker))

  delivered-Quiet :
      (p : DetectedPayment F) (n : ℕ) (r : Result (Unit {0})) (m : Machine F)
      → Quiet fl eth w d m (delivered fl eth w d (payment_detected p) n r m).1
  unfolding delivered credited_payments
  delivered-Quiet p n (ok u) m =
      let q = Quiet-refl fl eth w d m in record { leaves = q.leaves; credited = refl; own = λ i. i }
  delivered-Quiet p n (err e) m =
      let q = Quiet-refl fl eth w d m in record { leaves = q.leaves; credited = refl; own = λ i. i }

  send_detected-Quiet :
      (p : DetectedPayment F) → Holds (send_webhook fl eth w d (payment_detected p))
  unfolding send_webhook post
  send_detected-Quiet p =
      chain walk (await_point eth w while_crediting) (λ u. post fl eth w d (payment_detected p))
        walk.waits (λ u. record { at = λ m. delivered-Quiet p _ _ m })

  pub notify_detected-Quiet :
      (entry : EthereumPendingPayment) (block amount : ℕ)
      → Holds (notify_detected fl eth w d entry block amount)
  unfolding notify_detected set_detected
  notify_detected-Quiet entry block amount =
      Follows-if entry.detected_notified (pure tt) _ (result walk (ok tt)) (
        chain walk _ _ (send_detected-Quiet _) λ u.
          saved-Quiet fl eth w d (set_detected fl eth w d entry.event_id) (λ s.
            update-Leaves entry.event_id (λ p. record p { detected_notified = true }) s
              (λ p. refl)))

  pub correct_block-Quiet :
      (entry : EthereumPendingPayment) (mined_at : ℕ)
      → Holds (correct_block fl eth w d entry mined_at)
  unfolding correct_block set_block_number
  correct_block-Quiet entry mined_at =
      Follows-if (mined_at == entry.block_number) (pure tt) _ (result walk (ok tt)) (
        saved-Quiet fl eth w d (set_block_number fl eth w d entry.event_id mined_at) (λ s.
          update-Leaves entry.event_id (λ p. record p { block_number = mined_at }) s (λ p. refl)))

  top_up_with-Quiet :
      (entry : EthereumPendingPayment) (o : Option ℕ) → Holds (top_up_with fl eth w d entry o)
  unfolding top_up_with
  top_up_with-Quiet entry none = result walk (ok false)
  top_up_with-Quiet entry (some hash) =
      given walk (managed_address fl eth w d while_crediting entry.address) _ λ a e.
        chain walk _ _ (request-Walk walk (λ n. w.transaction_answer n hash))
          λ tx. result walk (ok (is_top_up fl eth w d a tx))

  pub queued_top_up-Quiet :
      (entry : EthereumPendingPayment) → Holds (queued_top_up fl eth w d entry)
  unfolding queued_top_up is_pending_gas_tank_top_up
  queued_top_up-Quiet entry =
      Follows-if (is_some entry.token_contract) (pure false) _ (result walk (ok false))
        (top_up_with-Quiet entry (eth.parse_hash entry.txid))

  pub sweep_for-Quiet :
      (entry : EthereumPendingPayment) (amount : ℕ) (o : Option Text)
      → Holds (sweep_for fl eth w d entry amount o)
  unfolding sweep_for
  sweep_for-Quiet entry amount none =
      sweep_native-Walk fl eth w d while_crediting _ _ walk entry.address
        (text-Permits fl eth w d while_crediting entry.address)
  sweep_for-Quiet entry amount (some contract) = given walk _ _ λ c e.
      sweep_erc20-Walk fl eth w d while_crediting _ _ walk entry.address c amount
        (text-Permits fl eth w d while_crediting entry.address)
