-- ===== src/Evm/TokenWalk.antt =====
-- The token sweep of ethereum.rs respects what its waits, requests and permitted transfers respect.
use crypto_payment_detector.Base.{
  ℕ, ◌+◌, ◌-◌, ◌*◌, Bool, true, false, find, Option, none, some, ◌==◌, leb,
}
use crypto_payment_detector.Base.Text.{Text, same, text, to_ascii_uppercase}
use crypto_payment_detector.Base.Float.{Float}
use crypto_payment_detector.Error.Defs.{ok, err}
use crypto_payment_detector.Error.Exec.{pure, attempt, Follows, Follows-if, ◌>>=◌}
use crypto_payment_detector.Evm.Chain.{Ethers, Erc20TokenConfig, Transfer, checked}
use crypto_payment_detector.Evm.State.{EthereumDetector, Other, World, Machine}
use crypto_payment_detector.Evm.Amounts.{
  native_transfer_gas_limit, multiply_u256_by_f64, token_peg_currency,
}
use crypto_payment_detector.Evm.Sweep.{
  deferral, managed_address, find_ethereum_wallet, swept, sweep_native_from_address, gas_or_default,
  token_transfer, token_gas, eth_peg_price, exceeds, fee_test, pegged_test, fee_too_high, top_up,
  ensure_eth_for_token_sweep, send_token, sweep_tokens, sweep_erc20_from_address,
}
use crypto_payment_detector.Evm.Walk.{
  Walk, result, chain, tried, given, request-Walk, eth_balance-Walk, gas_price-Walk,
  send_transaction-Walk, send_native-Walk, Permits, PermitsText, sweep_native-Walk,
}

module _ {F : Type 0} (fl : Float F) (eth : Ethers F) (w : World F) (d : EthereumDetector F)
    (allowed : Other → Bool) (P : Transfer → Type 0) (R : Machine F → Machine F → Type 0)
    (walk : Walk eth w allowed P R) where
  pub token_gas-Walk :
      (from contract to amount : ℕ)
      → Follows R (token_gas fl eth w d allowed from contract to amount)
  unfolding token_gas
  token_gas-Walk from contract to amount =
      chain walk _ _
        (tried walk _ (
          request-Walk walk (λ n.
            w.estimate_answer n
              (record (token_transfer fl eth w d allowed from contract amount 0 0) { to = to }))))
        λ answer. result walk (ok (gas_or_default fl eth w d allowed answer))

  pub eth_peg_price-Walk : (peg : Text) → Follows R (eth_peg_price fl eth w d allowed peg)
  unfolding eth_peg_price
  eth_peg_price-Walk peg =
      Follows-if (same (to_ascii_uppercase peg) (text "USD")) _ _
        (request-Walk walk (λ n. w.eth_usd_answer n))
        (Follows-if (same (to_ascii_uppercase peg) (text "EUR")) _ _
          (request-Walk walk (λ n. w.eth_eur_answer n)) (result walk (err _)))

  fee_test-Walk :
      (fee : ℕ) (pegged : F) (peg : Text) → Follows R (fee_test fl eth w d allowed fee pegged peg)
  unfolding fee_test
  fee_test-Walk fee pegged peg =
      Follows-if _ _ _
        (chain walk _ _ (tried walk _ (eth_peg_price-Walk peg))
          λ answer. result walk (ok (exceeds fl eth w d allowed fee pegged answer)))
        (result walk (ok false))

  pub pegged_test-Walk :
      (fee amount decimals : ℕ) (o : Option Text)
      → Follows R (pegged_test fl eth w d allowed fee amount decimals o)
  unfolding pegged_test
  pegged_test-Walk fee amount decimals none = result walk (ok false)
  pegged_test-Walk fee amount decimals (some peg) = fee_test-Walk fee _ peg

  fee_too_high-Walk :
      (fee amount : ℕ) (o : Option Erc20TokenConfig)
      → Follows R (fee_too_high fl eth w d allowed fee amount o)
  unfolding fee_too_high
  fee_too_high-Walk fee amount none = result walk (ok false)
  fee_too_high-Walk fee amount (some token) =
      pegged_test-Walk fee amount token.decimals (token_peg_currency token.symbol)

  top_up-Walk :
      (a amount : ℕ)
      → Permits fl eth w d allowed P a
      → Follows R (top_up fl eth w d allowed a amount)
  unfolding top_up
  top_up-Walk a amount p = chain walk _ _ (gas_price-Walk fl eth w d allowed P R walk) λ price.
      given walk (checked (native_transfer_gas_limit * price)) _ λ fee e.
        chain walk _ _ (eth_balance-Walk fl eth w d allowed P R walk d.gas_tank_address) λ tank.
          given walk (checked (amount + fee)) _ λ needed i.
            Follows-if (leb tank needed) _ _ (result walk (err _)) (
              chain walk _ _
                (send_native-Walk fl eth w d allowed P R walk d.gas_tank_address a amount price
                  (p.top_up amount price))
                (λ txid. result walk (ok tt)))

  ensure_eth-Walk :
      (a needed : ℕ)
      → Permits fl eth w d allowed P a
      → Follows R (ensure_eth_for_token_sweep fl eth w d allowed a needed)
  unfolding ensure_eth_for_token_sweep
  ensure_eth-Walk a needed p =
      chain walk _ _ (eth_balance-Walk fl eth w d allowed P R walk a) λ balance.
        Follows-if (leb needed balance) _ _ (result walk (ok tt))
          (top_up-Walk a (needed - balance) p)

  send_token-Walk :
      (address : Text) (a contract amount price gas needed : ℕ)
      → PermitsText fl eth w d allowed P address
      → Permits fl eth w d allowed P a
      → Follows R (send_token fl eth w d allowed address a contract amount price gas needed)
  unfolding send_token
  send_token-Walk address a contract amount price gas needed p q =
      chain walk _ _ (ensure_eth-Walk a needed q) λ u.
        chain walk _ _
          (send_transaction-Walk fl eth w d allowed P R walk _ (q.token contract amount gas price))
          λ txid.
            chain walk
              (attempt (sweep_native_from_address fl eth w d allowed address) >>= λ r. pure tt) _
              (chain walk _ _
                (tried walk _ (sweep_native-Walk fl eth w d allowed P R walk address p))
                (λ r. result walk (ok tt)))
              (λ v. result walk (ok (swept fl eth w d allowed amount txid)))

  sweep_tokens-Walk :
      (address : Text) (a contract amount : ℕ)
      → PermitsText fl eth w d allowed P address
      → Permits fl eth w d allowed P a
      → Follows R (sweep_tokens fl eth w d allowed address a contract amount)
  unfolding sweep_tokens
  sweep_tokens-Walk address a contract amount p q =
      chain walk _ _ (gas_price-Walk fl eth w d allowed P R walk) λ price.
        chain walk _ _ (token_gas-Walk a contract d.gas_tank_address amount) λ gas.
          given walk (checked (gas * price)) _ λ cost e.
            given walk (multiply_u256_by_f64 fl eth cost d.config.gas_top_up_multiplier) _
              λ needed i.
                chain walk _ _
                  (fee_too_high-Walk needed amount (find (λ t. t.contract == contract) d.tokens))
                  λ high.
                    Follows-if high _ _ (result walk (ok (deferral fl eth w d allowed true)))
                      (send_token-Walk address a contract amount price gas needed p q)

  pub sweep_erc20-Walk :
      (address : Text) (contract amount : ℕ)
      → PermitsText fl eth w d allowed P address
      → Follows R (sweep_erc20_from_address fl eth w d allowed address contract amount)
  unfolding sweep_erc20_from_address
  sweep_erc20-Walk address contract amount p =
      given walk (managed_address fl eth w d allowed address) _ λ a e.
        given walk (find_ethereum_wallet fl eth w d allowed address a) _ λ wallet i.
          Follows-if (amount == 0) _ _ (result walk (ok (deferral fl eth w d allowed false)))
            (sweep_tokens-Walk address a contract amount p (p a wallet e i))
