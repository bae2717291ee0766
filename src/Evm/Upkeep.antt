-- ===== src/Evm/Upkeep.antt =====
-- The upkeep of ethereum.rs respects what its waits, requests and permitted transfers respect.
use crypto_payment_detector.Base.{
  ℕ, ◌+◌, ◌-◌, ◌*◌, ◌≡◌, refl, Bool, true, false, not, ◌||◌, List, [], ◌∷◌, All, if◌then◌else◌,
  ◌==◌, ltb, leb,
}
use crypto_payment_detector.Base.Text.{Text, to_ascii_lowercase}
use crypto_payment_detector.Base.Maps.{mem}
use crypto_payment_detector.Base.Float.{Float}
use crypto_payment_detector.Error.Defs.{Result, ok, err}
use crypto_payment_detector.Error.Exec.{pure, raise, lift, attempt, Follows, Follows-if, ◌>>=◌}
use crypto_payment_detector.EvmPool.{ManagedEthereumWallet}
use crypto_payment_detector.Evm.Chain.{Ethers, Erc20TokenConfig, Transfer, checked}
use crypto_payment_detector.Evm.State.{EthereumDetector, Other, World, Machine}
use crypto_payment_detector.Evm.Amounts.{
  native_transfer_gas_limit, fee_ratio_too_high_u256, token_peg_currency, usd_to_wei, zero_f64,
}
use crypto_payment_detector.Evm.Sweep.{
  managed_address, erc20_balance, native_transfer, token_transfer,
}
use crypto_payment_detector.Evm.Tank.{
  send_tank_token, sweep_tank_token, sweep_tank_tokens, sweep_gas_tank_tokens_to_ledger,
  send_excess, sweep_excess, keep_target, maintain_gas_tank, sweep_if_any, sweep_token_if_any,
  sweep_orphan_tokens, sweep_orphan, sweep_parsed, sweep_orphans,
}
use crypto_payment_detector.Evm.Walk.{
  Walk, result, chain, tried, given, request-Walk, eth_balance-Walk, gas_price-Walk,
  send_transaction-Walk, send_native-Walk, PermitsText, sweep_native-Walk,
}
use crypto_payment_detector.Evm.TokenWalk.{token_gas-Walk, pegged_test-Walk, sweep_erc20-Walk}

module _ {F : Type 0} (fl : Float F) (eth : Ethers F) (w : World F) (d : EthereumDetector F)
    (allowed : Other → Bool) (P : Transfer → Type 0) where
  -- What the upkeep of the gas tank may send.
  pub record PermitsTank : Type 0 where
    pub excess :
        (amount price : ℕ)
        → P (native_transfer fl eth w d allowed d.gas_tank_address d.ledger_address amount price)
    pub token :
        (contract amount gas price : ℕ)
        → P (token_transfer fl eth w d allowed d.gas_tank_address contract amount gas price)

  -- What the sweep of orphan balances may send: for each wallet that is not active.
  abbrev pub PermitsOrphans : List Text → List ManagedEthereumWallet → Type 0
  PermitsOrphans active wallets =
      All
        (λ wallet.
          mem (to_ascii_lowercase wallet.address) active ≡ false
          → PermitsText fl eth w d allowed P wallet.address)
        wallets

module _ {F : Type 0} (fl : Float F) (eth : Ethers F) (w : World F) (d : EthereumDetector F)
    (allowed : Other → Bool) (P : Transfer → Type 0) (R : Machine F → Machine F → Type 0)
    (walk : Walk eth w allowed P R) where
  skip : Follows R (pure tt)
  skip = result walk (ok tt)

  send_tank_token-Walk :
      (token : Erc20TokenConfig) (balance price gas : ℕ)
      → PermitsTank fl eth w d allowed P
      → Follows R (send_tank_token fl eth w d allowed token balance price gas)
  unfolding send_tank_token
  send_tank_token-Walk token balance price gas p = given walk (checked (gas * price)) _ λ fee e.
      chain walk _ _ (eth_balance-Walk fl eth w d allowed P R walk d.gas_tank_address) λ tank.
        chain walk (if ltb tank fee then raise _ else pure tt) _
          (Follows-if (ltb tank fee) (raise _) (pure tt) (result walk (err _)) skip)
          λ u.
            chain walk _ _
              (pegged_test-Walk fl eth w d allowed P R walk fee balance token.decimals
                (token_peg_currency token.symbol))
              λ high. Follows-if high (pure tt) _ skip (
                chain walk _ _
                  (send_transaction-Walk fl eth w d allowed P R walk _
                    (p.token token.contract balance gas price))
                  (λ txid. skip))

  sweep_tank_token-Walk :
      (token : Erc20TokenConfig) (balance : ℕ)
      → PermitsTank fl eth w d allowed P
      → Follows R (sweep_tank_token fl eth w d allowed token balance)
  unfolding sweep_tank_token
  sweep_tank_token-Walk token balance p = Follows-if (balance == 0) (pure tt) _ skip (
      chain walk _ _ (gas_price-Walk fl eth w d allowed P R walk) λ price.
        chain walk _ _
          (token_gas-Walk fl eth w d allowed P R walk d.gas_tank_address _ d.ledger_address balance)
          λ gas. send_tank_token-Walk token balance price gas p)

  sweep_tank_tokens-Walk :
      (tokens : List Erc20TokenConfig)
      → PermitsTank fl eth w d allowed P
      → Follows R (sweep_tank_tokens fl eth w d allowed tokens)
  unfolding sweep_tank_tokens erc20_balance
  sweep_tank_tokens-Walk [] p = skip
  sweep_tank_tokens-Walk (token ∷ tokens) p =
      chain walk _ _
        (request-Walk walk (λ n. w.token_balance_answer n token.contract d.gas_tank_address))
        λ balance.
          chain walk (sweep_tank_token fl eth w d allowed token balance) _
            (sweep_tank_token-Walk token balance p) (λ u. sweep_tank_tokens-Walk tokens p)

  send_excess-Walk :
      (target balance price fee : ℕ)
      → PermitsTank fl eth w d allowed P
      → Follows R (send_excess fl eth w d allowed target balance price fee)
  unfolding send_excess
  send_excess-Walk target balance price fee p =
      let amount = balance - target - fee in
      Follows-if (leb balance (target + fee) || amount == 0) (pure tt) _ skip (
        Follows-if (fee_ratio_too_high_u256 fl eth fee amount d.config.max_fee_ratio) (pure tt) _
          skip
          (chain walk _ _
            (send_native-Walk fl eth w d allowed P R walk _ _ amount price (p.excess amount price))
            (λ txid. skip)))

  sweep_excess-Walk :
      (target balance : ℕ)
      → PermitsTank fl eth w d allowed P
      → Follows R (sweep_excess fl eth w d allowed target balance)
  unfolding sweep_excess
  sweep_excess-Walk target balance p = Follows-if (leb balance target) (pure tt) _ skip (
      chain walk _ _ (gas_price-Walk fl eth w d allowed P R walk) λ price.
        given walk (checked (native_transfer_gas_limit * price)) _ λ fee e.
          chain walk (lift (checked (target + fee)) >>= λ total. pure tt) _
            (chain walk (lift (checked (target + fee))) _ (result walk _) (λ total. skip))
            (λ u. send_excess-Walk target balance price fee p))

  keep_target-Walk :
      (answer : Result F)
      → PermitsTank fl eth w d allowed P
      → Follows R (keep_target fl eth w d allowed answer)
  unfolding keep_target
  keep_target-Walk (err e) p = skip
  keep_target-Walk (ok eth_usd) p =
      Follows-if (not (fl.lt (zero_f64 fl eth) eth_usd)) (pure tt) _ skip (
        given walk (usd_to_wei fl eth d.config.gas_tank_target_usd eth_usd) _ λ target e.
          chain walk _ _ (eth_balance-Walk fl eth w d allowed P R walk d.gas_tank_address)
            λ balance. sweep_excess-Walk target balance p)

  pub maintain_gas_tank-Walk :
      PermitsTank fl eth w d allowed P → Follows R (maintain_gas_tank fl eth w d allowed)
  unfolding maintain_gas_tank sweep_gas_tank_tokens_to_ledger
  maintain_gas_tank-Walk p = chain walk _ _ (sweep_tank_tokens-Walk d.tokens p) λ u.
      chain walk (attempt _) _ (tried walk _ (request-Walk walk (λ n. w.eth_usd_answer n)))
        λ answer. keep_target-Walk answer p

  sweep_if_any-Walk :
      (address : Text) (r : Result ℕ)
      → PermitsText fl eth w d allowed P address
      → Follows R (sweep_if_any fl eth w d allowed address r)
  unfolding sweep_if_any
  sweep_if_any-Walk address (err e) p = skip
  sweep_if_any-Walk address (ok balance) p = Follows-if (balance == 0) (pure tt) _ skip (
      chain walk _ _ (tried walk _ (sweep_native-Walk fl eth w d allowed P R walk address p))
        (λ r. skip))

  sweep_token_if_any-Walk :
      (address : Text) (contract : ℕ) (r : Result ℕ)
      → PermitsText fl eth w d allowed P address
      → Follows R (sweep_token_if_any fl eth w d allowed address contract r)
  unfolding sweep_token_if_any
  sweep_token_if_any-Walk address contract (err e) p = skip
  sweep_token_if_any-Walk address contract (ok balance) p =
      Follows-if (balance == 0) (pure tt) _ skip (
        chain walk _ _
          (tried walk _ (sweep_erc20-Walk fl eth w d allowed P R walk address contract balance p))
          (λ r. skip))

  sweep_orphan_tokens-Walk :
      (address : Text) (a : ℕ) (tokens : List Erc20TokenConfig)
      → PermitsText fl eth w d allowed P address
      → Follows R (sweep_orphan_tokens fl eth w d allowed address a tokens)
  unfolding sweep_orphan_tokens erc20_balance
  sweep_orphan_tokens-Walk address a [] p = skip
  sweep_orphan_tokens-Walk address a (token ∷ tokens) p =
      chain walk (attempt _) _
        (tried walk _ (request-Walk walk (λ n. w.token_balance_answer n token.contract a)))
        λ answer.
          chain walk _ _ (sweep_token_if_any-Walk address token.contract answer p)
            (λ u. sweep_orphan_tokens-Walk address a tokens p)

  sweep_orphan-Walk :
      (address : Text) (a : ℕ)
      → PermitsText fl eth w d allowed P address
      → Follows R (sweep_orphan fl eth w d allowed address a)
  unfolding sweep_orphan
  sweep_orphan-Walk address a p =
      chain walk _ _ (tried walk _ (eth_balance-Walk fl eth w d allowed P R walk a)) λ answer.
        chain walk _ _ (sweep_if_any-Walk address answer p)
          (λ u. sweep_orphan_tokens-Walk address a d.tokens p)

  sweep_parsed-Walk :
      (address : Text) (r : Result ℕ)
      → PermitsText fl eth w d allowed P address
      → Follows R (sweep_parsed fl eth w d allowed address r)
  unfolding sweep_parsed
  sweep_parsed-Walk address (err e) p = skip
  sweep_parsed-Walk address (ok a) p = sweep_orphan-Walk address a p

  unless_active-Walk :
      (active : Bool) (address : Text) (r : Result ℕ)
      → (active ≡ false → PermitsText fl eth w d allowed P address)
      → Follows R (if active then pure tt else sweep_parsed fl eth w d allowed address r)
  unless_active-Walk true address r p = skip
  unless_active-Walk false address r p = sweep_parsed-Walk address r (p refl)

  pub sweep_orphans-Walk :
      (active : List Text) (wallets : List ManagedEthereumWallet)
      → PermitsOrphans fl eth w d allowed P active wallets
      → Follows R (sweep_orphans fl eth w d allowed active wallets)
  unfolding sweep_orphans
  sweep_orphans-Walk active [] p = skip
  sweep_orphans-Walk active (wallet ∷ wallets) p =
      chain walk _ _
        (unless_active-Walk (mem (to_ascii_lowercase wallet.address) active) wallet.address
          (managed_address fl eth w d allowed wallet.address) p.0)
        (λ u. sweep_orphans-Walk active wallets p.1)
