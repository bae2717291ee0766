-- ===== src/Evm/Tank.antt =====
-- The upkeep of ethereum.rs: the gas tank's excess and tokens, and balances that nobody reserved.
use crypto_payment_detector.Base.{
  ℕ, ◌+◌, ◌-◌, ◌*◌, Bool, true, not, ◌||◌, Option, none, some, List, [], ◌∷◌, ◌++◌, map,
  if◌then◌else◌, ◌==◌, ltb, leb, max, min,
}
use crypto_payment_detector.Base.Text.{Text, text, to_ascii_lowercase}
use crypto_payment_detector.Base.Maps.{mem}
use crypto_payment_detector.Base.Float.{Float}
use crypto_payment_detector.Error.Defs.{invalid_config, Result, ok, err}
use crypto_payment_detector.Error.Exec.{pure, raise, lift, gets, attempt, ◌>>=◌, ◌>>◌}
use crypto_payment_detector.EvmPool.{EthereumReservation, ManagedEthereumWallet}
use crypto_payment_detector.Evm.Chain.{Ethers, Erc20TokenConfig, checked}
use crypto_payment_detector.Evm.State.{EthereumDetector, Other, World, Action, modify_shared}
use crypto_payment_detector.Evm.Events.{request, persist_state}
use crypto_payment_detector.Evm.Amounts.{
  native_transfer_gas_limit, fee_ratio_too_high_u256, token_peg_currency, usd_to_wei, zero_f64,
}
use crypto_payment_detector.Evm.Sweep.{
  eth_balance, erc20_balance, gas_price, send_native, send_transaction, token_gas, token_transfer,
  pegged_test, managed_address, sweep_native_from_address, sweep_erc20_from_address,
}

-- Clock readings and the interval are not negative, and `i64::MAX` bounds the interval.
abbrev i64_max : ℕ
i64_max = 9223372036854775807

module _ {F : Type 0} (fl : Float F) (eth : Ethers F) (w : World F) (d : EthereumDetector F)
    (allowed : Other → Bool) where
  -- One token of `sweep_gas_tank_tokens_to_ledger`, with its balance, price and gas.
  unfoldable pub send_tank_token : Erc20TokenConfig → ℕ → ℕ → ℕ → Action F (Unit {0})
  unfolding eth_balance pegged_test send_transaction token_peg_currency
  send_tank_token token balance price gas = do
    fee ← lift (checked (gas * price))
    tank ← eth_balance fl eth w d allowed d.gas_tank_address
    if ltb tank fee
        then raise (
            invalid_config (
              text "EVM gas tank "
              ++ eth.format_address d.gas_tank_address
              ++ text " has "
              ++ eth.format_u256 tank
              ++ text " wei, needs at least "
              ++ eth.format_u256 fee
              ++ text " wei to sweep "
              ++ eth.format_u256 balance
              ++ text " "
              ++ token.symbol
              ++ text " token units to ledger"))
        else pure tt
    high ←
        pegged_test fl eth w d allowed fee balance token.decimals (token_peg_currency token.symbol)
    if high
        then pure tt
        else (send_transaction fl eth w d allowed (
              token_transfer fl eth w d allowed d.gas_tank_address token.contract balance gas price)
            >>= λ txid. pure tt)

  unfoldable pub sweep_tank_token : Erc20TokenConfig → ℕ → Action F (Unit {0})
  unfolding gas_price token_gas send_tank_token
  sweep_tank_token token balance = if balance == 0 then pure tt else (do
    price ← gas_price fl eth w d allowed
    gas ← token_gas fl eth w d allowed d.gas_tank_address token.contract d.ledger_address balance
    send_tank_token token balance price gas)

  unfoldable pub sweep_tank_tokens : List Erc20TokenConfig → Action F (Unit {0})
  unfolding erc20_balance sweep_tank_token
  sweep_tank_tokens [] = pure tt
  sweep_tank_tokens (token ∷ tokens) = do
    balance ← erc20_balance fl eth w d allowed token.contract d.gas_tank_address
    sweep_tank_token token balance
    sweep_tank_tokens tokens

  unfoldable pub sweep_gas_tank_tokens_to_ledger : Action F (Unit {0})
  unfolding sweep_tank_tokens
  sweep_gas_tank_tokens_to_ledger = sweep_tank_tokens d.tokens

  -- What is over the target and the fee goes to the ledger.
  unfoldable pub send_excess : ℕ → ℕ → ℕ → ℕ → Action F (Unit {0})
  unfolding send_native
  send_excess target balance price fee =
      let amount = balance - target - fee in
      if leb balance (target + fee) || amount == 0
      then pure tt
      else if fee_ratio_too_high_u256 fl eth fee amount d.config.max_fee_ratio
      then pure tt
      else (send_native fl eth w d allowed d.gas_tank_address d.ledger_address amount price
          >>= λ txid. pure tt)

  unfoldable pub sweep_excess : ℕ → ℕ → Action F (Unit {0})
  unfolding gas_price send_excess
  sweep_excess target balance = if leb balance target then pure tt else (do
    price ← gas_price fl eth w d allowed
    fee ← lift (checked (native_transfer_gas_limit * price))
    lift (checked (target + fee)) >>= λ total. pure tt
    send_excess target balance price fee)

  -- Without a price there is no target.
  unfoldable pub keep_target : Result F → Action F (Unit {0})
  unfolding usd_to_wei eth_balance sweep_excess
  keep_target (err e) = pure tt
  keep_target (ok eth_usd) = if not (fl.lt (zero_f64 fl eth) eth_usd) then pure tt else (do
    target ← lift (usd_to_wei fl eth d.config.gas_tank_target_usd eth_usd)
    balance ← eth_balance fl eth w d allowed d.gas_tank_address
    sweep_excess target balance)

  unfoldable pub maintain_gas_tank : Action F (Unit {0})
  unfolding sweep_gas_tank_tokens_to_ledger keep_target request
  maintain_gas_tank = do
    sweep_gas_tank_tokens_to_ledger
    answer ← attempt (request eth w allowed (λ n. w.eth_usd_answer n))
    keep_target answer

  unfoldable pub is_due : ℕ → Option ℕ → Bool
  is_due now none = true
  is_due now (some last) =
      leb (max (min d.config.gas_tank_check_interval_secs i64_max) 1) (now - last)

  unfoldable pub maintain_and_note : ℕ → Action F (Unit {0})
  unfolding maintain_gas_tank persist_state
  maintain_and_note now = do
    maintain_gas_tank
    modify_shared (λ s. record s { gas_tank_last_maintenance_unix = some now })
    persist_state eth w

  unfoldable pub maybe_maintain_gas_tank : Action F (Unit {0})
  unfolding is_due maintain_and_note
  maybe_maintain_gas_tank = do
    now ← gets (λ m. w.unix_timestamp m.clock)
    last ← gets (λ m. m.shared.gas_tank_last_maintenance_unix)
    if is_due now last then maintain_and_note now else pure tt

  unfoldable pub sweep_if_any : Text → Result ℕ → Action F (Unit {0})
  unfolding sweep_native_from_address
  sweep_if_any address (err e) = pure tt
  sweep_if_any address (ok balance) =
      if balance == 0
      then pure tt
      else (attempt (sweep_native_from_address fl eth w d allowed address) >>= λ r. pure tt)

  unfoldable pub sweep_token_if_any : Text → ℕ → Result ℕ → Action F (Unit {0})
  unfolding sweep_erc20_from_address
  sweep_token_if_any address contract (err e) = pure tt
  sweep_token_if_any address contract (ok balance) =
      if balance == 0
      then pure tt
      else (attempt (sweep_erc20_from_address fl eth w d allowed address contract balance) >>= λ r.
          pure tt)

  unfoldable pub sweep_orphan_tokens : Text → ℕ → List Erc20TokenConfig → Action F (Unit {0})
  unfolding erc20_balance sweep_token_if_any
  sweep_orphan_tokens address a [] = pure tt
  sweep_orphan_tokens address a (token ∷ tokens) = do
    answer ← attempt (erc20_balance fl eth w d allowed token.contract a)
    sweep_token_if_any address token.contract answer
    sweep_orphan_tokens address a tokens

  unfoldable pub sweep_orphan : Text → ℕ → Action F (Unit {0})
  unfolding eth_balance sweep_if_any sweep_orphan_tokens
  sweep_orphan address a = do
    answer ← attempt (eth_balance fl eth w d allowed a)
    sweep_if_any address answer
    sweep_orphan_tokens address a d.tokens

  -- A loaded wallet's address parses; one whose address does not has no `eth_address`.
  unfoldable pub sweep_parsed : Text → Result ℕ → Action F (Unit {0})
  unfolding sweep_orphan
  sweep_parsed address (err e) = pure tt
  sweep_parsed address (ok a) = sweep_orphan address a

  unfoldable pub sweep_orphans : List Text → List ManagedEthereumWallet → Action F (Unit {0})
  unfolding managed_address sweep_parsed
  sweep_orphans active [] = pure tt
  sweep_orphans active (wallet ∷ wallets) = do
    if mem (to_ascii_lowercase wallet.address) active
        then pure tt
        else sweep_parsed wallet.address (managed_address fl eth w d allowed wallet.address)
    sweep_orphans active wallets

  unfoldable pub active_addresses : List EthereumReservation → List Text
  active_addresses = map (λ r. to_ascii_lowercase r.address)

  -- Without the reservations nothing is swept.
  unfoldable pub sweep_unreserved : Result (List EthereumReservation) → Action F (Unit {0})
  unfolding sweep_orphans active_addresses
  sweep_unreserved (err e) = pure tt
  sweep_unreserved (ok reservations) = sweep_orphans (active_addresses reservations) d.wallets

  unfoldable pub sweep_orphan_balances : Action F (Unit {0})
  unfolding request sweep_unreserved
  sweep_orphan_balances = do
    answer ← attempt (request eth w allowed (λ n. w.reservations_answer n))
    sweep_unreserved answer
