-- ===== src/Evm/Sweep.antt =====
-- The sweeps of ethereum.rs: ether to the gas tank, tokens to the ledger, and top-ups for their gas.
use crypto_payment_detector.Base.{
  ℕ, suc, ◌+◌, ◌-◌, ◌*◌, Bool, true, false, ◌&&◌, Option, none, some, ◌∷◌, ◌++◌, if◌then◌else◌,
  ◌==◌, leb, max, find,
}
use crypto_payment_detector.Base.Text.{Text, text, same, to_ascii_uppercase}
use crypto_payment_detector.Base.Float.{Float}
use crypto_payment_detector.Error.Defs.{api_error, invalid_config, Result, ok, err}
use crypto_payment_detector.Error.Exec.{pure, raise, lift, attempt, ◌>>=◌, ◌>>◌}
use crypto_payment_detector.EvmPool.{ManagedEthereumWallet}
use crypto_payment_detector.Evm.Chain.{Ethers, Erc20TokenConfig, Transfer, checked}
use crypto_payment_detector.Evm.State.{EthereumDetector, SweepResult, Other, World, Action}
use crypto_payment_detector.Evm.Events.{await_point, request}
use crypto_payment_detector.Evm.Receipts.{equals}
use crypto_payment_detector.Evm.Scan.{eth_decimals}
use crypto_payment_detector.Evm.Amounts.{
  native_transfer_gas_limit, default_token_transfer_gas_limit, fee_ratio_too_high_u256,
  multiply_u256_by_f64, u256_to_units_f64, token_peg_currency, zero_f64,
}

module _ {F : Type 0} (fl : Float F) (eth : Ethers F) (w : World F) (d : EthereumDetector F)
    (allowed : Other → Bool) where
  -- `Address::from_str`.
  unfoldable pub managed_address : Text → Result ℕ
  managed_address address = elim (eth.parse_address address) [
    | none ↦ err (
        invalid_config (
          text "Invalid managed EVM address '" ++ address ++ text "': " ++ eth.parse_error address))
    | some a ↦ ok a
  ]

  -- A wallet's `eth_address` is its address, parsed.
  unfoldable pub owns : ℕ → ManagedEthereumWallet → Bool
  owns a wallet = equals (eth.parse_address wallet.address) a

  unfoldable pub find_ethereum_wallet : Text → ℕ → Result ManagedEthereumWallet
  unfolding owns
  find_ethereum_wallet address a = elim (find (owns a) d.wallets) [
    | none ↦
        err
          (invalid_config (text "No managed EVM wallet found for address '" ++ address ++ text "'"))
    | some wallet ↦ ok wallet
  ]

  unfoldable pub eth_balance : ℕ → Action F ℕ
  unfolding request
  eth_balance a = request eth w allowed (λ n. w.balance_answer n a)

  unfoldable pub erc20_balance : ℕ → ℕ → Action F ℕ
  unfolding request
  erc20_balance contract owner =
      request eth w allowed (λ n. w.token_balance_answer n contract owner)

  unfoldable pub gas_price : Action F ℕ
  unfolding request
  gas_price = request eth w allowed (λ n. w.gas_price_answer n)

  -- The node has the transaction, whatever it answers then.
  unfoldable pub hand_over : Transfer → Action F Text
  hand_over t m = (w.send_answer m.clock t, record m { sent = t ∷ m.sent; clock = suc m.clock })

  unfoldable pub send_transaction : Transfer → Action F Text
  unfolding hand_over await_point
  send_transaction t = do await_point eth w allowed; hand_over t

  abbrev pub native_transfer : ℕ → ℕ → ℕ → ℕ → Transfer
  native_transfer from to amount price = record {
    from = from;
    to = to;
    token = none;
    amount = amount;
    gas = native_transfer_gas_limit;
    gas_price = price;
  }

  unfoldable pub send_native : ℕ → ℕ → ℕ → ℕ → Action F Text
  unfolding send_transaction
  send_native from to amount price = send_transaction (native_transfer from to amount price)

  abbrev pub deferral : Bool → SweepResult
  deferral deferred = record { amount = 0; txid = none; deferred = deferred }

  abbrev pub swept : ℕ → Text → SweepResult
  swept amount txid = record { amount = amount; txid = some txid; deferred = false }

  -- Once the balance and the fee are known.
  unfoldable pub sweep_native_with : ℕ → ℕ → ℕ → ℕ → Action F SweepResult
  unfolding send_native
  sweep_native_with a balance price fee =
      if leb balance fee
      then pure (deferral true)
      else if fee_ratio_too_high_u256 fl eth fee balance d.config.max_fee_ratio
      then pure (deferral true)
      else (do
        txid ← send_native a d.gas_tank_address (balance - fee) price
        pure (swept (balance - fee) txid))

  unfoldable pub sweep_balance : ℕ → ℕ → Action F SweepResult
  unfolding sweep_native_with gas_price
  sweep_balance a balance = if balance == 0 then pure (deferral false) else (do
    price ← gas_price
    fee ← lift (checked (native_transfer_gas_limit * price))
    sweep_native_with a balance price fee)

  unfoldable pub sweep_native_from_address : Text → Action F SweepResult
  unfolding managed_address find_ethereum_wallet eth_balance sweep_balance
  sweep_native_from_address address = do
    a ← lift (managed_address address)
    wallet ← lift (find_ethereum_wallet address a)
    balance ← eth_balance a
    sweep_balance a balance

  unfoldable pub gas_or_default : Result ℕ → ℕ
  gas_or_default (ok gas) = gas
  gas_or_default (err e) = max d.config.token_transfer_gas_limit default_token_transfer_gas_limit

  abbrev pub token_transfer : ℕ → ℕ → ℕ → ℕ → ℕ → Transfer
  token_transfer from contract amount gas price = record {
    from = from;
    to = d.ledger_address;
    token = some contract;
    amount = amount;
    gas = gas;
    gas_price = price;
  }

  -- `estimate_token_transfer_gas(..).await.unwrap_or_else(..)`; its request has no gas yet.
  unfoldable pub token_gas : ℕ → ℕ → ℕ → ℕ → Action F ℕ
  unfolding gas_or_default request
  token_gas from contract to amount = do
    let call = record (token_transfer from contract amount 0 0) { to = to }
    answer ← attempt (request eth w allowed (λ n. w.estimate_answer n call))
    pure (gas_or_default answer)

  -- The prices of ether in dollars and euros.
  unfoldable pub eth_peg_price : Text → Action F F
  unfolding request
  eth_peg_price peg =
      let upper = to_ascii_uppercase peg in
      if same upper (text "USD")
      then request eth w allowed (λ n. w.eth_usd_answer n)
      else if same upper (text "EUR")
      then request eth w allowed (λ n. w.eth_eur_answer n)
      else raise (
          api_error
            (text "No ETH/" ++ upper ++ text " price source available for stablecoin conversion"))

  -- Whether the fee is more than the allowed part of the amount; without a price it is not.
  unfoldable pub exceeds : ℕ → F → Result F → Bool
  unfolding u256_to_units_f64
  exceeds fee amount_pegged (ok eth_peg) =
      fl.lt (zero_f64 fl eth) eth_peg
      && fl.lt (fl.mul amount_pegged d.config.max_fee_ratio)
          (fl.mul (u256_to_units_f64 fl eth fee eth_decimals) eth_peg)
  exceeds fee amount_pegged (err e) = false

  unfoldable pub fee_test : ℕ → F → Text → Action F Bool
  unfolding eth_peg_price exceeds
  fee_test fee amount_pegged peg =
      if fl.lt (zero_f64 fl eth) amount_pegged
      then (do answer ← attempt (eth_peg_price peg); pure (exceeds fee amount_pegged answer))
      else pure false

  unfoldable pub pegged_test : ℕ → ℕ → ℕ → Option Text → Action F Bool
  unfolding fee_test u256_to_units_f64
  pegged_test fee amount decimals none = pure false
  pegged_test fee amount decimals (some peg) =
      fee_test fee (u256_to_units_f64 fl eth amount (max decimals 1)) peg

  unfoldable pub fee_too_high : ℕ → ℕ → Option Erc20TokenConfig → Action F Bool
  unfolding pegged_test token_peg_currency
  fee_too_high fee amount none = pure false
  fee_too_high fee amount (some token) =
      pegged_test fee amount token.decimals (token_peg_currency token.symbol)

  unfoldable pub top_up : ℕ → ℕ → Action F (Unit {0})
  unfolding gas_price eth_balance send_native
  top_up a amount = do
    price ← gas_price
    fee ← lift (checked (native_transfer_gas_limit * price))
    tank ← eth_balance d.gas_tank_address
    needed ← lift (checked (amount + fee))
    if leb tank needed
        then raise (
            invalid_config (
              text "EVM gas tank "
              ++ eth.format_address d.gas_tank_address
              ++ text " has "
              ++ eth.format_u256 tank
              ++ text " wei, needs "
              ++ eth.format_u256 amount
              ++ text " wei to top up "
              ++ eth.format_address a
              ++ text " plus fee "
              ++ eth.format_u256 fee
              ++ text " wei"))
        else (send_native d.gas_tank_address a amount price >>= λ txid. pure tt)

  unfoldable pub ensure_eth_for_token_sweep : ℕ → ℕ → Action F (Unit {0})
  unfolding eth_balance top_up
  ensure_eth_for_token_sweep a needed = do
    balance ← eth_balance a
    if leb needed balance then pure tt else top_up a (needed - balance)

  -- The top-up, the token transfer, and the ether that is left over.
  unfoldable pub send_token : Text → ℕ → ℕ → ℕ → ℕ → ℕ → ℕ → Action F SweepResult
  unfolding ensure_eth_for_token_sweep send_transaction sweep_native_from_address
  send_token address a contract amount price gas needed = do
    ensure_eth_for_token_sweep a needed
    txid ← send_transaction (token_transfer a contract amount gas price)
    attempt (sweep_native_from_address address) >>= λ r. pure tt
    pure (swept amount txid)

  unfoldable pub sweep_tokens : Text → ℕ → ℕ → ℕ → Action F SweepResult
  unfolding gas_price token_gas fee_too_high send_token
  sweep_tokens address a contract amount = do
    price ← gas_price
    gas ← token_gas a contract d.gas_tank_address amount
    cost ← lift (checked (gas * price))
    needed ← lift (multiply_u256_by_f64 fl eth cost d.config.gas_top_up_multiplier)
    high ← fee_too_high needed amount (find (λ t. t.contract == contract) d.tokens)
    if high then pure (deferral true) else send_token address a contract amount price gas needed

  unfoldable pub sweep_erc20_from_address : Text → ℕ → ℕ → Action F SweepResult
  unfolding managed_address find_ethereum_wallet sweep_tokens
  sweep_erc20_from_address address contract amount = do
    a ← lift (managed_address address)
    wallet ← lift (find_ethereum_wallet address a)
    if amount == 0 then pure (deferral false) else sweep_tokens address a contract amount
