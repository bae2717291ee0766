-- ===== src/Evm/Amounts.antt =====
-- The money arithmetic of ethereum.rs: fees, ratios, pegs and prices.
use crypto_payment_detector.Base.{
  ℕ, ◌*◌, ◌/◌, Bool, false, not, ◌||◌, Option, none, some, [], ◌∷◌, ◌++◌, if◌then◌else◌, ◌==◌, ltb,
  u64_max,
}
use crypto_payment_detector.Base.Text.{Text, text, trim, to_ascii_uppercase, one_of}
use crypto_payment_detector.Base.Float.{Float}
use crypto_payment_detector.Error.Defs.{api_error, invalid_config, Result, ok, err}
use crypto_payment_detector.Evm.Chain.{Ethers, checked}
use crypto_payment_detector.Evm.Receipts.{and_then}

abbrev pub native_transfer_gas_limit : ℕ
native_transfer_gas_limit = 21000

abbrev pub default_token_transfer_gas_limit : ℕ
default_token_transfer_gas_limit = 100000

unfoldable pub u256_to_u64_saturating : ℕ → ℕ
u256_to_u64_saturating value = if ltb u64_max value then u64_max else value

unfoldable pub is_usd_pegged_token : Text → Bool
is_usd_pegged_token symbol = one_of (to_ascii_uppercase (trim symbol)) (
    text "USDC"
    ∷ text "USDT"
    ∷ text "DAI"
    ∷ text "BUSD"
    ∷ text "TUSD"
    ∷ text "USDP"
    ∷ text "GUSD"
    ∷ text "PYUSD"
    ∷ [])

unfoldable pub is_eur_pegged_token : Text → Bool
is_eur_pegged_token symbol =
    one_of (to_ascii_uppercase (trim symbol))
      (text "EURC" ∷ text "EURT" ∷ text "AGEUR" ∷ text "EURE" ∷ text "EUROE" ∷ [])

unfoldable pub token_peg_currency : Text → Option Text
unfolding is_usd_pegged_token is_eur_pegged_token
token_peg_currency symbol =
    if is_usd_pegged_token symbol
    then some (text "USD")
    else if is_eur_pegged_token symbol
    then some (text "EUR")
    else none

module _ {F : Type 0} (fl : Float F) (eth : Ethers F) where
  abbrev pub zero_f64 : F
  zero_f64 = fl.of_u64 0

  unfoldable pub fee_ratio_too_high_u256 : ℕ → ℕ → F → Bool
  fee_ratio_too_high_u256 fee total max_ratio =
      if total == 0
        || not (fl.is_finite max_ratio)
        || fl.le max_ratio zero_f64
        || fl.le (fl.of_u64 1) max_ratio
      then false
      else if fl.le (eth.f64_of_u256 total) zero_f64
      then false
      else fl.lt max_ratio (fl.div (eth.f64_of_u256 fee) (eth.f64_of_u256 total))

  unfoldable pub multiply_u256_by_f64 : ℕ → F → Result ℕ
  multiply_u256_by_f64 value multiplier =
      if not (fl.is_finite multiplier) || fl.le multiplier (fl.of_u64 1)
      then ok value
      else and_then (checked (value * eth.ceil_u64 (fl.mul multiplier (fl.of_u64 10000))))
          (λ product. ok (product / 10000))

  unfoldable pub u256_to_units_f64 : ℕ → ℕ → F
  u256_to_units_f64 value decimals = fl.div (eth.f64_of_u256 value) (eth.powi_10 decimals)

  unfoldable pub usd_to_wei : F → F → Result ℕ
  usd_to_wei usd eth_usd =
      let wei = fl.mul (fl.div usd eth_usd) (fl.of_u64 1000000000000000000) in
      if not (fl.is_finite usd) || fl.le usd zero_f64
      then err (invalid_config (text "gas tank target USD must be positive"))
      else if not (fl.is_finite eth_usd) || fl.le eth_usd zero_f64
      then err (api_error (text "ETH/USD price must be positive for gas tank maintenance"))
      else if not (fl.is_finite wei) || fl.le wei zero_f64 || fl.lt eth.u128_max wei
      then err (
          invalid_config (
            text "Cannot convert $"
            ++ eth.format_2 usd
            ++ text " at ETH/USD "
            ++ eth.format_2 eth_usd
            ++ text " to wei"))
      else ok (eth.ceil_u128 wei)

  unfoldable pub usd_to_fiat_rate_from_eth_prices : F → F → Result F
  usd_to_fiat_rate_from_eth_prices eth_fiat eth_usd =
      if not (fl.is_finite eth_fiat) || fl.le eth_fiat zero_f64
      then err (api_error (text "ETH/fiat price must be positive for stablecoin conversion"))
      else if not (fl.is_finite eth_usd) || fl.le eth_usd zero_f64
      then err (api_error (text "ETH/USD price must be positive for stablecoin conversion"))
      else ok (fl.div eth_fiat eth_usd)
