-- ===== src/Evm/RecoverPayment.antt =====
-- The payment that a recovery of ethereum.rs finds in a transaction, and what becomes of it.
use crypto_payment_detector.Base.{
  ℕ, Bool, true, not, ◌&&◌, Option, none, some, List, [], ◌∷◌, ◌++◌, if◌then◌else◌, ◌==◌, leb, find,
  length, is_nil, get_elem?, unwrap_or,
}
use crypto_payment_detector.Base.Text.{Text, text, trim, same}
use crypto_payment_detector.Base.Maps.{mem}
use crypto_payment_detector.Base.Float.{Float}
use crypto_payment_detector.Types.Recover.{
  RecoverStatus, was_credited, already_credited, pending_sweep, no_credit_amount, RecoverResponse,
  with_asset,
}
use crypto_payment_detector.Error.Defs.{invalid_config, Result, ok, err}
use crypto_payment_detector.Error.Exec.{pure, gets, ◌>>=◌, ◌>>◌}
use crypto_payment_detector.EvmPool.{EthereumReservation}
use crypto_payment_detector.Evm.Chain.{
  Ethers, Log, EthTransaction, Erc20TokenConfig, from_big_endian,
}
use crypto_payment_detector.Evm.State.{
  EthereumDetector, DetectedEthereumPayment, Other, World, Action,
}
use crypto_payment_detector.Evm.Events.{request, emit_detected_and_enqueue}
use crypto_payment_detector.Evm.Receipts.{equals}
use crypto_payment_detector.Evm.Scan.{
  is_native_gas_tank_top_up, normalize_etherscan_hash, native_event_id, ether_payment,
}
use crypto_payment_detector.Evm.Tokens.{token_payment}
use crypto_payment_detector.Evm.Amounts.{u256_to_units_f64}
use crypto_payment_detector.Evm.Credit.{process_credits}

-- A recovery holds no lock while it waits.
abbrev pub always : Other → Bool
always o = true

unfoldable pub assignment_of : Text → List EthereumReservation → Option EthereumReservation
assignment_of user assignments = find (λ a. same a.user_id user) assignments

module _ {F : Type 0} (fl : Float F) (eth : Ethers F) (w : World F) (d : EthereumDetector F) where
  -- The same text as `normalize_etherscan_hash` returns.
  unfoldable pub canonicalize_eth_txid : Text → Text
  unfolding normalize_etherscan_hash
  canonicalize_eth_txid raw = normalize_etherscan_hash eth w d raw

  unfoldable pub load_ethereum_assignment_for_user : Text → Action F (Option EthereumReservation)
  unfolding request assignment_of
  load_ethereum_assignment_for_user user_id =
      let user = trim user_id in
      if is_nil user then pure none else (do
        assignments ← request eth w always w.reservations_answer
        pure (assignment_of user assignments))

  unfoldable pub assigned_address : Text → Result ℕ
  assigned_address address = elim (eth.parse_address address) [
    | none ↦ err (
        invalid_config (
          text "Invalid persisted EVM assignment address '"
          ++ address
          ++ text "': "
          ++ eth.parse_error address))
    | some a ↦ ok a
  ]

  -- `recover_outcome_for_event_id`
  unfoldable pub recover_outcome :
      (RecoverStatus → RecoverResponse F) → DetectedEthereumPayment → Action F (RecoverResponse F)
  unfolding u256_to_units_f64
  recover_outcome mk p = do
    credited ← gets (λ m. mem p.event_id m.shared.credited_events)
    pure (
        with_asset (mk (if credited then was_credited else pending_sweep)) p.asset
          (u256_to_units_f64 fl eth p.amount p.asset_decimals))

  unfoldable pub enqueue_and_credit :
      (RecoverStatus → RecoverResponse F) → DetectedEthereumPayment → Action F (RecoverResponse F)
  unfolding request emit_detected_and_enqueue process_credits recover_outcome
  enqueue_and_credit mk p = do
    current_block ← request eth w always w.block_number_answer
    emit_detected_and_enqueue eth w p
    process_credits fl eth w d current_block
    recover_outcome mk p

  unfoldable pub recover_payment :
      (RecoverStatus → RecoverResponse F) → DetectedEthereumPayment → Action F (RecoverResponse F)
  unfolding enqueue_and_credit
  recover_payment mk p = do
    credited ← gets (λ m. mem p.event_id m.shared.credited_events)
    if credited then pure (mk already_credited) else enqueue_and_credit mk p

  -- The tests of a log that need no token.
  unfoldable pub is_transfer_to : ℕ → Log → Bool
  is_transfer_to address log =
      leb 3 (length log.topics)
      && length log.bytes == 32
      && equals (get_elem? log.topics 0) eth.transfer_topic
      && equals (get_elem? log.topics 2) address

  -- The token of a log that pays the address.
  unfoldable pub paid_token : ℕ → Log → Option Erc20TokenConfig
  unfolding is_transfer_to
  paid_token address log =
      if not (is_transfer_to address log)
      then none
      else elim (find (λ t. t.contract == log.address) d.tokens) [
        | none ↦ none
        | some token ↦ if from_big_endian log.bytes == 0 then none else some token
      ]

  unfoldable pub log_payment :
      ℕ → ℕ → EthereumReservation → Erc20TokenConfig → Log → DetectedEthereumPayment
  unfolding token_payment
  log_payment hash block r token log =
      token_payment eth w d token hash (unwrap_or 0 log.log_index) block (from_big_endian log.bytes)
        r

  -- The loop over the receipt's logs, which returns at the first that pays the address.
  unfoldable pub recover_logs :
      (RecoverStatus → RecoverResponse F)
      → ℕ
      → ℕ
      → EthereumReservation
      → ℕ
      → List Log
      → Action F (RecoverResponse F)
  unfolding paid_token log_payment recover_payment
  recover_logs mk hash block r address [] = pure (mk no_credit_amount)
  recover_logs mk hash block r address (log ∷ logs) =
      let rest = recover_logs mk hash block r address logs in
      elim (paid_token address log) [
        | none ↦ rest
        | some token ↦ recover_payment mk (log_payment hash block r token log)
      ]

  unfoldable pub native_payment : ℕ → ℕ → ℕ → EthereumReservation → ℕ → DetectedEthereumPayment
  unfolding native_event_id
  native_payment hash block value r to =
      ether_payment eth w d (native_event_id eth w d hash to) (eth.format_hash hash) block value r

  unfoldable pub pays_ether : ℕ → EthTransaction → Bool
  pays_ether address tx = equals tx.to address && not (tx.value == 0)

  unfoldable pub recover_ether :
      (RecoverStatus → RecoverResponse F)
      → ℕ
      → ℕ
      → EthereumReservation
      → ℕ
      → EthTransaction
      → Action F (RecoverResponse F)
  unfolding is_native_gas_tank_top_up native_payment recover_payment
  recover_ether mk hash block r address tx =
      if is_native_gas_tank_top_up tx.from address d.gas_tank_address
      then pure (mk no_credit_amount)
      else recover_payment mk (native_payment hash block tx.value r address)
