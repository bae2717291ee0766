-- ===== src/Evm/Recover.antt =====
-- The recovery of one transaction on a user's request, `recover_txid` of ethereum.rs.
use crypto_payment_detector.Base.{ℕ, Bool, not, Option, none, some, if◌then◌else◌, any, is_nil}
use crypto_payment_detector.Base.Text.{Text, text, trim}
use crypto_payment_detector.Base.Float.{Float}
use crypto_payment_detector.Types.Recover.{
  RecoverStatus, address_not_owned, wrong_user, tx_not_found, no_credit_amount, RecoverResponse,
  new_response,
}
use crypto_payment_detector.Error.Defs.{api_error, invalid_config}
use crypto_payment_detector.Error.Exec.{pure, raise, lift, ◌>>=◌}
use crypto_payment_detector.EvmPool.{EthereumReservation}
use crypto_payment_detector.Evm.Chain.{Ethers, Receipt, EthTransaction}
use crypto_payment_detector.Evm.State.{EthereumDetector, World, Action}
use crypto_payment_detector.Evm.Events.{request}
use crypto_payment_detector.Evm.Receipts.{equals, receipt_succeeded, transaction_receipt}
use crypto_payment_detector.Evm.Sweep.{owns}
use crypto_payment_detector.Evm.RecoverPayment.{
  always, canonicalize_eth_txid, load_ethereum_assignment_for_user, assigned_address, recover_logs,
  pays_ether, recover_ether,
}

module _ {F : Type 0} (fl : Float F) (eth : Ethers F) (w : World F) (d : EthereumDetector F) where
  -- From the checks of the receipt on; a reverted transaction has been refused before.
  unfoldable pub recover_in_block :
      (RecoverStatus → RecoverResponse F)
      → ℕ
      → ℕ
      → EthereumReservation
      → ℕ
      → EthTransaction
      → Receipt
      → Action F (RecoverResponse F)
  unfolding pays_ether recover_ether recover_logs
  recover_in_block mk hash block r address tx receipt =
      if pays_ether fl eth w d address tx
      then recover_ether fl eth w d mk hash block r address tx
      else if equals receipt.status 0
      then pure (mk tx_not_found)
      else recover_logs fl eth w d mk hash block r address receipt.logs

  unfoldable pub recover_checked :
      (RecoverStatus → RecoverResponse F)
      → ℕ
      → ℕ
      → EthereumReservation
      → ℕ
      → EthTransaction
      → Receipt
      → Bool
      → Action F (RecoverResponse F)
  unfolding recover_in_block
  recover_checked mk hash block r address tx receipt succeeded =
      if not succeeded
      then pure (mk no_credit_amount)
      else if not (equals receipt.block_number block)
      then raise (api_error (text "Transaction moved blocks during recovery; retry"))
      else recover_in_block mk hash block r address tx receipt

  unfoldable pub recover_mined :
      (RecoverStatus → RecoverResponse F)
      → ℕ
      → EthereumReservation
      → ℕ
      → EthTransaction
      → Option ℕ
      → Action F (RecoverResponse F)
  unfolding transaction_receipt recover_checked
  recover_mined mk hash r address tx none = pure (mk tx_not_found)
  recover_mined mk hash r address tx (some block) = do
    receipt ← transaction_receipt eth w always hash
    succeeded ← lift (receipt_succeeded receipt)
    recover_checked mk hash block r address tx receipt succeeded

  unfoldable pub recover_found :
      (RecoverStatus → RecoverResponse F)
      → ℕ
      → EthereumReservation
      → ℕ
      → Option EthTransaction
      → Action F (RecoverResponse F)
  unfolding recover_mined
  recover_found mk hash r address none = pure (mk tx_not_found)
  recover_found mk hash r address (some tx) = recover_mined mk hash r address tx tx.block_number

  unfoldable pub recover_owned :
      (RecoverStatus → RecoverResponse F)
      → ℕ
      → EthereumReservation
      → ℕ
      → Action F (RecoverResponse F)
  unfolding owns request recover_found
  recover_owned mk hash r address =
      if not (any (owns fl eth w d always address) d.wallets)
      then pure (mk address_not_owned)
      else (do
        tx ← request eth w always (λ n. w.transaction_answer n hash)
        recover_found mk hash r address tx)

  unfoldable pub recover_assigned :
      (RecoverStatus → RecoverResponse F)
      → ℕ
      → Option EthereumReservation
      → Action F (RecoverResponse F)
  unfolding assigned_address recover_owned
  recover_assigned mk hash none = pure (mk wrong_user)
  recover_assigned mk hash (some r) = do
    address ← lift (assigned_address fl eth w d r.address)
    recover_owned mk hash r address

  unfoldable pub recover_hash :
      (RecoverStatus → RecoverResponse F) → Text → Option ℕ → Action F (RecoverResponse F)
  unfolding load_ethereum_assignment_for_user recover_assigned
  recover_hash mk user none = pure (mk tx_not_found)
  recover_hash mk user (some hash) = do
    assignment ← load_ethereum_assignment_for_user fl eth w d user
    recover_assigned mk hash assignment

  unfoldable pub recover_txid : Text → Text → Action F (RecoverResponse F)
  unfolding canonicalize_eth_txid recover_hash
  recover_txid raw_txid raw_user =
      let txid = trim raw_txid in
      let user = trim raw_user in
      if is_nil txid
      then raise (invalid_config (text "txid cannot be empty"))
      else if is_nil user
      then raise (invalid_config (text "user_id cannot be empty"))
      else recover_hash (new_response d.config.chain (canonicalize_eth_txid fl eth w d txid) user)
          user (eth.parse_hash txid)
