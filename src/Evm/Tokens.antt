-- ===== src/Evm/Tokens.antt =====
-- The scans of ethereum.rs for token transfers and internal calls.
use crypto_payment_detector.Base.{
  ℕ, zero, suc, ◌+◌, ◌-◌, Bool, false, not, ◌&&◌, ◌||◌, Option, none, some, List, [], ◌∷◌, ◌++◌,
  if◌then◌else◌, ◌==◌, leb, find, length, is_nil, or_else, get_elem?,
}
use crypto_payment_detector.Base.Text.{Text, text, decimal}
use crypto_payment_detector.Base.Maps.{lookup}
use crypto_payment_detector.Error.Defs.{DetectorError, api_error, Result, ok, err}
use crypto_payment_detector.Error.Exec.{pure, raise, lift, gets, attempt, ◌>>=◌, ◌>>◌}
use crypto_payment_detector.EvmPool.{EthereumReservation}
use crypto_payment_detector.Evm.Chain.{
  Ethers, Log, Receipt, InternalTx, Erc20TokenConfig, from_big_endian, address_from_topic,
}
use crypto_payment_detector.Evm.State.{EthereumDetector, DetectedEthereumPayment, World, Action}
use crypto_payment_detector.Evm.Events.{
  is_known_event, while_scanning, request, emit_detected_and_enqueue,
}
use crypto_payment_detector.Evm.Receipts.{
  equals, receipt_succeeded, should_fallback_to_receipts, block_receipts,
}
use crypto_payment_detector.Evm.Scan.{
  Reservations, is_native_gas_tank_top_up, normalize_etherscan_hash, ether_payment,
}

-- `log.removed == Some(true)`
removed : Option Bool → Bool
removed none = false
removed (some b) = b

module _ {F : Type 0} (eth : Ethers F) (w : World F) (d : EthereumDetector F) where
  -- The first test of `payment_from_log`.
  unfoldable pub is_transfer_log : Log → Bool
  unfolding removed
  is_transfer_log log =
      not (removed log.removed)
      && length log.topics == 3
      && length log.bytes == 32
      && equals (get_elem? log.topics 0) eth.transfer_topic

  unfoldable pub erc20_event_id : ℕ → ℕ → ℕ → Text
  erc20_event_id contract hash index =
      text "erc20:"
      ++ eth.format_address contract
      ++ text ":"
      ++ eth.format_hash hash
      ++ text ":"
      ++ decimal index

  unfoldable pub token_payment :
      Erc20TokenConfig → ℕ → ℕ → ℕ → ℕ → EthereumReservation → DetectedEthereumPayment
  unfolding erc20_event_id
  token_payment token hash index block amount reservation = record {
    event_id = erc20_event_id token.contract hash index;
    txid = eth.format_hash hash;
    block_number = block;
    amount = amount;
    asset = token.symbol;
    asset_decimals = token.decimals;
    token_contract = some token.contract;
    reservation = reservation;
  }

  missing : Result (Option DetectedEthereumPayment)
  missing = err (api_error (text "Transfer log missing transaction, index or block"))

  -- The log's own position, and its amount if that is not zero.
  unfoldable pub placed_payment :
      Log
      → ℕ
      → ℕ
      → Erc20TokenConfig
      → EthereumReservation
      → Option ℕ
      → Option ℕ
      → Option ℕ
      → Result (Option DetectedEthereumPayment)
  unfolding token_payment missing
  placed_payment log from to token reservation (some hash) (some index) (some block) =
      let amount = from_big_endian log.bytes in
      if not (leb from block && leb block to)
      then err (api_error (text "Transfer log outside requested block range"))
      else if amount == 0
      then ok none
      else ok (some (token_payment token hash index block amount reservation))
  placed_payment log from to token reservation none index block = missing
  placed_payment log from to token reservation (some hash) none block = missing
  placed_payment log from to token reservation (some hash) (some index) none = missing

  unfoldable pub reserved_payment :
      Log
      → ℕ
      → ℕ
      → Erc20TokenConfig
      → Option EthereumReservation
      → Result (Option DetectedEthereumPayment)
  unfolding placed_payment
  reserved_payment log from to token none = ok none
  reserved_payment log from to token (some reservation) =
      placed_payment log from to token reservation log.transaction_hash log.log_index
        log.block_number

  -- The recipient of a transfer, `topics[2]`.
  unfoldable pub recipient_reservation : List ℕ → Reservations → Option EthereumReservation
  recipient_reservation (a ∷ b ∷ topic ∷ rest) reservations =
      lookup (address_from_topic topic) reservations
  recipient_reservation topics reservations = none

  unfoldable pub payment_from_log :
      Log → ℕ → ℕ → Reservations → Result (Option DetectedEthereumPayment)
  unfolding is_transfer_log reserved_payment recipient_reservation
  payment_from_log log from to reservations =
      if not (is_transfer_log log)
      then ok none
      else elim (find (λ t. t.contract == log.address) d.tokens) [
        | none ↦ ok none
        | some token ↦
            reserved_payment log from to token (recipient_reservation log.topics reservations)
      ]

  unfoldable pub succeeded_logs : Receipt → Action F (List Log)
  succeeded_logs receipt = do
    succeeded ← lift (receipt_succeeded receipt)
    pure (if succeeded then receipt.logs else [])

  unfoldable pub logs_of_receipts : List Receipt → Action F (List Log)
  unfolding succeeded_logs
  logs_of_receipts [] = pure []
  logs_of_receipts (r ∷ rs) = do
    logs ← succeeded_logs r
    later ← logs_of_receipts rs
    pure (logs ++ later)

  -- The fall-back of `scan_erc20_logs`, over the blocks `from, from + 1, ..`.
  unfoldable pub logs_of_blocks : ℕ → ℕ → Action F (List Log)
  unfolding logs_of_receipts block_receipts
  logs_of_blocks zero from = pure []
  logs_of_blocks (suc left) from = do
    receipts ← block_receipts eth w while_scanning from
    logs ← logs_of_receipts receipts
    later ← logs_of_blocks left (from + 1)
    pure (logs ++ later)

  unfoldable pub logs_or_fallback : ℕ → ℕ → Result (List Log) → Action F (List Log)
  unfolding logs_of_blocks
  logs_or_fallback from to (ok logs) = pure logs
  logs_or_fallback from to (err error) =
      if should_fallback_to_receipts error then logs_of_blocks (to + 1 - from) from else raise error

  unfoldable pub unknown_only :
      Option DetectedEthereumPayment → Action F (List DetectedEthereumPayment)
  unknown_only none = pure []
  unknown_only (some p) = do
    known ← gets (λ m. is_known_event m.shared p.event_id)
    pure (if known then [] else p ∷ [])

  unfoldable pub scan_logs :
      ℕ → ℕ → Reservations → List Log → Action F (List DetectedEthereumPayment)
  unfolding payment_from_log unknown_only
  scan_logs from to reservations [] = pure []
  scan_logs from to reservations (log ∷ logs) = do
    payment ← lift (payment_from_log log from to reservations)
    found ← unknown_only payment
    later ← scan_logs from to reservations logs
    pure (found ++ later)

  unfoldable pub scan_erc20_logs : Reservations → ℕ → ℕ → Action F (List DetectedEthereumPayment)
  unfolding request logs_or_fallback scan_logs
  scan_erc20_logs reservations from to =
      if is_nil reservations || is_nil d.tokens then pure [] else do
        answer ← attempt (request eth w while_scanning (λ n. w.logs_answer n from to))
        logs ← logs_or_fallback from to answer
        scan_logs from to reservations logs

  unfoldable pub internal_event_id : Text → Text → ℕ → Text
  internal_event_id txid trace to =
      text "internal:" ++ txid ++ text ":" ++ trace ++ text ":" ++ eth.format_address to

  -- The tests of `scan_internal_calls` on one entry.
  unfoldable pub is_incoming : ℕ → InternalTx → Bool
  unfolding is_native_gas_tank_top_up
  is_incoming address tx =
      not tx.is_error
      && not (tx.value == 0)
      && tx.to == address
      && not (is_native_gas_tank_top_up tx.from tx.to d.gas_tank_address)

  unfoldable pub internal_payment : EthereumReservation → InternalTx → DetectedEthereumPayment
  unfolding normalize_etherscan_hash internal_event_id
  internal_payment reservation tx =
      let txid = normalize_etherscan_hash eth w d tx.hash in
      ether_payment eth w d (internal_event_id txid tx.trace_id tx.to) txid tx.block_number tx.value
        reservation

  unfoldable pub scan_internals :
      ℕ → EthereumReservation → List InternalTx → Action F (List DetectedEthereumPayment)
  unfolding is_incoming internal_payment unknown_only
  scan_internals address reservation [] = pure []
  scan_internals address reservation (tx ∷ txs) = do
    found ←
        if is_incoming address tx
        then unknown_only (some (internal_payment reservation tx))
        else pure []
    later ← scan_internals address reservation txs
    pure (found ++ later)

  -- What the scan of the reserved addresses has so far: the payments and the first error.
  abbrev pub Found : Type 0
  Found = List DetectedEthereumPayment × Option DetectorError

  unfoldable pub account_answer :
      ℕ → EthereumReservation → Found → Result (List InternalTx) → Action F Found
  unfolding scan_internals
  account_answer address reservation (ds, e) (err error) = pure (ds, or_else e (some error))
  account_answer address reservation (ds, e) (ok txs) = do
    found ← scan_internals address reservation txs
    pure (ds ++ found, e)

  unfoldable pub scan_accounts : ℕ → ℕ → Found → Reservations → Action F Found
  unfolding request account_answer
  scan_accounts from to found [] = pure found
  scan_accounts from to found ((address, reservation) ∷ rest) = do
    answer ← attempt (request eth w while_scanning (λ n. w.internals_answer n address from to))
    next ← account_answer address reservation found answer
    scan_accounts from to next rest

  unfoldable pub emit_all : List DetectedEthereumPayment → Action F (Unit {0})
  unfolding emit_detected_and_enqueue
  emit_all [] = pure tt
  emit_all (p ∷ ps) = do emit_detected_and_enqueue eth w p; emit_all ps

  -- An error of one address keeps the payments of the others, but not the cursor's move.
  unfoldable pub internals_found : Found → Action F (List DetectedEthereumPayment)
  unfolding emit_all
  internals_found (ds, none) = pure ds
  internals_found (ds, some error) = do emit_all ds; raise error

  unfoldable pub scan_internal_calls :
      Reservations → ℕ → ℕ → Action F (List DetectedEthereumPayment)
  unfolding scan_accounts internals_found
  scan_internal_calls reservations from to =
      if not d.config.has_etherscan || is_nil reservations
      then pure []
      else do found ← scan_accounts from to ([], none) reservations; internals_found found
