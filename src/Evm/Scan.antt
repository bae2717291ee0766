-- ===== src/Evm/Scan.antt =====
-- The scan of ethereum.rs for native transfers.
use crypto_payment_detector.Base.{
  ℕ, zero, suc, ◌+◌, ◌-◌, Bool, true, false, not, ◌&&◌, Option, none, some, List, [], ◌∷◌, ◌++◌,
  if◌then◌else◌, ◌==◌, bind,
}
use crypto_payment_detector.Base.Text.{Text, text, trim, starts_with}
use crypto_payment_detector.Base.Maps.{lookup, put}
use crypto_payment_detector.Error.Exec.{pure, lift, gets, ◌>>=◌, ◌>>◌}
use crypto_payment_detector.EvmPool.{EthereumReservation}
use crypto_payment_detector.Evm.Chain.{Ethers, EthTransaction}
use crypto_payment_detector.Evm.State.{EthereumDetector, DetectedEthereumPayment, World, Action}
use crypto_payment_detector.Evm.Events.{is_known_event, while_scanning}
use crypto_payment_detector.Evm.Receipts.{
  receipt_succeeded, validate_receipt, full_block, transaction_receipt, some_or,
}

-- `HashMap<Address, EthereumReservation>`
abbrev pub Reservations : Type 0
Reservations = List (ℕ × EthereumReservation)

unfoldable pub is_native_gas_tank_top_up : ℕ → ℕ → ℕ → Bool
is_native_gas_tank_top_up from to tank = from == tank && not (to == tank)

after_two : Text → Text
after_two (a ∷ b ∷ s) = s
after_two s = s

strip_0x : Text → Text
unfolding after_two
strip_0x s = if starts_with (text "0x") s then after_two s else s

abbrev pub eth_decimals : ℕ
eth_decimals = 18

module _ {F : Type 0} (eth : Ethers F) (w : World F) (d : EthereumDetector F) where
  -- A later reservation of an address replaces an earlier one.
  insert_reservation : EthereumReservation → Option ℕ → Reservations → Reservations
  insert_reservation r none m = m
  insert_reservation r (some address) m = put address r m

  unfoldable pub reservation_lookup : List EthereumReservation → Reservations → Reservations
  unfolding insert_reservation
  reservation_lookup [] m = m
  reservation_lookup (r ∷ rs) m =
      reservation_lookup rs (insert_reservation r (eth.parse_address r.address) m)

  unfoldable pub normalize_etherscan_hash : Text → Text
  unfolding strip_0x
  normalize_etherscan_hash raw =
      let trimmed = trim raw in
      elim (eth.parse_hash (strip_0x trimmed)) [ none ↦ trimmed | some hash ↦ eth.format_hash hash ]

  unfoldable pub native_event_id : ℕ → ℕ → Text
  native_event_id hash to =
      text "native:" ++ eth.format_hash hash ++ text ":" ++ eth.format_address to

  -- A native or an internal payment of ether.
  abbrev pub ether_payment : Text → Text → ℕ → ℕ → EthereumReservation → DetectedEthereumPayment
  ether_payment event txid block value r = record {
    event_id = event;
    txid = txid;
    block_number = block;
    amount = value;
    asset = text "ETH";
    asset_decimals = eth_decimals;
    token_contract = none;
    reservation = r;
  }

  -- The tests of `scan_native_eth` before its first request: the recipient and its reservation.
  unfoldable pub native_candidate : Reservations → EthTransaction → Option (ℕ × EthereumReservation)
  unfolding is_native_gas_tank_top_up
  native_candidate reservations tx =
      if tx.value == 0
      then none
      else bind tx.to (λ to. bind (lookup to reservations) (λ reservation.
        if is_native_gas_tank_top_up tx.from to d.gas_tank_address
        then none
        else some (to, reservation)))

  unfoldable pub paid :
      ℕ → EthTransaction → ℕ → EthereumReservation → Bool → List DetectedEthereumPayment
  unfolding native_event_id
  paid number tx to reservation false = []
  paid number tx to reservation true =
      ether_payment (native_event_id tx.hash to) (eth.format_hash tx.hash) number tx.value
        reservation
      ∷ []

  unfoldable pub check_receipt :
      ℕ → ℕ → EthTransaction → ℕ → EthereumReservation → Action F (List DetectedEthereumPayment)
  unfolding transaction_receipt paid
  check_receipt number hash tx to reservation = do
    receipt ← transaction_receipt eth w while_scanning tx.hash
    lift (validate_receipt receipt tx.hash number hash)
    succeeded ← lift (receipt_succeeded receipt)
    pure (paid number tx to reservation succeeded)

  unfoldable pub check_native :
      ℕ
      → ℕ
      → EthTransaction
      → Option (ℕ × EthereumReservation)
      → Action F (List DetectedEthereumPayment)
  unfolding check_receipt native_event_id
  check_native number hash tx none = pure []
  check_native number hash tx (some (to, reservation)) = do
    known ← gets (λ m. is_known_event m.shared (native_event_id tx.hash to))
    if known then pure [] else check_receipt number hash tx to reservation

  unfoldable pub scan_transactions :
      Reservations → ℕ → ℕ → List EthTransaction → Action F (List DetectedEthereumPayment)
  unfolding native_candidate check_native
  scan_transactions reservations number hash [] = pure []
  scan_transactions reservations number hash (tx ∷ txs) = do
    found ← check_native number hash tx (native_candidate reservations tx)
    later ← scan_transactions reservations number hash txs
    pure (found ++ later)

  -- The blocks `from, from + 1, ..`, as many as are left.
  unfoldable pub scan_native_blocks : Reservations → ℕ → ℕ → Action F (List DetectedEthereumPayment)
  unfolding full_block scan_transactions
  scan_native_blocks reservations zero from = pure []
  scan_native_blocks reservations (suc left) from = do
    block ← full_block eth w while_scanning from
    hash ← lift (some_or (text "Mined block has no hash") block.hash)
    found ← scan_transactions reservations from hash block.transactions
    later ← scan_native_blocks reservations left (from + 1)
    pure (found ++ later)

  unfoldable pub scan_native_eth : Reservations → ℕ → ℕ → Action F (List DetectedEthereumPayment)
  unfolding scan_native_blocks
  scan_native_eth reservations from to = scan_native_blocks reservations (to + 1 - from) from
