-- ===== src/Evm/Credit.antt =====
-- The credit cycle of ethereum.rs.
use crypto_payment_detector.Base.{
  add_u64, ℕ, ◌-◌, Bool, true, false, ◌&&◌, Option, none, some, List, [], ◌∷◌, ◌++◌, if◌then◌else◌,
  ◌==◌, ltb, leb, max, is_some, unwrap_or,
}
use crypto_payment_detector.Base.Text.{Text, text}
use crypto_payment_detector.Base.Maps.{mem}
use crypto_payment_detector.Base.Float.{Float}
use crypto_payment_detector.Types.Payments.{payment_detected, payment_credited}
use crypto_payment_detector.Error.Defs.{invalid_config, Result, ok, err}
use crypto_payment_detector.Error.Exec.{pure, lift, gets, attempt, ◌>>=◌, ◌>>◌}
use crypto_payment_detector.Evm.Chain.{Ethers, Receipt, EthTransaction}
use crypto_payment_detector.Evm.State.{
  EthereumDetector, EthereumPendingPayment, EthereumState, SweepResult, World, Action,
  modify_shared,
}
use crypto_payment_detector.Evm.Events.{
  has_id, credit, remove_event, while_crediting, await_point, request, persist_state,
  mark_event_ignored,
}
use crypto_payment_detector.Evm.Receipts.{receipt_succeeded, transaction_receipt}
use crypto_payment_detector.Evm.Scan.{is_native_gas_tank_top_up}
use crypto_payment_detector.Evm.Sweep.{
  managed_address, sweep_native_from_address, sweep_erc20_from_address,
}
use crypto_payment_detector.Evm.Announce.{pending_to_webhook, enrich_fiat, send_webhook}

unfoldable pub confirmations_at : ℕ → ℕ → ℕ
confirmations_at current_block mined_at =
    if leb mined_at current_block then add_u64 (current_block - mined_at) 1 else 0

-- `iter_mut().find(..)` and an assignment.
unfoldable pub update_first :
    (EthereumPendingPayment → EthereumPendingPayment)
    → Text
    → List EthereumPendingPayment
    → List EthereumPendingPayment
update_first f event_id [] = []
update_first f event_id (p ∷ ps) =
    if has_id event_id p then f p ∷ ps else p ∷ update_first f event_id ps

module _ {F : Type 0} (fl : Float F) (eth : Ethers F) (w : World F) (d : EthereumDetector F) where
  unfoldable pub is_top_up_to : ℕ → EthTransaction → Bool
  unfolding is_native_gas_tank_top_up
  is_top_up_to a tx = elim tx.to [
    | none ↦ false
    | some to ↦ to == a && is_native_gas_tank_top_up tx.from to d.gas_tank_address
  ]

  unfoldable pub is_top_up : ℕ → Option EthTransaction → Bool
  unfolding is_top_up_to
  is_top_up a none = false
  is_top_up a (some tx) = is_top_up_to a tx

  unfoldable pub top_up_with : EthereumPendingPayment → Option ℕ → Action F Bool
  unfolding is_top_up managed_address request
  top_up_with entry none = pure false
  top_up_with entry (some hash) = do
    a ← lift (managed_address fl eth w d while_crediting entry.address)
    tx ← request eth w while_crediting (λ n. w.transaction_answer n hash)
    pure (is_top_up a tx)

  unfoldable pub is_pending_gas_tank_top_up : EthereumPendingPayment → Action F Bool
  unfolding top_up_with
  is_pending_gas_tank_top_up entry = top_up_with entry (eth.parse_hash entry.txid)

  unfoldable pub set_block_number : Text → ℕ → EthereumState → EthereumState
  unfolding update_first
  set_block_number event_id mined_at s = record s {
    pending = update_first (λ p. record p { block_number = mined_at }) event_id s.pending;
  }

  unfoldable pub set_detected : Text → EthereumState → EthereumState
  unfolding update_first
  set_detected event_id s = record s {
    pending = update_first (λ p. record p { detected_notified = true }) event_id s.pending;
  }

  unfoldable pub correct_block : EthereumPendingPayment → ℕ → Action F (Unit {0})
  unfolding set_block_number persist_state
  correct_block entry mined_at =
      if mined_at == entry.block_number
      then pure tt
      else (do modify_shared (set_block_number entry.event_id mined_at); persist_state eth w)

  -- An earlier gas tank top-up in the outbox; a token payment is none.
  unfoldable pub queued_top_up : EthereumPendingPayment → Action F Bool
  unfolding is_pending_gas_tank_top_up
  queued_top_up entry =
      if is_some entry.token_contract then pure false else is_pending_gas_tank_top_up entry

  unfoldable pub notify_detected : EthereumPendingPayment → ℕ → ℕ → Action F (Unit {0})
  unfolding pending_to_webhook send_webhook set_detected persist_state
  notify_detected entry current_block amount = if entry.detected_notified then pure tt else (do
    send_webhook fl eth w d
        (payment_detected (pending_to_webhook fl eth w d entry current_block none amount))
    modify_shared (set_detected entry.event_id)
    persist_state eth w)

  unfoldable pub sweep_for : EthereumPendingPayment → ℕ → Option Text → Action F SweepResult
  unfolding sweep_native_from_address sweep_erc20_from_address
  sweep_for entry amount none = sweep_native_from_address fl eth w d while_crediting entry.address
  sweep_for entry amount (some contract) = do
    c ← lift (elim (eth.parse_address contract) [
      | none ↦ err (
          invalid_config (
            text "Invalid persisted token contract '"
            ++ contract
            ++ text "': "
            ++ eth.parse_error contract))
      | some c ↦ ok c
    ])
    sweep_erc20_from_address fl eth w d while_crediting entry.address c amount

  unfoldable pub notify_credited :
      EthereumPendingPayment → ℕ → ℕ → SweepResult → Action F (Unit {0})
  unfolding pending_to_webhook enrich_fiat send_webhook credit persist_state
  notify_credited entry current_block amount sweep = do
    payment ← enrich_fiat fl eth w d (
        pending_to_webhook fl eth w d entry current_block
          (if sweep.deferred then none else some sweep) amount)
    send_webhook fl eth w d (payment_credited payment)
    modify_shared (credit entry.event_id)
    persist_state eth w

  unfoldable pub drop_entry : Text → Action F (Unit {0})
  unfolding remove_event persist_state
  drop_entry event_id = do modify_shared (remove_event event_id); persist_state eth w

  unfoldable pub settle : EthereumPendingPayment → ℕ → ℕ → SweepResult → Action F (Unit {0})
  unfolding notify_credited drop_entry
  settle entry current_block amount sweep = do
    already ← gets (λ m. mem entry.event_id m.shared.credited_events)
    if already then pure tt else notify_credited entry current_block amount sweep
    if sweep.deferred then pure tt else drop_entry entry.event_id

  -- From the amount on, with the entry's block corrected.
  unfoldable pub process_amount : EthereumPendingPayment → ℕ → ℕ → Action F (Unit {0})
  unfolding notify_detected confirmations_at sweep_for settle
  process_amount entry current_block amount = do
    notify_detected entry current_block amount
    if ltb (confirmations_at current_block entry.block_number) (max d.config.min_confirmations 1)
        then pure tt
        else (sweep_for entry amount entry.token_contract >>= settle entry current_block amount)

  unfoldable pub parsed_amount : EthereumPendingPayment → Result ℕ
  parsed_amount entry = elim (eth.parse_u256 entry.amount_base_units) [
    | none ↦ err (
        invalid_config (
          text "Invalid persisted Ethereum amount for "
          ++ entry.event_id
          ++ text ": "
          ++ eth.parse_error entry.amount_base_units))
    | some amount ↦ ok amount
  ]

  unfoldable pub process_mined : EthereumPendingPayment → ℕ → Bool → Action F (Unit {0})
  unfolding mark_event_ignored parsed_amount process_amount
  process_mined entry current_block true = mark_event_ignored eth w entry.event_id
  process_mined entry current_block false = do
    amount ← lift (parsed_amount entry)
    process_amount entry current_block amount

  -- From a successful receipt on.
  unfoldable pub process_success : EthereumPendingPayment → ℕ → Receipt → Action F (Unit {0})
  unfolding correct_block queued_top_up process_mined
  process_success entry current_block receipt =
      let mined_at = unwrap_or 0 receipt.block_number in
      do
        correct_block entry mined_at
        top_up ← queued_top_up entry
        process_mined (record entry { block_number = mined_at }) current_block top_up

  unfoldable pub entry_hash : EthereumPendingPayment → Result ℕ
  entry_hash entry = elim (eth.parse_hash entry.txid) [
    | none ↦ err (invalid_config (text "Invalid pending txid: " ++ eth.parse_error entry.txid))
    | some hash ↦ ok hash
  ]

  unfoldable pub process_credit_entry : EthereumPendingPayment → ℕ → Action F (Unit {0})
  unfolding entry_hash transaction_receipt process_success mark_event_ignored
  process_credit_entry entry current_block = do
    hash ← lift (entry_hash entry)
    receipt ← transaction_receipt eth w while_crediting hash
    succeeded ← lift (receipt_succeeded receipt)
    if succeeded
        then process_success entry current_block receipt
        else mark_event_ignored eth w entry.event_id

  -- An error is logged, and the entry stays for a later cycle.
  unfoldable pub process_entries : List EthereumPendingPayment → ℕ → Action F (Unit {0})
  unfolding process_credit_entry
  process_entries [] current_block = pure tt
  process_entries (entry ∷ entries) current_block = do
    attempt (process_credit_entry entry current_block) >>= λ r. pure tt
    process_entries entries current_block

  -- With the lock held.
  unfoldable pub process_locked : ℕ → Action F (Unit {0})
  unfolding persist_state process_entries
  process_locked current_block = do
    persist_state eth w
    entries ← gets (λ m. m.shared.pending)
    process_entries entries current_block

  -- Other tasks may run until `credit_lock` is taken.
  unfoldable pub process_credits : ℕ → Action F (Unit {0})
  unfolding await_point process_locked
  process_credits current_block = do await_point eth w (λ o. true); process_locked current_block
