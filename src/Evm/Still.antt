-- ===== src/Evm/Still.antt =====
-- The scans of ethereum.rs forget no event and move no cursor, errors included.
use crypto_payment_detector.Base.{
  ℕ, zero, suc, ◌+◌, not, ◌||◌, Option, none, some, List, [], ◌∷◌, ◌++◌, if◌then◌else◌, is_nil,
}
use crypto_payment_detector.Error.Defs.{Result, ok, err}
use crypto_payment_detector.Error.Exec.{
  pure, raise, lift, gets, attempt, Follows, Follows-if, ◌>>=◌,
}
use crypto_payment_detector.EvmPool.{EthereumReservation}
use crypto_payment_detector.Evm.Chain.{Ethers, EthTransaction, Log, Receipt, InternalTx}
use crypto_payment_detector.Evm.State.{
  EthereumDetector, ScanKind, native, erc20, internal, DetectedEthereumPayment, World, Machine,
  Action, modify_shared,
}
use crypto_payment_detector.Evm.Events.{
  is_known_event, while_scanning, enqueue_one, persist_state, emit_detected_and_enqueue,
}
use crypto_payment_detector.Evm.Receipts.{
  batch, checked_block, checked_receipt, checked_hashes, full_block, transaction_receipt, some_or,
  validate_receipt, receipt_succeeded, receipts_one_by_one, receipts_of_batch, checked_receipts,
  receipts_of_block, block_receipts, should_fallback_to_receipts,
}
use crypto_payment_detector.Evm.Scan.{
  Reservations, native_candidate, native_event_id, check_receipt, check_native, scan_transactions,
  scan_native_blocks, scan_native_eth,
}
use crypto_payment_detector.Evm.Tokens.{
  Found, succeeded_logs, logs_of_receipts, logs_of_blocks, logs_or_fallback, unknown_only,
  scan_logs, scan_erc20_logs, scan_internals, account_answer, scan_accounts, emit_all,
  internals_found, scan_internal_calls, is_incoming, payment_from_log,
}
use crypto_payment_detector.Evm.Loop.{detect}
use crypto_payment_detector.Evm.Known.{
  Keeps-refl, enqueue_one-Keeps, Scans, idle-Scans, bind-Scans, request-Scans, fetch-Scans,
  persist_state-Scans,
}

module _ {F : Type 0} (eth : Ethers F) (w : World F) (d : EthereumDetector F)
    (kind : ScanKind) where
  abbrev Holds : {A : Type 0} → Action F A → Type 0
  Holds a = Follows (Scans eth w kind) a

  chain :
      {A B : Type 0} (a : Action F A) (f : A → Action F B)
      → Holds a
      → ((x : A) → Holds (f x))
      → Holds (a >>= f)
  chain = bind-Scans eth w kind

  result : {A : Type 0} (r : Result A) → Holds (lift r)
  result = idle-Scans eth w kind

  read : {A : Type 0} (f : Machine F → A) → Holds (gets f)
  read f = record { at = λ m. Keeps-refl kind m.shared }

  tried : {A : Type 0} (a : Action F A) → Holds a → Holds (attempt a)
  tried a h = record { at = λ m. h.at m }

  pub full_block-Scans : (n : ℕ) → Holds (full_block eth w while_scanning n)
  unfolding full_block
  full_block-Scans n = fetch-Scans eth w kind (λ i. w.block_answer i n) (checked_block n)

  pub transaction_receipt-Scans : (hash : ℕ) → Holds (transaction_receipt eth w while_scanning hash)
  unfolding transaction_receipt
  transaction_receipt-Scans hash =
      fetch-Scans eth w kind (λ i. w.receipt_answer i hash)
        (checked_receipt eth w while_scanning hash)

  receipts_one_by_one-Scans :
      (txids : List ℕ) → Holds (receipts_one_by_one eth w while_scanning txids)
  unfolding receipts_one_by_one
  receipts_one_by_one-Scans [] = result (ok [])
  receipts_one_by_one-Scans (txid ∷ txids) = chain _ _ (transaction_receipt-Scans txid) λ receipt.
      chain _ _ (receipts_one_by_one-Scans txids) λ receipts. result (ok (receipt ∷ receipts))

  receipts_of_batch-Scans :
      (n : ℕ) (txids : List ℕ) (batch : Result (Option (List Receipt)))
      → Holds (receipts_of_batch eth w while_scanning n txids batch)
  unfolding receipts_of_batch
  receipts_of_batch-Scans n txids (ok none) = result (err _)
  receipts_of_batch-Scans n txids (ok (some receipts)) = result (ok receipts)
  receipts_of_batch-Scans n txids (err error) =
      Follows-if (should_fallback_to_receipts error) _ (raise error)
        (receipts_one_by_one-Scans txids) (result (err error))

  batch-Scans : (n : ℕ) → Holds (batch eth w while_scanning n)
  unfolding batch
  batch-Scans n = tried _ (request-Scans eth w kind (λ i. w.block_receipts_answer i n))

  receipts_of_block-Scans :
      (n hash : ℕ) (txids : List ℕ) → Holds (receipts_of_block eth w while_scanning n hash txids)
  unfolding receipts_of_block
  receipts_of_block-Scans n hash [] = result (ok [])
  receipts_of_block-Scans n hash (txid ∷ txids) = chain _ _ (batch-Scans n) λ answer.
      chain _ _ (receipts_of_batch-Scans n (txid ∷ txids) answer)
        λ receipts. result (checked_receipts eth w while_scanning n hash (txid ∷ txids) receipts)

  pub block_receipts-Scans : (n : ℕ) → Holds (block_receipts eth w while_scanning n)
  unfolding block_receipts
  block_receipts-Scans n =
      chain _ _ (fetch-Scans eth w kind (λ i. w.block_hashes_answer i n) (checked_hashes n))
        λ found. receipts_of_block-Scans n found.0 found.1

  pub check_native-Scans :
      (n hash : ℕ) (tx : EthTransaction) (o : Option (ℕ × EthereumReservation))
      → Holds (check_native eth w d n hash tx o)
  unfolding check_native check_receipt
  check_native-Scans n hash tx none = result (ok [])
  check_native-Scans n hash tx (some (to, r)) =
      chain (gets (λ m. is_known_event m.shared (native_event_id eth w d tx.hash to))) _ (read _)
        λ known.
          Follows-if known (pure []) (check_receipt eth w d n hash tx to r) (result (ok [])) (
            chain _ _ (transaction_receipt-Scans tx.hash) λ receipt.
              chain (lift (validate_receipt receipt tx.hash n hash)) _ (result _)
                λ u. chain (lift (receipt_succeeded receipt)) _ (result _) λ b. result (ok _))

  pub scan_transactions-Scans :
      (rs : Reservations) (n hash : ℕ) (txs : List EthTransaction)
      → Holds (scan_transactions eth w d rs n hash txs)
  unfolding scan_transactions
  scan_transactions-Scans rs n hash [] = result (ok [])
  scan_transactions-Scans rs n hash (tx ∷ txs) =
      chain _ _ (check_native-Scans n hash tx (native_candidate eth w d rs tx)) λ found.
        chain _ _ (scan_transactions-Scans rs n hash txs) λ later. result (ok (found ++ later))

  pub scan_native_blocks-Scans :
      (rs : Reservations) (left from : ℕ) → Holds (scan_native_blocks eth w d rs left from)
  unfolding scan_native_blocks
  scan_native_blocks-Scans rs zero from = result (ok [])
  scan_native_blocks-Scans rs (suc left) from = chain _ _ (full_block-Scans from) λ block.
      chain (lift (some_or _ block.hash)) _ (result _) λ hash.
        chain _ _ (scan_transactions-Scans rs from hash block.transactions) λ found.
          chain _ _ (scan_native_blocks-Scans rs left (from + 1))
            λ later. result (ok (found ++ later))

  logs_of_receipts-Scans : (rs : List Receipt) → Holds (logs_of_receipts eth w d rs)
  unfolding logs_of_receipts succeeded_logs
  logs_of_receipts-Scans [] = result (ok [])
  logs_of_receipts-Scans (r ∷ rs) =
      chain (succeeded_logs eth w d r) _
        (chain (lift (receipt_succeeded r)) _ (result _) λ b. result (ok _))
        λ logs. chain _ _ (logs_of_receipts-Scans rs) λ later. result (ok (logs ++ later))

  logs_of_blocks-Scans : (left from : ℕ) → Holds (logs_of_blocks eth w d left from)
  unfolding logs_of_blocks
  logs_of_blocks-Scans zero from = result (ok [])
  logs_of_blocks-Scans (suc left) from = chain _ _ (block_receipts-Scans from) λ receipts.
      chain _ _ (logs_of_receipts-Scans receipts) λ logs.
        chain _ _ (logs_of_blocks-Scans left (from + 1)) λ later. result (ok (logs ++ later))

  logs_or_fallback-Scans :
      (from to : ℕ) (answer : Result (List Log)) → Holds (logs_or_fallback eth w d from to answer)
  unfolding logs_or_fallback
  logs_or_fallback-Scans from to (ok logs) = result (ok logs)
  logs_or_fallback-Scans from to (err error) =
      Follows-if (should_fallback_to_receipts error) _ (raise error) (logs_of_blocks-Scans _ from)
        (result (err error))

  unknown_only-Scans : (o : Option DetectedEthereumPayment) → Holds (unknown_only eth w d o)
  unfolding unknown_only
  unknown_only-Scans none = result (ok [])
  unknown_only-Scans (some p) =
      chain (gets (λ m. is_known_event m.shared p.event_id)) _ (read _)
        λ known. result (ok (if known then [] else p ∷ []))

  scan_logs-Scans :
      (from to : ℕ) (rs : Reservations) (logs : List Log)
      → Holds (scan_logs eth w d from to rs logs)
  unfolding scan_logs
  scan_logs-Scans from to rs [] = result (ok [])
  scan_logs-Scans from to rs (log ∷ logs) =
      chain (lift (payment_from_log eth w d log from to rs)) _ (result _) λ payment.
        chain _ _ (unknown_only-Scans payment)
          λ found. chain _ _ (scan_logs-Scans from to rs logs) λ later. result (ok (found ++ later))

  scan_erc20_logs-Scans :
      (rs : Reservations) (from to : ℕ) → Holds (scan_erc20_logs eth w d rs from to)
  unfolding scan_erc20_logs
  scan_erc20_logs-Scans rs from to =
      Follows-if (is_nil rs || is_nil d.tokens) (pure []) _ (result (ok [])) (
        chain _ _ (tried _ (request-Scans eth w kind (λ i. w.logs_answer i from to)))
          λ answer. chain _ _ (logs_or_fallback-Scans from to answer) (scan_logs-Scans from to rs))

  scan_internals-Scans :
      (a : ℕ) (r : EthereumReservation) (txs : List InternalTx)
      → Holds (scan_internals eth w d a r txs)
  unfolding scan_internals
  scan_internals-Scans a r [] = result (ok [])
  scan_internals-Scans a r (tx ∷ txs) =
      chain _ _
        (Follows-if (is_incoming eth w d a tx) _ (pure []) (unknown_only-Scans (some _))
          (result (ok [])))
        λ found. chain _ _ (scan_internals-Scans a r txs) λ later. result (ok (found ++ later))

  account_answer-Scans :
      (a : ℕ) (r : EthereumReservation) (found : Found eth w d) (answer : Result (List InternalTx))
      → Holds (account_answer eth w d a r found answer)
  unfolding account_answer
  account_answer-Scans a r (ds, e) (err error) = result (ok _)
  account_answer-Scans a r (ds, e) (ok txs) =
      chain _ _ (scan_internals-Scans a r txs) λ found. result (ok _)

  scan_accounts-Scans :
      (from to : ℕ) (found : Found eth w d) (rs : Reservations)
      → Holds (scan_accounts eth w d from to found rs)
  unfolding scan_accounts
  scan_accounts-Scans from to found [] = result (ok found)
  scan_accounts-Scans from to found ((a, r) ∷ rs) =
      chain _ _ (tried _ (request-Scans eth w kind (λ i. w.internals_answer i a from to))) λ answer.
        chain _ _ (account_answer-Scans a r found answer)
          (λ next. scan_accounts-Scans from to next rs)

  pub emit-Scans : (p : DetectedEthereumPayment) → Holds (emit_detected_and_enqueue eth w p)
  unfolding emit_detected_and_enqueue
  emit-Scans p = chain (gets (λ m. is_known_event m.shared p.event_id)) _ (read _) λ known.
      Follows-if known (pure tt) _ (result (ok tt)) (
        chain (modify_shared (enqueue_one eth p)) (λ _. persist_state eth w)
          (record { at = λ m. enqueue_one-Keeps eth kind p m.shared })
          (λ _. persist_state-Scans eth w kind))

  pub emit_all-Scans : (ps : List DetectedEthereumPayment) → Holds (emit_all eth w d ps)
  unfolding emit_all
  emit_all-Scans [] = result (ok tt)
  emit_all-Scans (p ∷ ps) = chain _ _ (emit-Scans p) λ _. emit_all-Scans ps

  internals_found-Scans : (found : Found eth w d) → Holds (internals_found eth w d found)
  unfolding internals_found
  internals_found-Scans (ds, none) = result (ok ds)
  internals_found-Scans (ds, some error) = chain _ _ (emit_all-Scans ds) λ _. result (err error)

  scan_internal_calls-Scans :
      (rs : Reservations) (from to : ℕ) → Holds (scan_internal_calls eth w d rs from to)
  unfolding scan_internal_calls
  scan_internal_calls-Scans rs from to =
      Follows-if (not d.config.has_etherscan || is_nil rs) (pure []) _ (result (ok []))
        (chain _ _ (scan_accounts-Scans from to ([], none) rs) internals_found-Scans)

  pub detect-Scans :
      (k : ScanKind) (rs : Reservations) (from to : ℕ) → Holds (detect eth w d k rs from to)
  unfolding detect scan_native_eth
  detect-Scans native rs from to = scan_native_blocks-Scans rs _ from
  detect-Scans erc20 rs from to = scan_erc20_logs-Scans rs from to
  detect-Scans internal rs from to = scan_internal_calls-Scans rs from to
